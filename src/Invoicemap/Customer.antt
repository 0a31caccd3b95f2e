-- ===== src/Invoicemap/Customer.antt =====
-- internal/invoicemap/mapping.go, buildCustomer.
use go_stripenav.Base.{
  Bool, not, ◌&&◌, ◌||◌, Option, none, some, List, [], ◌∷◌, ◌++◌, ltb, if◌then◌else◌, length, Bytes,
  str, str_eq,
}
use go_stripenav.Base.Ascii.{trim_space}
use go_stripenav.Schemas.{Address, CustomerInfo, CustomerVatData}
use go_stripenav.Storno.{StripeInvoice, StripeAddress, CustomerTaxId}
use go_stripenav.Invoicemap.Tax.{TaxIdLike, customer_private_person, classify_customer}
use go_stripenav.Invoicemap.Options.{looks_like_business}

-- The loop over the customer's tax ids.
unfoldable pub tax_ids_of : List (Option CustomerTaxId) → List TaxIdLike
tax_ids_of [] = []
tax_ids_of (none ∷ ts) = tax_ids_of ts
tax_ids_of (some t ∷ ts) = elim t.type [
  | none ↦ tax_ids_of ts
  | some kind ↦ record { type = kind; value = t.value } ∷ tax_ids_of ts
]

unfoldable pub has_business_name : Bytes → List TaxIdLike → Bool
has_business_name name ids =
    not (str_eq name []) && (ltb 0 (length ids) || looks_like_business name)

-- `strings.TrimSpace(strings.Join(…, " "))`.
abbrev pub street : StripeAddress → Bytes
street a = trim_space (a.line1 ++ str " " ++ a.line2)

unfoldable pub customer_address_of : Option StripeAddress → Option Address
customer_address_of none = none
customer_address_of (some a) =
    if not (str_eq (street a) [])
    then some (record {
      simple = some (record {
        country_code = a.country;
        region = [];
        postal_code = a.postal_code;
        city = a.city;
        additional_address = street a;
      });
      detailed = none;
    })
    else none

-- The customer's block, by the result of classifyCustomer.
unfoldable pub customer_info : Bytes → Option CustomerVatData → StripeInvoice → CustomerInfo
unfolding customer_address_of
customer_info status vat_data inv =
    if str_eq status customer_private_person
    then record {
      customer_vat_status = status;
      customer_vat_data = vat_data;
      customer_name = [];
      customer_address = none;
      customer_bank = [];
    }
    else record {
      customer_vat_status = status;
      customer_vat_data = vat_data;
      customer_name = inv.customer_name;
      customer_address = customer_address_of inv.customer_address;
      customer_bank = [];
    }

unfoldable pub build_customer : StripeInvoice → CustomerInfo
unfolding customer_info
build_customer inv =
    let ids = tax_ids_of inv.customer_tax_ids in
    let found = classify_customer ids (has_business_name inv.customer_name ids) in
    customer_info found.0 found.1 inv
