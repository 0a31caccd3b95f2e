-- ===== src/Invoicemap/Options.antt =====
-- internal/invoicemap/mapping.go and errors.go: the options of MapInvoice, their checks, the issue
-- date and the supplier. A time is its Unix seconds, and `none` the zero time.
pub mod Checked
use go_stripenav.Base.{
  ℕ, zero, suc, ◌+◌, ◌⊎◌, inl, inr, Bool, not, ◌||◌, Option, none, some, List, [], ◌∷◌, ◌++◌,
  if◌then◌else◌, any, Bytes, str, str_eq,
}
use go_stripenav.Base.Ascii.{to_lower, has_suffix, trim_space}
use go_stripenav.Base.Int.{ℤ, pos, negsuc}
use go_stripenav.Schemas.{SimpleAddress, Address, SupplierInfo}
use go_stripenav.Storno.{StripeInvoice}
use go_stripenav.Invoicemap.Tax.{split_hungarian_tax_number}

pub record SupplierAddress : Type 0 where
  pub country_code : Bytes
  pub region : Bytes
  pub postal_code : Bytes
  pub city : Bytes
  pub additional_detail : Bytes

pub record Supplier : Type 0 where
  pub tax_number : Bytes
  pub name : Bytes
  pub address : SupplierAddress
  pub bank_account : Bytes

pub record MapOptions : Type 0 where
  pub supplier : Supplier
  pub operation : Bytes
  pub original_invoice_number : Bytes
  pub modification_index : ℤ
  pub exchange_rate_to_huf : Bytes
  pub invoice_appearance : Bytes
  pub payment_method : Bytes
  pub original_line_count : ℤ

-- The codes of a MappingError that these checks return, with the field that is named.
pub record MappingError : Type 0 where
  pub code : Bytes
  pub field : Bytes
  pub cause : Option Bytes

unfoldable pub mapping_error_text : MappingError → Bytes
mapping_error_text e =
    if not (str_eq e.field [])
    then elim e.cause [
      | some cause ↦ str "mapping: " ++ e.code ++ str " at " ++ e.field ++ str ": " ++ cause
      | none ↦ str "mapping: " ++ e.code ++ str " at " ++ e.field
    ]
    else elim e.cause [
      | some cause ↦ str "mapping: " ++ e.code ++ str ": " ++ cause
      | none ↦ str "mapping: " ++ e.code
    ]

abbrev pub new_mapping_error : Bytes → Bytes → MappingError
new_mapping_error c f = record { code = c; field = f; cause = none }

abbrev pub op_create : Bytes
op_create = str "CREATE"

abbrev pub op_modify : Bytes
op_modify = str "MODIFY"

abbrev pub op_storno : Bytes
op_storno = str "STORNO"

-- A document that modifies another one.
abbrev pub refers_back : Bytes → Bool
refers_back op = str_eq op op_modify || str_eq op op_storno

abbrev pub code_supplier_tax_number_required : Bytes
code_supplier_tax_number_required = str "SUPPLIER_TAX_NUMBER_REQUIRED"

abbrev pub code_supplier_address_required : Bytes
code_supplier_address_required = str "SUPPLIER_ADDRESS_REQUIRED"

abbrev pub code_unknown_operation : Bytes
code_unknown_operation = str "UNKNOWN_OPERATION"

abbrev pub code_modification_missing_origin : Bytes
code_modification_missing_origin = str "MODIFICATION_MISSING_ORIGINAL_INVOICE"

-- `if s == "" { s = d }`.
abbrev pub or_else : Bytes → Bytes → Bytes
or_else s d = if str_eq s [] then d else s

-- `if i <= 0 { i = 1 }`.
abbrev pub at_least_one : ℤ → ℤ
at_least_one (pos zero) = pos 1
at_least_one (pos (suc n)) = pos (suc n)
at_least_one (negsuc n) = pos 1

-- The end of validateOptions: the defaults and the supplier.
unfoldable pub with_defaults : MapOptions → MapOptions ⊎ MappingError
with_defaults o =
    if str_eq o.supplier.tax_number []
    then inr
        (new_mapping_error code_supplier_tax_number_required (str "MapOptions.Supplier.TaxNumber"))
    else inl (record o {
      invoice_appearance = or_else o.invoice_appearance (str "ELECTRONIC");
      payment_method = or_else o.payment_method (str "CARD");
    })

-- The switch on the operation; `quote` is `fmt`'s `%q`.
unfoldable pub by_operation : (Bytes → Bytes) → Bytes → MapOptions → MapOptions ⊎ MappingError
unfolding with_defaults
by_operation quote op o =
    if str_eq op op_create
    then with_defaults (record o { operation = op })
    else if str_eq op op_modify || str_eq op op_storno
    then if str_eq o.original_invoice_number []
      then inr (
          new_mapping_error code_modification_missing_origin
            (str "MapOptions.OriginalInvoiceNumber"))
      else with_defaults
          (record o { operation = op; modification_index = at_least_one o.modification_index })
    else inr (new_mapping_error code_unknown_operation (str "MapOptions.Operation=" ++ quote op))

unfoldable pub validate_options : (Bytes → Bytes) → MapOptions → MapOptions ⊎ MappingError
unfolding by_operation
validate_options quote o = by_operation quote (or_else o.operation op_create) o

-- A positive time, if it is one.
abbrev pub positive : ℤ → Option ℕ
positive (pos zero) = none
positive (pos (suc n)) = some (suc n)
positive (negsuc n) = none

abbrev pub first_of : Option ℕ → Option ℕ → Option ℕ
first_of (some t) later = some t
first_of none later = later

unfoldable pub issue_date : StripeInvoice → Option ℕ
issue_date inv =
    first_of (elim inv.finalized_at [ some t ↦ positive t | none ↦ none ])
      (first_of (positive inv.effective_at) (positive inv.created))

unfoldable pub address_to_schema : SupplierAddress → Address
address_to_schema a = record {
  simple = some (record {
    country_code = a.country_code;
    region = a.region;
    postal_code = a.postal_code;
    city = a.city;
    additional_address = a.additional_detail;
  });
  detailed = none;
}

unfoldable pub build_supplier : Supplier → SupplierInfo ⊎ MappingError
unfolding address_to_schema
build_supplier s = elim (split_hungarian_tax_number s.tax_number) [
  | none ↦ inr (new_mapping_error code_supplier_tax_number_required (str "Supplier.TaxNumber"))
  | some tn ↦
      if str_eq (trim_space s.address.additional_detail) []
      then inr (
          new_mapping_error code_supplier_address_required
            (str "Supplier.Address.AdditionalDetail"))
      else inl (record {
        supplier_tax_number = tn;
        supplier_name = s.name;
        supplier_address = address_to_schema s.address;
        supplier_bank = s.bank_account;
      })
]

abbrev pub business_suffixes : List Bytes
business_suffixes =
    str " kft."
    ∷ str " kft"
    ∷ str " zrt."
    ∷ str " zrt"
    ∷ str " nyrt."
    ∷ str " nyrt"
    ∷ str " bt."
    ∷ str " bt"
    ∷ str " kkt."
    ∷ str " kkt"
    ∷ str " gmbh"
    ∷ str " ag"
    ∷ str " sa"
    ∷ str " s.a."
    ∷ str " sas"
    ∷ str " s.r.l."
    ∷ str " srl"
    ∷ str " inc"
    ∷ str " ltd"
    ∷ str " llc"
    ∷ str " corp"
    ∷ str " co"
    ∷ str " co."
    ∷ str " plc"
    ∷ []

unfoldable pub looks_like_business : Bytes → Bool
looks_like_business name = any (has_suffix (to_lower name)) business_suffixes
