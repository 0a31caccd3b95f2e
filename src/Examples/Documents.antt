-- ===== src/Examples/Documents.antt =====
-- Concrete runs of the theorems about documents and amounts.
use go_stripenav.Base.{
  ◌+◌, ◌*◌, ◌≤◌, ◌<◌, ◌≡◌, ◌↔◌, true, false, ◌||◌, some, [], ◌∷◌, arith, all, any, str, inl, inr,
  ◌⊎◌,
}
use go_stripenav.Base.Int.{pos, negsuc}
use go_stripenav.Schemas.{TaxNumberType}
use go_stripenav.Invoicemap.Rational.{Rat}
use go_stripenav.Invoicemap.Currency.{round_size}
use go_stripenav.Invoicemap.Rounding.{round_size_nearest}
use go_stripenav.Invoicemap.Tax.{TaxIdLike, classify_customer, split_hungarian_tax_number}
use go_stripenav.Invoicemap.Tax.Numbers.{
  is_tax_byte, tax_number_body, only_digits, IsParted, split_hungarian_tax_number_lem,
}
use go_stripenav.Invoicemap.Tax.Category.{
  is_hungarian, is_eu, is_third, category, classify_customer-status,
}
use go_stripenav.Invoicemap.Options.{Supplier, MapOptions, MappingError, validate_options}
use go_stripenav.Invoicemap.Options.Checked.{acceptable, completed, validate_options_lem}

round_size_nearest_example :
    (2 * (2 * round_size 7 2) ≤ 2 * 7 + 2) × (2 * 7 < 2 * (2 * round_size 7 2) + 2)
round_size_nearest_example = round_size_nearest 7 2 (omega arith)

abbrev half : Rat
half = record { num = pos 7; den = 2 }

abbrev american : TaxIdLike
american = record { type = str "us_ein"; value = str "12-3456789" }

abbrev hungarian_id : TaxIdLike
hungarian_id = record { type = str "hu_tin"; value = str "12345678-2-42" }

classify_customer-status_example :
    (classify_customer (american ∷ hungarian_id ∷ []) false).0
    ≡ category (any is_hungarian (american ∷ hungarian_id ∷ [])) (
        any is_eu (american ∷ hungarian_id ∷ [])
        || (any is_third (american ∷ hungarian_id ∷ []) || false))
classify_customer-status_example = classify_customer-status (american ∷ hungarian_id ∷ []) false

abbrev number : TaxNumberType
number = record { taxpayer_id = str "12345678"; vat_code = str "2"; county_code = str "42" }

split_hungarian_tax_number_lem_example :
    (split_hungarian_tax_number (str " hu12345678-2-42") ≡ some number) ↔ (
      (all is_tax_byte (tax_number_body (str " hu12345678-2-42")) ≡ true)
      × IsParted number (only_digits (tax_number_body (str " hu12345678-2-42"))))
split_hungarian_tax_number_lem_example =
    split_hungarian_tax_number_lem (str " hu12345678-2-42") number

abbrev pub supplier : Supplier
supplier = record {
  tax_number = str "12345678-2-42";
  name = str "Kft";
  address = record {
    country_code = str "HU";
    region = [];
    postal_code = str "1011";
    city = str "Budapest";
    additional_detail = str "1";
  };
  bank_account = [];
}

abbrev options : MapOptions
options = record {
  supplier = supplier;
  operation = str "STORNO";
  original_invoice_number = str "A-1";
  modification_index = negsuc 0;
  exchange_rate_to_huf = str "400";
  invoice_appearance = [];
  payment_method = [];
  original_line_count = pos 2;
}

validate_options_lem_example :
    ((acceptable options ≡ true) × (validate_options (λ s. s) options ≡ inl (completed options)))
    ⊎ ((acceptable options ≡ false)
        × ((e : MappingError) × (validate_options (λ s. s) options ≡ inr e)))
validate_options_lem_example = validate_options_lem (λ s. s) options
