-- ===== src/Examples/Mapping.antt =====
-- Concrete runs of the theorems about the mapper.
use go_stripenav.Base.{
  ℕ, ◌+◌, ◌-◌, ◌*◌, ◌≡◌, refl, ◌⊎◌, inl, inr, Bool, true, false, Option, none, some, List, [], ◌∷◌,
  ◌==◌, if◌then◌else◌, drop, head?, Bytes, str, str_eq,
}
use go_stripenav.Base.Ascii.{is_digit, to_lower}
use go_stripenav.Base.Decimal.{utoa}
use go_stripenav.Base.Int.{pos, negsuc, signed, ◌+ℤ◌}
use go_stripenav.Base.Results.{SucceedsIf}
use go_stripenav.Schemas.{Line}
use go_stripenav.Storno.{StripeInvoice}
use go_stripenav.Invoicemap.Rational.{Rat}
use go_stripenav.Invoicemap.Currency.{
  round_size, round_to_int, int_text, fixed_digits, float_string, format_amount, format_huf,
  is_zero_decimal,
}
use go_stripenav.Invoicemap.Options.{MapOptions, MappingError}
use go_stripenav.Invoicemap.Lines.Sums.{IsSummed, build_totals-IsSummed}
use go_stripenav.Invoicemap.Lines.{build_totals, RateTotals, InvoiceTotals}
use go_stripenav.Invoicemap.Build.{build_lines}
use go_stripenav.Invoicemap.Build.Ascending.{Documented, build_lines-Documented}
use go_stripenav.Invoicemap.Reconcile.{reconciled_net_vat_gross, reconciled_net_vat_gross_huf}
use go_stripenav.Invoicemap.Reconcile.Exact.{
  units, units_text, ReadsUnits, ReadsHuf, reconciled-exact,
}
use go_stripenav.Invoicemap.Mapper.{Library, map_invoice}
use go_stripenav.Invoicemap.Mapper.Total.{is_mappable, map_invoice-SucceedsIf}
use go_stripenav.Examples.Client.{invoice, lines, rate}
use go_stripenav.Examples.Documents.{supplier}

-- A reader of decimal texts.
unfoldable pub read_digits : Bytes → Bool → ℕ → ℕ → Option (ℕ × ℕ)
read_digits [] point n d = some (n, d)
read_digits (c ∷ s) point n d =
    let whole_part = read_digits s true n d in
    let digit = read_digits s point (10 * n + (c - b'0')) (if point then 10 * d else d) in
    if c == b'.' then whole_part else if is_digit c then digit else none

unfoldable pub decimal : Bytes → Option Rat
unfolding read_digits
decimal s =
    let minus : Bool = elim (head? s) [ none ↦ false | some c ↦ c == b'-' ] in
    elim (read_digits (if minus then drop 1 s else s) false 0 1) [
      | none ↦ none
      | some (n, d) ↦ some (record { num = signed minus n; den = d })
    ]

abbrev pub library : Library
library = record {
  inclusive_tax = str "inclusive";
  set_string = decimal;
  quoted = λ s. s;
  civil_date = utoa;
}

abbrev pub whole_invoice : StripeInvoice
whole_invoice = record invoice { lines = some (record { has_more = false; items = lines }) }

abbrev options : MapOptions
options = record {
  supplier = supplier;
  operation = str "STORNO";
  original_invoice_number = str "A-1";
  modification_index = pos 0;
  exchange_rate_to_huf = str "395.42";
  invoice_appearance = [];
  payment_method = [];
  original_line_count = pos 2;
}

map_invoice-SucceedsIf_example :
    SucceedsIf
      (is_mappable library whole_invoice options)
      (map_invoice library whole_invoice options)
map_invoice-SucceedsIf_example = map_invoice-SucceedsIf library whole_invoice options

build_lines-Documented_example :
    ((built : List Line × List RateTotals × InvoiceTotals) × (build_lines
          (str "inclusive")
          decimal
          (str "EUR")
          rate
          (str "STORNO")
          2
          lines
        ≡ inl built)
      × Documented decimal (str "EUR") (str "inclusive") rate (str "STORNO") 2 lines built)
    ⊎ ((e : MappingError) × (build_lines
            (str "inclusive")
            decimal
            (str "EUR")
            rate
            (str "STORNO")
            2
            lines
          ≡ inr e))
build_lines-Documented_example =
    build_lines-Documented decimal (str "EUR") (str "inclusive") rate (str "STORNO") 2 lines

-- 10.00 and 2.705 of a currency with cents, and what they are in HUF.
abbrev net : Rat
net = record { num = pos 1000; den = 100 }

abbrev vat : Rat
vat = record { num = negsuc 2704; den = 1000 }

reads_net : ReadsUnits decimal (str "EUR") net
unfolding decimal read_digits format_amount float_string round_size round_to_int utoa fixed_digits
    is_zero_decimal to_lower str_eq
reads_net = refl

reads_vat : ReadsUnits decimal (str "EUR") vat
unfolding decimal read_digits format_amount float_string round_size round_to_int utoa fixed_digits
    is_zero_decimal to_lower str_eq
reads_vat = refl

reads_net_huf : ReadsHuf decimal net
unfolding decimal read_digits format_huf int_text round_size round_to_int utoa
reads_net_huf = refl

reads_vat_huf : ReadsHuf decimal vat
unfolding decimal read_digits format_huf int_text round_size round_to_int utoa
reads_vat_huf = refl

reconciled-exact_example :
    ((reconciled_net_vat_gross decimal net vat (str "EUR")).gross_text
      ≡ units_text (str "EUR") (units (str "EUR") net +ℤ units (str "EUR") vat))
    × ((reconciled_net_vat_gross_huf decimal net vat).gross_text
        ≡ int_text (round_to_int net +ℤ round_to_int vat))
reconciled-exact_example =
    reconciled-exact decimal (str "EUR") net vat net vat reads_net reads_vat reads_net_huf
      reads_vat_huf

build_totals-IsSummed_example :
    IsSummed
      (build_totals (str "inclusive") (str "EUR") rate lines).0
      (build_totals (str "inclusive") (str "EUR") rate lines).1
build_totals-IsSummed_example = build_totals-IsSummed (str "inclusive") (str "EUR") rate lines
