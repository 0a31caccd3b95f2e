-- ===== src/Invoicemap/Mapper.antt =====
-- internal/invoicemap/mapping.go, MapInvoice. A time is its Unix seconds.
pub mod Success
pub mod Total
use go_stripenav.Base.{
  ℕ, zero, suc, ◌+◌, ◌*◌, ◌⊎◌, inl, inr, true, false, not, Option, none, some, List, [], ◌++◌, ltb,
  ◌==◌, if◌then◌else◌, length, Bytes, str, str_eq,
}
use go_stripenav.Base.Ascii.{to_upper}
use go_stripenav.Base.Int.{ℤ, pos, negsuc}
use go_stripenav.Base.Results.{◌>>=◌, ◌>>◌, guard}
use go_stripenav.Schemas.{
  InvoiceData, InvoiceMain, Invoice, InvoiceReference, InvoiceHead, InvoiceDetail, InvoiceLines,
  SupplierInfo, Line,
}
use go_stripenav.Storno.{StripeInvoice, LineList}
use go_stripenav.Invoicemap.Rational.{Rat, one_rat}
use go_stripenav.Invoicemap.Currency.{float_string}
use go_stripenav.Invoicemap.Options.{
  refers_back, MapOptions, MappingError, new_mapping_error, validate_options, issue_date,
  build_supplier,
}
use go_stripenav.Invoicemap.Customer.{build_customer}
use go_stripenav.Invoicemap.Lines.{RateTotals, InvoiceTotals}
use go_stripenav.Invoicemap.Build.{code_invoice_lines_empty, build_lines, build_summary}

-- What MapInvoice takes from elsewhere: Stripe's constant for a tax that is included in the line's
-- amount, `(*big.Rat).SetString`, `fmt`'s `%q`, and the date of a Unix time in UTC in the
-- layout 2006-01-02.
pub record Library : Type 0 where
  pub inclusive_tax : Bytes
  pub set_string : Bytes → Option Rat
  pub quoted : Bytes → Bytes
  pub civil_date : ℕ → Bytes

abbrev pub code_invoice_number_missing : Bytes
code_invoice_number_missing = str "INVOICE_NUMBER_MISSING"

abbrev pub code_issue_date_missing : Bytes
code_issue_date_missing = str "ISSUE_DATE_MISSING"

abbrev pub code_invoice_lines_truncated : Bytes
code_invoice_lines_truncated = str "INVOICE_LINES_TRUNCATED"

abbrev pub code_unsupported_currency : Bytes
code_unsupported_currency = str "UNSUPPORTED_CURRENCY"

abbrev pub code_missing_exchange_rate : Bytes
code_missing_exchange_rate = str "MISSING_EXCHANGE_RATE_FOR_NON_HUF_INVOICE"

module _ (lib : Library) where
  open lib use {inclusive_tax, set_string, quoted, civil_date}

  -- The calendar date at UTC+2, all year.
  abbrev pub local_date : ℕ → Bytes
  local_date t = civil_date (t + 2 * 60 * 60)

  unfoldable pub parse_rate : Bytes → Rat ⊎ Bytes
  parse_rate s = elim (set_string s) [
    | some r ↦ inl r
    | none ↦ inr (str "mapping: cannot parse exchange rate " ++ quoted s)
  ]

  unfoldable pub check_issued : Option ℕ → ℕ ⊎ MappingError
  check_issued (some t) = inl t
  check_issued none =
      inr
        (new_mapping_error code_issue_date_missing (str "invoice.status_transitions.finalized_at"))

  unfoldable pub check_lines : Option LineList → LineList ⊎ MappingError
  check_lines none = inr (new_mapping_error code_invoice_lines_empty (str "invoice.lines"))
  check_lines (some list) =
      if length list.items == 0
      then inr (new_mapping_error code_invoice_lines_empty (str "invoice.lines"))
      else if list.has_more
      then inr (new_mapping_error code_invoice_lines_truncated (str "invoice.lines.has_more"))
      else inl list

  unfoldable pub exchange_rate_of : Bytes → MapOptions → Rat ⊎ MappingError
  unfolding parse_rate
  exchange_rate_of currency opts =
      if str_eq currency (str "HUF")
      then inl one_rat
      else if str_eq opts.exchange_rate_to_huf []
      then inr (new_mapping_error code_missing_exchange_rate (str "MapOptions.ExchangeRateToHUF"))
      else elim (parse_rate opts.exchange_rate_to_huf) [
        | inl r ↦ inl r
        | inr t ↦ inr (record {
          code = code_missing_exchange_rate;
          field = str "MapOptions.ExchangeRateToHUF";
          cause = some t;
        })
      ]

  -- `if originalLineCount <= 0`.
  abbrev pub original_lines : ℤ → LineList → ℕ
  original_lines (pos zero) list = length list.items
  original_lines (pos (suc n)) list = suc n
  original_lines (negsuc n) list = length list.items

  -- `inv.PeriodStart > 0 && inv.PeriodEnd > inv.PeriodStart`, with the two times.
  abbrev pub period_of : ℤ → ℤ → Option (ℕ × ℕ)
  period_of (pos (suc a)) (pos b) = if ltb (suc a) b then some (suc a, b) else none
  period_of _ _ = none

  -- The `switch` on the payment date.
  abbrev pub payment_date_of : ℤ → Bytes → ℕ → Bytes
  payment_date_of (pos (suc t)) method issued = local_date (suc t)
  payment_date_of _ method issued = if str_eq method (str "CARD") then local_date issued else []

  unfoldable pub detail_of : StripeInvoice → MapOptions → Bytes → Rat → ℕ → InvoiceDetail
  detail_of inv opts currency rate issued =
      let period = period_of inv.period_start inv.period_end in
      record {
        invoice_category = str "NORMAL";
        invoice_delivery_date = local_date issued;
        invoice_delivery_period_start = elim period [ none ↦ [] | some p ↦ local_date p.0 ];
        invoice_delivery_period_end = elim period [ none ↦ [] | some p ↦ local_date p.1 ];
        periodical_settlement = elim period [ none ↦ none | some p ↦ some true ];
        currency_code = currency;
        exchange_rate = float_string 6 rate;
        payment_method = opts.payment_method;
        payment_date = payment_date_of inv.due_date opts.payment_method issued;
        invoice_appearance = opts.invoice_appearance;
      }

  unfoldable pub reference_of : MapOptions → Option InvoiceReference
  reference_of opts =
      if refers_back opts.operation
      then some (record {
        original_invoice_number = opts.original_invoice_number;
        modify_without_master = false;
        modification_index = opts.modification_index;
      })
      else none

  -- The document, of what was checked and built.
  unfoldable pub document_of :
      StripeInvoice
      → MapOptions
      → Bytes
      → Rat
      → ℕ
      → SupplierInfo
      → List Line × List RateTotals × InvoiceTotals
      → InvoiceData
  unfolding detail_of reference_of
  document_of inv opts currency rate issued supplier (lines, by_rate, totals) = record {
    invoice_number = inv.number;
    invoice_issue_date = local_date issued;
    completeness_indicator = false;
    invoice_main = record {
      invoice = record {
        invoice_reference = reference_of opts;
        invoice_head = record {
          supplier_info = supplier;
          customer_info = some (build_customer inv);
          invoice_detail = detail_of inv opts currency rate issued;
        };
        invoice_lines = record { merged_item_indicator = false; lines = lines };
        invoice_summary = build_summary set_string currency by_rate totals;
      };
    };
  }

  -- MapInvoice of an invoice that is not nil.
  unfoldable pub map_invoice : StripeInvoice → MapOptions → InvoiceData ⊎ MappingError
  unfolding check_issued check_lines exchange_rate_of document_of
  map_invoice inv given = do
    opts ← validate_options quoted given
    guard (not (str_eq inv.number []))
        (new_mapping_error code_invoice_number_missing (str "invoice.number"))
    issued ← check_issued (issue_date inv)
    list ← check_lines inv.lines
    let currency = to_upper inv.currency
    guard (not (str_eq currency []))
        (new_mapping_error code_unsupported_currency (str "invoice.currency"))
    rate ← exchange_rate_of currency opts
    supplier ← build_supplier opts.supplier
    built ←
        build_lines inclusive_tax set_string currency rate opts.operation
          (original_lines opts.original_line_count list) list.items
    inl (document_of inv opts currency rate issued supplier built)
