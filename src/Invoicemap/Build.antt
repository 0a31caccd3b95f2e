-- ===== src/Invoicemap/Build.antt =====
-- internal/invoicemap/mapping.go, buildLines and buildSummary. Go's map by rate is a list of
-- entries, each under its own key; a summary takes them in the order of the keys.
pub mod Positions
pub mod Ascending
use go_stripenav.Base.{
  ℕ, zero, suc, ◌+◌, ◌⊎◌, inl, inr, Bool, true, false, ◌&&◌, Option, none, some, List, [], ◌∷◌,
  ◌++◌, map, ltb, ◌==◌, if◌then◌else◌, Bytes, str,
}
use go_stripenav.Base.Decimal.{utoa}
use go_stripenav.Base.Int.{ℤ, pos, negsuc}
use go_stripenav.Schemas.{
  Line, LineModificationReference, LineAmounts, LineNetAmount, LineVatAmount, LineGrossAmount,
  LineVatRate, InvoiceSummary, SummaryNormal, SummaryByVatRate, VatRateNetData, VatRateVatData,
  VatRateGrossData, SummaryGrossData,
}
use go_stripenav.Storno.{LineItem}
use go_stripenav.Invoicemap.Rational.{Rat, quo}
use go_stripenav.Invoicemap.Currency.{float_string, format_amount, format_huf}
use go_stripenav.Invoicemap.Options.{
  refers_back, or_else, at_least_one, MappingError, new_mapping_error,
}
use go_stripenav.Invoicemap.Lines.{
  RateTotals, InvoiceTotals, Figures, new_invoice_totals, line_figures, add_to_totals, add_to_rate,
}
use go_stripenav.Invoicemap.Reconcile.{
  Printed, reconciled_net_vat_gross, reconciled_net_vat_gross_huf,
}

abbrev pub code_invoice_lines_empty : Bytes
code_invoice_lines_empty = str "INVOICE_LINES_EMPTY"

-- `maxInt64(1, q)`, which is never negative.
abbrev pub max_one : ℤ → ℕ
max_one (pos zero) = 1
max_one (pos (suc n)) = suc n
max_one (negsuc n) = 1

abbrev pub percentage : Bytes → LineVatRate
percentage text = record {
  vat_percentage = text;
  vat_content = [];
  vat_exemption = none;
  vat_out_of_scope = none;
  no_vat_charge = false;
}

unfoldable pub line_reference : Bytes → ℕ → ℕ → Option LineModificationReference
line_reference op original_line_count idx =
    if refers_back op
    then some (record {
      line_number_reference = original_line_count + idx + 1;
      line_operation = str "CREATE";
    })
    else none

module _ (inclusive_tax : Bytes) (set_string : Bytes → Option Rat) (currency : Bytes)
    (rate : Rat) where
  abbrev pub quantity_rat : ℤ → Rat
  quantity_rat q = record { num = pos (max_one q); den = 1 }

  -- The line of a document, from the figures of Stripe's line.
  unfoldable pub line_of : Bytes → ℕ → ℕ → LineItem → Figures → Line
  unfolding line_reference
  line_of op original_line_count idx l f =
      let fc = reconciled_net_vat_gross set_string f.net f.vat currency in
      let huf = reconciled_net_vat_gross_huf set_string f.net_in_huf f.vat_in_huf in
      record {
        line_number = idx + 1;
        line_modification_reference = line_reference op original_line_count idx;
        line_expression_indicator = false;
        line_nature_indicator = str "SERVICE";
        line_description = or_else l.description (str "Item " ++ utoa (idx + 1));
        quantity = utoa (max_one l.quantity);
        unit_of_measure = str "PIECE";
        unit_of_measure_own = [];
        unit_price = format_amount (quo f.net (quantity_rat l.quantity)) currency;
        unit_price_huf = format_huf (quo f.net_in_huf (quantity_rat l.quantity));
        line_amounts_normal = some (record {
          line_net_amount_data = record {
            line_net_amount = fc.net_text;
            line_net_amount_huf = huf.net_text;
          };
          line_vat_rate = percentage (float_string 2 f.rate_pct);
          line_vat_data =
              some (record { line_vat_amount = fc.vat_text; line_vat_amount_huf = huf.vat_text });
          line_gross_amount_data = some (record {
            line_gross_amount_normal = fc.gross_text;
            line_gross_amount_normal_huf = huf.gross_text;
          });
        });
        line_amounts_simplified = none;
      }

  -- The loop, with the index, `byRate` and `totals`.
  unfoldable pub lines_loop :
      Bytes
      → ℕ
      → ℕ
      → List (Option LineItem)
      → List RateTotals
      → InvoiceTotals
      → List Line × List RateTotals × InvoiceTotals
  unfolding line_of
  lines_loop op count idx [] by_rate totals = ([], by_rate, totals)
  lines_loop op count idx (none ∷ ls) by_rate totals =
      lines_loop op count (suc idx) ls by_rate totals
  lines_loop op count idx (some l ∷ ls) by_rate totals =
      let f = line_figures inclusive_tax currency rate l in
      let rest =
        lines_loop op count (suc idx) ls
          (add_to_rate inclusive_tax currency rate (float_string 2 f.rate_pct) f by_rate)
          (add_to_totals inclusive_tax currency rate f totals) in
      (line_of op count idx l f ∷ rest.0, rest.1, rest.2)

  unfoldable pub some_lines :
      List Line × List RateTotals × InvoiceTotals
      → (List Line × List RateTotals × InvoiceTotals) ⊎ MappingError
  some_lines ([], by_rate, totals) =
      inr (new_mapping_error code_invoice_lines_empty (str "invoice.lines"))
  some_lines (l ∷ ls, by_rate, totals) = inl (l ∷ ls, by_rate, totals)

  unfoldable pub build_lines :
      Bytes
      → ℕ
      → List (Option LineItem)
      → (List Line × List RateTotals × InvoiceTotals) ⊎ MappingError
  unfolding lines_loop some_lines
  build_lines op original_line_count items =
      some_lines (lines_loop op original_line_count 0 items [] new_invoice_totals)

-- `sort.Strings` on the keys, byte by byte.
unfoldable pub str_lt : Bytes → Bytes → Bool
str_lt s [] = false
str_lt [] (d ∷ t) = true
str_lt (c ∷ s) (d ∷ t) = if ltb c d then true else c == d && str_lt s t

unfoldable pub insert_by_key : RateTotals → List RateTotals → List RateTotals
insert_by_key b [] = b ∷ []
insert_by_key b (c ∷ cs) =
    if str_lt c.rate_key b.rate_key then c ∷ insert_by_key b cs else b ∷ c ∷ cs

unfoldable pub sort_by_key : List RateTotals → List RateTotals
unfolding insert_by_key
sort_by_key [] = []
sort_by_key (b ∷ bs) = insert_by_key b (sort_by_key bs)

module _ (set_string : Bytes → Option Rat) (currency : Bytes) where
  unfoldable pub summary_row : RateTotals → SummaryByVatRate
  summary_row b =
      let fc = reconciled_net_vat_gross set_string b.net_fc b.vat_fc currency in
      let huf = reconciled_net_vat_gross_huf set_string b.net_huf b.vat_huf in
      record {
        vat_rate = percentage b.rate_key;
        vat_rate_net_data = record {
          vat_rate_net_amount = fc.net_text;
          vat_rate_net_amount_huf = huf.net_text;
        };
        vat_rate_vat_data = record {
          vat_rate_vat_amount = fc.vat_text;
          vat_rate_vat_amount_huf = huf.vat_text;
        };
        vat_rate_gross_data = record {
          vat_rate_gross_amount = fc.gross_text;
          vat_rate_gross_amount_huf = huf.gross_text;
        };
      }

  unfoldable pub build_summary : List RateTotals → InvoiceTotals → InvoiceSummary
  unfolding summary_row sort_by_key
  build_summary by_rate totals =
      let fc = reconciled_net_vat_gross set_string totals.net_fc totals.vat_fc currency in
      let huf = reconciled_net_vat_gross_huf set_string totals.net_huf totals.vat_huf in
      record {
        summary_normal = some (record {
          summary_by_vat_rate = map summary_row (sort_by_key by_rate);
          invoice_net_amount = fc.net_text;
          invoice_net_amount_huf = huf.net_text;
          invoice_vat_amount = fc.vat_text;
          invoice_vat_amount_huf = huf.vat_text;
        });
        summary_simplified = [];
        summary_gross_data = record {
          invoice_gross_amount = fc.gross_text;
          invoice_gross_amount_huf = huf.gross_text;
        };
      }
