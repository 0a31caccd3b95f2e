-- ===== src/Invoicemap/Lines.antt =====
-- internal/invoicemap/mapping.go: the amounts that buildLines computes for each line, per VAT rate and
-- in total. The texts of the lines are left out. `inclusive_tax` is Stripe's constant for a tax
-- that is included in the line's amount, and the map by rate is a list of entries.
pub mod Reversal
pub mod Buckets
pub mod Sums
use go_stripenav.Base.{
  Bool, false, not, ◌||◌, Option, none, some, List, [], ◌∷◌, if◌then◌else◌, Bytes, str_eq,
}
use go_stripenav.Storno.{LineItemTax, LineItem}
use go_stripenav.Invoicemap.Rational.{Rat, zero_rat, add, sub, quo, is_zero}
use go_stripenav.Invoicemap.Currency.{amount_from_minor, float_string, to_huf}

pub record RateTotals : Type 0 where
  pub rate_key : Bytes
  pub net_fc : Rat
  pub vat_fc : Rat
  pub net_huf : Rat
  pub vat_huf : Rat

pub record InvoiceTotals : Type 0 where
  pub net_fc : Rat
  pub vat_fc : Rat
  pub net_huf : Rat
  pub vat_huf : Rat

abbrev pub new_rate_totals : Bytes → RateTotals
new_rate_totals key = record {
  rate_key = key;
  net_fc = zero_rat;
  vat_fc = zero_rat;
  net_huf = zero_rat;
  vat_huf = zero_rat;
}

abbrev pub new_invoice_totals : InvoiceTotals
new_invoice_totals = record {
  net_fc = zero_rat;
  vat_fc = zero_rat;
  net_huf = zero_rat;
  vat_huf = zero_rat;
}

-- What a round of the loop computes of its line.
pub record Figures : Type 0 where
  pub net : Rat
  pub vat : Rat
  pub rate_pct : Rat
  pub net_in_huf : Rat
  pub vat_in_huf : Rat

module _ (inclusive_tax currency : Bytes) (rate : Rat) where
  -- The inner loop: the sum of the taxes, and whether one of them is inclusive.
  unfoldable pub vat_loop : List (Option LineItemTax) → Rat → Rat
  vat_loop [] vat = vat
  vat_loop (none ∷ ts) vat = vat_loop ts vat
  vat_loop (some t ∷ ts) vat = vat_loop ts (add vat (amount_from_minor t.amount currency))

  unfoldable pub is_inclusive : List (Option LineItemTax) → Bool
  is_inclusive [] = false
  is_inclusive (none ∷ ts) = is_inclusive ts
  is_inclusive (some t ∷ ts) = str_eq t.tax_behavior inclusive_tax || is_inclusive ts

  -- The amounts, from the line's amount, its VAT and whether that is included.
  unfoldable pub figures_of : Rat → Rat → Bool → Figures
  figures_of amount vat inclusive =
      let net = if inclusive then sub amount vat else amount in
      record {
        net = net;
        vat = vat;
        rate_pct = if not (is_zero net) then quo vat net else zero_rat;
        net_in_huf = to_huf net rate;
        vat_in_huf = to_huf vat rate;
      }

  unfoldable pub line_figures : LineItem → Figures
  unfolding figures_of vat_loop is_inclusive
  line_figures l =
      figures_of (amount_from_minor l.amount currency) (vat_loop l.taxes zero_rat)
        (is_inclusive l.taxes)

  abbrev pub add_to_bucket : Figures → RateTotals → RateTotals
  add_to_bucket f b = record {
    rate_key = b.rate_key;
    net_fc = add b.net_fc f.net;
    vat_fc = add b.vat_fc f.vat;
    net_huf = add b.net_huf f.net_in_huf;
    vat_huf = add b.vat_huf f.vat_in_huf;
  }

  abbrev pub add_to_totals : Figures → InvoiceTotals → InvoiceTotals
  add_to_totals f t = record {
    net_fc = add t.net_fc f.net;
    vat_fc = add t.vat_fc f.vat;
    net_huf = add t.net_huf f.net_in_huf;
    vat_huf = add t.vat_huf f.vat_in_huf;
  }

  -- `byRate[key]`, made when it is missing, and its sums.
  unfoldable pub add_to_rate : Bytes → Figures → List RateTotals → List RateTotals
  add_to_rate key f [] = add_to_bucket f (new_rate_totals key) ∷ []
  add_to_rate key f (b ∷ bs) =
      if str_eq b.rate_key key then add_to_bucket f b ∷ bs else b ∷ add_to_rate key f bs

  -- The loop over the lines, with `byRate` and `totals`.
  unfoldable pub tally :
      List (Option LineItem) → List RateTotals → InvoiceTotals → List RateTotals × InvoiceTotals
  unfolding line_figures add_to_rate
  tally [] by_rate totals = (by_rate, totals)
  tally (none ∷ ls) by_rate totals = tally ls by_rate totals
  tally (some l ∷ ls) by_rate totals =
      tally ls (add_to_rate (float_string 2 (line_figures l).rate_pct) (line_figures l) by_rate)
        (add_to_totals (line_figures l) totals)

  unfoldable pub build_totals : List (Option LineItem) → List RateTotals × InvoiceTotals
  unfolding tally
  build_totals ls = tally ls [] new_invoice_totals
