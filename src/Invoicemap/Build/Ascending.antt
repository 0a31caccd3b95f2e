-- ===== src/Invoicemap/Build/Ascending.antt =====
-- internal/invoicemap/mapping.go, buildSummary: the order of the summary's rows.
use go_stripenav.Base.{
  ℕ, ◌≡◌, refl, sym, ap, ◌∙◌, subst, ◌⊎◌, inl, inr, true, false, ◌||◌, Option, none, some, List, [],
  ◌∷◌, map, arith, Bool-cases, Bytes, str_eq,
}
use go_stripenav.Schemas.{Line, SummaryByVatRate, InvoiceSummary}
use go_stripenav.Base.Results.{sum-cases}
use go_stripenav.Storno.{LineItem}
use go_stripenav.Invoicemap.Build.Positions.{IsLinesOf, build_lines-IsLinesOf}
use go_stripenav.Invoicemap.Options.{MappingError}
use go_stripenav.Invoicemap.Rational.{Rat}
use go_stripenav.Invoicemap.Lines.{RateTotals, InvoiceTotals}
use go_stripenav.Invoicemap.Lines.Buckets.{has_rate, IsDistinct, build_totals-IsDistinct}
use go_stripenav.Invoicemap.Build.{
  build_lines, str_lt, insert_by_key, sort_by_key, summary_row, build_summary,
}

-- Each text comes before the next.
abbrev pub IsAscending : List Bytes → Type 0
IsAscending [] = Unit {0}
IsAscending (s ∷ []) = Unit {0}
IsAscending (s ∷ t ∷ ts) = (str_lt s t ≡ true) × IsAscending (t ∷ ts)

abbrev pub keys : List RateTotals → List Bytes
keys [] = []
keys (b ∷ bs) = b.rate_key ∷ keys bs

str_lt_total : (s t : Bytes) → str_lt s t ≡ false → str_eq s t ≡ false → str_lt t s ≡ true
unfolding str_lt str_eq
str_lt_total [] [] h k = cc
str_lt_total [] (d ∷ t) h k = cc
str_lt_total (c ∷ s) [] h k = refl
str_lt_total (c ∷ s) (d ∷ t) h k = ground (arith, str_lt_total s t)

has_rate-insert :
    (j : Bytes) (b : RateTotals) (bs : List RateTotals)
    → has_rate j (insert_by_key b bs) ≡ (str_eq b.rate_key j || has_rate j bs)
unfolding insert_by_key
has_rate-insert j b [] = refl
has_rate-insert j b (c ∷ cs) = ground (arith, has_rate-insert j b cs)

has_rate-sort : (j : Bytes) (bs : List RateTotals) → has_rate j (sort_by_key bs) ≡ has_rate j bs
unfolding sort_by_key
has_rate-sort j [] = refl
has_rate-sort j (b ∷ bs) =
    has_rate-insert j b (sort_by_key bs) ∙ ap (λ x. str_eq b.rate_key j || x) (has_rate-sort j bs)

abbrev Below : Bytes → List RateTotals → Type 0
Below s [] = Unit {0}
Below s (b ∷ bs) = str_lt s b.rate_key ≡ true

cons-IsAscending :
    (s : Bytes) (bs : List RateTotals)
    → Below s bs
    → IsAscending (keys bs)
    → IsAscending (s ∷ keys bs)
cons-IsAscending s [] p h = tt
cons-IsAscending s (b ∷ bs) p h = (p, h)

IsAscending-tail :
    (s : Bytes) (bs : List RateTotals)
    → IsAscending (s ∷ keys bs)
    → Below s bs × IsAscending (keys bs)
IsAscending-tail s [] h = (tt, tt)
IsAscending-tail s (b ∷ bs) h = h

insert-Below :
    (s : Bytes) (b : RateTotals) (bs : List RateTotals)
    → str_lt s b.rate_key ≡ true
    → Below s bs
    → Below s (insert_by_key b bs)
unfolding insert_by_key
insert-Below s b [] p h = p
insert-Below s b (c ∷ cs) p h = ground arith

insert-IsAscending :
    (b : RateTotals) (bs : List RateTotals)
    → has_rate b.rate_key bs ≡ false
    → IsAscending (keys bs)
    → IsAscending (keys (insert_by_key b bs))
unfolding insert_by_key
insert-IsAscending b [] n h = tt
insert-IsAscending b (c ∷ cs) n h =
    let (above, rest) = IsAscending-tail c.rate_key cs h in
    elim (Bool-cases (str_lt c.rate_key b.rate_key)) [
      | inr l ↦ rw (insert_by_key, l) (str_lt_total c.rate_key b.rate_key l (ground (arith, n)), h)
      | inl l ↦
          rw (insert_by_key, l)
            (cons-IsAscending c.rate_key (insert_by_key b cs) (insert-Below c.rate_key b cs l above)
              (insert-IsAscending b cs (ground (arith, n)) rest))
    ]

sort-IsAscending : (bs : List RateTotals) → IsDistinct bs → IsAscending (keys (sort_by_key bs))
unfolding sort_by_key
sort-IsAscending [] d = tt
sort-IsAscending (b ∷ bs) d =
    insert-IsAscending b (sort_by_key bs) (has_rate-sort b.rate_key bs ∙ d.0)
      (sort-IsAscending bs d.1)

module _ (set_string : Bytes → Option Rat) (currency : Bytes) where
  abbrev pub row_rates : List SummaryByVatRate → List Bytes
  row_rates [] = []
  row_rates (r ∷ rs) = r.vat_rate.vat_percentage ∷ row_rates rs

  rows-keys :
      (bs : List RateTotals) → row_rates (map (summary_row set_string currency) bs) ≡ keys bs
  unfolding summary_row
  rows-keys [] = refl
  rows-keys (b ∷ bs) = ap (◌∷◌ b.rate_key) (rows-keys bs)

  -- The rows of a summary.
  abbrev pub rows : InvoiceSummary → List SummaryByVatRate
  rows s = elim s.summary_normal [ none ↦ [] | some n ↦ n.summary_by_vat_rate ]

  build_summary-IsAscending :
      (bs : List RateTotals) (t : InvoiceTotals)
      → IsDistinct bs
      → IsAscending (row_rates (rows (build_summary set_string currency bs t)))
  unfolding build_summary
  build_summary-IsAscending bs t d =
      subst IsAscending (sym (rows-keys (sort_by_key bs))) (sort-IsAscending bs d)

  -- The lines of a document and its summary.
  abbrev pub Documented :
      Bytes
      → Rat
      → Bytes
      → ℕ
      → List (Option LineItem)
      → List Line × List RateTotals × InvoiceTotals
      → Type 0
  Documented inclusive_tax rate op count items built =
      IsLinesOf inclusive_tax set_string currency rate op count items built
      × IsAscending (row_rates (rows (build_summary set_string currency built.1 built.2)))

  -- buildLines fails, or its lines have the positions of Stripe's lines as numbers, and in a
  -- document that modifies another one the positions after the original's lines as chain
  -- references; its sums are those of build_totals; and in the summary that buildSummary makes of
  -- them the printed VAT rates are strictly ascending as byte strings, so that no text stands
  -- twice. The order of the texts is not that of the rates they print where a rate is negative, and
  -- -0.00 and 0.00 are two texts.
  pub build_lines-Documented :
      (inclusive_tax : Bytes) (rate : Rat) (op : Bytes) (count : ℕ) (items : List (Option LineItem))
      → ((built : List Line × List RateTotals × InvoiceTotals) × (build_lines inclusive_tax
              set_string currency rate op count items
            ≡ inl built)
          × Documented inclusive_tax rate op count items built)
        ⊎ ((e : MappingError) × (build_lines inclusive_tax set_string currency rate op count items
              ≡ inr e))
  build_lines-Documented inclusive_tax rate op count items =
      elim (sum-cases (build_lines inclusive_tax set_string currency rate op count items)) [
        | inr failed ↦ inr failed
        | inl (built, e) ↦
            let lines =
              build_lines-IsLinesOf inclusive_tax set_string currency rate op count items built e in
            let distinct = (build_totals-IsDistinct inclusive_tax currency rate items).0 in
            inl (
              built,
              e,
              (
                lines,
                build_summary-IsAscending built.1 built.2
                    (subst (λ x. IsDistinct x.0) (sym lines.sums) distinct),
              ),
            )
      ]
