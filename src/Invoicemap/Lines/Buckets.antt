-- ===== src/Invoicemap/Lines/Buckets.antt =====
-- The buckets per VAT rate (buildLines of internal/invoicemap/mapping.go).
use go_stripenav.Base.{
  ◌≡◌, refl, inl, inr, Bool, true, false, ◌||◌, Option, none, some, List, [], ◌∷◌, arith,
  Bool-cases, any, Bytes, str_eq, str_eq_iff, str_eq_refl,
}
use go_stripenav.Storno.{LineItem}
use go_stripenav.Invoicemap.Rational.{Rat}
use go_stripenav.Invoicemap.Currency.{float_string}
use go_stripenav.Invoicemap.Lines.{
  RateTotals, InvoiceTotals, Figures, line_figures, add_to_rate, add_to_totals, tally, build_totals,
  new_invoice_totals,
}

abbrev pub has_rate : Bytes → List RateTotals → Bool
has_rate key bs = any (λ b. str_eq b.rate_key key) bs

-- No two buckets have one rate.
abbrev pub IsDistinct : List RateTotals → Type 0
IsDistinct [] = Unit {0}
IsDistinct (b ∷ bs) = (has_rate b.rate_key bs ≡ false) × IsDistinct bs

module _ (inclusive_tax currency : Bytes) (rate : Rat) where
  has_rate-add :
      (key j : Bytes) (f : Figures) (bs : List RateTotals)
      → has_rate j (add_to_rate inclusive_tax currency rate key f bs)
        ≡ (str_eq key j || has_rate j bs)
  unfolding add_to_rate
  has_rate-add key j f [] = refl
  has_rate-add key j f (b ∷ bs) = ground (
    arith,
    has_rate-add key j f bs,
    str_eq_iff b.rate_key key,
    str_eq_iff key j,
    str_eq_iff b.rate_key j,
  )

  add_to_rate-IsDistinct :
      (key : Bytes) (f : Figures) (bs : List RateTotals)
      → IsDistinct bs
      → IsDistinct (add_to_rate inclusive_tax currency rate key f bs)
  unfolding add_to_rate
  add_to_rate-IsDistinct key f [] h = (refl, tt)
  add_to_rate-IsDistinct key f (b ∷ bs) h = elim (Bool-cases (str_eq b.rate_key key)) [
    | inl e ↦ rw e h
    | inr e ↦ rw e (
      ground (
        arith,
        has_rate-add key b.rate_key f bs,
        e,
        h.0,
        str_eq_iff key b.rate_key,
        str_eq_iff b.rate_key key,
      ),
      add_to_rate-IsDistinct key f bs h.1,
    )
  ]

  -- The printed rate of every line of the invoice.
  abbrev pub AllCounted : List (Option LineItem) → List RateTotals → Type 0
  AllCounted [] bs = Unit {0}
  AllCounted (none ∷ ls) bs = AllCounted ls bs
  AllCounted (some l ∷ ls) bs =
      (has_rate (float_string 2 (line_figures inclusive_tax currency rate l).rate_pct) bs ≡ true)
      × AllCounted ls bs

  tally-has_rate :
      (ls : List (Option LineItem)) (bs : List RateTotals) (t : InvoiceTotals) (j : Bytes)
      → has_rate j bs ≡ true
      → has_rate j (tally inclusive_tax currency rate ls bs t).0 ≡ true
  unfolding tally
  tally-has_rate [] bs t j h = h
  tally-has_rate (none ∷ ls) bs t j h = tally-has_rate ls bs t j h
  tally-has_rate (some l ∷ ls) bs t j h =
      let f = line_figures inclusive_tax currency rate l in
      tally-has_rate ls (add_to_rate inclusive_tax currency rate (float_string 2 f.rate_pct) f bs)
        (add_to_totals inclusive_tax currency rate f t) j
        (ground (arith, has_rate-add (float_string 2 f.rate_pct) j f bs, h))

  tally-IsDistinct :
      (ls : List (Option LineItem)) (bs : List RateTotals) (t : InvoiceTotals)
      → IsDistinct bs
      → IsDistinct (tally inclusive_tax currency rate ls bs t).0
        × AllCounted ls (tally inclusive_tax currency rate ls bs t).0
  unfolding tally
  tally-IsDistinct [] bs t h = (h, tt)
  tally-IsDistinct (none ∷ ls) bs t h = tally-IsDistinct ls bs t h
  tally-IsDistinct (some l ∷ ls) bs t h =
      let f = line_figures inclusive_tax currency rate l in
      let key = float_string 2 f.rate_pct in
      let bs' = add_to_rate inclusive_tax currency rate key f bs in
      let t' = add_to_totals inclusive_tax currency rate f t in
      let rest = tally-IsDistinct ls bs' t' (add_to_rate-IsDistinct key f bs h) in
      (
        rest.0,
        (
          tally-has_rate ls bs' t' key (ground (arith, has_rate-add key key f bs, str_eq_refl key)),
          rest.1,
        ),
      )

  -- The buckets that buildLines makes have pairwise different printed VAT rates, and the printed
  -- rate of every line has its bucket.
  pub build_totals-IsDistinct :
      (ls : List (Option LineItem))
      → IsDistinct (build_totals inclusive_tax currency rate ls).0
        × AllCounted ls (build_totals inclusive_tax currency rate ls).0
  unfolding build_totals
  build_totals-IsDistinct ls = tally-IsDistinct ls [] new_invoice_totals tt
