-- ===== src/Invoicemap/Lines/Sums.antt =====
-- The sums per VAT rate and in total (buildLines of internal/invoicemap/mapping.go).
use go_stripenav.Base.{
  ◌≡◌, refl, sym, ap, ◌∙◌, inl, inr, Option, none, some, List, [], ◌∷◌, Bool-cases, Bytes, str_eq,
}
use go_stripenav.Storno.{LineItem}
use go_stripenav.Invoicemap.Rational.{Rat, zero_rat, add}
use go_stripenav.Invoicemap.Rational.Sums.{zero-add, add_assoc, add_right_comm}
use go_stripenav.Invoicemap.Currency.{float_string}
use go_stripenav.Invoicemap.Lines.{
  RateTotals, InvoiceTotals, Figures, new_rate_totals, new_invoice_totals, line_figures,
  add_to_bucket, add_to_rate, add_to_totals, tally, build_totals,
}

-- The sum of a column of the buckets.
abbrev pub column_sum : (RateTotals → Rat) → List RateTotals → Rat
column_sum of [] = zero_rat
column_sum of (b ∷ bs) = add (of b) (column_sum of bs)

-- The four sums of the buckets are the totals.
abbrev pub IsSummed : List RateTotals → InvoiceTotals → Type 0
IsSummed bs t =
    (column_sum (λ b. b.net_fc) bs ≡ t.net_fc)
    × (column_sum (λ b. b.vat_fc) bs ≡ t.vat_fc)
    × (column_sum (λ b. b.net_huf) bs ≡ t.net_huf)
    × (column_sum (λ b. b.vat_huf) bs ≡ t.vat_huf)

-- A column of the buckets, of the totals and of the figures of a line, which go together.
pub record Column (inclusive_tax currency : Bytes) (rate : Rat) : Type 0 where
  pub of_bucket : RateTotals → Rat
  pub of_totals : InvoiceTotals → Rat
  pub of_line : Figures → Rat
  pub fresh_bucket : (key : Bytes) → of_bucket (new_rate_totals key) ≡ zero_rat
  pub fresh_totals : of_totals new_invoice_totals ≡ zero_rat
  pub bucket_grows :
      (f : Figures) (b : RateTotals)
      → of_bucket (add_to_bucket inclusive_tax currency rate f b) ≡ add (of_bucket b) (of_line f)
  pub totals_grow :
      (f : Figures) (t : InvoiceTotals)
      → of_totals (add_to_totals inclusive_tax currency rate f t) ≡ add (of_totals t) (of_line f)

module _ (inclusive_tax currency : Bytes) (rate : Rat)
    (c : Column inclusive_tax currency rate) where
  add_to_rate-sum :
      (key : Bytes) (f : Figures) (bs : List RateTotals)
      → column_sum c.of_bucket (add_to_rate inclusive_tax currency rate key f bs)
        ≡ add (column_sum c.of_bucket bs) (c.of_line f)
  unfolding add_to_rate
  add_to_rate-sum key f [] =
      ap (λ x. add x zero_rat)
        (c.bucket_grows f (new_rate_totals key)
          ∙ ap (λ x. add x (c.of_line f)) (c.fresh_bucket key))
      ∙ add_right_comm zero_rat (c.of_line f) zero_rat
      ∙ ap (λ x. add x (c.of_line f)) (zero-add zero_rat)
  add_to_rate-sum key f (b ∷ bs) = elim (Bool-cases (str_eq b.rate_key key)) [
    | inl e ↦
        rw (e, add_to_rate)
          (ap (λ x. add x (column_sum c.of_bucket bs)) (c.bucket_grows f b)
            ∙ add_right_comm (c.of_bucket b) (c.of_line f) (column_sum c.of_bucket bs))
    | inr e ↦
        rw (e, add_to_rate)
          (ap (add (c.of_bucket b)) (add_to_rate-sum key f bs)
            ∙ sym (add_assoc (c.of_bucket b) (column_sum c.of_bucket bs) (c.of_line f)))
  ]

  tally-sum :
      (ls : List (Option LineItem)) (bs : List RateTotals) (t : InvoiceTotals)
      → column_sum c.of_bucket bs ≡ c.of_totals t
      → column_sum c.of_bucket (tally inclusive_tax currency rate ls bs t).0
        ≡ c.of_totals (tally inclusive_tax currency rate ls bs t).1
  unfolding tally
  tally-sum [] bs t h = h
  tally-sum (none ∷ ls) bs t h = tally-sum ls bs t h
  tally-sum (some l ∷ ls) bs t h =
      let f = line_figures inclusive_tax currency rate l in
      tally-sum ls (add_to_rate inclusive_tax currency rate (float_string 2 f.rate_pct) f bs)
        (add_to_totals inclusive_tax currency rate f t)
        (add_to_rate-sum (float_string 2 f.rate_pct) f bs
          ∙ ap (λ x. add x (c.of_line f)) h
          ∙ sym (c.totals_grow f t))

  build_totals-sum :
      (ls : List (Option LineItem))
      → column_sum c.of_bucket (build_totals inclusive_tax currency rate ls).0
        ≡ c.of_totals (build_totals inclusive_tax currency rate ls).1
  unfolding build_totals
  build_totals-sum ls = tally-sum ls [] new_invoice_totals (sym c.fresh_totals)

module _ (inclusive_tax currency : Bytes) (rate : Rat) where
  -- The four columns.
  abbrev net_column : Column inclusive_tax currency rate
  net_column = record {
    of_bucket = λ b. b.net_fc;
    of_totals = λ t. t.net_fc;
    of_line = λ f. f.net;
    fresh_bucket = λ k. refl;
    fresh_totals = refl;
    bucket_grows = λ f b. refl;
    totals_grow = λ f t. refl;
  }

  abbrev vat_column : Column inclusive_tax currency rate
  vat_column = record {
    of_bucket = λ b. b.vat_fc;
    of_totals = λ t. t.vat_fc;
    of_line = λ f. f.vat;
    fresh_bucket = λ k. refl;
    fresh_totals = refl;
    bucket_grows = λ f b. refl;
    totals_grow = λ f t. refl;
  }

  abbrev net_huf_column : Column inclusive_tax currency rate
  net_huf_column = record {
    of_bucket = λ b. b.net_huf;
    of_totals = λ t. t.net_huf;
    of_line = λ f. f.net_in_huf;
    fresh_bucket = λ k. refl;
    fresh_totals = refl;
    bucket_grows = λ f b. refl;
    totals_grow = λ f t. refl;
  }

  abbrev vat_huf_column : Column inclusive_tax currency rate
  vat_huf_column = record {
    of_bucket = λ b. b.vat_huf;
    of_totals = λ t. t.vat_huf;
    of_line = λ f. f.vat_in_huf;
    fresh_bucket = λ k. refl;
    fresh_totals = refl;
    bucket_grows = λ f b. refl;
    totals_grow = λ f t. refl;
  }

  -- The sums of the buckets per VAT rate that buildLines makes are exactly its totals: net and VAT,
  -- in the invoice's currency and in HUF.
  pub build_totals-IsSummed :
      (ls : List (Option LineItem))
      → IsSummed
          (build_totals inclusive_tax currency rate ls).0
          (build_totals inclusive_tax currency rate ls).1
  build_totals-IsSummed ls = (
    build_totals-sum inclusive_tax currency rate net_column ls,
    build_totals-sum inclusive_tax currency rate vat_column ls,
    build_totals-sum inclusive_tax currency rate net_huf_column ls,
    build_totals-sum inclusive_tax currency rate vat_huf_column ls,
  )
