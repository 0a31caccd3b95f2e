-- ===== src/Invoicemap/Lines/Reversal.antt =====
-- The amounts of a storno and of its invoice (credit_note.go and internal/invoicemap/mapping.go).
use mathlib.Core.Path.{ap₂}
use go_stripenav.Base.{
  ℕ, zero, suc, ◌*◌, ◌≡◌, refl, sym, ap, ◌∙◌, inl, inr, Bool, true, false, not, ◌||◌, Option, none,
  some, List, [], ◌∷◌, map, arith, ◌==◌, if◌then◌else◌, Bool-cases, Bytes, str_eq,
}
use go_stripenav.Base.Int.{ℤ, pos, negsuc, neg, is_neg, abs, signed, abs-neg}
use go_stripenav.Storno.{LineItemTax, LineItem, flip_taxes, flip_lines}
use go_stripenav.Invoicemap.Rational.{
  Rat, zero_rat, add, sub, mul, quo, negate, is_zero, differ, negate-add, negate-sub, negate-mul,
}
use go_stripenav.Invoicemap.Currency.{amount_from_minor, float_string, to_huf}
use go_stripenav.Invoicemap.Lines.{
  RateTotals, InvoiceTotals, Figures, new_rate_totals, new_invoice_totals, vat_loop, is_inclusive,
  figures_of, line_figures, add_to_bucket, add_to_totals, add_to_rate, tally, build_totals,
}

abbrev pub negate_bucket : RateTotals → RateTotals
negate_bucket b = record {
  rate_key = b.rate_key;
  net_fc = negate b.net_fc;
  vat_fc = negate b.vat_fc;
  net_huf = negate b.net_huf;
  vat_huf = negate b.vat_huf;
}

abbrev pub negate_totals : InvoiceTotals → InvoiceTotals
negate_totals t = record {
  net_fc = negate t.net_fc;
  vat_fc = negate t.vat_fc;
  net_huf = negate t.net_huf;
  vat_huf = negate t.vat_huf;
}

-- The amounts are negated, the VAT rate is not.
abbrev negate_figures : Figures → Figures
negate_figures f = record {
  net = negate f.net;
  vat = negate f.vat;
  rate_pct = f.rate_pct;
  net_in_huf = negate f.net_in_huf;
  vat_in_huf = negate f.vat_in_huf;
}

quo_size : (b : Bool) (n : ℕ) → n ≡ 0 → signed b n ≡ pos 0
quo_size true zero e = refl
quo_size true (suc n) e = absurd (omega (arith, e))
quo_size false n e = ap pos e

quo_sign :
    (v n : ℤ) (d : ℕ)
    → (abs n == 0) ≡ false
    → signed (differ (is_neg (neg v)) (is_neg (neg n))) (abs v * d)
      ≡ signed (differ (is_neg v) (is_neg n)) (abs v * d)
unfolding neg
quo_sign v (pos zero) d h = absurd (ground (arith, h))
quo_sign (pos zero) (pos (suc n)) d h =
    quo_size true (0 * d) (omega arith) ∙ sym (quo_size false (0 * d) (omega arith))
quo_sign (pos zero) (negsuc n) d h =
    quo_size false (0 * d) (omega arith) ∙ sym (quo_size true (0 * d) (omega arith))
quo_sign (pos (suc v)) (pos (suc n)) d h = refl
quo_sign (pos (suc v)) (negsuc n) d h = refl
quo_sign (negsuc v) (pos (suc n)) d h = refl
quo_sign (negsuc v) (negsuc n) d h = refl

quo-negate : (x y : Rat) → is_zero y ≡ false → quo (negate x) (negate y) ≡ quo x y
unfolding quo negate
quo-negate x y h =
    ap₂ (λ n d. record { num = n; den = d })
      (ap (λ k. signed (differ (is_neg (neg x.num)) (is_neg (neg y.num))) (k * y.den))
          (abs-neg x.num)
        ∙ quo_sign x.num y.num y.den h)
      (ap (λ k. x.den * k) (abs-neg y.num))

is_zero-negate : (x : Rat) → is_zero (negate x) ≡ is_zero x
unfolding negate
is_zero-negate x = ap (λ k. k == 0) (abs-neg x.num)

module _ (inclusive_tax currency : Bytes) (rate : Rat) where
  vat_loop-flip :
      (ts : List (Option LineItemTax)) (vat : Rat)
      → vat_loop inclusive_tax currency rate (flip_taxes ts) (negate vat)
        ≡ negate (vat_loop inclusive_tax currency rate ts vat)
  unfolding vat_loop flip_taxes amount_from_minor negate
  vat_loop-flip [] vat = refl
  vat_loop-flip (none ∷ ts) vat = vat_loop-flip ts vat
  vat_loop-flip (some t ∷ ts) vat =
      ap (vat_loop inclusive_tax currency rate (flip_taxes ts))
        (negate-add vat (amount_from_minor t.amount currency))
      ∙ vat_loop-flip ts (add vat (amount_from_minor t.amount currency))

  is_inclusive-flip :
      (ts : List (Option LineItemTax))
      → is_inclusive inclusive_tax currency rate (flip_taxes ts)
        ≡ is_inclusive inclusive_tax currency rate ts
  unfolding is_inclusive flip_taxes
  is_inclusive-flip [] = refl
  is_inclusive-flip (none ∷ ts) = is_inclusive-flip ts
  is_inclusive-flip (some t ∷ ts) =
      ap (λ b. str_eq t.tax_behavior inclusive_tax || b) (is_inclusive-flip ts)

  -- The figures by the net amount and the VAT.
  abbrev by_net : Rat → Rat → Figures
  by_net net vat = record {
    net = net;
    vat = vat;
    rate_pct = if not (is_zero net) then quo vat net else zero_rat;
    net_in_huf = mul net rate;
    vat_in_huf = mul vat rate;
  }

  rate-negate :
      (net vat : Rat)
      → (if not (is_zero (negate net)) then quo (negate vat) (negate net) else zero_rat)
        ≡ (if not (is_zero net) then quo vat net else zero_rat)
  rate-negate net vat = elim (Bool-cases (is_zero net)) [
    | inl e ↦ ground (arith, e, is_zero-negate net)
    | inr e ↦ ground (arith, e, is_zero-negate net, quo-negate vat net e)
  ]

  by_net-negate :
      (net vat : Rat) → by_net (negate net) (negate vat) ≡ negate_figures (by_net net vat)
  by_net-negate net vat = λ i. record {
    net = negate net;
    vat = negate vat;
    rate_pct = rate-negate net vat i;
    net_in_huf = negate-mul net rate i;
    vat_in_huf = negate-mul vat rate i;
  }

  figures_of-negate :
      (amount vat : Rat) (b : Bool)
      → figures_of inclusive_tax currency rate (negate amount) (negate vat) b
        ≡ negate_figures (figures_of inclusive_tax currency rate amount vat b)
  unfolding figures_of to_huf
  figures_of-negate amount vat true =
      ap (λ n. by_net n (negate vat)) (negate-sub amount vat) ∙ by_net-negate (sub amount vat) vat
  figures_of-negate amount vat false = by_net-negate amount vat

  abbrev flip_line : LineItem → LineItem
  flip_line l = record {
    description = l.description;
    amount = neg l.amount;
    quantity = l.quantity;
    taxes = flip_taxes l.taxes;
  }

  zero-negate : zero_rat ≡ negate zero_rat
  unfolding negate neg
  zero-negate = refl

  line_figures-flip :
      (l : LineItem)
      → line_figures inclusive_tax currency rate (flip_line l)
        ≡ negate_figures (line_figures inclusive_tax currency rate l)
  unfolding line_figures amount_from_minor negate
  line_figures-flip l =
      ap₂ (figures_of inclusive_tax currency rate (negate (amount_from_minor l.amount currency)))
        (ap (vat_loop inclusive_tax currency rate (flip_taxes l.taxes)) zero-negate
          ∙ vat_loop-flip l.taxes zero_rat)
        (is_inclusive-flip l.taxes)
      ∙ figures_of-negate (amount_from_minor l.amount currency)
          (vat_loop inclusive_tax currency rate l.taxes zero_rat)
          (is_inclusive inclusive_tax currency rate l.taxes)

  add_to_bucket-negate :
      (f : Figures) (b : RateTotals)
      → add_to_bucket inclusive_tax currency rate (negate_figures f) (negate_bucket b)
        ≡ negate_bucket (add_to_bucket inclusive_tax currency rate f b)
  add_to_bucket-negate f b = λ i. record {
    rate_key = b.rate_key;
    net_fc = negate-add b.net_fc f.net i;
    vat_fc = negate-add b.vat_fc f.vat i;
    net_huf = negate-add b.net_huf f.net_in_huf i;
    vat_huf = negate-add b.vat_huf f.vat_in_huf i;
  }

  add_to_totals-negate :
      (f : Figures) (t : InvoiceTotals)
      → add_to_totals inclusive_tax currency rate (negate_figures f) (negate_totals t)
        ≡ negate_totals (add_to_totals inclusive_tax currency rate f t)
  add_to_totals-negate f t = λ i. record {
    net_fc = negate-add t.net_fc f.net i;
    vat_fc = negate-add t.vat_fc f.vat i;
    net_huf = negate-add t.net_huf f.net_in_huf i;
    vat_huf = negate-add t.vat_huf f.vat_in_huf i;
  }

  new-negate : (key : Bytes) → new_rate_totals key ≡ negate_bucket (new_rate_totals key)
  unfolding negate neg
  new-negate key = refl

  add_to_rate-negate :
      (key : Bytes) (f : Figures) (bs : List RateTotals)
      → add_to_rate inclusive_tax currency rate key (negate_figures f) (map negate_bucket bs)
        ≡ map negate_bucket (add_to_rate inclusive_tax currency rate key f bs)
  unfolding add_to_rate
  add_to_rate-negate key f [] =
      ap (λ b. b ∷ [])
        (ap (add_to_bucket inclusive_tax currency rate (negate_figures f)) (new-negate key)
          ∙ add_to_bucket-negate f (new_rate_totals key))
  add_to_rate-negate key f (b ∷ bs) = elim (Bool-cases (str_eq b.rate_key key)) [
    | inl e ↦ rw e (ap (λ c. c ∷ map negate_bucket bs) (add_to_bucket-negate f b))
    | inr e ↦ rw e (ap (λ cs. negate_bucket b ∷ cs) (add_to_rate-negate key f bs))
  ]

  tally-flip :
      (ls : List (Option LineItem)) (bs : List RateTotals) (t : InvoiceTotals)
      → tally inclusive_tax currency rate (flip_lines ls) (map negate_bucket bs) (negate_totals t)
        ≡ (
          map negate_bucket (tally inclusive_tax currency rate ls bs t).0,
          negate_totals (tally inclusive_tax currency rate ls bs t).1,
        )
  unfolding tally flip_lines
  tally-flip [] bs t = refl
  tally-flip (none ∷ ls) bs t = tally-flip ls bs t
  tally-flip (some l ∷ ls) bs t =
      let f = line_figures inclusive_tax currency rate l in
      let key = float_string 2 f.rate_pct in
      ap
        (λ g.
          tally inclusive_tax currency rate (flip_lines ls)
            (add_to_rate inclusive_tax currency rate (float_string 2 g.rate_pct) g
              (map negate_bucket bs))
            (add_to_totals inclusive_tax currency rate g (negate_totals t)))
        (line_figures-flip l)
      ∙ ap₂ (tally inclusive_tax currency rate (flip_lines ls)) (add_to_rate-negate key f bs)
          (add_to_totals-negate f t)
      ∙ tally-flip ls (add_to_rate inclusive_tax currency rate key f bs)
          (add_to_totals inclusive_tax currency rate f t)

  -- The amounts that buildLines makes of the flipped lines of a storno or a credit note are those
  -- of the original lines, exactly negated: the same VAT rates in the same order, and each net, VAT
  -- and HUF sum, per rate and in total, with the opposite sign, at one exchange rate.
  pub build_totals-flip :
      (ls : List (Option LineItem))
      → build_totals inclusive_tax currency rate (flip_lines ls) ≡ (
        map negate_bucket (build_totals inclusive_tax currency rate ls).0,
        negate_totals (build_totals inclusive_tax currency rate ls).1,
      )
  unfolding build_totals negate neg
  build_totals-flip ls = tally-flip ls [] new_invoice_totals
