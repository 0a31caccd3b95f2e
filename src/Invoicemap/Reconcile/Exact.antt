-- ===== src/Invoicemap/Reconcile/Exact.antt =====
-- internal/invoicemap/mapping.go, reconciled: the printed amounts.
use go_stripenav.Base.{
  ℕ, ◌*◌, ◌/◌, ◌%◌, ◌≡◌, ap, ◌∙◌, inl, inr, Bool, Option, none, some, [], ◌++◌, arith,
  if◌then◌else◌, Bool-cases, Bytes, str,
}
use mathlib.Core.Path.{ap₂}
use go_stripenav.Base.Int.{ℤ, pos, negsuc, is_neg, abs, signed, scale, ◌+ℤ◌, is_neg-abs}
use go_stripenav.Base.Decimal.{utoa}
use go_stripenav.Invoicemap.Rational.{Rat, zero_rat, add}
use go_stripenav.Invoicemap.Currency.{
  round_size, round_to_int, int_text, fixed_digits, float_string, format_amount, format_huf,
  is_zero_decimal,
}
use go_stripenav.Invoicemap.Reconcile.{
  reconciled, reconciled_net_vat_gross, reconciled_net_vat_gross_huf,
}

abbrev pub whole : ℤ → Rat
whole n = record { num = n; den = 1 }

abbrev pub hundredths : ℤ → Rat
hundredths n = record { num = n; den = 100 }

-- An amount as it is printed, in hundredths.
abbrev pub cents : Rat → ℤ
cents r = signed (is_neg r.num) (round_size (abs r.num * 100) r.den)

abbrev pub cents_text : ℤ → Bytes
cents_text n =
    (if is_neg n then str "-" else [])
    ++ utoa (abs n / 100)
    ++ str "."
    ++ fixed_digits 2 (abs n % 100)

scale_one : (a : ℤ) → scale a 1 ≡ a
unfolding scale
scale_one (pos n) = ap pos (omega arith)
scale_one (negsuc n) = ground arith

round_size_one : (n : ℕ) → round_size n 1 ≡ n
unfolding round_size
round_size_one n = ground arith

round_size_hundredths : (n : ℕ) → round_size (n * 100 * 100) 10000 ≡ n
unfolding round_size
round_size_hundredths n = ground arith

round_to_int-whole : (a : ℤ) → round_to_int (whole a) ≡ a
unfolding round_to_int
round_to_int-whole a = ap (signed (is_neg a)) (round_size_one (abs a)) ∙ is_neg-abs a

abs-scale : (a b : ℤ) → abs (scale a 100 +ℤ scale b 100) ≡ abs (a +ℤ b) * 100
unfolding scale ◌+ℤ◌
abs-scale (pos a) (pos b) = ground arith
abs-scale (pos a) (negsuc b) = ground arith
abs-scale (negsuc a) (pos b) = ground arith
abs-scale (negsuc a) (negsuc b) = ground arith

is_neg-scale : (a b : ℤ) → is_neg (scale a 100 +ℤ scale b 100) ≡ is_neg (a +ℤ b)
unfolding scale ◌+ℤ◌
is_neg-scale (pos a) (pos b) = ground arith
is_neg-scale (pos a) (negsuc b) = ground arith
is_neg-scale (negsuc a) (pos b) = ground arith
is_neg-scale (negsuc a) (negsuc b) = ground arith

add-whole : (a b : ℤ) → format_huf (add (whole a) (whole b)) ≡ int_text (a +ℤ b)
unfolding add format_huf
add-whole a b = ap int_text (
    ap₂ (λ x y. round_to_int (whole (x +ℤ y))) (scale_one a) (scale_one b)
    ∙ round_to_int-whole (a +ℤ b))

add-hundredths :
    (a b : ℤ) → float_string 2 (add (hundredths a) (hundredths b)) ≡ cents_text (a +ℤ b)
unfolding add float_string
add-hundredths a b =
    ap₂
      (λ (n : Bool) (m : ℕ).
        (if n then str "-" else []) ++ utoa (m / 100) ++ str "." ++ fixed_digits 2 (m % 100))
      (is_neg-scale a b)
      (ap (λ m. round_size (m * 100) 10000) (abs-scale a b) ∙ round_size_hundredths (abs (a +ℤ b)))

-- An amount in the smallest unit that is printed, its text, and its value.
abbrev pub units : Bytes → Rat → ℤ
units currency r = if is_zero_decimal currency then round_to_int r else cents r

abbrev pub units_text : Bytes → ℤ → Bytes
units_text currency n = if is_zero_decimal currency then int_text n else cents_text n

abbrev pub units_rat : Bytes → ℤ → Rat
units_rat currency n = if is_zero_decimal currency then whole n else hundredths n

module _ (set_string : Bytes → Option Rat) where
  reconciled-huf :
      (net vat : Rat)
      → set_string (format_huf net) ≡ some (whole (round_to_int net))
      → set_string (format_huf vat) ≡ some (whole (round_to_int vat))
      → (reconciled_net_vat_gross_huf set_string net vat).gross_text
        ≡ int_text (round_to_int net +ℤ round_to_int vat)
  unfolding reconciled_net_vat_gross_huf reconciled
  reconciled-huf net vat p q =
      ap₂ (λ x y. format_huf (add x y)) (ap (λ o. elim o [ some r ↦ r | none ↦ zero_rat ]) p)
        (ap (λ o. elim o [ some r ↦ r | none ↦ zero_rat ]) q)
      ∙ add-whole (round_to_int net) (round_to_int vat)

  add-units :
      (currency : Bytes) (a b : ℤ)
      → format_amount (add (units_rat currency a) (units_rat currency b)) currency
        ≡ units_text currency (a +ℤ b)
  unfolding format_amount format_huf
  add-units currency a b = elim (Bool-cases (is_zero_decimal currency)) [
    | inl z ↦ rw (z, format_amount) (add-whole a b)
    | inr z ↦ rw (z, format_amount) (add-hundredths a b)
  ]

  reconciled-units :
      (currency : Bytes) (net vat : Rat)
      → set_string (format_amount net currency) ≡ some (units_rat currency (units currency net))
      → set_string (format_amount vat currency) ≡ some (units_rat currency (units currency vat))
      → (reconciled_net_vat_gross set_string net vat currency).gross_text
        ≡ units_text currency (units currency net +ℤ units currency vat)
  unfolding reconciled_net_vat_gross reconciled
  reconciled-units currency net vat p q =
      ap₂ (λ x y. format_amount (add x y) currency)
        (ap (λ o. elim o [ some r ↦ r | none ↦ zero_rat ]) p)
        (ap (λ o. elim o [ some r ↦ r | none ↦ zero_rat ]) q)
      ∙ add-units currency (units currency net) (units currency vat)

  -- What SetString has to read back of the texts that were just printed.
  abbrev pub ReadsHuf : Rat → Type 0
  ReadsHuf r = set_string (format_huf r) ≡ some (whole (round_to_int r))

  abbrev pub ReadsUnits : Bytes → Rat → Type 0
  ReadsUnits currency r =
      set_string (format_amount r currency) ≡ some (units_rat currency (units currency r))

  -- The printed gross amount is the exact sum of the printed net and the printed VAT, in whole
  -- units of a zero-decimal currency and of HUF and in hundredths of any other currency, if
  -- SetString reads back the printed net and VAT.
  pub reconciled-exact :
      (currency : Bytes) (net vat net_huf vat_huf : Rat)
      → ReadsUnits currency net
      → ReadsUnits currency vat
      → ReadsHuf net_huf
      → ReadsHuf vat_huf
      → ((reconciled_net_vat_gross set_string net vat currency).gross_text
          ≡ units_text currency (units currency net +ℤ units currency vat))
        × ((reconciled_net_vat_gross_huf set_string net_huf vat_huf).gross_text
            ≡ int_text (round_to_int net_huf +ℤ round_to_int vat_huf))
  reconciled-exact currency net vat net_huf vat_huf p q r s =
      (reconciled-units currency net vat p q, reconciled-huf net_huf vat_huf r s)
