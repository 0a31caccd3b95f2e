-- ===== src/Invoicemap/Rounding.antt =====
-- Rounding of money in internal/invoicemap/currency.go.
use go_stripenav.Base.{
  ℕ, zero, suc, ◌+◌, ◌*◌, ◌%◌, ◌≤◌, ◌<◌, ◌≡◌, refl, inl, inr, true, arith, ltb, ◌==◌, ==_iff,
  Bool-cases,
}
use native.Mathlib.Nat.{div-add-mod, mod-lt}
use go_stripenav.Base.Int.{ℤ, pos, negsuc, is_neg, abs, signed, neg}
use go_stripenav.Invoicemap.Rational.{Rat, negate}
use go_stripenav.Invoicemap.Currency.{round_size, round_to_int}

-- The rounded size of a fraction with a positive denominator is the nearest integer, and a tie goes
-- up.
pub round_size_nearest :
    (n d : ℕ)
    → 0 < d
    → (2 * (d * round_size n d) ≤ 2 * n + d) × (2 * n < 2 * (d * round_size n d) + d)
unfolding round_size
round_size_nearest n d h = elim (Bool-cases (n % d == 0)) [
  | inl e ↦
      let exact : n % d ≡ 0 = (==_iff _ _).0 e in
      rw (e, round_size) (omega (arith, div-add-mod n d, exact))
  | inr e ↦ elim (Bool-cases (ltb (2 * (n % d)) d)) [
    | inl f ↦
        let below : 2 * (n % d) < d = ground arith in
        rw (e, f, round_size) (omega (arith, div-add-mod n d, below))
    | inr f ↦
        let above : d ≤ 2 * (n % d) = ground arith in
        rw (e, f, round_size) (omega (arith, div-add-mod n d, mod-lt n h, above))
  ]
]

quotient_unique : (x y a b : ℕ) → x * a ≤ y → y < x * a + x → x * b ≤ y → y < x * b + x → a ≡ b
quotient_unique x y a b p q r s = grind arith

times_le : (k : ℕ) {x y : ℕ} → x ≤ y → x * k ≤ y * k
times_le k h = grind arith

times_lt : (k : ℕ) {x y : ℕ} → 0 < k → x < y → x * k < y * k
times_lt k p h = grind arith

-- `round_size n d` is the quotient of `2n + d` by `2d`; of two forms of one fraction it is one number.
pub round_size_form :
    (n d n' d' : ℕ) → 0 < d → 0 < d' → n * d' ≡ n' * d → round_size n d ≡ round_size n' d'
round_size_form n d n' d' h h' e =
    quotient_unique (2 * (d * d')) (2 * (n * d') + d * d') (round_size n d) (round_size n' d')
      (omega (arith, times_le d' near.0)) (omega (arith, times_lt d' h' near.1))
      (omega (arith, times_le d near'.0, e)) (omega (arith, times_lt d h near'.1, e))
  where
    near : (2 * (d * round_size n d) ≤ 2 * n + d) × (2 * n < 2 * (d * round_size n d) + d)
    near = round_size_nearest n d h

    near' :
        (2 * (d' * round_size n' d') ≤ 2 * n' + d') × (2 * n' < 2 * (d' * round_size n' d') + d')
    near' = round_size_nearest n' d' h'

round_zero : (d : ℕ) → round_size 0 d ≡ 0
unfolding round_size
round_zero d = ground arith

-- Rounding is odd: the rounded reversal of an amount is the reversal of the rounded amount.
pub round_to_int-negate : (r : Rat) → round_to_int (negate r) ≡ neg (round_to_int r)
unfolding round_to_int negate neg
round_to_int-negate r = by_sign r.num
  where
    minus : (m : ℕ) → signed true m ≡ neg (pos m)
    minus zero = refl
    minus (suc m) = refl

    plus : (m : ℕ) → pos m ≡ neg (signed true m)
    plus zero = refl
    plus (suc m) = refl

    by_sign :
        (n : ℤ)
        → signed (is_neg (neg n)) (round_size (abs (neg n)) r.den)
          ≡ neg (signed (is_neg n) (round_size (abs n) r.den))
    by_sign (pos zero) = rw (round_zero r.den) refl
    by_sign (pos (suc n)) = minus (round_size (suc n) r.den)
    by_sign (negsuc n) = plus (round_size (suc n) r.den)
