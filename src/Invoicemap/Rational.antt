-- ===== src/Invoicemap/Rational.antt =====
-- The exact fractions of math/big (`Rat`), as far as internal/invoicemap uses them. A fraction is
-- kept as it was built and not brought to lowest terms: everything that the code reads of one, its
-- sign, its rounding and its decimal text, is the same for every form of it.
pub mod Sums
use go_stripenav.Base.{ℕ, ◌*◌, ◌≡◌, ap, ◌∙◌, Bool, true, false, not, ◌==◌}
use mathlib.Core.Path.{ap₂}
use go_stripenav.Base.Int.{
  ℤ, pos, is_neg, abs, signed, ◌+ℤ◌, neg, scale, ◌*ℤ◌, neg-+ℤ, neg-scale, neg-*ℤ,
}

pub record Rat : Type 0 where
  pub num : ℤ
  pub den : ℕ

-- `new(big.Rat)`, and `NewRat(1, 1)`.
abbrev pub zero_rat : Rat
zero_rat = record { num = pos 0; den = 1 }

abbrev pub one_rat : Rat
one_rat = record { num = pos 1; den = 1 }

unfoldable pub add : Rat → Rat → Rat
add x y = record { num = scale x.num y.den +ℤ scale y.num x.den; den = x.den * y.den }

unfoldable pub negate : Rat → Rat
negate x = record { num = neg x.num; den = x.den }

unfoldable pub sub : Rat → Rat → Rat
unfolding add negate
sub x y = add x (negate y)

unfoldable pub mul : Rat → Rat → Rat
mul x y = record { num = x.num *ℤ y.num; den = x.den * y.den }

abbrev pub differ : Bool → Bool → Bool
differ true b = not b
differ false b = b

-- `Quo`, by a divisor that is not zero.
unfoldable pub quo : Rat → Rat → Rat
quo x y = record {
  num = signed (differ (is_neg x.num) (is_neg y.num)) (abs x.num * y.den);
  den = x.den * abs y.num;
}

abbrev pub is_zero : Rat → Bool
is_zero x = abs x.num == 0

-- The same number.
infix 4 ◌≈◌
abbrev pub ◌≈◌ : Rat → Rat → Type 0
x ≈ y = scale x.num y.den ≡ scale y.num x.den

pub negate-add : (x y : Rat) → add (negate x) (negate y) ≡ negate (add x y)
unfolding add negate
negate-add x y =
    ap (λ n. record { num = n; den = x.den * y.den })
      (ap₂ ◌+ℤ◌ (neg-scale x.num y.den) (neg-scale y.num x.den) ∙ neg-+ℤ _ _)

pub negate-sub : (x y : Rat) → sub (negate x) (negate y) ≡ negate (sub x y)
unfolding sub
negate-sub x y = negate-add x (negate y)

pub negate-mul : (x y : Rat) → mul (negate x) y ≡ negate (mul x y)
unfolding mul negate
negate-mul x y = ap (λ n. record { num = n; den = x.den * y.den }) (neg-*ℤ x.num y.num)
