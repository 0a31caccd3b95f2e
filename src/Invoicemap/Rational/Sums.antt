-- ===== src/Invoicemap/Rational/Sums.antt =====
-- The laws of sums of fractions of internal/invoicemap, as they are kept, with the denominator of a
-- sum the product of the denominators.
use go_stripenav.Base.{ℕ, ◌+◌, ◌*◌, ◌≡◌, sym, ap, ◌∙◌, arith}
use mathlib.Core.Path.{ap₂}
use native.Mathlib.Nat.{mul_comm, mul_assoc, add-mul}
use go_stripenav.Base.Int.{
  ℤ, pos, pos_part, neg_part, ◌+ℤ◌, scale, +ℤ_parts, +ℤ_comm, +ℤ_assoc, scale_parts, eq_of_parts,
}
use go_stripenav.Invoicemap.Rational.{Rat, zero_rat, add}

mul_sums :
    (a b c d e f k : ℕ) → a + b + c ≡ d + e + f → a * k + b * k + c * k ≡ d * k + e * k + f * k
mul_sums a b c d e f k h = omega (
  arith,
  ap (λ (x : ℕ). x * k) h,
  add-mul (a + b) c k,
  add-mul a b k,
  add-mul (d + e) f k,
  add-mul d e k,
)

scale-+ℤ : (a b : ℤ) (k : ℕ) → scale (a +ℤ b) k ≡ scale a k +ℤ scale b k
scale-+ℤ a b k = eq_of_parts _ _ (
    omega (
      arith,
      scale_parts (a +ℤ b) k,
      scale_parts a k,
      scale_parts b k,
      +ℤ_parts (scale a k) (scale b k),
      mul_sums (pos_part (a +ℤ b)) (neg_part a) (neg_part b) (neg_part (a +ℤ b)) (pos_part a)
          (pos_part b) k (+ℤ_parts a b),
    ))

scale-scale : (a : ℤ) (m n : ℕ) → scale (scale a m) n ≡ scale a (m * n)
scale-scale a m n = eq_of_parts _ _ (
    omega (
      arith,
      scale_parts (scale a m) n,
      scale_parts a m,
      scale_parts a (m * n),
      ap (λ (x : ℕ). x * n) (scale_parts a m).0,
      ap (λ (x : ℕ). x * n) (scale_parts a m).1,
      mul_assoc (pos_part a) m n,
      mul_assoc (neg_part a) m n,
    ))

pub add_comm : (x y : Rat) → add x y ≡ add y x
unfolding add
add_comm x y =
    ap₂ (λ n d. record { num = n; den = d }) (+ℤ_comm (scale x.num y.den) (scale y.num x.den))
      (mul_comm x.den y.den)

abbrev make : ℤ → ℕ → Rat
make n d = record { num = n; den = d }

pub add_assoc : (x y z : Rat) → add (add x y) z ≡ add x (add y z)
unfolding add
add_assoc x y z = ap₂ make nums (mul_assoc x.den y.den z.den)
  where
    first :
        scale (scale x.num y.den +ℤ scale y.num x.den) z.den
        ≡ scale x.num (y.den * z.den) +ℤ scale y.num (x.den * z.den)
    first =
        scale-+ℤ (scale x.num y.den) (scale y.num x.den) z.den
        ∙ ap₂ ◌+ℤ◌ (scale-scale x.num y.den z.den) (scale-scale y.num x.den z.den)

    last :
        scale y.num (x.den * z.den) +ℤ scale z.num (x.den * y.den)
        ≡ scale (scale y.num z.den +ℤ scale z.num y.den) x.den
    last =
        ap₂ (λ m n. scale y.num m +ℤ scale z.num n) (mul_comm x.den z.den) (mul_comm x.den y.den)
        ∙ sym (
            scale-+ℤ (scale y.num z.den) (scale z.num y.den) x.den
            ∙ ap₂ ◌+ℤ◌ (scale-scale y.num z.den x.den) (scale-scale z.num y.den x.den))

    nums : (add (add x y) z).num ≡ (add x (add y z)).num
    nums =
        ap (λ n. n +ℤ scale z.num (x.den * y.den)) first
        ∙ +ℤ_assoc (scale x.num (y.den * z.den)) (scale y.num (x.den * z.den))
            (scale z.num (x.den * y.den))
        ∙ ap (λ n. scale x.num (y.den * z.den) +ℤ n) last

pub zero-add : (x : Rat) → add zero_rat x ≡ x
unfolding add
zero-add x =
    ap₂ make
      (eq_of_parts _ _ (
        omega (
          arith,
          scale_parts (pos 0) x.den,
          scale_parts x.num 1,
          +ℤ_parts (scale (pos 0) x.den) (scale x.num 1),
        )))
      (omega arith)

-- What stands between is moved out.
pub add_right_comm : (x y z : Rat) → add (add x y) z ≡ add (add x z) y
add_right_comm x y z = add_assoc x y z ∙ ap (add x) (add_comm y z) ∙ sym (add_assoc x z y)
