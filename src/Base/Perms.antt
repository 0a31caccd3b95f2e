-- ===== src/Base/Perms.antt =====
-- Membership, predicates and lengths under a rearrangement of a list.
use Prim.Native.Nat.{suc}
use mathlib.Core.Path.{◌≡◌, refl, ap, ap₂, ◌∙◌, sym, subst}
use mathlib.Core.Bool.{Bool, ◌||◌}
use native.Mathlib.Omega.{arith}
use mathlib.Core.Logic.{◌⊎◌, inl, inr}
use mathlib.Core.List.{List, [], ◌∷◌, Permᴰ}
use mathlib.Core.List.Permᴰ as PermD
use go_stripenav.Base.Lists.{length, any, In, here, there, All}

module _ {ℓ} {A : Type ℓ} where
  pub In-cons : {v x : A} {xs : List A} → In v (x ∷ xs) → (v ≡ x) ⊎ In v xs
  In-cons here = inl refl
  In-cons (there i) = inr i

  pub Permᴰ-refl : (xs : List A) → Permᴰ xs xs
  Permᴰ-refl xs = PermD.refl xs

  pub Permᴰ-sym : {xs ys : List A} → Permᴰ xs ys → Permᴰ ys xs
  Permᴰ-sym p = PermD.symm p

  pub Permᴰ-In : {xs ys : List A} → Permᴰ xs ys → {v : A} → In v xs → In v ys
  Permᴰ-In Permᴰ.nil i = i
  Permᴰ-In (Permᴰ.cons {b = b} {l₂ = l₂} e p) here = subst (λ u. In u (b ∷ l₂)) (sym e) here
  Permᴰ-In (Permᴰ.cons e p) (there i) = there (Permᴰ-In p i)
  Permᴰ-In (Permᴰ.swap {a' = a'} {b' = b'} {l = l} e f) here =
      subst (λ u. In u (a' ∷ b' ∷ l)) (sym e) (there here)
  Permᴰ-In (Permᴰ.swap {a' = a'} {b' = b'} {l = l} e f) (there here) =
      subst (λ u. In u (a' ∷ b' ∷ l)) (sym f) here
  Permᴰ-In (Permᴰ.swap e f) (there (there i)) = there (there i)
  Permᴰ-In (Permᴰ.trans p q) i = Permᴰ-In q (Permᴰ-In p i)

  pub Permᴰ-length : {xs ys : List A} → Permᴰ xs ys → length xs ≡ length ys
  Permᴰ-length Permᴰ.nil = refl
  Permᴰ-length (Permᴰ.cons e p) = ap suc (Permᴰ-length p)
  Permᴰ-length (Permᴰ.swap e f) = refl
  Permᴰ-length (Permᴰ.trans p q) = Permᴰ-length p ∙ Permᴰ-length q

  pub In-All {κ} : (P : A → Type κ) (xs : List A) → All P xs → {v : A} → In v xs → P v
  In-All P [] h i = elim i [ ]
  In-All P (x ∷ xs) h here = h.0
  In-All P (x ∷ xs) h (there i) = In-All P xs h.1 i

  pub Permᴰ-any : (p : A → Bool) {xs ys : List A} → Permᴰ xs ys → any p xs ≡ any p ys
  Permᴰ-any p Permᴰ.nil = refl
  Permᴰ-any p (Permᴰ.cons e d) = ap₂ ◌||◌ (ap p e) (Permᴰ-any p d)
  Permᴰ-any p (Permᴰ.swap {a = a} {b = b} {a' = a'} {b' = b'} {l = l} e f) =
      ground (arith, ap p e, ap p f)
  Permᴰ-any p (Permᴰ.trans d d') = Permᴰ-any p d ∙ Permᴰ-any p d'
