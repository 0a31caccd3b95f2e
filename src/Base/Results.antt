-- ===== src/Base/Results.antt =====
-- Go's `if err != nil { return err }`, for a value or an error, as do blocks.
use mathlib.Core.Logic.{◌⊎◌, inl, inr}
use mathlib.Core.Bool.{Bool, true, false, ◌&&◌}
use mathlib.Core.Path.{◌≡◌, refl}
use native.Mathlib.Omega.{arith}

infixl 5 ◌>>=◌ ◌>>◌
abbrev pub ◌>>=◌ {ℓ} : {A B E : Type ℓ} → A ⊎ E → (A → B ⊎ E) → B ⊎ E
inl a >>= f = f a
inr e >>= f = inr e

abbrev pub ◌>>◌ {ℓ} : {B E : Type ℓ} → Unit {ℓ} ⊎ E → B ⊎ E → B ⊎ E
m >> k = m >>= λ _. k

abbrev pub guard {ℓ} : {E : Type ℓ} → Bool → E → Unit {ℓ} ⊎ E
guard true e = inl tt
guard false e = inr e

-- The error in other words.
abbrev pub map_error {ℓ} : {A E F : Type ℓ} → (E → F) → A ⊎ E → A ⊎ F
map_error f (inl a) = inl a
map_error f (inr e) = inr (f e)

pub inl_inj {ℓ} : {A E : Type ℓ} {a b : A} → ◌≡◌ {A = A ⊎ E} (inl a) (inl b) → a ≡ b
inl_inj e = ground (arith, e)

pub bind_inl {ℓ} :
    {A B E : Type ℓ} (m : A ⊎ E) (f : A → B ⊎ E) {b : B}
    → (m >>= f) ≡ inl b
    → (a : A) × (m ≡ inl a) × (f a ≡ inl b)
bind_inl (inl a) f e = (a, refl, e)
bind_inl (inr x) f e = cc

pub guard-inl {ℓ} :
    {B E : Type ℓ} (t : Bool) (x : E) (k : B ⊎ E) {b : B}
    → (guard t x >> k) ≡ inl b
    → (t ≡ true) × (k ≡ inl b)
guard-inl true x k e = (refl, e)
guard-inl false x k e = cc

pub map_error-inl {ℓ} :
    {A E F : Type ℓ} (f : E → F) (m : A ⊎ E) {a : A} → map_error f m ≡ inl a → m ≡ inl a
map_error-inl f (inl a) e = ground (arith, e)
map_error-inl f (inr x) e = cc

pub sum-cases {ℓ} : {A E : Type ℓ} (m : A ⊎ E) → ((a : A) × (m ≡ inl a)) ⊎ ((e : E) × (m ≡ inr e))
sum-cases (inl a) = inl (a, refl)
sum-cases (inr e) = inr (e, refl)

-- A result succeeds exactly when a test holds.
abbrev pub SucceedsIf {ℓ} : {A E : Type ℓ} → Bool → A ⊎ E → Type ℓ
SucceedsIf {A = A} {E = E} c m =
    ((c ≡ true) × ((a : A) × (m ≡ inl a))) ⊎ ((c ≡ false) × ((e : E) × (m ≡ inr e)))

abbrev pub is_result {ℓ} : {A E : Type ℓ} → A ⊎ E → Bool
is_result (inl a) = true
is_result (inr e) = false

pub is_result-SucceedsIf {ℓ} :
    {A E : Type ℓ} (c : Bool) (m : A ⊎ E) → is_result m ≡ c → SucceedsIf c m
is_result-SucceedsIf c (inl a) h = inl (ground (arith, h), (a, refl))
is_result-SucceedsIf c (inr e) h = inr (ground (arith, h), (e, refl))

pub bind-SucceedsIf {ℓ} :
    {A B E : Type ℓ} (c d : Bool) (m : A ⊎ E) (f : A → B ⊎ E)
    → SucceedsIf c m
    → ((a : A) → m ≡ inl a → SucceedsIf d (f a))
    → SucceedsIf (c && d) (m >>= f)
bind-SucceedsIf c d m f (inr (q, (e, r))) next = inr (ground (arith, q), (e, ground (arith, r)))
bind-SucceedsIf c d m f (inl (q, (a, r))) next = elim (next a r) [
  | inl (p, (b, s)) ↦ inl (ground (arith, p, q), (b, ground (arith, r, s)))
  | inr (p, (e, s)) ↦ inr (ground (arith, p), (e, ground (arith, r, s)))
]

pub guard-SucceedsIf {ℓ} :
    {B E : Type ℓ} (c d : Bool) (x : E) (k : B ⊎ E)
    → SucceedsIf d k
    → SucceedsIf (c && d) (guard c x >> k)
guard-SucceedsIf true d x k h = h
guard-SucceedsIf false d x k h = inr (refl, (x, refl))
