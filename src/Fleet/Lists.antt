-- ===== src/Fleet/Lists.antt =====
-- Lists with one entry in view: `xs ++ x ∷ ys`.
use go_stripenav.Base.{List, [], ◌∷◌, ◌++◌, All}

module _ {A : Type 0} (P : A → Type 0) where
  pub All-remove : (xs ys : List A) (x : A) → All P (xs ++ x ∷ ys) → P x × All P (xs ++ ys)
  All-remove [] ys x h = h
  All-remove (y ∷ xs) ys x h = let (p, q) = All-remove xs ys x h.1 in (p, (h.0, q))

  pub All-restore : (xs ys : List A) (x : A) → P x → All P (xs ++ ys) → All P (xs ++ x ∷ ys)
  All-restore [] ys x p h = (p, h)
  All-restore (y ∷ xs) ys x p h = (h.0, All-restore xs ys x p h.1)

  pub All-append : (xs ys : List A) → All P xs → All P ys → All P (xs ++ ys)
  All-append [] ys h k = k
  All-append (x ∷ xs) ys h k = (h.0, All-append xs ys h.1 k)

  pub All-both :
      (Q R : A → Type 0) (xs : List A)
      → ((x : A) → P x → Q x → R x)
      → All P xs
      → All Q xs
      → All R xs
  All-both Q R [] f h k = tt
  All-both Q R (x ∷ xs) f h k = (f x h.0 k.0, All-both Q R xs f h.1 k.1)

module _ {A : Type 0} (R : A → A → Type 0) where
  abbrev pub Pairwise : List A → Type 0
  Pairwise [] = Unit {0}
  Pairwise (x ∷ xs) = All (R x) xs × Pairwise xs

  module _ (flip : (x y : A) → R x y → R y x) where
    pub Pairwise-remove :
        (xs ys : List A) (x : A)
        → Pairwise (xs ++ x ∷ ys)
        → All (R x) (xs ++ ys) × Pairwise (xs ++ ys)
    Pairwise-remove [] ys x h = h
    Pairwise-remove (y ∷ xs) ys x h =
        let (p, q) = All-remove (R y) xs ys x h.0 in
        let (a, b) = Pairwise-remove xs ys x h.1 in ((flip y x p, a), (q, b))

    pub Pairwise-restore :
        (xs ys : List A) (x : A)
        → All (R x) (xs ++ ys)
        → Pairwise (xs ++ ys)
        → Pairwise (xs ++ x ∷ ys)
    Pairwise-restore [] ys x h k = (h, k)
    Pairwise-restore (y ∷ xs) ys x h k =
        (All-restore (R y) xs ys x (flip x y h.0) k.0, Pairwise-restore xs ys x h.1 k.1)

  pub Pairwise-append :
      (xs ys : List A)
      → Pairwise xs
      → All (λ x. All (R x) ys) xs
      → Pairwise ys
      → Pairwise (xs ++ ys)
  Pairwise-append [] ys h k p = p
  Pairwise-append (x ∷ xs) ys h k p =
      (All-append (R x) xs ys h.0 k.0, Pairwise-append xs ys h.1 k.1 p)
