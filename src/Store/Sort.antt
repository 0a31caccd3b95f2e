-- ===== src/Store/Sort.antt =====
-- `sort.Slice(rows, CreatedAt.Before)` of internal/storeinmem/store.go, as insertion sort.
use go_stripenav.Base.{
  ◌≤◌, refl, inl, inr, List, [], ◌∷◌, arith, ltb, if◌then◌else◌, Bool-cases, In, All, Permᴰ,
  Permᴰ-refl, Permᴰ-sym, Permᴰ-In,
}
use go_stripenav.Submission.{Submission}

unfoldable pub insert_by_created : Submission → List Submission → List Submission
insert_by_created x [] = x ∷ []
insert_by_created x (y ∷ ys) =
    if ltb y.created_at x.created_at then y ∷ insert_by_created x ys else x ∷ y ∷ ys

unfoldable pub sort_by_created : List Submission → List Submission
unfolding insert_by_created
sort_by_created [] = []
sort_by_created (x ∷ xs) = insert_by_created x (sort_by_created xs)

-- Oldest first.
abbrev pub IsSorted : List Submission → Type 0
IsSorted [] = Unit {0}
IsSorted (x ∷ xs) = All (λ y. x.created_at ≤ y.created_at) xs × IsSorted xs

module _ {κ} (P : Submission → Type κ) where
  pub insert-All :
      (x : Submission) (xs : List Submission) → P x → All P xs → All P (insert_by_created x xs)
  unfolding insert_by_created
  insert-All x [] px h = (px, tt)
  insert-All x (y ∷ ys) px h = elim (Bool-cases (ltb y.created_at x.created_at)) [
    | inl e ↦ rw e (h.0, insert-All x ys px h.1)
    | inr e ↦ rw e (px, h)
  ]

  pub sort-All : (xs : List Submission) → All P xs → All P (sort_by_created xs)
  unfolding sort_by_created
  sort-All [] h = tt
  sort-All (x ∷ xs) h = insert-All x (sort_by_created xs) h.0 (sort-All xs h.1)

All-map {κ} :
    (P Q : Submission → Type κ) (xs : List Submission)
    → ((y : Submission) → P y → Q y)
    → All P xs
    → All Q xs
All-map P Q [] f h = tt
All-map P Q (x ∷ xs) f h = (f x h.0, All-map P Q xs f h.1)

insert-IsSorted :
    (x : Submission) (xs : List Submission) → IsSorted xs → IsSorted (insert_by_created x xs)
unfolding insert_by_created
insert-IsSorted x [] h = (tt, tt)
insert-IsSorted x (y ∷ ys) h = elim (Bool-cases (ltb y.created_at x.created_at)) [
  | inl e ↦ rw e (
    insert-All (λ z. y.created_at ≤ z.created_at) x ys (ground arith) h.0,
    insert-IsSorted x ys h.1,
  )
  | inr e ↦
      let le : x.created_at ≤ y.created_at = ground arith in
      rw e (
        (
          le,
          All-map (λ z. y.created_at ≤ z.created_at) (λ z. x.created_at ≤ z.created_at) ys
              (λ z k. omega arith) h.0,
        ),
        h,
      )
]

pub sort-IsSorted : (xs : List Submission) → IsSorted (sort_by_created xs)
unfolding sort_by_created
sort-IsSorted [] = tt
sort-IsSorted (x ∷ xs) = insert-IsSorted x (sort_by_created xs) (sort-IsSorted xs)

insert-perm : (x : Submission) (xs : List Submission) → Permᴰ (x ∷ xs) (insert_by_created x xs)
unfolding insert_by_created
insert-perm x [] = Permᴰ-refl (x ∷ [])
insert-perm x (y ∷ ys) = elim (Bool-cases (ltb y.created_at x.created_at)) [
  | inl e ↦ rw e (Permᴰ.trans (Permᴰ.swap refl refl) (Permᴰ.cons refl (insert-perm x ys)))
  | inr e ↦ rw e (Permᴰ-refl _)
]

-- Sorting only rearranges.
pub sort-perm : (xs : List Submission) → Permᴰ xs (sort_by_created xs)
unfolding sort_by_created
sort-perm [] = Permᴰ-refl []
sort-perm (x ∷ xs) =
    Permᴰ.trans (Permᴰ.cons refl (sort-perm xs)) (insert-perm x (sort_by_created xs))

pub sort-In : (xs : List Submission) {v : Submission} → In v xs → In v (sort_by_created xs)
sort-In xs i = Permᴰ-In (sort-perm xs) i

pub In-sort : (xs : List Submission) {v : Submission} → In v (sort_by_created xs) → In v xs
In-sort xs i = Permᴰ-In (Permᴰ-sym (sort-perm xs)) i
