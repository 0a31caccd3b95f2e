-- ===== src/Store/Fairness.antt =====
-- Which rows ClaimBatch of internal/storeinmem/store.go hands out first.
use go_stripenav.Base.{
  ℕ, zero, suc, ◌+◌, ◌≤◌, ◌≡◌, refl, ap, ◌∙◌, subst, ◌⊎◌, inl, inr, true, none, some, List, [], ◌∷◌,
  map, arith, length, take, drop, In, here, there, All, length-take, Bytes, In-All, In-cons,
}
use go_stripenav.Submission.{Submission, Time, ok}
use go_stripenav.Store.{Store, is_claimable, claim, candidates, chosen, claim_batch}
use go_stripenav.Store.Table.{Rows, lookup, values, lookup-In}
use go_stripenav.Store.Sort.{sort_by_created, IsSorted, sort-IsSorted, sort-In}
use go_stripenav.Store.Claims.{candidates-In, chosen-take}
use go_stripenav.Store.Batch.{Claimed, claim_batch-Claimed, In-map, map-In}

In-take-drop {ℓ} :
    {A : Type ℓ} (n : ℕ) (xs : List A) {v : A}
    → In v xs
    → In v (take n xs) ⊎ (In v (drop n xs) × (length (take n xs) ≡ n))
In-take-drop zero xs i = inr (i, refl)
In-take-drop (suc n) [] i = elim i [ ]
In-take-drop (suc n) (x ∷ xs) here = inl here
In-take-drop (suc n) (x ∷ xs) (there i) = elim (In-take-drop n xs i) [
  | inl j ↦ inl (there j)
  | inr (j, e) ↦ inr (j, ap suc e)
]

In-drop {ℓ} : {A : Type ℓ} (n : ℕ) (xs : List A) {v : A} → In v (drop n xs) → In v xs
In-drop zero xs i = i
In-drop (suc n) [] i = elim i [ ]
In-drop (suc n) (x ∷ xs) i = there (In-drop n xs i)

All-take {ℓ κ} : {A : Type ℓ} (P : A → Type κ) (n : ℕ) (xs : List A) → All P xs → All P (take n xs)
All-take P zero xs h = tt
All-take P (suc n) [] h = tt
All-take P (suc n) (x ∷ xs) h = (h.0, All-take P n xs h.1)

take-IsSorted : (n : ℕ) (xs : List Submission) → IsSorted xs → IsSorted (take n xs)
take-IsSorted zero xs h = tt
take-IsSorted (suc n) [] h = tt
take-IsSorted (suc n) (x ∷ xs) h =
    (All-take (λ y. x.created_at ≤ y.created_at) n xs h.0, take-IsSorted n xs h.1)

take-le-drop :
    (n : ℕ) (xs : List Submission) {v w : Submission}
    → IsSorted xs
    → In v (take n xs)
    → In w (drop n xs)
    → v.created_at ≤ w.created_at
take-le-drop zero xs h i j = elim i [ ]
take-le-drop (suc n) [] h i j = elim i [ ]
take-le-drop (suc n) (x ∷ xs) {v} {w} h i j = elim (In-cons i) [
  | inl e ↦ let le = In-All (λ y. x.created_at ≤ y.created_at) xs h.0 (In-drop n xs j) in rw e le
  | inr k ↦ take-le-drop n xs h.1 k j
]

module _ (f : Submission → Submission)
    (same : (u : Submission) → (f u).created_at ≡ u.created_at) where
  map-All_after :
      (x : Submission) (xs : List Submission)
      → All (λ y. x.created_at ≤ y.created_at) xs
      → All (λ y. (f x).created_at ≤ y.created_at) (map f xs)
  map-All_after x [] h = tt
  map-All_after x (y ∷ ys) h = (omega (arith, same x, same y), map-All_after x ys h.1)

  map-IsSorted : (xs : List Submission) → IsSorted xs → IsSorted (map f xs)
  map-IsSorted [] h = tt
  map-IsSorted (x ∷ xs) h = (map-All_after x xs h.0, map-IsSorted xs h.1)

length-map : (f : Submission → Submission) (xs : List Submission) → length (map f xs) ≡ length xs
length-map f [] = refl
length-map f (x ∷ xs) = ap suc (length-map f xs)

chosen-IsSorted : (now : Time) (limit : ℕ) (rows : Rows) → IsSorted (chosen now limit rows)
chosen-IsSorted now limit rows =
    rw (chosen-take now limit rows) (take-IsSorted limit _ (sort-IsSorted _))

-- A claimable row that is not chosen is no older than any chosen row, and the limit is used up.
chosen_oldest :
    (now : Time) (limit : ℕ) (rows : Rows) {r : Submission}
    → In r (values rows)
    → is_claimable now r ≡ true
    → In r (chosen now limit rows)
      ⊎ ((length (chosen now limit rows) ≡ limit)
          × ((v : Submission) → In v (chosen now limit rows) → v.created_at ≤ r.created_at))
chosen_oldest now limit rows {r} i c =
    rw (chosen-take now limit rows)
      (elim (In-take-drop limit (sort_by_created (candidates now (values rows)))
        (sort-In _ (candidates-In now (values rows) i c))) [
          | inl j ↦ inl j
          | inr (j, e) ↦ inr (e, λ v k. take-le-drop limit _ (sort-IsSorted _) k j)
        ])

-- The batch of a successful ClaimBatch is in the order of creation and within the limit; a
-- claimable row of the store that is left out is no older than any row that was handed out, and is
-- left out only by a full batch.
pub claim_batch_oldest :
    (now : Time) (claimer : Bytes) (limit : ℕ) (lease : Time) (s : Store) {s' : Store}
    {out : List Submission}
    → claim_batch none now claimer limit lease s ≡ (s', ok out)
    → IsSorted out
      × (length out ≤ limit)
      × ((id : Bytes) (r : Submission)
          → lookup id s.rows ≡ some r
          → is_claimable now r ≡ true
          → In (claim claimer (now + lease) now r) out
            ⊎ ((length out ≡ limit) × ((v : Submission) → In v out → v.created_at ≤ r.created_at)))
claim_batch_oldest now claimer limit lease s {s'} {out} run = (
  rw done.batch (map-IsSorted mark (λ u. refl) picked (chosen-IsSorted now limit s.rows)),
  rw (done.batch, length-map mark picked, chosen-take now limit s.rows)
      (omega (arith, length-take limit (sort_by_created (candidates now (values s.rows))))),
  λ id r e c. left id r e c,
)
  where
    mark : Submission → Submission
    mark = claim claimer (now + lease) now

    picked : List Submission
    picked = chosen now limit s.rows

    done : Claimed now claimer limit lease s s' out
    done = claim_batch-Claimed now claimer limit lease s run

    left :
        (id : Bytes) (r : Submission)
        → lookup id s.rows ≡ some r
        → is_claimable now r ≡ true
        → In (mark r) out
          ⊎ ((length out ≡ limit) × ((v : Submission) → In v out → v.created_at ≤ r.created_at))
    left id r e c = elim (chosen_oldest now limit s.rows (lookup-In s.rows id e) c) [
      | inl i ↦ inl (rw done.batch (map-In mark picked i))
      | inr (full, older) ↦ inr (
        ap length done.batch ∙ length-map mark picked ∙ full,
        λ v i. let (x, j, q) = In-map mark picked (subst (In v) done.batch i) in rw q (older x j),
      )
    ]
