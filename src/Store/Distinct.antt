-- ===== src/Store/Distinct.antt =====
-- The batch of ClaimBatch (internal/storeinmem/store.go) has no event id twice.
use go_stripenav.Base.{
  ℕ, zero, suc, ◌+◌, ◌≡◌, sym, ap, ◌∙◌, subst, ◌≢◌, inl, inr, none, List, [], ◌∷◌, map, arith, ltb,
  Bool-cases, take, All, Bytes, str_eq, str_eq_iff,
}
use go_stripenav.Submission.{Submission, Time, ok}
use go_stripenav.Store.{Store, is_claimable, candidates, claim, chosen, claim_batch}
use go_stripenav.Store.Table.{Rows, lookup, values, Keyed}
use go_stripenav.Store.Sort.{insert_by_created, sort_by_created, insert-All, sort-All}
use go_stripenav.Store.Claims.{chosen-take}
use go_stripenav.Store.Batch.{claim_batch-Claimed}

-- No row of the list has the id.
abbrev pub Lacks : Bytes → List Submission → Type 0
Lacks id xs = All (λ (y : Submission). y.event_id ≢ id) xs

abbrev pub IsDistinct : List Submission → Type 0
IsDistinct [] = Unit {0}
IsDistinct (x ∷ xs) = Lacks x.event_id xs × IsDistinct xs

values-Lacks : (id : Bytes) (m : Rows) → Keyed m → lookup id m ≡ none → Lacks id (values m)
unfolding lookup
values-Lacks id [] k e = tt
values-Lacks id ((j, v) ∷ m) (at, _, k) e = elim (Bool-cases (str_eq j id)) [
  | inl hit ↦ ground arith
  | inr miss ↦
      (λ same. ground (arith, str_eq_iff j id, at, same), values-Lacks id m k (ground arith))
]

values-IsDistinct : (m : Rows) → Keyed m → IsDistinct (values m)
values-IsDistinct [] k = tt
values-IsDistinct ((j, v) ∷ m) (at, absent, k) =
    (values-Lacks v.event_id m k (ap (λ i. lookup i m) at ∙ absent), values-IsDistinct m k)

candidates-Lacks :
    (id : Bytes) (now : Time) (xs : List Submission) → Lacks id xs → Lacks id (candidates now xs)
unfolding candidates
candidates-Lacks id now [] h = tt
candidates-Lacks id now (x ∷ xs) h = elim (Bool-cases (is_claimable now x)) [
  | inl e ↦ rw (e, candidates) (h.0, candidates-Lacks id now xs h.1)
  | inr e ↦ rw (e, candidates) (candidates-Lacks id now xs h.1)
]

candidates-IsDistinct :
    (now : Time) (xs : List Submission) → IsDistinct xs → IsDistinct (candidates now xs)
unfolding candidates
candidates-IsDistinct now [] h = tt
candidates-IsDistinct now (x ∷ xs) h = elim (Bool-cases (is_claimable now x)) [
  | inl e ↦
      rw (e, candidates) (candidates-Lacks x.event_id now xs h.0, candidates-IsDistinct now xs h.1)
  | inr e ↦ rw (e, candidates) (candidates-IsDistinct now xs h.1)
]

insert-IsDistinct :
    (x : Submission) (xs : List Submission)
    → Lacks x.event_id xs
    → IsDistinct xs
    → IsDistinct (insert_by_created x xs)
unfolding insert_by_created
insert-IsDistinct x [] l h = (tt, tt)
insert-IsDistinct x (y ∷ ys) l h = elim (Bool-cases (ltb y.created_at x.created_at)) [
  | inl e ↦
      rw (e, insert_by_created)
        (
          insert-All (λ (z : Submission). z.event_id ≢ y.event_id) x ys (λ same. l.0 (sym same))
              h.0,
          insert-IsDistinct x ys l.1 h.1,
        )
  | inr e ↦ rw (e, insert_by_created) (l, h)
]

sort-IsDistinct : (xs : List Submission) → IsDistinct xs → IsDistinct (sort_by_created xs)
unfolding sort_by_created
sort-IsDistinct [] h = tt
sort-IsDistinct (x ∷ xs) h =
    insert-IsDistinct x (sort_by_created xs)
      (sort-All (λ (y : Submission). y.event_id ≢ x.event_id) xs h.0) (sort-IsDistinct xs h.1)

take-Lacks : (id : Bytes) (n : ℕ) (xs : List Submission) → Lacks id xs → Lacks id (take n xs)
take-Lacks id zero xs h = tt
take-Lacks id (suc n) [] h = tt
take-Lacks id (suc n) (x ∷ xs) h = (h.0, take-Lacks id n xs h.1)

take-IsDistinct : (n : ℕ) (xs : List Submission) → IsDistinct xs → IsDistinct (take n xs)
take-IsDistinct zero xs h = tt
take-IsDistinct (suc n) [] h = tt
take-IsDistinct (suc n) (x ∷ xs) h = (take-Lacks x.event_id n xs h.0, take-IsDistinct n xs h.1)

module _ (claimer : Bytes) (until now : Time) where
  claim-Lacks :
      (id : Bytes) (xs : List Submission)
      → Lacks id xs
      → Lacks id (map (claim claimer until now) xs)
  claim-Lacks id [] h = tt
  claim-Lacks id (x ∷ xs) h = (h.0, claim-Lacks id xs h.1)

  claim-IsDistinct :
      (xs : List Submission) → IsDistinct xs → IsDistinct (map (claim claimer until now) xs)
  claim-IsDistinct [] h = tt
  claim-IsDistinct (x ∷ xs) h = (claim-Lacks x.event_id xs h.0, claim-IsDistinct xs h.1)

-- In a store that keeps every row under its own id, a successful ClaimBatch returns no id twice.
pub claim_batch-IsDistinct :
    (now : Time) (claimer : Bytes) (limit : ℕ) (lease : Time) (s : Store) {s' : Store}
    {out : List Submission}
    → Keyed s.rows
    → claim_batch none now claimer limit lease s ≡ (s', ok out)
    → IsDistinct out
claim_batch-IsDistinct now claimer limit lease s k run =
    let done = claim_batch-Claimed now claimer limit lease s run in
    subst IsDistinct (sym done.batch) (
      claim-IsDistinct claimer (now + lease) now (chosen now limit s.rows) (
        subst IsDistinct (sym (chosen-take now limit s.rows)) (
          take-IsDistinct limit _
            (sort-IsDistinct _ (candidates-IsDistinct now _ (values-IsDistinct s.rows k))))))
