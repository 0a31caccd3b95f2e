-- ===== src/Store/Claims.antt =====
-- The parts of ClaimBatch (internal/storeinmem/store.go): which rows are candidates, which of them
-- are chosen, and what the write-back loop leaves in the map.
use go_stripenav.Base.{
  ℕ, zero, suc, ◌≡◌, refl, sym, ◌∙◌, subst, ◌≢◌, ◌⊎◌, inl, inr, true, some, List, [], ◌∷◌, arith,
  ltb, if◌then◌else◌, Bool-cases, length, take, In, here, there, All, Bytes, str_eq, str_eq_iff,
  In-cons, take_all,
}
use go_stripenav.Submission.{Submission, Time}
use go_stripenav.Store.{is_claimable, candidates, claim, write_claims, chosen}
use go_stripenav.Store.Table.{
  Rows, lookup, insert, values, lookup-insert, lookup-insert_self, Keyed, insert-Keyed, In-lookup,
}
use go_stripenav.Store.Sort.{sort_by_created, In-sort}

pub In-candidates :
    (now : Time) (xs : List Submission) {v : Submission}
    → In v (candidates now xs)
    → In v xs × (is_claimable now v ≡ true)
unfolding candidates
In-candidates now [] i = elim i [ ]
In-candidates now (x ∷ xs) {v} i = elim (Bool-cases (is_claimable now x)) [
  | inl e ↦ elim (In-cons (rw (e, candidates) at i)) [
    | inl same ↦ (subst (λ u. In u (x ∷ xs)) (sym same) here, rw same e)
    | inr j ↦ let (k, c) = In-candidates now xs j in (there k, c)
  ]
  | inr e ↦ let (j, c) = In-candidates now xs (rw (e, candidates) at i) in (there j, c)
]

pub candidates-In :
    (now : Time) (xs : List Submission) {v : Submission}
    → In v xs
    → is_claimable now v ≡ true
    → In v (candidates now xs)
unfolding candidates
candidates-In now [] i c = elim i [ ]
candidates-In now (x ∷ xs) here c = rw c here
candidates-In now (x ∷ xs) (there i) c = elim (Bool-cases (is_claimable now x)) [
  | inl e ↦ rw e (there (candidates-In now xs i c))
  | inr e ↦ rw e (candidates-In now xs i c)
]

In-take {ℓ} : {A : Type ℓ} (n : ℕ) (xs : List A) {v : A} → In v (take n xs) → In v xs
In-take zero xs i = elim i [ ]
In-take (suc n) [] i = elim i [ ]
In-take (suc n) (x ∷ xs) here = here
In-take (suc n) (x ∷ xs) (there i) = there (In-take n xs i)

-- The limit cuts the sorted candidates.
pub chosen-take :
    (now : Time) (limit : ℕ) (rows : Rows)
    → chosen now limit rows ≡ take limit (sort_by_created (candidates now (values rows)))
unfolding chosen
chosen-take now limit rows = cut (sort_by_created (candidates now (values rows)))
  where
    cut :
        (xs : List Submission)
        → (if ltb limit (length xs) then take limit xs else xs) ≡ take limit xs
    cut xs = ground (arith, take_all limit xs)

-- A chosen row is a claimable row of the map, under its id.
pub In-chosen :
    (now : Time) (limit : ℕ) (rows : Rows) {v : Submission}
    → Keyed rows
    → In v (chosen now limit rows)
    → (lookup v.event_id rows ≡ some v) × (is_claimable now v ≡ true)
In-chosen now limit rows k i =
    let (j, c) =
      In-candidates now (values rows)
        (In-sort _ (In-take limit _ (rw (chosen-take now limit rows) at i))) in
    (In-lookup rows k j, c)

pub write_claims-Keyed :
    (claimer : Bytes) (until now : Time) (cs : List Submission) (rows : Rows)
    → Keyed rows
    → Keyed (write_claims claimer until now cs rows)
unfolding write_claims
write_claims-Keyed claimer until now [] rows k = k
write_claims-Keyed claimer until now (c ∷ cs) rows k =
    write_claims-Keyed claimer until now cs _ (insert-Keyed c.event_id _ rows refl k)

pub lookup-write_claims_other :
    (claimer : Bytes) (until now : Time) (cs : List Submission) (rows : Rows) (j : Bytes)
    → All (λ c. c.event_id ≢ j) cs
    → lookup j (write_claims claimer until now cs rows) ≡ lookup j rows
unfolding write_claims
lookup-write_claims_other claimer until now [] rows j h = refl
lookup-write_claims_other claimer until now (c ∷ cs) rows j h = ground (
  arith,
  lookup-write_claims_other claimer until now cs
      (insert c.event_id (claim claimer until now c) rows) j h.1,
  lookup-insert c.event_id j (claim claimer until now c) rows,
  str_eq_iff c.event_id j,
)

pub lookup-write_claims :
    (claimer : Bytes) (until now : Time) (cs : List Submission) (rows : Rows) (c : Submission)
    → All (λ d. d.event_id ≡ c.event_id → d ≡ c) cs
    → In c cs ⊎ (lookup c.event_id rows ≡ some (claim claimer until now c))
    → lookup c.event_id (write_claims claimer until now cs rows) ≡ some (claim claimer until now c)
unfolding write_claims
lookup-write_claims claimer until now [] rows c same (inl i) = elim i [ ]
lookup-write_claims claimer until now [] rows c same (inr e) = e
lookup-write_claims claimer until now (d ∷ cs) rows c same w =
    lookup-write_claims claimer until now cs (insert d.event_id (claim claimer until now d) rows) c
      same.1 (step w)
  where
    rest : Rows
    rest = insert d.event_id (claim claimer until now d) rows

    written : d ≡ c → lookup c.event_id rest ≡ some (claim claimer until now c)
    written e = rw (← e) (lookup-insert_self d.event_id (claim claimer until now d) rows)

    step :
        In c (d ∷ cs) ⊎ (lookup c.event_id rows ≡ some (claim claimer until now c))
        → In c cs ⊎ (lookup c.event_id rest ≡ some (claim claimer until now c))
    step (inl i) = elim (In-cons i) [ inl e ↦ inr (written (sym e)) | inr j ↦ inl j ]
    step (inr e) = elim (Bool-cases (str_eq d.event_id c.event_id)) [
      | inl hit ↦ inr (written (same.0 ((str_eq_iff _ _).0 hit)))
      | inr miss ↦
          inr (lookup-insert d.event_id c.event_id (claim claimer until now d) rows ∙ rw miss e)
    ]
