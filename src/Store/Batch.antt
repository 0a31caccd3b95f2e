-- ===== src/Store/Batch.antt =====
-- What ClaimBatch of internal/storeinmem/store.go promises of the rows that it returns, of those
-- that it leaves, and of the order and number in which it hands them out.
use go_stripenav.Base.{
  ℕ, ◌+◌, ◌<◌, ◌≡◌, sym, ap, ◌∙◌, subst, ◌≢◌, inl, inr, true, none, some, List, [], ◌∷◌, map, arith,
  In, here, there, All, Bytes, str_eq_iff, In-cons,
}
use mathlib.Core.Path.{ap₂}
use go_stripenav.Submission.{Submission, Time, ok}
use go_stripenav.Store.{Store, is_claimable, claim, chosen, write_claims, claim_batch}
use go_stripenav.Store.Table.{lookup, Keyed}
use go_stripenav.Store.Claims.{
  In-chosen, write_claims-Keyed, lookup-write_claims, lookup-write_claims_other,
}

-- A batch that was handed out: the chosen rows, each with its claim, written back.
pub record Claimed (now : Time) (claimer : Bytes) (limit : ℕ) (lease : Time) (s s' : Store)
    (out : List Submission) : Type 0 where
  pub some_limit : 0 < limit
  pub some_claimer : claimer ≢ []
  pub batch : out ≡ map (claim claimer (now + lease) now) (chosen now limit s.rows)
  pub written : s'.rows ≡ write_claims claimer (now + lease) now (chosen now limit s.rows) s.rows

pub claim_batch-Claimed :
    (now : Time) (claimer : Bytes) (limit : ℕ) (lease : Time) (s : Store) {s' : Store}
    {out : List Submission}
    → claim_batch none now claimer limit lease s ≡ (s', ok out)
    → Claimed now claimer limit lease s s' out
unfolding claim_batch
claim_batch-Claimed now claimer limit lease s h = record {
  some_limit = ground arith;
  some_claimer = ground (arith, str_eq_iff claimer []);
  batch = ground arith;
  written = ground arith;
}

pub In-map :
    (f : Submission → Submission) (xs : List Submission) {v : Submission}
    → In v (map f xs)
    → (x : Submission) × In x xs × (v ≡ f x)
In-map f [] i = elim i [ ]
In-map f (x ∷ xs) i = elim (In-cons i) [
  | inl e ↦ (x, here, e)
  | inr j ↦ let (y, k, e) = In-map f xs j in (y, there k, e)
]

pub map-In :
    {B : Type 0} (f : Submission → B) (xs : List Submission) {x : Submission}
    → In x xs
    → In (f x) (map f xs)
map-In f [] i = elim i [ ]
map-In f (x ∷ xs) here = here
map-In f (x ∷ xs) (there i) = there (map-In f xs i)

-- Two chosen rows of one id are the same row of the map.
All-of_In {κ} :
    (P : Submission → Type κ) (xs : List Submission) → ((v : Submission) → In v xs → P v) → All P xs
All-of_In P [] f = tt
All-of_In P (x ∷ xs) f = (f x here, All-of_In P xs (λ v i. f v (there i)))

module _ (now : Time) (claimer : Bytes) (limit : ℕ) (lease : Time) (s : Store) {s' : Store}
    {out : List Submission} (keyed : Keyed s.rows)
    (run : claim_batch none now claimer limit lease s ≡ (s', ok out)) where
  same_id :
      (c : Submission)
      → In c (chosen now limit s.rows)
      → All (λ d. d.event_id ≡ c.event_id → d ≡ c) (chosen now limit s.rows)
  same_id c i =
      All-of_In (λ d. d.event_id ≡ c.event_id → d ≡ c) (chosen now limit s.rows)
        λ d j e.
          let p = (In-chosen now limit s.rows keyed i).0 in
          let q = (In-chosen now limit s.rows keyed j).0 in ground (arith, p, q, e)

  returned :
      (v r : Submission)
      → In r (chosen now limit s.rows)
      → v ≡ claim claimer (now + lease) now r
      → (lookup v.event_id s.rows ≡ some r)
        × (is_claimable now r ≡ true)
        × (lookup v.event_id s'.rows ≡ some v)
  returned v r j e =
      let done = claim_batch-Claimed now claimer limit lease s run in
      let (p, c) = In-chosen now limit s.rows keyed j in
      let id : v.event_id ≡ r.event_id = ap (λ (u : Submission). u.event_id) e in
      let stored =
        lookup-write_claims claimer (now + lease) now (chosen now limit s.rows) s.rows r
          (same_id r j) (inl j) in
      (ap (λ k. lookup k s.rows) id ∙ p, c, ap₂ lookup id done.written ∙ stored ∙ ap some (sym e))

  -- In a store that keeps every row under its own id, each row that ClaimBatch returns stood there
  -- under its id and was claimable: unfinished, due, and not under a lease that still runs. It is
  -- returned, and now stored, with the claim and nothing else changed.
  pub claim_batch_sound :
      (v : Submission)
      → In v out
      → (r : Submission) × (lookup v.event_id s.rows ≡ some r)
        × (is_claimable now r ≡ true)
        × (v ≡ claim claimer (now + lease) now r)
        × (lookup v.event_id s'.rows ≡ some v)
  claim_batch_sound v i =
      let done = claim_batch-Claimed now claimer limit lease s run in
      let (r, j, e) = In-map _ (chosen now limit s.rows) (subst (In v) done.batch i) in
      let (p, c, q) = returned v r j e in (r, p, c, e, q)

  pub claim_batch-Keyed : Keyed s'.rows
  claim_batch-Keyed =
      subst Keyed (sym (claim_batch-Claimed now claimer limit lease s run).written)
        (write_claims-Keyed claimer (now + lease) now (chosen now limit s.rows) s.rows keyed)

  -- In a store that keeps every row under its own id, a row that a successful ClaimBatch did not
  -- return is untouched.
  pub claim_batch_frame :
      (id : Bytes)
      → ((v : Submission) → In v out → v.event_id ≢ id)
      → lookup id s'.rows ≡ lookup id s.rows
  claim_batch_frame id h =
      let done = claim_batch-Claimed now claimer limit lease s run in
      ap (lookup id) done.written
      ∙ lookup-write_claims_other claimer (now + lease) now (chosen now limit s.rows) s.rows id (
          All-of_In (λ c. c.event_id ≢ id) (chosen now limit s.rows)
            λ c j.
              h (claim claimer (now + lease) now c)
                (subst (In (claim claimer (now + lease) now c)) (sym done.batch) (map-In _ _ j)))
