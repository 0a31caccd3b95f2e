-- ===== src/Store/Calls.antt =====
-- Any interleaving of the methods of internal/storeinmem/store.go, as a list of timed calls.
use go_stripenav.Base.{
  ℕ, ◌+◌, ◌≡◌, refl, ◌∙◌, inl, inr, not, ◌&&◌, none, some, List, [], ◌∷◌, arith, Bool-cases,
  Option-cases, Bytes, str_eq, str_eq_iff,
}
use go_stripenav.Submission.{Submission, Time, zero_time, Result, ok, Result-cases}
use go_stripenav.Store.{Store, put, update_status, claim_batch, renew_claim, release_claim}
use go_stripenav.Store.Table.{lookup, insert, Keyed, insert-Keyed, lookup_id}
use go_stripenav.Store.Batch.{claim_batch-Keyed}

abbrev pub Mutator : Type 0
Mutator = Submission → Result Submission

pub data Call : Type 0 where
  puts : Submission → Call
  updates : Bytes → Mutator → Call
  claims : Bytes → ℕ → Time → Call
  renews : Bytes → Bytes → Time → Call
  releases : Bytes → Bytes → Call

abbrev silent : Mutator → Submission → Result Submission × List (Unit {0})
silent mut sub = (mut sub, [])

-- The store after a call; a call that fails leaves it as it was.
unfoldable pub exec : Time → Call → Store → Store
exec now (puts sub) s = (put none sub s).0
exec now (updates id mut) s = (update_status none now id (silent mut) s).0
exec now (claims claimer limit lease) s = (claim_batch none now claimer limit lease s).0
exec now (renews id claimer lease) s = (renew_claim none now id claimer lease s).0
exec now (releases id claimer) s = (release_claim none now id claimer s).0

unfoldable pub exec_all : List (Time × Call) → Store → Store
exec_all [] s = s
exec_all ((now, c) ∷ cs) s = exec_all cs (exec now c s)

-- The contract of UpdateStatus: a mutator changes neither the event id nor the claim.
abbrev pub KeepsClaim : Mutator → Type 0
KeepsClaim mut =
    (r t : Submission)
    → mut r ≡ ok t
    → (t.event_id ≡ r.event_id)
      × (t.claimed_by ≡ r.claimed_by)
      × (t.claimed_until ≡ r.claimed_until)

abbrev pub Lawful : Call → Type 0
Lawful (updates id mut) = KeepsClaim mut
Lawful (puts sub) = Unit {0}
Lawful (claims claimer limit lease) = Unit {0}
Lawful (renews id claimer lease) = Unit {0}
Lawful (releases id claimer) = Unit {0}

-- Every call but a claim leaves the store, or writes one row.
pub data Written (now : Time) (s s' : Store) : Call → Type 0 where
  same : {c : Call} → s' ≡ s → Written now s s' c
  put_row :
      (sub : Submission)
      → lookup sub.event_id s.rows ≡ none
      → s' ≡ record { rows = insert sub.event_id sub s.rows }
      → Written now s s' (puts sub)
  updated :
      (id : Bytes) (mut : Mutator) (r t : Submission)
      → lookup id s.rows ≡ some r
      → mut r ≡ ok t
      → s' ≡ record { rows = insert id (record t { updated_at = now }) s.rows }
      → Written now s s' (updates id mut)
  batch :
      (claimer : Bytes) (limit : ℕ) (lease : Time) (out : List Submission)
      → claim_batch none now claimer limit lease s ≡ (s', ok out)
      → Written now s s' (claims claimer limit lease)
  renewed :
      (id claimer : Bytes) (lease : Time) (r : Submission)
      → lookup id s.rows ≡ some r
      → r.claimed_by ≡ claimer
      → s' ≡ record {
        rows = insert id (record r { claimed_until = now + lease; updated_at = now }) s.rows;
      }
      → Written now s s' (renews id claimer lease)
  released :
      (id claimer : Bytes) (r : Submission)
      → lookup id s.rows ≡ some r
      → r.claimed_by ≡ claimer
      → s' ≡ record {
        rows =
            insert id
              (record r { claimed_by = []; claimed_until = zero_time; updated_at = now })
              s.rows;
      }
      → Written now s s' (releases id claimer)

pub exec-Written : (now : Time) (c : Call) (s : Store) → Written now s (exec now c s) c
unfolding exec put update_status renew_claim release_claim claim_batch
exec-Written now (puts sub) s = elim (Option-cases (lookup sub.event_id s.rows)) [
  | inl e ↦ put_row sub e (ground arith)
  | inr (old, e) ↦ same (ground arith)
]
exec-Written now (updates id mut) s = elim (Option-cases (lookup id s.rows)) [
  | inl e ↦ same (ground arith)
  | inr (r, e) ↦ elim (Result-cases (mut r)) [
    | inl (t, q) ↦ updated id mut r t e q (ground arith)
    | inr (x, q) ↦ same (ground arith)
  ]
]
exec-Written now (claims claimer limit lease) s =
    elim (Result-cases (claim_batch none now claimer limit lease s).1) [
      | inl (out, q) ↦ batch claimer limit lease out (ground arith)
      | inr (x, q) ↦ same (ground arith)
    ]
exec-Written now (renews id claimer lease) s = elim (Option-cases (lookup id s.rows)) [
  | inl e ↦ same (ground arith)
  | inr (r, e) ↦ elim (Bool-cases (str_eq r.claimed_by claimer && not (str_eq claimer []))) [
    | inl q ↦
        renewed id claimer lease r e (ground (arith, str_eq_iff r.claimed_by claimer))
          (ground arith)
    | inr q ↦ same (ground arith)
  ]
]
exec-Written now (releases id claimer) s = elim (Option-cases (lookup id s.rows)) [
  | inl e ↦ same (ground arith)
  | inr (r, e) ↦ elim (Bool-cases (str_eq r.claimed_by claimer)) [
    | inl q ↦ released id claimer r e ((str_eq_iff _ _).0 q) (ground arith)
    | inr q ↦ same (ground arith)
  ]
]

pub Written-Keyed :
    (now : Time) (c : Call) (s s' : Store)
    → Written now s s' c
    → Lawful c
    → Keyed s.rows
    → Keyed s'.rows
Written-Keyed now c s s' (same e) law k = rw e k
Written-Keyed now _ s s' (put_row sub _ e) law k =
    rw e (insert-Keyed sub.event_id sub s.rows refl k)
Written-Keyed now _ s s' (updated id mut r t p q e) law k =
    rw e (insert-Keyed id _ s.rows ((law r t q).0 ∙ lookup_id s.rows id k p) k)
Written-Keyed now _ s s' (batch claimer limit lease out e) law k =
    claim_batch-Keyed now claimer limit lease s k e
Written-Keyed now _ s s' (renewed id claimer lease r p _ e) law k =
    rw e (insert-Keyed id _ s.rows (lookup_id s.rows id k p) k)
Written-Keyed now _ s s' (released id claimer r p _ e) law k =
    rw e (insert-Keyed id _ s.rows (lookup_id s.rows id k p) k)

-- Each call of anybody, with a mutator that keeps the event id, keeps every row under its own id.
pub exec-Keyed :
    (now : Time) (c : Call) (s : Store) → Lawful c → Keyed s.rows → Keyed (exec now c s).rows
exec-Keyed now c s law k = Written-Keyed now c s (exec now c s) (exec-Written now c s) law k
