-- ===== src/Worker/Effects.antt =====
-- What the worker of worker.go acts on: the submission store behind its interface
-- (internal/submission/types.go), the NAV client's replies, the clock and the metrics.
use go_stripenav.Base.{
  ◌≡◌, ◌∙◌, refl, inl, inr, true, Option, none, some, List, [], arith, if◌then◌else◌, Bool-cases,
  Option-cases, Bytes, str_eq, str_eq_iff,
}
use go_stripenav.Submission.{
  Submission, Time, zero_time, Error, not_found, Result, Result-cases, ok,
}
use go_stripenav.Store.{Store, Context, get, update_status, release_claim}
use go_stripenav.Store.Table.{lookup, lookup-insert, Keyed, insert-Keyed, lookup_id}

-- One entry of what a MetricsRecorder is told.
pub data Metric : Type 0 where
  submission_result : Bytes → Metric
  latency : Bytes → Metric

abbrev pub Mutator : Type 0
Mutator = Submission → Result Submission × List Metric

abbrev pub KeepsId : Mutator → Type 0
KeepsId mut = (s t : Submission) → (mut s).0 ≡ ok t → t.event_id ≡ s.event_id

-- UpdateStatus either wrote the mutated row, stamped with the time, and left the others, or
-- failed and left every row; what the mutator told the metrics before it failed stands.
pub data Update {State : Type 0} (row : Bytes → State → Option Submission) (now : Time) (id : Bytes)
    (mut : Mutator) (s : State) (r : State × Option Error × List Metric) : Type 0 where
  wrote :
      (sub t : Submission)
      → row id s ≡ some sub
      → (mut sub).0 ≡ ok t
      → r.1 ≡ none
      → r.2 ≡ (mut sub).1
      → ((j : Bytes)
          → row j r.0 ≡ (if str_eq id j then some (record t { updated_at = now }) else row j s))
      → Update row now id mut s r
  failed :
      (e : Error) → r.1 ≡ some e → ((j : Bytes) → row j r.0 ≡ row j s) → Update row now id mut s r

-- The part of SubmissionStore that a lifecycle calls, and its contract. `row` is what is stored
-- under an event id, and a store is sound if it keeps every row under its own id; a context that is done, or a failure of the store, is the call's `Context`.
pub record SubmissionStore : Type 1 where
  pub State : Type 0
  pub row : Bytes → State → Option Submission
  pub IsSound : State → Type 0
  pub get : Context → Bytes → State → Result Submission
  pub update : Context → Time → Bytes → Mutator → State → State × Option Error × List Metric
  pub release : Context → Time → Bytes → Bytes → State → State × Option Error
  pub get_row :
      (ctx : Context) (id : Bytes) (s : State) (r : Submission)
      → get ctx id s ≡ ok r
      → row id s ≡ some r
  pub get_live :
      (id : Bytes) (s : State) (r : Submission) → row id s ≡ some r → get none id s ≡ ok r
  pub update_lem :
      (ctx : Context) (now : Time) (id : Bytes) (mut : Mutator) (s : State)
      → Update row now id mut s (update ctx now id mut s)
  pub update-IsSound :
      (ctx : Context) (now : Time) (id : Bytes) (mut : Mutator) (s : State)
      → KeepsId mut
      → IsSound s
      → IsSound (update ctx now id mut s).0
  pub update_live :
      (now : Time) (id : Bytes) (mut : Mutator) (s : State) (sub t : Submission)
      → row id s ≡ some sub
      → (mut sub).0 ≡ ok t
      → (update none now id mut s).1 ≡ none
  pub release_status :
      (ctx : Context) (now : Time) (id claimer : Bytes) (s : State) (j : Bytes) (r : Submission)
      → row j s ≡ some r
      → (r' : Submission) × (row j (release ctx now id claimer s).0 ≡ some r')
        × (r'.status ≡ r.status)

-- The in-process store keeps the contract.
pub in_memory-get :
    (ctx : Context) (id : Bytes) (s : Store) (r : Submission)
    → get ctx id s ≡ ok r
    → lookup id s.rows ≡ some r
unfolding get
in_memory-get ctx id s r h = ground arith

pub in_memory-get_live :
    (id : Bytes) (s : Store) (r : Submission) → lookup id s.rows ≡ some r → get none id s ≡ ok r
unfolding get
in_memory-get_live id s r h = ground arith

pub in_memory-update :
    (ctx : Context) (now : Time) (id : Bytes) (mut : Mutator) (s : Store)
    → Update (λ j t. lookup j t.rows) now id mut s (update_status ctx now id mut s)
unfolding update_status
in_memory-update (some e) now id mut s = failed e refl (λ j. refl)
in_memory-update none now id mut s = elim (Option-cases (lookup id s.rows)) [
  | inl e ↦ rw (e, update_status) (failed not_found refl (λ j. refl))
  | inr (r, e) ↦ elim (Result-cases (mut r).0) [
    | inl (t, q) ↦
        wrote r t e q (ground arith) (ground arith)
          (λ j. ground (arith, lookup-insert id j (record t { updated_at = now }) s.rows))
    | inr (x, q) ↦ failed x (ground arith) (λ j. ground arith)
  ]
]

pub in_memory-Keyed :
    (ctx : Context) (now : Time) (id : Bytes) (mut : Mutator) (s : Store)
    → KeepsId mut
    → Keyed s.rows
    → Keyed (update_status ctx now id mut s).0.rows
unfolding update_status
in_memory-Keyed (some e) now id mut s law k = k
in_memory-Keyed none now id mut s law k = elim (Option-cases (lookup id s.rows)) [
  | inl e ↦ rw (e, update_status) k
  | inr (r, e) ↦ elim (Result-cases (mut r).0) [
    | inl (t, q) ↦
        rw (e, q, update_status)
          (insert-Keyed id (record t { updated_at = now }) s.rows
            (law r t q ∙ lookup_id s.rows id k e) k)
    | inr (x, q) ↦ rw (e, q, update_status) k
  ]
]

pub in_memory-live :
    (now : Time) (id : Bytes) (mut : Mutator) (s : Store) (sub t : Submission)
    → lookup id s.rows ≡ some sub
    → (mut sub).0 ≡ ok t
    → (update_status none now id mut s).1 ≡ none
unfolding update_status
in_memory-live now id mut s sub t p q = ground arith

pub in_memory-release :
    (ctx : Context) (now : Time) (id claimer : Bytes) (s : Store) (j : Bytes) (r : Submission)
    → lookup j s.rows ≡ some r
    → (r' : Submission) × (lookup j (release_claim ctx now id claimer s).0.rows ≡ some r')
      × (r'.status ≡ r.status)
unfolding release_claim
in_memory-release (some x) now id claimer s j r e = (r, e, refl)
in_memory-release none now id claimer s j r e = elim (Option-cases (lookup id s.rows)) [
  | inl p ↦ (r, ground arith, refl)
  | inr (q, p) ↦ elim (Bool-cases (str_eq q.claimed_by claimer)) [
    | inr lost ↦ (r, ground arith, refl)
    | inl held ↦ freed q p held
  ]
]
  where
    free : Submission → Submission
    free q = record q { claimed_by = []; claimed_until = zero_time; updated_at = now }

    freed :
        (q : Submission)
        → lookup id s.rows ≡ some q
        → str_eq q.claimed_by claimer ≡ true
        → (r' : Submission) × (lookup j (release_claim none now id claimer s).0.rows ≡ some r')
          × (r'.status ≡ r.status)
    freed q p held = elim (Bool-cases (str_eq id j)) [
      | inl hit ↦ (
        free q,
        ground (arith, lookup-insert id j (free q) s.rows),
        ground (arith, p, e, str_eq_iff id j),
      )
      | inr miss ↦ (r, ground (arith, lookup-insert id j (free q) s.rows), refl)
    ]

abbrev pub in_memory : SubmissionStore
in_memory = record {
  State = Store;
  row = λ j t. lookup j t.rows;
  IsSound = λ t. Keyed t.rows;
  get = get;
  update = update_status;
  release = release_claim;
  get_row = in_memory-get;
  get_live = in_memory-get_live;
  update_lem = in_memory-update;
  update-IsSound = in_memory-Keyed;
  update_live = in_memory-live;
  release_status = in_memory-release;
}
