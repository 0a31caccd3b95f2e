-- ===== src/Submission.antt =====
-- internal/submission/types.go, re-exported by submission.go: the record per Stripe event, its
-- state machine, and the errors of a store. A time is its nanoseconds after Go's zero time.
pub mod Machine
use go_stripenav.Base.{
  ℕ, zero, suc, ◌+◌, ◌-◌, ◌*◌, ◌/◌, ◌%◌, ◌^◌, ◌≤◌, ◌<◌, ◌≡◌, refl, sym, ap, ◌∙◌, subst, ◌≢◌, ◌↔◌,
  ◌⊎◌, inl, inr, Bool, true, false, not, ◌&&◌, ◌||◌, Option, none, some, List, [], ◌∷◌, ◌++◌, map,
  append-nil, append_assoc, arith, ltb, leb, ◌==◌, if◌then◌else◌, ==_iff, leb_iff, &&_split,
  Bool-cases, Option-cases, length, take, drop, replicate, head?, all, any, In, here, there, All,
  length-append, take-append, drop-append, take-append-drop, length-take, length-drop,
  length-replicate, Bytes, str, str_eq, str_eq_iff, str_eq_refl,
}

pub data Status : Type 0 where
  pending submitted processing accepted rejected aborted : Status

pub Status-discrete : Discrete Status
Status-discrete = hlevel

pub data Kind : Type 0 where
  invoice annulment credit_note : Kind

abbrev pub Time : Type 0
Time = ℕ

-- The zero `time.Time`, of which `IsZero` holds.
abbrev pub zero_time : Time
zero_time = 0

pub record Submission : Type 0 where
  pub event_id : Bytes
  pub kind : Kind
  pub invoice_number : Bytes
  pub operation : Bytes
  pub parent_event_id : Bytes
  pub status : Status
  pub attempts : ℕ
  pub last_error : Bytes
  pub transaction_id : Bytes
  pub next_attempt_at : Time
  pub issued_at : Time
  pub created_at : Time
  pub updated_at : Time
  pub raw_event : Bytes
  pub claimed_by : Bytes
  pub claimed_until : Time

-- The errors that the code tells apart; `io` is any other failure of a store.
pub data Error : Type 0 where
  not_found already_exists claim_lost canceled deadline_exceeded : Error
  limit_not_positive claimer_required : Error
  terminal_status : Status → Error
  bad_transition : Status → Status → Error
  io : Bytes → Error

pub data Result {ℓ} (A : Type ℓ) : Type ℓ where
  ok : A → Result A
  err : Error → Result A

pub Result-cases {ℓ} :
    {A : Type ℓ} (r : Result A) → ((a : A) × (r ≡ ok a)) ⊎ ((e : Error) × (r ≡ err e))
Result-cases (ok a) = inl (a, refl)
Result-cases (err e) = inr (e, refl)

-- `validTransitions[from]`, absent for the terminal states, and the states that it allows.
abbrev pub valid_transitions : Status → Option (Status → Bool)
valid_transitions pending = some λ next. elim next [
  | pending ↦ true
  | submitted ↦ true
  | rejected ↦ true
  | aborted ↦ true
  | _ ↦ false
]
valid_transitions submitted = some λ next. elim next [
  | processing ↦ true
  | accepted ↦ true
  | rejected ↦ true
  | aborted ↦ true
  | _ ↦ false
]
valid_transitions processing = some λ next. elim next [
  | processing ↦ true
  | accepted ↦ true
  | rejected ↦ true
  | aborted ↦ true
  | _ ↦ false
]
valid_transitions _ = none

-- `s.Status == next && (next == StatusPending || next == StatusProcessing)`.
abbrev stays : Status → Status → Bool
stays pending pending = true
stays processing processing = true
stays _ _ = false

-- `Transition`: the submission in its new state, or an error.
unfoldable pub transition : Status → Submission → Result Submission
transition next s =
    if stays s.status next
    then ok (record s { status = next })
    else elim (valid_transitions s.status) [
      | none ↦ err (terminal_status s.status)
      | some allowed ↦
          if allowed next
          then ok (record s { status = next })
          else err (bad_transition s.status next)
    ]

abbrev pub is_terminal_status : Status → Bool
is_terminal_status accepted = true
is_terminal_status rejected = true
is_terminal_status aborted = true
is_terminal_status _ = false

unfoldable pub is_terminal : Submission → Bool
is_terminal s = is_terminal_status s.status

-- `string(status)`, the label under which an outcome is counted.
abbrev pub status_text : Status → Bytes
status_text pending = str "pending"
status_text submitted = str "submitted"
status_text processing = str "processing"
status_text accepted = str "accepted"
status_text rejected = str "rejected"
status_text aborted = str "aborted"
