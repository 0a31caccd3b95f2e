-- ===== src/Worker/Mutators.antt =====
-- The functions that the worker of worker.go hands to UpdateStatus, with what they tell the metrics.
use go_stripenav.Base.{
  ℕ, ◌+◌, ◌≡◌, refl, sym, ap, ◌∙◌, subst, ◌⊎◌, inl, inr, Bool, true, false, not, [], ◌∷◌, ◌++◌,
  arith, if◌then◌else◌, Bytes, str, str_eq,
}
use go_stripenav.Submission.{
  Submission, Status, Time, pending, submitted, processing, accepted, rejected, aborted, ok,
  transition, status_text,
}
use go_stripenav.Submission.Machine.{Move, transition-ok}
use go_stripenav.Worker.{Worker}
use go_stripenav.Worker.Effects.{submission_result, Mutator}

-- parentReady: try again after the worker's sleep.
unfoldable pub postpone : Worker → Time → Mutator
postpone w now s = (ok (record s { next_attempt_at = now + w.max_sleep }), [])

-- parentReady: the parent has failed for good.
unfoldable pub abort_child : Submission → Mutator
abort_child parent s = (
  transition aborted (record s {
    last_error =
        str "parent submission "
        ++ parent.event_id
        ++ str " terminally failed: "
        ++ parent.last_error;
  }),
  [],
)

-- markFailure; `backoff` is the delay for the attempts made.
unfoldable pub mark_failure : (ℕ → ℕ) → Time → Bytes → Bool → Mutator
mark_failure backoff now cause retriable s =
    let s' = record s { attempts = s.attempts + 1; last_error = cause } in
    if not retriable
    then (transition rejected s', submission_result (status_text rejected) ∷ [])
    else (transition pending (record s' { next_attempt_at = now + backoff (s.attempts + 1) }), [])

-- markPollFailure: a retriable failure moves the next attempt, and not the status.
unfoldable pub mark_poll_failure : (ℕ → ℕ) → Time → Bytes → Bool → Mutator
mark_poll_failure backoff now cause retriable s =
    let s' = record s { attempts = s.attempts + 1; last_error = cause } in
    if not retriable
    then (transition rejected s', submission_result (status_text rejected) ∷ [])
    else (ok (record s' { next_attempt_at = now + backoff (s.attempts + 1) }), [])

-- attemptSubmit, after the client returned a result.
unfoldable pub mark_submitted : Worker → Time → Bytes → Mutator
mark_submitted w now transaction s = (
  transition submitted (record s {
    transaction_id = transaction;
    last_error = [];
    attempts = s.attempts + 1;
    next_attempt_at = now + w.poll_interval;
  }),
  [],
)

-- pollStatus, by the verdict.
unfoldable pub mark_rejected : Bytes → Mutator
mark_rejected detail s = (
  transition rejected (record s {
    last_error =
        if not (str_eq detail [])
        then str "NAV reported ABORTED: " ++ detail
        else str "NAV reported ABORTED";
  }),
  [],
)

unfoldable pub mark_accepted : Mutator
mark_accepted s = (transition accepted (record s { last_error = [] }), [])

unfoldable pub mark_processing : Worker → Time → Mutator
mark_processing w now s =
    (transition processing (record s { next_attempt_at = now + w.poll_interval }), [])

-- A mutator keeps the event id and the claim, and moves the status along the machine or not at all.
abbrev pub Lawful : Mutator → Type 0
Lawful mut =
    (s t : Submission)
    → (mut s).0 ≡ ok t
    → (Move s.status t.status ⊎ (t.status ≡ s.status))
      × (t.event_id ≡ s.event_id)
      × (t.claimed_by ≡ s.claimed_by)
      × (t.claimed_until ≡ s.claimed_until)

transition-Lawful :
    (next : Status) (s t u : Submission)
    → transition next s ≡ ok t
    → (s.status ≡ u.status)
    → (s.event_id ≡ u.event_id)
    → (s.claimed_by ≡ u.claimed_by)
    → (s.claimed_until ≡ u.claimed_until)
    → (Move u.status t.status ⊎ (t.status ≡ u.status))
      × (t.event_id ≡ u.event_id)
      × (t.claimed_by ≡ u.claimed_by)
      × (t.claimed_until ≡ u.claimed_until)
transition-Lawful next s t u h a b c d =
    let (m, e) = transition-ok next s h in
    (
      inl (
          subst (λ x. Move x t.status) a
            (subst (Move s.status) (sym (ap (λ (x : Submission). x.status) e)) m)),
      ap (λ (x : Submission). x.event_id) e ∙ b,
      ap (λ (x : Submission). x.claimed_by) e ∙ c,
      ap (λ (x : Submission). x.claimed_until) e ∙ d,
    )

pub postpone-Lawful : (w : Worker) (now : Time) → Lawful (postpone w now)
unfolding postpone
postpone-Lawful w now s t h = (inr (ground arith), ground arith, ground arith, ground arith)

pub abort_child-Lawful : (parent : Submission) → Lawful (abort_child parent)
unfolding abort_child
abort_child-Lawful parent s t h = transition-Lawful aborted _ t s h refl refl refl refl

pub mark_failure-Lawful :
    (backoff : ℕ → ℕ) (now : Time) (cause : Bytes) (retriable : Bool)
    → Lawful (mark_failure backoff now cause retriable)
unfolding mark_failure
mark_failure-Lawful backoff now cause true s t h =
    transition-Lawful pending _ t s h refl refl refl refl
mark_failure-Lawful backoff now cause false s t h =
    transition-Lawful rejected _ t s h refl refl refl refl

pub mark_poll_failure-Lawful :
    (backoff : ℕ → ℕ) (now : Time) (cause : Bytes) (retriable : Bool)
    → Lawful (mark_poll_failure backoff now cause retriable)
unfolding mark_poll_failure
mark_poll_failure-Lawful backoff now cause true s t h =
    (inr (ground arith), ground arith, ground arith, ground arith)
mark_poll_failure-Lawful backoff now cause false s t h =
    transition-Lawful rejected _ t s h refl refl refl refl

pub mark_submitted-Lawful :
    (w : Worker) (now : Time) (transaction : Bytes) → Lawful (mark_submitted w now transaction)
unfolding mark_submitted
mark_submitted-Lawful w now transaction s t h =
    transition-Lawful submitted _ t s h refl refl refl refl

pub mark_rejected-Lawful : (detail : Bytes) → Lawful (mark_rejected detail)
unfolding mark_rejected
mark_rejected-Lawful detail s t h = transition-Lawful rejected _ t s h refl refl refl refl

pub mark_accepted-Lawful : Lawful mark_accepted
unfolding mark_accepted
mark_accepted-Lawful s t h = transition-Lawful accepted _ t s h refl refl refl refl

pub mark_processing-Lawful : (w : Worker) (now : Time) → Lawful (mark_processing w now)
unfolding mark_processing
mark_processing-Lawful w now s t h = transition-Lawful processing _ t s h refl refl refl refl
