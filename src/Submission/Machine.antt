-- ===== src/Submission/Machine.antt =====
-- The submission state machine as a relation, and what `Transition` has to do with it.
use go_stripenav.Base.{◌≡◌, refl, ◌↔◌, Bool, true, false, arith}
use go_stripenav.Submission.{
  Status, pending, submitted, processing, accepted, rejected, aborted, Submission, ok, err,
  terminal_status, transition, is_terminal, is_terminal_status,
}

-- The moves that the state machine has: out of `pending` a (re-)submission or a verdict, out of
-- the two states that are in flight on NAV only polling and verdicts.
pub data Move : Status → Status → Type 0 where
  requeue : Move pending pending
  submit : Move pending submitted
  reject : Move pending rejected
  abort : Move pending aborted
  first_poll : Move submitted processing
  poll : Move processing processing
  accept_submitted : Move submitted accepted
  reject_submitted : Move submitted rejected
  abort_submitted : Move submitted aborted
  accept_processing : Move processing accepted
  reject_processing : Move processing rejected
  abort_processing : Move processing aborted

ruleset moves = (requeue, submit, reject, abort, first_poll, poll)

ruleset verdicts = (
  accept_submitted, reject_submitted, abort_submitted, accept_processing, reject_processing,
  abort_processing,
)

Move-transition :
    {a b : Status}
    → Move a b
    → (s : Submission) → s.status ≡ a
    → transition b s ≡ ok (record s { status = b })
unfolding transition
Move-transition requeue s e = ground arith
Move-transition submit s e = ground arith
Move-transition reject s e = ground arith
Move-transition abort s e = ground arith
Move-transition first_poll s e = ground arith
Move-transition poll s e = ground arith
Move-transition accept_submitted s e = ground arith
Move-transition reject_submitted s e = ground arith
Move-transition abort_submitted s e = ground arith
Move-transition accept_processing s e = ground arith
Move-transition reject_processing s e = ground arith
Move-transition abort_processing s e = ground arith

pub transition-ok :
    (next : Status) (s : Submission) {t : Submission}
    → transition next s ≡ ok t
    → Move s.status next × (t ≡ record s { status = next })
unfolding transition
transition-ok next s h = (grind (arith, moves, verdicts), ground arith)

-- Transition succeeds exactly on the moves of the state machine, and a success changes the status
-- alone.
pub transition-Move :
    (next : Status) (s : Submission)
    → (Move s.status next ↔ (transition next s ≡ ok (record s { status = next })))
      × ((t : Submission) → transition next s ≡ ok t → t ≡ record s { status = next })
transition-Move next s = (
  (λ m. Move-transition m s refl, λ e. (transition-ok next s e).0),
  λ t e. (transition-ok next s e).1,
)

-- A sequence of moves, however long.
pub data Moves : Status → Status → Type 0 where
  stop : {a : Status} → Moves a a
  move : {a b c : Status} → Move a b → Moves b c → Moves a c

-- Being past submission: the row carries a NAV transaction, or is finished.
abbrev pub is_past : Status → Bool
is_past pending = false
is_past _ = true

pub Move-is_past : {a b : Status} → Move a b → is_past a ≡ true → is_past b ≡ true
Move-is_past requeue h = cc
Move-is_past submit h = refl
Move-is_past _ h = refl

pub Moves-is_past : {a b : Status} → Moves a b → is_past a ≡ true → is_past b ≡ true
Moves-is_past stop h = h
Moves-is_past (move m r) h = Moves-is_past r (Move-is_past m h)

pub Move-terminal : {a b : Status} → Move a b → is_terminal_status a ≡ false
Move-terminal requeue = refl
Move-terminal _ = refl

pub Moves-terminal : {a b : Status} → Moves a b → is_terminal_status a ≡ true → b ≡ a
Moves-terminal stop h = refl
Moves-terminal (move m r) h = cc (Move-terminal m)

-- From a terminal submission every transition is refused, by an error that names its status.
pub transition-terminal :
    (next : Status) (s : Submission)
    → is_terminal s ≡ true
    → transition next s ≡ err (terminal_status s.status)
unfolding transition is_terminal
transition-terminal next s h = ground arith
