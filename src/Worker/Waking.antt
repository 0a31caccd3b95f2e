-- ===== src/Worker/Waking.antt =====
-- worker.go: Wakeup and the waiting of Run, on the worker's channel of one place and its timer.
pub mod Fits
pub mod Returns
pub mod Claims
pub mod Kept
use go_stripenav.Base.{
  ℕ, suc, ◌-◌, ◌≡◌, refl, subst, inl, inr, Bool, true, false, Option, none, some, List, [], ◌∷◌,
  arith, Option-cases,
}

-- A `time.Timer`: it runs, it holds the value of its end in its channel, or neither.
pub data Timer : Type 0 where
  running : Timer
  fired : Timer
  idle : Timer

-- Where Run stands: at its select; at `timer.Stop`; at the receive after it; at `timer.Reset`; at
-- claimAndProcess; or it has returned.
pub data Place : Type 0 where
  selecting : Place
  stopping : Place
  draining : Place
  resetting : Place
  claiming : Place
  returned : Place

-- `pending` is the channel's one place; `claims` counts the calls of claimAndProcess that have begun.
pub record Waiting : Type 0 where
  pub place : Place
  pub timer : Timer
  pub pending : Bool
  pub claims : ℕ

-- What happens next: the handler calls Wakeup, maxSleep is over, the context is done and Run takes
-- that case, Run takes the wakeup's case or the timer's, or Run goes on to its next statement.
pub data Action : Type 0 where
  ring : Action
  expire : Action
  take_done : Action
  take_wakeup : Action
  take_timer : Action
  go_on : Action

-- Run before its loop.
abbrev pub begin : Waiting
begin = record { place = selecting; timer = running; pending = false; claims = 0 }

-- Wakeup sends if the channel has room, and else leaves it.
unfoldable pub wakeup : Waiting → Waiting
wakeup l = record l { pending = true }

-- `timer.Stop` tells whether it stopped the timer. Where a timer `discards`, as those of Go 1.23 and
-- later do, Stop also stops one whose value was not received; the value of others stays to be received.
abbrev pub stop_timer : Timer → Bool → Waiting → Waiting
stop_timer running discards l = record l { place = resetting; timer = idle }
stop_timer fired true l = record l { place = resetting; timer = idle }
stop_timer fired false l = record l { place = draining }
stop_timer idle discards l = record l { place = draining }

abbrev pub drain : Timer → Waiting → Option Waiting
drain fired l = some (record l { place = resetting; timer = idle })
drain running l = none
drain idle l = none

abbrev pub reset_timer : Timer → Bool → Timer
reset_timer fired true = running
reset_timer fired false = fired
reset_timer running discards = running
reset_timer idle discards = running

-- A case of the select.
abbrev pub at_select : Place → Option Waiting → Option Waiting
at_select selecting o = o
at_select stopping o = none
at_select draining o = none
at_select resetting o = none
at_select claiming o = none
at_select returned o = none

abbrev pub receive_wakeup : Bool → Waiting → Option Waiting
receive_wakeup true l = some (record l { place = stopping; pending = false })
receive_wakeup false l = none

abbrev pub receive_timer : Timer → Waiting → Option Waiting
receive_timer fired l = some (record l { place = resetting; timer = idle })
receive_timer running l = none
receive_timer idle l = none

abbrev pub on_expire : Timer → Waiting → Option Waiting
on_expire running l = some (record l { timer = fired })
on_expire fired l = none
on_expire idle l = none

abbrev pub advance : Bool → Place → Waiting → Option Waiting
advance discards selecting l = none
advance discards stopping l = some (stop_timer l.timer discards l)
advance discards draining l = drain l.timer l
advance discards resetting l =
    some
      (record l { place = claiming; timer = reset_timer l.timer discards; claims = suc l.claims })
advance discards claiming l = some (record l { place = selecting })
advance discards returned l = none

-- `none` where the action cannot happen.
unfoldable pub perform : Bool → Action → Waiting → Option Waiting
unfolding wakeup
perform discards ring l = some (wakeup l)
perform discards expire l = on_expire l.timer l
perform discards take_done l = at_select l.place (some (record l { place = returned }))
perform discards take_wakeup l = at_select l.place (receive_wakeup l.pending l)
perform discards take_timer l = at_select l.place (receive_timer l.timer l)
perform discards go_on l = advance discards l.place l

unfoldable pub perform_all : Bool → List Action → Waiting → Option Waiting
perform_all discards [] l = some l
perform_all discards (a ∷ xs) l = elim (perform discards a l) [
  | none ↦ none
  | some m ↦ perform_all discards xs m
]

abbrev pub standing : Place → Timer → Bool → ℕ → Waiting
standing p t b n = record { place = p; timer = t; pending = b; claims = n }

-- What holds of the state that an action leads to, if it can happen.
abbrev pub Later : (Waiting → Type 0) → Option Waiting → Type 0
Later P none = Unit {0}
Later P (some m) = P m

pub at_select-Later :
    (P : Waiting → Type 0) (p : Place) (o : Option Waiting)
    → (p ≡ selecting → Later P o)
    → Later P (at_select p o)
at_select-Later P selecting o h = h refl
at_select-Later P stopping o h = tt
at_select-Later P draining o h = tt
at_select-Later P resetting o h = tt
at_select-Later P claiming o h = tt
at_select-Later P returned o h = tt

-- What every action keeps holds after any of them.
pub perform_all-keep :
    (discards : Bool) (P : Waiting → Type 0)
    → ((a : Action) (l : Waiting) → P l → Later P (perform discards a l))
    → (xs : List Action) (l m : Waiting) → P l
    → perform_all discards xs l ≡ some m
    → P m
unfolding perform_all
perform_all-keep discards P keep [] l m h e = subst P (ground (arith, e)) h
perform_all-keep discards P keep (a ∷ xs) l m h e = elim (Option-cases (perform discards a l)) [
  | inl g ↦ absurd (ground (arith, g, e))
  | inr (k, g) ↦
      perform_all-keep discards P keep xs k m (subst (Later P) g (keep a l h))
        (ground (arith, g, e))
]
