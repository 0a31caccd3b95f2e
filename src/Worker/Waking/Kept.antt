-- ===== src/Worker/Waking/Kept.antt =====
-- worker.go: what becomes of a Wakeup.
use go_stripenav.Base.{ℕ, ◌≤◌, ◌<◌, ◌≡◌, refl, ◌⊎◌, inl, inr, Bool, true, false, some, List, arith}
use go_stripenav.Worker.Waking.{
  Timer, running, fired, idle, Place, selecting, stopping, draining, resetting, claiming, returned,
  Waiting, Action, ring, expire, take_done, take_wakeup, take_timer, go_on, wakeup, receive_wakeup,
  receive_timer, perform, perform_all, standing, Later, at_select-Later, perform_all-keep,
}

-- Run is on its way to the begin of a claim.
abbrev pub is_on_way : Place → Bool
is_on_way selecting = false
is_on_way stopping = true
is_on_way draining = true
is_on_way resetting = true
is_on_way claiming = false
is_on_way returned = false

-- Since n claims had begun, a wakeup came to another, is still owed one, or Run has returned.
abbrev pub IsKept : ℕ → Waiting → Type 0
IsKept n l =
    (n < l.claims) ⊎ ((l.pending ≡ true) ⊎ ((is_on_way l.place ≡ true) ⊎ (l.place ≡ returned)))

abbrev Kept : ℕ → Waiting → Type 0
Kept n l = (n ≤ l.claims) × IsKept n l

receive_wakeup-Kept :
    (n : ℕ) (p : Place) (t : Timer) (b : Bool) (c : ℕ)
    → n ≤ c
    → Later (Kept n) (receive_wakeup b (standing p t b c))
receive_wakeup-Kept n p t true c h = (h, inr (inr (inl refl)))
receive_wakeup-Kept n p t false c h = tt

receive_timer-Kept :
    (n : ℕ) (p : Place) (t : Timer) (b : Bool) (c : ℕ)
    → n ≤ c
    → Later (Kept n) (receive_timer t (standing p t b c))
receive_timer-Kept n p running b c h = tt
receive_timer-Kept n p fired b c h = (h, inr (inr (inl refl)))
receive_timer-Kept n p idle b c h = tt

perform-IsKept :
    (discards : Bool) (n : ℕ) (a : Action) (p : Place) (t : Timer) (b : Bool) (c : ℕ)
    → n ≤ c
    → IsKept n (standing p t b c)
    → Later (Kept n) (perform discards a (standing p t b c))
unfolding perform wakeup
perform-IsKept discards n ring p t b c h k = (h, inr (inl refl))
perform-IsKept discards n expire p running b c h k = (h, k)
perform-IsKept discards n expire p fired b c h k = tt
perform-IsKept discards n expire p idle b c h k = tt
perform-IsKept discards n take_done p t b c h k =
    at_select-Later (Kept n) p _ λ e. (h, inr (inr (inr refl)))
perform-IsKept discards n take_wakeup p t b c h k =
    at_select-Later (Kept n) p _ λ e. receive_wakeup-Kept n p t b c h
perform-IsKept discards n take_timer p t b c h k =
    at_select-Later (Kept n) p _ λ e. receive_timer-Kept n p t b c h
perform-IsKept discards n go_on selecting t b c h k = tt
perform-IsKept discards n go_on stopping running b c h k = (h, inr (inr (inl refl)))
perform-IsKept true n go_on stopping fired b c h k = (h, inr (inr (inl refl)))
perform-IsKept false n go_on stopping fired b c h k = (h, inr (inr (inl refl)))
perform-IsKept discards n go_on stopping idle b c h k = (h, inr (inr (inl refl)))
perform-IsKept discards n go_on draining running b c h k = tt
perform-IsKept discards n go_on draining fired b c h k = (h, inr (inr (inl refl)))
perform-IsKept discards n go_on draining idle b c h k = tt
perform-IsKept discards n go_on resetting t b c h k = (omega (arith, h), inl (omega (arith, h)))
perform-IsKept discards n go_on claiming t b c h (inl later) = (h, inl later)
perform-IsKept discards n go_on claiming t b c h (inr (inl waits)) = (h, inr (inl waits))
perform-IsKept discards n go_on claiming t b c h (inr (inr (inl off))) = absurd (ground arith)
perform-IsKept discards n go_on claiming t b c h (inr (inr (inr off))) = cc
perform-IsKept discards n go_on returned t b c h k = tt

-- No wakeup is lost. Whatever happens after a Wakeup, a claimAndProcess has begun since, later than
-- one that was under way at the Wakeup, or the wakeup still waits in the channel, or Run is on its
-- way to begin a claimAndProcess, or it has returned.
pub wakeup-IsKept :
    (discards : Bool) (l : Waiting) (xs : List Action) (m : Waiting)
    → perform_all discards xs (wakeup l) ≡ some m
    → IsKept l.claims m
unfolding wakeup
wakeup-IsKept discards l xs m e =
    (perform_all-keep discards (Kept l.claims)
      (λ a k (h, kept).
        perform-IsKept discards l.claims a k.place k.timer k.pending k.claims h kept)
      xs (wakeup l) m (omega arith, inr (inl refl)) e).1
