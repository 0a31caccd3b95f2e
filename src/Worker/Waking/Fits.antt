-- ===== src/Worker/Waking/Fits.antt =====
-- worker.go: where Run's timer may be.
use go_stripenav.Base.{ℕ, ◌≡◌, refl, Bool, true, false, some, List, arith}
use go_stripenav.Worker.Waking.{
  Timer, running, fired, idle, Place, selecting, stopping, draining, resetting, claiming, returned,
  Waiting, Action, ring, expire, take_done, take_wakeup, take_timer, go_on, begin, wakeup, advance,
  receive_wakeup, receive_timer, perform, perform_all, standing, Later, at_select-Later,
  perform_all-keep,
}

-- Where the timer may be, at each place.
abbrev pub fits : Place → Timer → Bool
fits selecting running = true
fits selecting fired = true
fits selecting idle = false
fits stopping running = true
fits stopping fired = true
fits stopping idle = false
fits draining fired = true
fits draining running = false
fits draining idle = false
fits resetting idle = true
fits resetting running = false
fits resetting fired = false
fits claiming running = true
fits claiming fired = true
fits claiming idle = false
fits returned t = true

abbrev pub IsFit : Waiting → Type 0
IsFit l = fits l.place l.timer ≡ true

fired-fits : (p : Place) → fits p running ≡ true → fits p fired ≡ true
fired-fits selecting h = refl
fired-fits stopping h = refl
fired-fits claiming h = refl
fired-fits returned h = refl
fired-fits draining h = absurd (ground arith)
fired-fits resetting h = absurd (ground arith)

advance-IsFit :
    (discards : Bool) (p : Place) (t : Timer) (b : Bool) (n : ℕ)
    → fits p t ≡ true
    → Later IsFit (advance discards p (standing p t b n))
advance-IsFit discards selecting t b n h = tt
advance-IsFit discards stopping running b n h = refl
advance-IsFit true stopping fired b n h = refl
advance-IsFit false stopping fired b n h = refl
advance-IsFit discards stopping idle b n h = absurd (ground arith)
advance-IsFit discards draining running b n h = tt
advance-IsFit discards draining fired b n h = refl
advance-IsFit discards draining idle b n h = tt
advance-IsFit discards resetting running b n h = absurd (ground arith)
advance-IsFit true resetting fired b n h = absurd (ground arith)
advance-IsFit false resetting fired b n h = absurd (ground arith)
advance-IsFit discards resetting idle b n h = refl
advance-IsFit discards claiming running b n h = refl
advance-IsFit discards claiming fired b n h = refl
advance-IsFit discards claiming idle b n h = absurd (ground arith)
advance-IsFit discards returned t b n h = tt

receive_wakeup-IsFit :
    (p : Place) (t : Timer) (b : Bool) (n : ℕ)
    → fits p t ≡ true
    → p ≡ selecting
    → Later IsFit (receive_wakeup b (standing p t b n))
receive_wakeup-IsFit p t false n h e = tt
receive_wakeup-IsFit p running true n h e = refl
receive_wakeup-IsFit p fired true n h e = refl
receive_wakeup-IsFit p idle true n h e = absurd (ground (arith, h, e))

receive_timer-IsFit :
    (p : Place) (t : Timer) (b : Bool) (n : ℕ) → Later IsFit (receive_timer t (standing p t b n))
receive_timer-IsFit p running b n = tt
receive_timer-IsFit p fired b n = refl
receive_timer-IsFit p idle b n = tt

perform-IsFit :
    (discards : Bool) (a : Action) (p : Place) (t : Timer) (b : Bool) (n : ℕ)
    → fits p t ≡ true
    → Later IsFit (perform discards a (standing p t b n))
unfolding perform wakeup
perform-IsFit discards ring p t b n h = h
perform-IsFit discards expire p running b n h = fired-fits p h
perform-IsFit discards expire p fired b n h = tt
perform-IsFit discards expire p idle b n h = tt
perform-IsFit discards take_done p t b n h = at_select-Later IsFit p _ λ e. refl
perform-IsFit discards take_wakeup p t b n h =
    at_select-Later IsFit p _ (receive_wakeup-IsFit p t b n h)
perform-IsFit discards take_timer p t b n h =
    at_select-Later IsFit p _ (λ e. receive_timer-IsFit p t b n)
perform-IsFit discards go_on p t b n h = advance-IsFit discards p t b n h

pub perform_all-IsFit :
    (discards : Bool) (xs : List Action) (l : Waiting)
    → perform_all discards xs begin ≡ some l
    → IsFit l
perform_all-IsFit discards xs l e =
    perform_all-keep discards IsFit
      (λ a k h. perform-IsFit discards a k.place k.timer k.pending k.claims h) xs begin l refl e
