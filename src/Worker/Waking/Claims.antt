-- ===== src/Worker/Waking/Claims.antt =====
-- worker.go: Run's waiting comes to its next claim, or to its end.
use go_stripenav.Base.{ℕ, suc, ◌≡◌, refl, ◌≢◌, Bool, true, false, some, List, [], ◌∷◌, arith, all}
use go_stripenav.Worker.Waking.{
  Timer, running, fired, idle, Place, selecting, stopping, draining, resetting, claiming, returned,
  Waiting, Action, expire, take_wakeup, take_timer, go_on, begin, wakeup, perform, perform_all,
  standing,
}
use go_stripenav.Worker.Waking.Fits.{fits, perform_all-IsFit}
use go_stripenav.Worker.Waking.Returns.{Returns, standing-Returns}

-- The steps of Run to its next claim, with and without the wakeup.
abbrev pub route : Bool → Place → Timer → List Action
route discards selecting running = expire ∷ take_timer ∷ go_on ∷ go_on ∷ []
route discards selecting fired = take_timer ∷ go_on ∷ go_on ∷ []
route discards selecting idle = []
route discards stopping running = go_on ∷ go_on ∷ go_on ∷ []
route true stopping fired = go_on ∷ go_on ∷ go_on ∷ []
route false stopping fired = go_on ∷ go_on ∷ go_on ∷ go_on ∷ []
route discards stopping idle = []
route discards draining t = go_on ∷ go_on ∷ go_on ∷ []
route discards resetting t = go_on ∷ go_on ∷ []
route discards claiming running = go_on ∷ expire ∷ take_timer ∷ go_on ∷ go_on ∷ []
route discards claiming fired = go_on ∷ take_timer ∷ go_on ∷ go_on ∷ []
route discards claiming idle = []
route discards returned t = []

abbrev pub route_woken : Bool → Place → Timer → List Action
route_woken discards selecting t = take_wakeup ∷ route discards stopping t
route_woken discards claiming t = go_on ∷ take_wakeup ∷ route discards stopping t
route_woken discards p t = route discards p t

-- What Run does on its own.
abbrev pub is_prompt : Action → Bool
is_prompt take_wakeup = true
is_prompt go_on = true
is_prompt _ = false

abbrev pub is_timely : Action → Bool
is_timely expire = true
is_timely take_timer = true
is_timely a = is_prompt a

-- Actions of a kind by which one more call of claimAndProcess begins and ends.
abbrev pub Claims : Bool → (Action → Bool) → Waiting → Type 0
Claims discards kind l =
    (xs : List Action) × (m : Waiting) × (perform_all discards xs l ≡ some m)
    × (m.claims ≡ suc l.claims)
    × (m.place ≡ selecting)
    × (all kind xs ≡ true)

by_route :
    (discards : Bool) (p : Place) (t : Timer) (b : Bool) (n : ℕ) (l m : Waiting)
    → perform_all discards (route discards p t) (standing p t b n) ≡ some l
    → l.claims ≡ suc n
    → l.place ≡ selecting
    → all is_timely (route discards p t) ≡ true
    → perform_all discards (route_woken discards p t) (wakeup (standing p t b n)) ≡ some m
    → m.claims ≡ suc n
    → m.place ≡ selecting
    → all is_prompt (route_woken discards p t) ≡ true
    → Claims discards is_timely (standing p t b n)
      × Claims discards is_prompt (wakeup (standing p t b n))
unfolding wakeup
by_route discards p t b n l m e c at h f d there k =
    ((route discards p t, l, e, c, at, h), (route_woken discards p t, m, f, d, there, k))

route-Claims :
    (discards : Bool) (p : Place) (t : Timer) (b : Bool) (n : ℕ)
    → fits p t ≡ true
    → p ≢ returned
    → Claims discards is_timely (standing p t b n)
      × Claims discards is_prompt (wakeup (standing p t b n))
unfolding perform perform_all wakeup
route-Claims discards selecting running b n h k =
    by_route discards selecting running b n _ _ refl refl refl refl refl refl refl refl
route-Claims true selecting fired b n h k =
    by_route true selecting fired b n _ _ refl refl refl refl refl refl refl refl
route-Claims false selecting fired b n h k =
    by_route false selecting fired b n _ _ refl refl refl refl refl refl refl refl
route-Claims discards selecting idle b n h k = absurd (ground arith)
route-Claims discards stopping running b n h k =
    by_route discards stopping running b n _ _ refl refl refl refl refl refl refl refl
route-Claims true stopping fired b n h k =
    by_route true stopping fired b n _ _ refl refl refl refl refl refl refl refl
route-Claims false stopping fired b n h k =
    by_route false stopping fired b n _ _ refl refl refl refl refl refl refl refl
route-Claims discards stopping idle b n h k = absurd (ground arith)
route-Claims discards draining running b n h k = absurd (ground arith)
route-Claims discards draining fired b n h k =
    by_route discards draining fired b n _ _ refl refl refl refl refl refl refl refl
route-Claims discards draining idle b n h k = absurd (ground arith)
route-Claims discards resetting t b n h k =
    by_route discards resetting t b n _ _ refl refl refl refl refl refl refl refl
route-Claims discards claiming running b n h k =
    by_route discards claiming running b n _ _ refl refl refl refl refl refl refl refl
route-Claims true claiming fired b n h k =
    by_route true claiming fired b n _ _ refl refl refl refl refl refl refl refl
route-Claims false claiming fired b n h k =
    by_route false claiming fired b n _ _ refl refl refl refl refl refl refl refl
route-Claims discards claiming idle b n h k = absurd (ground arith)
route-Claims discards returned t b n h k = absurd (k refl)

-- Run is never stuck. Whatever has happened since it began, if it has not returned, its own steps,
-- with the end of its timer, lead it through one more claimAndProcess, from its begin to its end;
-- after a Wakeup they do so without the end of the timer; and once its context is done, five of its
-- own steps, or fewer, lead it to its return.
pub run-Claims :
    (discards : Bool) (xs : List Action) (l : Waiting)
    → perform_all discards xs begin ≡ some l
    → l.place ≢ returned
    → Claims discards is_timely l × Claims discards is_prompt (wakeup l) × Returns discards l
run-Claims discards xs l e k =
    let fit = perform_all-IsFit discards xs l e in
    let (timely, prompt) = route-Claims discards l.place l.timer l.pending l.claims fit k in
    (timely, prompt, standing-Returns discards l.place l.timer l.pending l.claims fit)
