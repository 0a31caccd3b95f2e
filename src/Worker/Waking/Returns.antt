-- ===== src/Worker/Waking/Returns.antt =====
-- worker.go: Run's waiting comes to its end.
use go_stripenav.Base.{
  ℕ, ◌≤◌, ◌≡◌, refl, Bool, true, false, some, List, [], ◌∷◌, arith, length, all,
}
use go_stripenav.Worker.Waking.{
  Timer, running, fired, idle, Place, selecting, stopping, draining, resetting, claiming, returned,
  Waiting, Action, take_done, go_on, perform, perform_all, standing,
}
use go_stripenav.Worker.Waking.Fits.{fits}

-- The steps of Run to its return, when the context is done.
abbrev way_out : Bool → Place → Timer → List Action
way_out discards selecting t = take_done ∷ []
way_out discards stopping running = go_on ∷ go_on ∷ go_on ∷ take_done ∷ []
way_out true stopping fired = go_on ∷ go_on ∷ go_on ∷ take_done ∷ []
way_out false stopping fired = go_on ∷ go_on ∷ go_on ∷ go_on ∷ take_done ∷ []
way_out discards stopping idle = []
way_out discards draining t = go_on ∷ go_on ∷ go_on ∷ take_done ∷ []
way_out discards resetting t = go_on ∷ go_on ∷ take_done ∷ []
way_out discards claiming t = go_on ∷ take_done ∷ []
way_out discards returned t = []

abbrev pub is_final : Action → Bool
is_final take_done = true
is_final go_on = true
is_final _ = false

-- Run returns by few steps of its own.
abbrev pub Returns : Bool → Waiting → Type 0
Returns discards l =
    (xs : List Action) × (m : Waiting) × (perform_all discards xs l ≡ some m)
    × (m.place ≡ returned)
    × (all is_final xs ≡ true)
    × (length xs ≤ 5)

by_way_out :
    (discards : Bool) (p : Place) (t : Timer) (b : Bool) (n : ℕ) (m : Waiting)
    → perform_all discards (way_out discards p t) (standing p t b n) ≡ some m
    → m.place ≡ returned
    → all is_final (way_out discards p t) ≡ true
    → length (way_out discards p t) ≤ 5
    → Returns discards (standing p t b n)
by_way_out discards p t b n m e r f short = (way_out discards p t, m, e, r, f, short)

pub standing-Returns :
    (discards : Bool) (p : Place) (t : Timer) (b : Bool) (n : ℕ)
    → fits p t ≡ true
    → Returns discards (standing p t b n)
unfolding perform perform_all
standing-Returns discards selecting t b n h =
    by_way_out discards selecting t b n _ refl refl refl (omega arith)
standing-Returns discards stopping running b n h =
    by_way_out discards stopping running b n _ refl refl refl (omega arith)
standing-Returns true stopping fired b n h =
    by_way_out true stopping fired b n _ refl refl refl (omega arith)
standing-Returns false stopping fired b n h =
    by_way_out false stopping fired b n _ refl refl refl (omega arith)
standing-Returns discards stopping idle b n h = absurd (ground arith)
standing-Returns discards draining running b n h = absurd (ground arith)
standing-Returns discards draining fired b n h =
    by_way_out discards draining fired b n _ refl refl refl (omega arith)
standing-Returns discards draining idle b n h = absurd (ground arith)
standing-Returns discards resetting t b n h =
    by_way_out discards resetting t b n _ refl refl refl (omega arith)
standing-Returns discards claiming t b n h =
    by_way_out discards claiming t b n _ refl refl refl (omega arith)
standing-Returns discards returned t b n h =
    by_way_out discards returned t b n _ refl refl refl (omega arith)
