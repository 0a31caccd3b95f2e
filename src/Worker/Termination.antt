-- ===== src/Worker/Termination.antt =====
-- How the loops of worker.go come to their end: runLifecycle's and Run's, when their context is done.
use go_stripenav.Base.{
  ◌≡◌, refl, ap, ◌⊎◌, inl, inr, Bool, true, false, List, [], ◌∷◌, ◌++◌, arith, if◌then◌else◌, any,
}
use go_stripenav.Submission.{Submission, Result, ok, err}
use go_stripenav.Store.{Store}
use go_stripenav.Worker.{Worker}
use go_stripenav.Worker.World.{Outside, World, Round}
use go_stripenav.Worker.Actions.{check_deadline, after_act, lifecycle_loop}
use go_stripenav.Worker.Run.{Signal, stop, wakeup, timer, Turn, Running, launched, run}
use go_stripenav.Worker.Renewal.{claim_and_process}

if_same :
    {A : Type 0} (b : Bool) (x : A) {y z : A}
    → (b ≡ false → y ≡ z)
    → (if b then x else y) ≡ (if b then x else z)
if_same true x h = refl
if_same false x h = h refl

module _ (out : Outside) (w : Worker) where
  after_act-same :
      (went : Bool) (read : Result Submission) (rd : Round out) (wd : World out)
      (f g : Submission → World out)
      → ((x : Submission) → f x ≡ g x)
      → after_act out w went read rd wd f ≡ after_act out w went read rd wd g
  unfolding after_act
  after_act-same false read rd wd f g h = refl
  after_act-same true (err e) rd wd f g h = refl
  after_act-same true (ok x) rd wd f g h = rw (h x) refl

  -- A turn that finds its lease's context done does nothing: it raises no alarm, sends NAV nothing
  -- and writes nothing, and no turn comes after it. The lifecycle leaves all as it would if its
  -- rounds had ended before that turn, whatever they were.
  pub lifecycle_loop_stops :
      (warned : Bool) (sub : Submission) (rds : List (Round out)) (rd : Round out)
      (more : List (Round out)) (wd : World out)
      → rd.lease_done ≡ true
      → lifecycle_loop out w warned sub (rds ++ rd ∷ more) wd
        ≡ lifecycle_loop out w warned sub rds wd
  unfolding lifecycle_loop
  lifecycle_loop_stops warned sub [] rd more wd h = rw h refl
  lifecycle_loop_stops warned sub (r ∷ rds) rd more wd h = if_same r.lease_done _ λ e.
      after_act-same _ _ r _ _ _
        λ fresh. lifecycle_loop_stops (check_deadline out w warned r sub wd).0 fresh rds rd more _ h

abbrev pub is_stop : Signal → Bool
is_stop stop = true
is_stop _ = false

Signal-three : (g : Signal) → (g ≡ stop) ⊎ ((g ≡ wakeup) ⊎ (g ≡ timer))
Signal-three stop = inl refl
Signal-three wakeup = inr (inl refl)
Signal-three timer = inr (inr refl)

-- Run returns in the first turn that its context stops, and does nothing after it.
pub run_stops :
    (w : Worker) (ts us : List Turn) (s : Store)
    → any (λ (t : Turn). is_stop t.signal) ts ≡ true
    → ((run w ts s).returned ≡ true) × (run w (ts ++ us) s ≡ run w ts s)
unfolding run
run_stops w [] us s h = cc
run_stops w (t ∷ ts) us s h = elim (Signal-three t.signal) [
  | inl e ↦ rw e (refl, refl)
  | inr (inl e) ↦
      let (ends, same) = run_stops w ts us result.0 (ground (arith, h, e)) in
      rw e (ends, ap with_launched same)
  | inr (inr e) ↦
      let (ends, same) = run_stops w ts us result.0 (ground (arith, h, e)) in
      rw e (ends, ap with_launched same)
]
  where
    result : Store × Result (List Submission)
    result = claim_and_process w t.claim_ctx t.now (t.others s)

    with_launched : Running → Running
    with_launched r = record r { started = launched t.now result.1 ++ r.started }
