-- ===== src/Examples/Lifecycle.antt =====
-- Concrete runs of the theorems about the worker.
use go_stripenav.Base.{
  ◌+◌, ◌≤◌, In, ◌≡◌, refl, ◌⊎◌, inl, true, false, not, ◌&&◌, none, some, List, [], ◌∷◌, ◌++◌, arith,
  ltb, length, all, any, str, str_eq,
}
use go_stripenav.Base.Int.{pos, negsuc}
use go_stripenav.Submission.{Submission, Time, pending, canceled, is_terminal}
use go_stripenav.Submission.Machine.{Moves}
use go_stripenav.Store.Table.{lookup, Keyed}
use go_stripenav.Store.Distinct.{IsDistinct}
use go_stripenav.Worker.{WorkerConfig}
use go_stripenav.Schemas.Api.{ProcessingResult}
use go_stripenav.Worker.Verdict.{
  is_aborted, is_finished, overall_status, overall_loop, overall_status_lem,
}
use go_stripenav.Worker.Backoff.{backoff_for, backoff_for-le}
use go_stripenav.Worker.World.{Round, Sent}
use go_stripenav.Worker.Actions.{run_lifecycle, act, derive_for_retry}
use go_stripenav.Worker.Acts.{Evolves-refl}
use go_stripenav.Nav.{reply}
use go_stripenav.Store.{Store, claim, claim_batch, is_claimable}
use go_stripenav.Store.Lease.{Held}
use go_stripenav.Worker.Renewal.{Tick, OnTime, lease_end, renew_lease, renew_lease-Held}
use go_stripenav.Worker.Run.{Turn, Unstopped, wakeup, timer, run, run_starts_due}
use go_stripenav.Worker.Renewal.{claim_and_process}
use go_stripenav.Worker.Document.{xml_looks_like}
use go_stripenav.Worker.Actions.{lifecycle_loop}
use go_stripenav.Worker.Termination.{lifecycle_loop_stops}
use go_stripenav.Worker.Parents.{Gate, act-Gate}
use go_stripenav.Worker.Progress.{GoesOn, Submits}
use go_stripenav.Worker.Acceptance.{Finishes, waits, done, IsAccepted, run_lifecycle-Accepts}
use go_stripenav.Worker.Lifecycle.{PeersEvolve, run_lifecycle-Moves}
use go_stripenav.Worker.Sending.{Once, Quiet, Extends}
use go_stripenav.Worker.Once.{Undisturbed, run_lifecycle-Once}
use go_stripenav.Examples.Data.{
  first, worker, whole, three_rows, outside, calm_round, start, finished,
}

calm : Undisturbed outside worker (str "evt_1") (calm_round ∷ calm_round ∷ [])
calm = ((λ _. refl), (λ s. refl), ((λ _. refl), (λ s. refl), tt))

in_start : lookup (str "evt_1") start.state.rows ≡ some first
unfolding lookup str_eq
in_start = refl

run_lifecycle-Once_example :
    (ts : List Sent) × ((run_lifecycle outside worker none 200 first
        (calm_round ∷ calm_round ∷ [])
        start).sent
      ≡ [] ++ ts)
    × Once ts
run_lifecycle-Once_example =
    run_lifecycle-Once outside worker none 200 first (calm_round ∷ calm_round ∷ []) start calm
      in_start

peers : PeersEvolve outside worker (calm_round ∷ calm_round ∷ [])
peers = ((λ s. Evolves-refl outside s), ((λ s. Evolves-refl outside s), tt))

run_lifecycle-Moves_example :
    (r' : Submission) × (lookup
        (str "evt_1")
        (run_lifecycle outside worker none 200 first
          (calm_round ∷ calm_round ∷ [])
          start).state.rows
      ≡ some r')
    × Moves pending r'.status
run_lifecycle-Moves_example =
    run_lifecycle-Moves outside worker none 200 first (calm_round ∷ calm_round ∷ []) start peers
      (str "evt_1") first in_start

abbrev failed : ProcessingResult
failed = record finished { invoice_status = str "ABORTED" }

overall_status_lem_example :
    (is_aborted (overall_status (finished ∷ failed ∷ []))
      ≡ any (λ p. is_aborted p.invoice_status) (finished ∷ failed ∷ []))
    × (is_finished (overall_status (finished ∷ failed ∷ [])) ≡ (
        not (any (λ p. is_aborted p.invoice_status) (finished ∷ failed ∷ []))
        && (ltb 0 (length (finished ∷ failed ∷ []))
            && all (λ p. is_finished p.invoice_status) (finished ∷ failed ∷ []))))
overall_status_lem_example = overall_status_lem (finished ∷ failed ∷ [])

backoff_for-le_example : backoff_for whole worker 1 7 ≤ 3600
backoff_for-le_example = backoff_for-le whole worker 1 7 (omega arith)

abbrev config : WorkerConfig
config = record {
  has_store = true;
  has_client = true;
  claimer_id = [];
  max_sleep = negsuc 4;
  poll_interval = pos 30;
  lease_duration = pos 0;
  base_backoff = pos 1;
  max_backoff = pos 0;
  batch_limit = pos 0;
}

act-Gate_example :
    Extends Quiet start.sent (act outside worker calm_round first start).1.sent
    ⊎ ((first.status ≡ pending) × Gate outside worker first start.state)
act-Gate_example = act-Gate outside worker calm_round first start

abbrev under_way : ProcessingResult
under_way = record finished { invoice_status = str "PROCESSING" }

abbrev pub busy_round : Round outside
busy_round = record calm_round { status_reply = reply (under_way ∷ []) }

goes_on : GoesOn outside worker (str "evt_1") calm_round
goes_on = record {
  held = refl;
  writes = refl;
  reads = refl;
  undisturbed = λ s. refl;
  waited = omega arith;
}

busy : GoesOn outside worker (str "evt_1") busy_round
busy = record {
  held = refl;
  writes = refl;
  reads = refl;
  undisturbed = λ s. refl;
  waited = omega arith;
}

submits : Submits outside worker calm_round first start.state (record { transaction_id = str "T1" })
unfolding derive_for_retry xml_looks_like str_eq
submits = record { free = inl refl; document = refl; taken = refl; transaction = refl }

-- A query that finds the transaction under way, and one that finds it done.
finishes : Finishes outside worker (str "evt_1") (busy_round ∷ calm_round ∷ [])
unfolding overall_status overall_loop str_eq
finishes =
    waits (under_way ∷ [])
      (record { kept = refl; written = refl; answer = refl; not_aborted = refl }) refl busy
      (done (finished ∷ [])
        (record { kept = refl; written = refl; answer = refl; not_aborted = refl }) refl)

run_lifecycle-Accepts_example :
    IsAccepted outside worker
      (str "evt_1")
      (run_lifecycle outside worker none 200 first
        (calm_round ∷ busy_round ∷ calm_round ∷ [])
        start).state
run_lifecycle-Accepts_example =
    run_lifecycle-Accepts outside worker none 200 first calm_round (busy_round ∷ calm_round ∷ [])
      start (record { transaction_id = str "T1" }) in_start refl goes_on submits finishes

abbrev claimed_store : Store
claimed_store = record {
  rows = (str "evt_1", record first { claimed_by = str "host-ab12"; claimed_until = 330 }) ∷ [];
}

abbrev tick_at : Time → Tick
tick_at at = record { is_done = false; renew_ctx = none; fires_at = at; others = λ s. s }

held : Held (str "evt_1") (str "host-ab12") 330 claimed_store
unfolding lookup str_eq
held = (record first { claimed_by = str "host-ab12"; claimed_until = 330 }, refl, refl, omega arith)

on_time : OnTime worker (str "evt_1") 330 (tick_at 130 ∷ tick_at 230 ∷ [])
on_time = (refl, refl, omega arith, (λ s k. k), (refl, refl, omega arith, (λ s k. k), tt))

named : str_eq worker.claimer_id [] ≡ false
unfolding str_eq
named = refl

renew_lease-Held_example :
    Held
      (str "evt_1")
      worker.claimer_id
      (lease_end worker 330 (tick_at 130 ∷ tick_at 230 ∷ []))
      (renew_lease worker (str "evt_1") (tick_at 130 ∷ tick_at 230 ∷ []) claimed_store).state
    × ((renew_lease worker (str "evt_1") (tick_at 130 ∷ tick_at 230 ∷ []) claimed_store).lost
        ≡ false)
renew_lease-Held_example =
    renew_lease-Held worker (str "evt_1") 330 (tick_at 130 ∷ tick_at 230 ∷ []) claimed_store named
      held on_time

-- A turn whose ClaimBatch meets a cancelled context, and one that the timer wakes.
abbrev failing : Turn
failing = record { signal = wakeup; claim_ctx = some canceled; now = 90; others = λ s. s }

abbrev live_turn : Turn
live_turn = record { signal = timer; claim_ctx = none; now = 100; others = λ s. s }

unstopped : Unstopped (failing ∷ [])
unstopped = ((λ e. cc), tt)

first_stands : lookup (str "evt_1") (run worker (failing ∷ []) three_rows).state.rows ≡ some first
unfolding run claim_and_process claim_batch lookup str_eq
first_stands = refl

stands-Keyed : Keyed (run worker (failing ∷ []) three_rows).state.rows
unfolding run claim_and_process claim_batch lookup str_eq
stands-Keyed = (refl, refl, (refl, refl, (refl, refl, tt)))

first_due : is_claimable 100 first ≡ true
unfolding is_claimable is_terminal str_eq
first_due = refl

run_starts_due_example :
    In
      (100, claim worker.claimer_id (100 + worker.lease_duration) 100 first)
      (run worker (failing ∷ live_turn ∷ []) three_rows).started
    ⊎ ((out : List Submission) × (length out ≡ worker.batch_limit)
        × IsDistinct out
        × ((v : Submission)
            → In v out
            → In (100, v) (run worker (failing ∷ live_turn ∷ []) three_rows).started
              × (v.created_at ≤ first.created_at)))
run_starts_due_example =
    run_starts_due worker (failing ∷ []) [] live_turn three_rows unstopped (λ e. cc) refl refl named
      stands-Keyed (str "evt_1") first first_stands first_due

abbrev lost_round : Round outside
lost_round = record calm_round { lease_done = true }

lifecycle_loop_stops_example :
    lifecycle_loop outside worker false first
      ((calm_round ∷ []) ++ lost_round ∷ calm_round ∷ [])
      start
    ≡ lifecycle_loop outside worker false first (calm_round ∷ []) start
lifecycle_loop_stops_example =
    lifecycle_loop_stops outside worker false first (calm_round ∷ []) lost_round (calm_round ∷ [])
      start refl
