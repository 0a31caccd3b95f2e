-- ===== src/Fleet.antt =====
-- Any number of workers (worker.go) and webhook handlers (stripenav.go) that share one in-process
-- store: what they do is a sequence of steps, in any order. A step is a call of the store by a handler
-- or by Run, or a turn of one lifecycle's loop, a renewal of its lease, or its release. That a turn is
-- one step, in which nobody else acts, is what a lease is for: the row is its own.
pub mod Lists
pub mod Rows
pub mod Leases
pub mod Renewals
pub mod Ledger
pub mod Turns
pub mod Filing
use go_stripenav.Base.{
  ◌+◌, ◌-◌, ◌≤◌, ◌<◌, ◌≡◌, Bool, true, false, Option, none, some, List, [], ◌∷◌, ◌++◌, map, ltb,
  if◌then◌else◌, Bytes,
}
use go_stripenav.Submission.{Submission, Time, Result, ok, err, is_terminal}
use go_stripenav.Store.{Store, put, get, renew_claim, release_claim}
use go_stripenav.Worker.{Worker}
use go_stripenav.Worker.Document.{XmlToken}
use go_stripenav.Worker.Backoff.{Float64}
use go_stripenav.Worker.Effects.{in_memory}
use go_stripenav.Worker.World.{IsRecorded, Derived, Outside, World, Round, Sent}
use go_stripenav.Worker.Actions.{check_deadline, act}
use go_stripenav.Worker.Renewal.{claim_and_process}

-- A lifecycle under way: its worker, its row, when the lease last granted runs out, whether it has
-- raised the alarm, and the row with which its loop goes on; none when it has left the loop and has
-- its deferred release before it.
pub record Lifecycle : Type 0 where
  pub worker : Worker
  pub event_id : Bytes
  pub until : Time
  pub warned : Bool
  pub next : Option Submission

-- The clock of all, the store, the lifecycles, and what was sent to NAV for which row.
pub record System : Type 0 where
  pub clock : Time
  pub store : Store
  pub running : List Lifecycle
  pub log : List (Bytes × Sent)

abbrev pub launch : Worker → Time → Submission → Lifecycle
launch w now sub = record {
  worker = w;
  event_id = sub.event_id;
  until = now + w.lease_duration;
  warned = false;
  next = some sub;
}

abbrev pub logged : Bytes → List Sent → List (Bytes × Sent)
logged id [] = []
logged id (t ∷ ts) = (id, t) ∷ logged id ts

module _ (f64 : Float64) (xml_tokens : Bytes → List XmlToken)
    (derive : Option (Bytes → Bytes → Derived)) where
  abbrev pub outside : Outside
  outside = record { store = in_memory; f64 = f64; xml_tokens = xml_tokens; derive = derive }

  -- What the end of a turn makes of the row that it read again: whether the loop goes on with it.
  unfoldable pub next_of : Worker → Bool → Result Submission → Round outside → Option Submission
  next_of w false read rd = none
  next_of w true (err e) rd = none
  next_of w true (ok fresh) rd =
      if is_terminal fresh
      then none
      else if ltb w.poll_interval (fresh.next_attempt_at - rd.waited_at)
      then none
      else some fresh

  -- The store that a turn leaves, what it sent, and the lifecycle after it.
  pub record Turned : Type 0 where
    pub state : Store
    pub sent : List Sent
    pub lifecycle : Lifecycle

  abbrev pub begun : Store → World outside
  begun s = record { state = s; metrics = []; sent = [] }

  unfoldable pub turned : Lifecycle → Submission → Round outside → Store → Turned
  unfolding next_of
  turned l sub rd s =
      let (warned', wd₁) = check_deadline outside l.worker l.warned rd sub (begun s) in
      let (went, wd₂) = act outside l.worker rd sub wd₁ in
      record {
        state = wd₂.state;
        sent = wd₂.sent;
        lifecycle = record l {
          warned = warned';
          next = next_of l.worker went (get rd.read_ctx sub.event_id wd₂.state) rd;
        };
      }

  pub data Step (y z : System) : Type 0 where
    -- A handler stores a submission.
    delivers : (sub : Submission) → z ≡ record y { store = (put none sub y.store).0 } → Step y z
    passes : (now : Time) → y.clock ≤ now → z ≡ record y { clock = now } → Step y z
    -- Run claims a batch and starts its lifecycles.
    claims :
        (w : Worker) (s' : Store) (out : List Submission)
        → claim_and_process w none y.clock y.store ≡ (s', ok out)
        → z ≡ record y { store = s'; running = map (launch w y.clock) out ++ y.running }
        → Step y z
    -- A turn of a loop, under a lease that runs. The write that records an answered submission
    -- meets no failure of the context.
    turns :
        (ls : List Lifecycle) (l : Lifecycle) (ms : List Lifecycle) (sub : Submission)
        (rd : Round outside)
        → y.running ≡ ls ++ l ∷ ms
        → l.next ≡ some sub
        → y.clock < l.until
        → IsRecorded outside rd
        → z ≡ record y {
          store = (turned l sub rd y.store).state;
          running = ls ++ (turned l sub rd y.store).lifecycle ∷ ms;
          log = y.log ++ logged l.event_id (turned l sub rd y.store).sent;
        }
        → Step y z
    -- renewLease, in time.
    renews :
        (ls : List Lifecycle) (l : Lifecycle) (ms : List Lifecycle) (s' : Store)
        → y.running ≡ ls ++ l ∷ ms
        → y.clock < l.until
        → renew_claim none y.clock l.event_id l.worker.claimer_id l.worker.lease_duration y.store
          ≡ (s', none)
        → z ≡ record y {
          store = s';
          running = ls ++ record l { until = y.clock + l.worker.lease_duration } ∷ ms;
        }
        → Step y z
    -- The lease's context is done: the loop returns at its top.
    cancels :
        (ls : List Lifecycle) (l : Lifecycle) (ms : List Lifecycle)
        → y.running ≡ ls ++ l ∷ ms
        → z ≡ record y { running = ls ++ record l { next = none } ∷ ms }
        → Step y z
    -- The deferred release, in time.
    releases :
        (ls : List Lifecycle) (l : Lifecycle) (ms : List Lifecycle)
        → y.running ≡ ls ++ l ∷ ms
        → l.next ≡ none
        → y.clock < l.until
        → z ≡ record y {
          store = (release_claim none y.clock l.event_id l.worker.claimer_id y.store).0;
          running = ls ++ ms;
        }
        → Step y z
    -- The process is killed between two turns, or its release fails.
    dies :
        (ls : List Lifecycle) (l : Lifecycle) (ms : List Lifecycle)
        → y.running ≡ ls ++ l ∷ ms
        → z ≡ record y { running = ls ++ ms }
        → Step y z

  pub data Reach (y : System) : System → Type 0 where
    at_start : Reach y y
    after : {z u : System} → Reach y z → Step z u → Reach y u
