-- ===== src/Worker/Lifecycle.antt =====
-- The whole lifecycle of a claimed submission in worker.go.
use go_stripenav.Base.{
  ◌-◌, ◌≡◌, refl, sym, subst, Bool, true, false, some, List, [], ◌∷◌, ltb, if◌then◌else◌, Bytes,
}
use go_stripenav.Submission.{Submission, Time, Result, ok, err, is_terminal}
use go_stripenav.Submission.Machine.{Moves}
use go_stripenav.Store.{Context}
use go_stripenav.Worker.{Worker}
use go_stripenav.Worker.World.{Outside, World, Round}
use go_stripenav.Worker.Actions.{check_deadline, act, after_act, lifecycle_loop, run_lifecycle}
use go_stripenav.Worker.Acts.{Evolves, Evolves-refl, Evolves-trans}
use go_stripenav.Worker.Steps.{act-Evolves, check_deadline-state}

if_rule {ℓ κ} :
    {A : Type ℓ} (P : A → Type κ) (b : Bool) {x y : A} → P x → P y → P (if b then x else y)
if_rule P true p q = p
if_rule P false p q = q

module _ (out : Outside) (w : Worker) where
  after_act_rule {κ} :
      (P : World out → Type κ) (went : Bool) (read : Result Submission) (rd : Round out)
      (wd : World out) (loop : Submission → World out)
      → P wd
      → ((fresh : Submission) → read ≡ ok fresh → P (loop fresh))
      → P (after_act out w went read rd wd loop)
  unfolding after_act
  after_act_rule P false read rd wd loop stay go = stay
  after_act_rule P true (err e) rd wd loop stay go = stay
  after_act_rule P true (ok fresh) rd wd loop stay go =
      if_rule P (is_terminal fresh) stay (
        if_rule P (ltb w.poll_interval (fresh.next_attempt_at - rd.waited_at)) stay (go fresh refl))

  -- The world after the action of a turn.
  abbrev pub acted : Bool → Submission → Round out → World out → World out
  acted warned sub rd wd = (act out w rd sub (check_deadline out w warned rd sub wd).1).1

  -- One turn of the loop ends it where it stood, or after its action, or goes on with the row that
  -- it read again.
  pub turn {κ} :
      (P : World out → Type κ) (warned : Bool) (sub : Submission) (rd : Round out)
      (rds : List (Round out)) (wd : World out)
      → P wd
      → P (acted warned sub rd wd)
      → ((fresh : Submission)
          → out.store.get rd.read_ctx sub.event_id (acted warned sub rd wd).state ≡ ok fresh
          → P (
              lifecycle_loop out w
                (check_deadline out w warned rd sub wd).0
                fresh
                rds
                (record (acted warned sub rd wd) {
                  state = rd.others (acted warned sub rd wd).state;
                })))
      → P (lifecycle_loop out w warned sub (rd ∷ rds) wd)
  unfolding lifecycle_loop
  turn P warned sub rd rds wd lost ends goes_on =
      if_rule P rd.lease_done lost (after_act_rule P _ _ rd _ _ ends goes_on)

  pub act-Evolves_turn :
      (warned : Bool) (sub : Submission) (rd : Round out) (wd : World out)
      → Evolves out wd.state (act out w rd sub (check_deadline out w warned rd sub wd).1).1.state
  act-Evolves_turn warned sub rd wd =
      subst
        (λ s. Evolves out s (act out w rd sub (check_deadline out w warned rd sub wd).1).1.state)
        (check_deadline-state out w warned rd sub wd).0
        (act-Evolves out w rd sub (check_deadline out w warned rd sub wd).1)

  -- What others do between two rounds moves rows along the machine too.
  abbrev pub PeersEvolve : List (Round out) → Type 0
  PeersEvolve [] = Unit {0}
  PeersEvolve (rd ∷ rds) = ((s : out.store.State) → Evolves out s (rd.others s)) × PeersEvolve rds

  lifecycle_loop-Evolves :
      (warned : Bool) (sub : Submission) (rds : List (Round out)) (wd : World out)
      → PeersEvolve rds
      → Evolves out wd.state (lifecycle_loop out w warned sub rds wd).state
  lifecycle_loop-Evolves warned sub [] wd peers = unfold lifecycle_loop in Evolves-refl out wd.state
  lifecycle_loop-Evolves warned sub (rd ∷ rds) wd peers =
      turn (λ wd'. Evolves out wd.state wd'.state) warned sub rd rds wd (Evolves-refl out wd.state)
        (act-Evolves_turn warned sub rd wd)
        λ fresh q. Evolves-trans out (act-Evolves_turn warned sub rd wd) (
          Evolves-trans out (peers.0 (acted warned sub rd wd).state) (
            lifecycle_loop-Evolves (check_deadline out w warned rd sub wd).0 fresh rds
              (record (acted warned sub rd wd) { state = rd.others (acted warned sub rd wd).state })
              peers.1))

  -- Over a whole lifecycle, its release of the claim and what the peers do included, every row of
  -- the store stays and its status only takes moves of the state machine, whatever the replies, the
  -- failures of the store and the clocks are, if the peers keep to the machine too.
  pub run_lifecycle-Moves :
      (ctx : Context) (now : Time) (initial : Submission) (rds : List (Round out)) (wd : World out)
      → PeersEvolve rds
      → (id : Bytes) (r : Submission) → out.store.row id wd.state ≡ some r
      → (r' : Submission) × (out.store.row id (run_lifecycle out w ctx now initial rds wd).state
          ≡ some r')
        × Moves r.status r'.status
  unfolding run_lifecycle
  run_lifecycle-Moves ctx now initial rds wd peers id r e =
      let (r', e', m, _) = lifecycle_loop-Evolves false initial rds wd peers id r e in
      let (r'', e'', same) =
        out.store.release_status ctx now initial.event_id w.claimer_id _ id r' e' in
      (r'', e'', subst (Moves r.status) (sym same) m)
