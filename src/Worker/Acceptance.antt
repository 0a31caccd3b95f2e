-- ===== src/Worker/Acceptance.antt =====
-- worker.go: the loop of a lifecycle that NAV answers.
use go_stripenav.Base.{
  ◌+◌, ◌-◌, ◌≡◌, refl, sym, ap, ◌∙◌, subst, inl, inr, Bool, true, false, some, List, [], ◌∷◌, arith,
  ltb, Bytes, str_eq,
}
use go_stripenav.Submission.{
  Submission, Time, pending, processing, accepted, ok, is_terminal, Result-cases,
}
use go_stripenav.Store.{Context}
use go_stripenav.Nav.{SubmitResult}
use go_stripenav.Schemas.Api.{ProcessingResult}
use go_stripenav.Worker.{Worker}
use go_stripenav.Worker.Verdict.{overall_status, is_finished}
use go_stripenav.Worker.Steps.{check_deadline-state}
use go_stripenav.Worker.World.{Outside, World, Round}
use go_stripenav.Worker.Actions.{
  poll_status, check_deadline, act, after_act, lifecycle_loop, run_lifecycle,
}
use go_stripenav.Worker.Progress.{
  is_flying, Answers, GoesOn, Submits, acted, poll-accepts, poll-waits, act_on-flying,
  attempt_submit-row, ready, pending-acted, submitted_row,
}

module _ (out : Outside) (w : Worker) where
  -- The world after the action of a turn, and after the peers.
  abbrev after : Bool → Submission → Round out → World out → World out
  after warned sub rd wd = (acted out w warned sub rd wd).1

  abbrev next : Bool → Submission → Round out → World out → World out
  next warned sub rd wd = record (after warned sub rd wd) {
    state = rd.others (after warned sub rd wd).state;
  }

  loop-stops :
      (warned : Bool) (sub r : Submission) (rd : Round out) (rds : List (Round out))
      (wd : World out)
      → rd.lease_done ≡ false
      → (acted out w warned sub rd wd).0 ≡ true
      → out.store.row sub.event_id (after warned sub rd wd).state ≡ some r
      → is_terminal r ≡ true
      → lifecycle_loop out w warned sub (rd ∷ rds) wd ≡ after warned sub rd wd
  unfolding lifecycle_loop after_act
  loop-stops warned sub r rd rds wd kept went at ended =
      elim (Result-cases (out.store.get rd.read_ctx sub.event_id (after warned sub rd wd).state)) [
        | inr (x, q) ↦ ground (arith, kept, went, q)
        | inl (fresh, q) ↦
            let same : fresh ≡ r =
              ground (arith, at, out.store.get_row rd.read_ctx sub.event_id _ fresh q) in
            let over : is_terminal fresh ≡ true = ap is_terminal same ∙ ended in
            ground (arith, kept, went, q, over)
      ]

  loop-goes :
      (warned : Bool) (sub r : Submission) (rd : Round out) (rds : List (Round out))
      (wd : World out)
      → GoesOn out w sub.event_id rd
      → (acted out w warned sub rd wd).0 ≡ true
      → out.store.row sub.event_id (after warned sub rd wd).state ≡ some r
      → is_terminal r ≡ false
      → r.next_attempt_at ≡ rd.now + w.poll_interval
      → lifecycle_loop out w warned sub (rd ∷ rds) wd
        ≡ lifecycle_loop out w
            (check_deadline out w warned rd sub wd).0
            r
            rds
            (next warned sub rd wd)
  unfolding lifecycle_loop after_act
  loop-goes warned sub r rd rds wd g went at open_ due =
      let read : out.store.get rd.read_ctx sub.event_id (after warned sub rd wd).state ≡ ok r =
        ap (λ ctx. out.store.get ctx sub.event_id (after warned sub rd wd).state) g.reads
        ∙ out.store.get_live sub.event_id _ r at in
      let soon : ltb w.poll_interval (r.next_attempt_at - rd.waited_at) ≡ false =
        ground (arith, due, g.waited) in
      ground (arith, g.held, went, read, open_, soon)

  flying-acted :
      (warned : Bool) (sub : Submission) (rd : Round out) (wd : World out)
      → is_flying sub.status ≡ true
      → acted out w warned sub rd wd
        ≡ (true, poll_status out w rd sub (check_deadline out w warned rd sub wd).1)
  unfolding act
  flying-acted warned sub rd wd h = act_on-flying out w rd sub _ sub.status h

  -- Rounds in which NAV answers each query, at first that it is still processing, and at last that
  -- every operation is done.
  pub data Finishes (id : Bytes) : List (Round out) → Type 0 where
    done :
        {rd : Round out} {rds : List (Round out)} (resp : List ProcessingResult)
        → Answers out w rd resp
        → is_finished (overall_status resp) ≡ true
        → Finishes id (rd ∷ rds)
    waits :
        {rd : Round out} {rds : List (Round out)} (resp : List ProcessingResult)
        → Answers out w rd resp
        → is_finished (overall_status resp) ≡ false
        → GoesOn out w id rd
        → Finishes id rds
        → Finishes id (rd ∷ rds)

  abbrev pub IsAccepted : Bytes → out.store.State → Type 0
  IsAccepted id s = (r : Submission) × (out.store.row id s ≡ some r) × (r.status ≡ accepted)

  abbrev waiting_row : Round out → Submission → Submission
  waiting_row rd sub = record sub {
    next_attempt_at = rd.now + w.poll_interval;
    status = processing;
    updated_at = rd.stamped_at;
  }

  loop-accepts :
      (warned : Bool) (sub : Submission) (rds : List (Round out)) (wd : World out)
      → out.store.row sub.event_id wd.state ≡ some sub
      → is_flying sub.status ≡ true
      → str_eq sub.transaction_id [] ≡ false
      → Finishes sub.event_id rds
      → IsAccepted sub.event_id (lifecycle_loop out w warned sub rds wd).state
  unfolding is_terminal
  loop-accepts warned sub [] wd at fly txn f = elim f [ ]
  loop-accepts warned sub (rd ∷ rds) wd at fly txn (done resp a fin) =
      let acts = flying-acted warned sub rd wd fly in
      let polled =
        poll-accepts out w rd resp sub (check_deadline out w warned rd sub wd).1 a fin fly txn
          (ap (out.store.row sub.event_id) (check_deadline-state out w warned rd sub wd).0 ∙ at) in
      let stored = ap (λ x. out.store.row sub.event_id x.1.state) acts ∙ polled in
      let stops = loop-stops warned sub _ rd rds wd a.kept (ap (λ x. x.0) acts) stored refl in
      (_, ap (λ (x : World out). out.store.row sub.event_id x.state) stops ∙ stored, refl)
  loop-accepts warned sub (rd ∷ rds) wd at fly txn (waits resp a fin g rest) =
      let acts = flying-acted warned sub rd wd fly in
      let polled =
        poll-waits out w rd resp sub (check_deadline out w warned rd sub wd).1 a fin fly txn
          (ap (out.store.row sub.event_id) (check_deadline-state out w warned rd sub wd).0 ∙ at) in
      let stored = ap (λ x. out.store.row sub.event_id x.1.state) acts ∙ polled in
      let goes = loop-goes warned sub _ rd rds wd g (ap (λ x. x.0) acts) stored refl refl in
      subst (λ (x : World out). IsAccepted sub.event_id x.state) (sym goes)
        (loop-accepts (check_deadline out w warned rd sub wd).0 (waiting_row rd sub) rds
          (next warned sub rd wd) (g.undisturbed _ ∙ stored) refl txn rest)

  -- A claimed submission that is pending ends accepted, if in the first round it depends on no
  -- other submission or on one that is found accepted, holds a document, and NAV answers its
  -- submission with a transaction, and if NAV answers the status query of each later round, for as
  -- long as it likes that operations are under way, and at last that all are done. The rounds
  -- before the last one keep the lease, their writes and reads meet no failure, the peers leave the
  -- row alone, and the time of the wait is not before that of the action; the last one keeps the
  -- lease and its write meets no failure.
  pub run_lifecycle-Accepts :
      (ctx : Context) (now : Time) (initial : Submission) (rd : Round out) (rds : List (Round out))
      (wd : World out) (res : SubmitResult)
      → out.store.row initial.event_id wd.state ≡ some initial
      → initial.status ≡ pending
      → GoesOn out w initial.event_id rd
      → Submits out w rd initial wd.state res
      → Finishes initial.event_id rds
      → IsAccepted initial.event_id (run_lifecycle out w ctx now initial (rd ∷ rds) wd).state
  unfolding run_lifecycle act is_terminal
  run_lifecycle-Accepts ctx now initial rd rds wd res at is_pending g t rest =
      let same = (check_deadline-state out w false rd initial wd).0 in
      let wd₁ = (check_deadline out w false rd initial wd).1 in
      let t₁ = subst (λ s. Submits out w rd initial s res) (sym same) t in
      let acts =
        pending-acted out w rd initial wd₁ initial.status is_pending
          (ready out w rd initial wd₁ res t₁) in
      let sent =
        attempt_submit-row out w rd initial wd₁ res wd₁.state t₁ g.writes is_pending
          (ap (out.store.row initial.event_id) same ∙ at) in
      let stored = ap (λ x. out.store.row initial.event_id x.1.state) acts ∙ sent in
      let goes =
        loop-goes false initial (submitted_row out w rd initial res) rd rds wd g
          (ap (λ x. x.0) acts) stored refl refl in
      let (r, e, a) =
        subst (λ (x : World out). IsAccepted initial.event_id x.state) (sym goes)
          (loop-accepts _ _ rds _ (g.undisturbed _ ∙ stored) refl t.transaction rest) in
      let (r', e', kept) =
        out.store.release_status ctx now initial.event_id w.claimer_id _ initial.event_id r e in
      (r', e', kept ∙ a)
