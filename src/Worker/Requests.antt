-- ===== src/Worker/Requests.antt =====
-- What one action of the lifecycle of worker.go sends to NAV.
use go_stripenav.Base.{
  ◌+◌, ◌≡◌, refl, sym, ap, ◌∙◌, ◌≢◌, ◌⊎◌, inl, inr, true, false, Option, none, some, List, [], ◌∷◌,
  ◌++◌, arith, Bool-cases, Bytes, str_eq, str_eq_refl,
}
use go_stripenav.Submission.{
  Submission, Status, Kind, annulment, Time, pending, submitted, accepted, Error, Result-cases, ok,
  transition,
}
use go_stripenav.Store.{Context}
use go_stripenav.Nav.{SubmitResult, Reply, reply, nav_failure, other_failure}
use go_stripenav.Worker.{Worker}
use go_stripenav.Schemas.Api.{ProcessingResult}
use go_stripenav.Worker.Verdict.{overall_status, is_aborted, is_finished}
use go_stripenav.Worker.Effects.{Metric, Mutator, Update, wrote, failed}
use go_stripenav.Worker.Mutators.{mark_submitted}
use go_stripenav.Worker.World.{Outside, World, Round, queries_status, Sent, answered, IsRecorded}
use go_stripenav.Worker.Actions.{
  update_status, derive_for_retry, by_parent, parent_ready, submit_request, after_submit,
  attempt_submit, after_poll, poll_status,
}
use go_stripenav.Worker.Steps.{Derived-cases}
use go_stripenav.Worker.Sending.{is_query, Quiet, Extends, Extends-none}

mark_submitted-pending :
    (w : Worker) (now : Time) (transaction : Bytes) (s : Submission)
    → s.status ≡ pending
    → (t : Submission) × (((mark_submitted w now transaction s).0 ≡ ok t) × (t.status ≡ submitted))
unfolding mark_submitted transition
mark_submitted-pending w now transaction s e = (
  record s {
    transaction_id = transaction;
    last_error = [];
    attempts = s.attempts + 1;
    next_attempt_at = now + w.poll_interval;
    status = submitted;
  },
  (ground arith, refl),
)

none≢some : {A : Type 0} {a : A} → ◌≢◌ {A = Option A} none (some a)
none≢some e = cc

module _ (out : Outside) where
  update_status-sent :
      (rd : Round out) (id : Bytes) (mut : Mutator) (wd : World out)
      → (update_status out rd id mut wd).sent ≡ wd.sent
  unfolding update_status
  update_status-sent rd id mut wd = refl

  module _ (w : Worker) where
    after_poll-sent :
        (rd : Round out) (sub : Submission) (rep : Reply (List ProcessingResult)) (wd : World out)
        → (after_poll out w rd sub rep wd).sent ≡ wd.sent
    unfolding after_poll update_status
    after_poll-sent rd sub (nav_failure e) wd = refl
    after_poll-sent rd sub (other_failure t) wd = refl
    after_poll-sent rd sub (reply resp) wd = elim (Bool-cases (is_aborted (overall_status resp))) [
      | inl e ↦ rw (e, after_poll) refl
      | inr e ↦ elim (Bool-cases (is_finished (overall_status resp))) [
        | inl f ↦ rw (e, f, after_poll) refl
        | inr f ↦ rw (e, f, after_poll) refl
      ]
    ]

    -- A poll sends at most a status query.
    pub poll_status-Quiet :
        (rd : Round out) (sub : Submission) (wd : World out)
        → Extends Quiet wd.sent (poll_status out w rd sub wd).sent
    unfolding poll_status
    poll_status-Quiet rd sub wd = elim (Bool-cases (str_eq sub.transaction_id [])) [
      | inl e ↦ rw (e, poll_status) (Extends-none Quiet wd.sent _ tt (update_status-sent rd _ _ wd))
      | inr e ↦
          rw (e, poll_status)
            (
              record {
                request = queries_status sub.transaction_id;
                is_answered = answered rd.status_reply;
              }
                  ∷ [],
              after_poll-sent rd sub rd.status_reply _,
              (refl, tt),
            )
    ]

    by_parent-sent :
        (a : Status) (rd : Round out) (sub parent : Submission) (wd : World out)
        → ((by_parent out w a rd sub parent wd).1.sent ≡ wd.sent)
          × ((by_parent out w a rd sub parent wd).0 ≡ true
              → (by_parent out w a rd sub parent wd).1 ≡ wd)
    unfolding by_parent update_status
    by_parent-sent accepted rd sub parent wd = (refl, λ _. refl)
    by_parent-sent _ rd sub parent wd = (refl, λ e. cc)

    pub parent_ready-sent :
        (rd : Round out) (sub : Submission) (wd : World out)
        → ((parent_ready out w rd sub wd).1.sent ≡ wd.sent)
          × ((parent_ready out w rd sub wd).0 ≡ true → (parent_ready out w rd sub wd).1 ≡ wd)
    unfolding parent_ready
    parent_ready-sent rd sub wd = elim (Bool-cases (str_eq sub.parent_event_id [])) [
      | inl e ↦ rw (e, parent_ready) (refl, λ _. refl)
      | inr e ↦ elim (Result-cases (out.store.get rd.parent_ctx sub.parent_event_id wd.state)) [
        | inr (x, q) ↦ rw (e, q, parent_ready) (update_status-sent rd _ _ wd, λ f. cc)
        | inl (parent, q) ↦ rw (e, q, parent_ready) (by_parent-sent parent.status rd sub parent wd)
      ]
    ]

    submit_request-not_query :
        (k : Kind) (op inv annul : Bytes) → is_query (submit_request out w k op inv annul) ≡ false
    unfolding submit_request
    submit_request-not_query annulment op inv annul = refl
    submit_request-not_query _ op inv annul = refl

    after_submit-sent :
        (rd : Round out) (sub : Submission) (rep : Reply SubmitResult) (wd : World out)
        → (after_submit out w rd sub rep wd).sent ≡ wd.sent
    unfolding after_submit update_status
    after_submit-sent rd sub (reply res) wd = refl
    after_submit-sent rd sub (nav_failure e) wd = refl
    after_submit-sent rd sub (other_failure t) wd = refl

    -- An answered submission is recorded, if the store takes the write.
    after_submit_recorded :
        (rd : Round out) (sub r : Submission) (rep : Reply SubmitResult) (wd : World out)
        → rd.write_ctx ≡ none
        → out.store.row sub.event_id wd.state ≡ some r
        → r.status ≡ pending
        → answered rep ≡ true
        → (r' : Submission) × (out.store.row sub.event_id (after_submit out w rd sub rep wd).state
            ≡ some r')
          × (r'.status ≡ submitted)
    unfolding after_submit update_status
    after_submit_recorded rd sub r (nav_failure e) wd live at is_pending took = cc
    after_submit_recorded rd sub r (other_failure t) wd live at is_pending took = cc
    after_submit_recorded rd sub r (reply res) wd live at is_pending took =
        recorded (out.store.update_lem rd.write_ctx rd.stamped_at sub.event_id mut wd.state)
      where
        mut : Mutator
        mut = mark_submitted w rd.now res.transaction_id

        result : Context → out.store.State × Option Error × List Metric
        result ctx = out.store.update ctx rd.stamped_at sub.event_id mut wd.state

        lives : (result rd.write_ctx).1 ≡ none
        lives =
            ap (λ ctx. (result ctx).1) live
            ∙ (let (t, e) = mark_submitted-pending w rd.now res.transaction_id r is_pending in
                out.store.update_live rd.stamped_at sub.event_id mut wd.state r t at e.0)

        recorded :
            Update out.store.row rd.stamped_at sub.event_id mut wd.state (result rd.write_ctx)
            → (r' : Submission) × (out.store.row sub.event_id (result rd.write_ctx).0 ≡ some r')
              × (r'.status ≡ submitted)
        recorded (failed x e _) = absurd (none≢some (sym lives ∙ e))
        recorded (wrote sub' t p q _ _ rows) =
            let same : sub' ≡ r = ground (arith, p, at) in
            let (t', e) = mark_submitted-pending w rd.now res.transaction_id r is_pending in
            let q' : ok t ≡ ok t' = sym q ∙ ap (λ (u : Submission). (mut u).0) same ∙ e.0 in
            (
              record t { updated_at = rd.stamped_at },
              ground (arith, rows sub.event_id, str_eq_refl sub.event_id),
              ground (arith, q', e.1),
            )

    -- An attempt sends nothing, or one submission that is not answered, or one that is
    -- and is then recorded as submitted.
    abbrev pub Attempt : Submission → List Sent → World out → Type 0
    Attempt sub xs wd' =
        (wd'.sent ≡ xs)
        ⊎ ((t : Sent) × (is_query t.request ≡ false)
            × (wd'.sent ≡ xs ++ t ∷ [])
            × (t.is_answered ≡ true
                → (r' : Submission) × (out.store.row sub.event_id wd'.state ≡ some r')
                  × (r'.status ≡ submitted)))

    -- Of a submission whose row in the store is pending, an attempt sends nothing, or one submission
    -- that is not answered, or one that is and is then recorded as submitted, if the write
    -- that records it meets neither a cancelled context nor a failure of the store.
    pub attempt_submit-Attempt :
        (rd : Round out) (sub r : Submission) (wd : World out)
        → IsRecorded out rd
        → out.store.row sub.event_id wd.state ≡ some r
        → r.status ≡ pending
        → Attempt sub wd.sent (attempt_submit out w rd sub wd)
    unfolding attempt_submit
    attempt_submit-Attempt rd sub r wd live at is_pending =
        elim (Derived-cases (derive_for_retry out sub)) [
          | inl (t, e) ↦ inl (rw (e, attempt_submit) (update_status-sent rd _ _ wd))
          | inr (op, inv, annul, e) ↦
              rw (e, attempt_submit)
                (inr (
                  record {
                    request = submit_request out w sub.kind op inv annul;
                    is_answered = answered rd.submit_reply;
                  },
                  submit_request-not_query sub.kind op inv annul,
                  after_submit-sent rd sub rd.submit_reply _,
                  λ took.
                      after_submit_recorded rd sub r rd.submit_reply _ (live took) at is_pending
                        took,
                ))
        ]
