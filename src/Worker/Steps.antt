-- ===== src/Worker/Steps.antt =====
-- What one action of the lifecycle of worker.go does to the rows of the store.
use go_stripenav.Base.{
  ◌≡◌, refl, ◌⊎◌, inl, inr, Bool, true, false, List, [], Bool-cases, Bytes, str_eq,
}
use go_stripenav.Submission.{
  Submission, Status, pending, submitted, processing, accepted, rejected, aborted, Result-cases,
}
use go_stripenav.Worker.Acts.{Evolves, Acts, Acts-refl, Acts-trans, Acts-Evolves, update-Acts}
use go_stripenav.Nav.{SubmitResult, Reply, reply, nav_failure, other_failure, is_retriable}
use go_stripenav.Worker.{Worker}
use go_stripenav.Schemas.Api.{ProcessingResult}
use go_stripenav.Worker.Verdict.{overall_status, is_aborted, is_finished}
use go_stripenav.Worker.Mutators.{
  postpone-Lawful, abort_child-Lawful, mark_failure-Lawful, mark_poll_failure-Lawful,
  mark_submitted-Lawful, mark_rejected-Lawful, mark_accepted-Lawful, mark_processing-Lawful,
}
use go_stripenav.Worker.World.{Outside, World, Round, Derived, derived, underivable}
use go_stripenav.Worker.Actions.{
  derive_for_retry, overdue, by_parent, parent_ready, after_submit, attempt_submit, after_poll,
  poll_status, check_deadline, act_on, act,
}

pub Derived-cases :
    (d : Derived)
    → ((t : Bytes) × (d ≡ underivable t))
      ⊎ ((op invoice annul : Bytes) × (d ≡ derived op invoice annul))
Derived-cases (underivable t) = inl (t, refl)
Derived-cases (derived op invoice annul) = inr (op, invoice, annul, refl)

module _ (out : Outside) where
  module _ (w : Worker) where
    by_parent-Acts :
        (a : Status) (rd : Round out) (sub parent : Submission) (wd : World out)
        → Acts out sub.event_id wd.state (by_parent out w a rd sub parent wd).1.state
    unfolding by_parent
    by_parent-Acts accepted rd sub parent wd = Acts-refl out sub.event_id wd.state
    by_parent-Acts rejected rd sub parent wd =
        update-Acts out rd sub.event_id _ wd (abort_child-Lawful parent)
    by_parent-Acts aborted rd sub parent wd =
        update-Acts out rd sub.event_id _ wd (abort_child-Lawful parent)
    by_parent-Acts _ rd sub parent wd =
        update-Acts out rd sub.event_id _ wd (postpone-Lawful w rd.now)

    parent_ready-Acts :
        (rd : Round out) (sub : Submission) (wd : World out)
        → Acts out sub.event_id wd.state (parent_ready out w rd sub wd).1.state
    unfolding parent_ready
    parent_ready-Acts rd sub wd = elim (Bool-cases (str_eq sub.parent_event_id [])) [
      | inl e ↦ rw (e, parent_ready) (Acts-refl out sub.event_id wd.state)
      | inr e ↦ elim (Result-cases (out.store.get rd.parent_ctx sub.parent_event_id wd.state)) [
        | inr (x, q) ↦
            rw (e, q, parent_ready)
              (update-Acts out rd sub.event_id _ wd (postpone-Lawful w rd.now))
        | inl (parent, q) ↦ rw (e, q, parent_ready) (by_parent-Acts parent.status rd sub parent wd)
      ]
    ]

    after_submit-Acts :
        (rd : Round out) (sub : Submission) (rep : Reply SubmitResult) (wd : World out)
        → Acts out sub.event_id wd.state (after_submit out w rd sub rep wd).state
    unfolding after_submit
    after_submit-Acts rd sub (reply res) wd =
        update-Acts out rd sub.event_id _ wd (mark_submitted-Lawful w rd.now res.transaction_id)
    after_submit-Acts rd sub (nav_failure e) wd =
        update-Acts out rd sub.event_id _ wd (mark_failure-Lawful _ rd.now _ (is_retriable e))
    after_submit-Acts rd sub (other_failure t) wd =
        update-Acts out rd sub.event_id _ wd (mark_failure-Lawful _ rd.now t true)

    attempt_submit-Acts :
        (rd : Round out) (sub : Submission) (wd : World out)
        → Acts out sub.event_id wd.state (attempt_submit out w rd sub wd).state
    unfolding attempt_submit
    attempt_submit-Acts rd sub wd = elim (Derived-cases (derive_for_retry out sub)) [
      | inl (t, e) ↦
          rw (e, attempt_submit)
            (update-Acts out rd sub.event_id _ wd (mark_failure-Lawful _ rd.now t false))
      | inr (op, invoice, annul, e) ↦
          rw (e, attempt_submit) (after_submit-Acts rd sub rd.submit_reply _)
    ]

    after_poll-Acts :
        (rd : Round out) (sub : Submission) (rep : Reply (List ProcessingResult)) (wd : World out)
        → Acts out sub.event_id wd.state (after_poll out w rd sub rep wd).state
    unfolding after_poll
    after_poll-Acts rd sub (nav_failure e) wd =
        update-Acts out rd sub.event_id _ wd (mark_poll_failure-Lawful _ rd.now _ (is_retriable e))
    after_poll-Acts rd sub (other_failure t) wd =
        update-Acts out rd sub.event_id _ wd (mark_poll_failure-Lawful _ rd.now t true)
    after_poll-Acts rd sub (reply resp) wd = elim (Bool-cases (is_aborted (overall_status resp))) [
      | inl e ↦ rw (e, after_poll) (update-Acts out rd sub.event_id _ wd (mark_rejected-Lawful _))
      | inr e ↦ elim (Bool-cases (is_finished (overall_status resp))) [
        | inl f ↦ rw (e, f, after_poll) (update-Acts out rd sub.event_id _ wd mark_accepted-Lawful)
        | inr f ↦
            rw (e, f, after_poll)
              (update-Acts out rd sub.event_id _ wd (mark_processing-Lawful w rd.now))
      ]
    ]

    poll_status-Acts :
        (rd : Round out) (sub : Submission) (wd : World out)
        → Acts out sub.event_id wd.state (poll_status out w rd sub wd).state
    unfolding poll_status
    poll_status-Acts rd sub wd = elim (Bool-cases (str_eq sub.transaction_id [])) [
      | inl e ↦
          rw (e, poll_status)
            (update-Acts out rd sub.event_id _ wd (mark_poll_failure-Lawful _ rd.now _ false))
      | inr e ↦ rw (e, poll_status) (after_poll-Acts rd sub rd.status_reply _)
    ]

    act_on-Acts :
        (a : Status) (rd : Round out) (sub : Submission) (wd : World out)
        → Acts out sub.event_id wd.state (act_on out w a rd sub wd).1.state
    unfolding act_on
    act_on-Acts pending rd sub wd = elim (Bool-cases (parent_ready out w rd sub wd).0) [
      | inl e ↦
          rw (e, act_on)
            (Acts-trans out sub.event_id (parent_ready-Acts rd sub wd)
              (attempt_submit-Acts rd sub _))
      | inr e ↦ rw (e, act_on) (parent_ready-Acts rd sub wd)
    ]
    act_on-Acts submitted rd sub wd = poll_status-Acts rd sub wd
    act_on-Acts processing rd sub wd = poll_status-Acts rd sub wd
    act_on-Acts _ rd sub wd = Acts-refl out sub.event_id wd.state

    pub act-Acts :
        (rd : Round out) (sub : Submission) (wd : World out)
        → Acts out sub.event_id wd.state (act out w rd sub wd).1.state
    unfolding act
    act-Acts rd sub wd = act_on-Acts sub.status rd sub wd

    pub act-Evolves :
        (rd : Round out) (sub : Submission) (wd : World out)
        → Evolves out wd.state (act out w rd sub wd).1.state
    act-Evolves rd sub wd = Acts-Evolves out sub.event_id _ _ (act-Acts rd sub wd)

    pub check_deadline-state :
        (warned : Bool) (rd : Round out) (sub : Submission) (wd : World out)
        → ((check_deadline out w warned rd sub wd).1.state ≡ wd.state)
          × ((check_deadline out w warned rd sub wd).1.sent ≡ wd.sent)
    unfolding check_deadline
    check_deadline-state warned rd sub wd = elim (Bool-cases (overdue out w warned rd sub)) [
      | inl e ↦ rw (e, check_deadline) (refl, refl)
      | inr e ↦ rw (e, check_deadline) (refl, refl)
    ]
