-- ===== src/Worker/Progress.antt =====
-- worker.go: how a lifecycle that NAV answers comes to its end.
use go_stripenav.Base.{
  ◌+◌, ◌≤◌, ◌≡◌, refl, sym, ap, ◌∙◌, ◌⊎◌, inl, inr, Bool, true, false, none, some, List, [], arith,
  Bool-cases, Bytes, str_eq, str_eq_refl,
}
use go_stripenav.Submission.{
  Submission, Status, Time, pending, submitted, processing, accepted, ok, transition,
}
use go_stripenav.Nav.{SubmitResult, reply}
use go_stripenav.Schemas.Api.{ProcessingResult}
use go_stripenav.Worker.{Worker}
use go_stripenav.Worker.Verdict.{overall_status, is_aborted, is_finished}
use go_stripenav.Worker.Effects.{Mutator, Update, wrote, failed}
use go_stripenav.Worker.Mutators.{mark_submitted, mark_accepted, mark_processing}
use go_stripenav.Worker.Steps.{Derived-cases}
use go_stripenav.Worker.World.{Outside, World, Round, Derived, derived, underivable}
use go_stripenav.Worker.Actions.{
  update_status, derive_for_retry, parent_ready, by_parent, after_submit, attempt_submit,
  after_poll, poll_status, check_deadline, act_on, act,
}

abbrev pub is_flying : Status → Bool
is_flying submitted = true
is_flying processing = true
is_flying _ = false

mark_accepted-flying :
    (s : Submission)
    → is_flying s.status ≡ true
    → (mark_accepted s).0 ≡ ok (record s { last_error = []; status = accepted })
unfolding mark_accepted transition
mark_accepted-flying s h = ground arith

mark_processing-flying :
    (w : Worker) (now : Time) (s : Submission)
    → is_flying s.status ≡ true
    → (mark_processing w now s).0
      ≡ ok (record s { next_attempt_at = now + w.poll_interval; status = processing })
unfolding mark_processing transition
mark_processing-flying w now s h = ground arith

mark_submitted_pending :
    (w : Worker) (now : Time) (transaction : Bytes) (s : Submission)
    → s.status ≡ pending
    → (mark_submitted w now transaction s).0
      ≡ ok (record s {
        transaction_id = transaction;
        last_error = [];
        attempts = s.attempts + 1;
        next_attempt_at = now + w.poll_interval;
        status = submitted;
      })
unfolding mark_submitted transition
mark_submitted_pending w now transaction s h = ground arith

abbrev pub is_derived : Derived → Bool
is_derived (derived op invoice annulment) = true
is_derived (underivable t) = false

module _ (out : Outside) where
  -- A write that meets no failure leaves the mutated row, stamped.
  update_status-row :
      (rd : Round out) (mut : Mutator) (wd : World out) (sub t : Submission)
      → rd.write_ctx ≡ none
      → out.store.row sub.event_id wd.state ≡ some sub
      → (mut sub).0 ≡ ok t
      → out.store.row sub.event_id (update_status out rd sub.event_id mut wd).state
        ≡ some (record t { updated_at = rd.stamped_at })
  unfolding update_status
  update_status-row rd mut wd sub t live at done =
      recorded (out.store.update_lem rd.write_ctx rd.stamped_at sub.event_id mut wd.state)
    where
      lives : (out.store.update rd.write_ctx rd.stamped_at sub.event_id mut wd.state).1 ≡ none
      lives =
          ap (λ ctx. (out.store.update ctx rd.stamped_at sub.event_id mut wd.state).1) live
          ∙ out.store.update_live rd.stamped_at sub.event_id mut wd.state sub t at done

      recorded :
          Update out.store.row rd.stamped_at sub.event_id mut wd.state
            (out.store.update rd.write_ctx rd.stamped_at sub.event_id mut wd.state)
          → out.store.row sub.event_id
              (out.store.update rd.write_ctx rd.stamped_at sub.event_id mut wd.state).0
            ≡ some (record t { updated_at = rd.stamped_at })
      recorded (failed x e _) = absurd (ground (arith, lives, e))
      recorded (wrote sub' t' p q _ _ rows) =
          let same : sub' ≡ sub = ground (arith, p, at) in
          let q' : ok t' ≡ ok t = sym q ∙ ap (λ (u : Submission). (mut u).0) same ∙ done in
          ground (arith, rows sub.event_id, str_eq_refl sub.event_id, q')

  module _ (w : Worker) where
    abbrev pub acted : Bool → Submission → Round out → World out → Bool × World out
    acted warned sub rd wd = act out w rd sub (check_deadline out w warned rd sub wd).1

    -- NAV answers the status query of a round, with the operations of the transaction.
    pub record Answers (rd : Round out) (resp : List ProcessingResult) : Type 0 where
      pub kept : rd.lease_done ≡ false
      pub written : rd.write_ctx ≡ none
      pub answer : rd.status_reply ≡ reply resp
      pub not_aborted : is_aborted (overall_status resp) ≡ false

    -- A round after which the lifecycle goes on.
    pub record GoesOn (id : Bytes) (rd : Round out) : Type 0 where
      pub held : rd.lease_done ≡ false
      pub writes : rd.write_ctx ≡ none
      pub reads : rd.read_ctx ≡ none
      pub undisturbed : (s : out.store.State) → out.store.row id (rd.others s) ≡ out.store.row id s
      pub waited : rd.now ≤ rd.waited_at

    pub act_on-flying :
        (rd : Round out) (sub : Submission) (wd : World out) (st : Status)
        → is_flying st ≡ true
        → act_on out w st rd sub wd ≡ (true, poll_status out w rd sub wd)
    unfolding act_on
    act_on-flying rd sub wd submitted h = refl
    act_on-flying rd sub wd processing h = refl
    act_on-flying rd sub wd _ h = cc

    pub poll-accepts :
        (rd : Round out) (resp : List ProcessingResult) (sub : Submission) (wd : World out)
        → Answers rd resp
        → is_finished (overall_status resp) ≡ true
        → is_flying sub.status ≡ true
        → str_eq sub.transaction_id [] ≡ false
        → out.store.row sub.event_id wd.state ≡ some sub
        → out.store.row sub.event_id (poll_status out w rd sub wd).state
          ≡ some (record sub { last_error = []; status = accepted; updated_at = rd.stamped_at })
    unfolding poll_status after_poll
    poll-accepts rd resp sub wd a fin fly txn at =
        rw (txn, a.answer, poll_status, after_poll, a.not_aborted, fin)
          (update_status-row rd mark_accepted _ sub _ a.written at (mark_accepted-flying sub fly))

    pub poll-waits :
        (rd : Round out) (resp : List ProcessingResult) (sub : Submission) (wd : World out)
        → Answers rd resp
        → is_finished (overall_status resp) ≡ false
        → is_flying sub.status ≡ true
        → str_eq sub.transaction_id [] ≡ false
        → out.store.row sub.event_id wd.state ≡ some sub
        → out.store.row sub.event_id (poll_status out w rd sub wd).state
          ≡ some (record sub {
            next_attempt_at = rd.now + w.poll_interval;
            status = processing;
            updated_at = rd.stamped_at;
          })
    unfolding poll_status after_poll
    poll-waits rd resp sub wd a fin fly txn at =
        rw (txn, a.answer, poll_status, after_poll, a.not_aborted, fin)
          (update_status-row rd (mark_processing w rd.now) _ sub _ a.written at
            (mark_processing-flying w rd.now sub fly))

    -- A round in which a pending submission is sent and taken: it depends on no other, or on one that
    -- is found accepted, it holds a document, and NAV answers with a transaction.
    pub record Submits (rd : Round out) (sub : Submission) (s : out.store.State)
        (res : SubmitResult) : Type 0 where
      pub free :
          (str_eq sub.parent_event_id [] ≡ true)
          ⊎ ((p : Submission) × (out.store.get rd.parent_ctx sub.parent_event_id s ≡ ok p)
              × (p.status ≡ accepted))
      pub document : is_derived (derive_for_retry out sub) ≡ true
      pub taken : rd.submit_reply ≡ reply res
      pub transaction : str_eq res.transaction_id [] ≡ false

    pub ready :
        (rd : Round out) (sub : Submission) (wd : World out) (res : SubmitResult)
        → Submits rd sub wd.state res
        → parent_ready out w rd sub wd ≡ (true, wd)
    unfolding parent_ready by_parent
    ready rd sub wd res t = elim (Bool-cases (str_eq sub.parent_event_id [])) [
      | inl e ↦ ground (arith, e)
      | inr e ↦ elim t.free [
        | inl e' ↦ absurd (ground (arith, e, e'))
        | inr (p, q, a) ↦ ground (arith, e, q, a)
      ]
    ]

    abbrev pub submitted_row : Round out → Submission → SubmitResult → Submission
    submitted_row rd sub res = record sub {
      transaction_id = res.transaction_id;
      last_error = [];
      attempts = sub.attempts + 1;
      next_attempt_at = rd.now + w.poll_interval;
      status = submitted;
      updated_at = rd.stamped_at;
    }

    pub attempt_submit-row :
        (rd : Round out) (sub : Submission) (wd : World out) (res : SubmitResult)
        (s : out.store.State)
        → Submits rd sub s res
        → rd.write_ctx ≡ none
        → sub.status ≡ pending
        → out.store.row sub.event_id wd.state ≡ some sub
        → out.store.row sub.event_id (attempt_submit out w rd sub wd).state
          ≡ some (submitted_row rd sub res)
    unfolding attempt_submit after_submit
    attempt_submit-row rd sub wd res s t live is_pending at =
        elim (Derived-cases (derive_for_retry out sub)) [
          | inl (x, e) ↦ absurd (ground (arith, e, t.document))
          | inr (op, inv, annul, e) ↦
              rw (e, attempt_submit, t.taken, after_submit)
                (update_status-row rd (mark_submitted w rd.now res.transaction_id) _ sub _ live at
                  (mark_submitted_pending w rd.now res.transaction_id sub is_pending))
        ]

    pub pending-acted :
        (rd : Round out) (sub : Submission) (wd : World out) (st : Status)
        → st ≡ pending
        → parent_ready out w rd sub wd ≡ (true, wd)
        → act_on out w st rd sub wd ≡ (true, attempt_submit out w rd sub wd)
    unfolding act_on
    pending-acted rd sub wd pending e open_ = ground (arith, open_)
    pending-acted rd sub wd _ e open_ = cc
