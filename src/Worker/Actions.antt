-- ===== src/Worker/Actions.antt =====
-- The submission lifecycle of worker.go, by functions from a round and the world to the world.
use go_stripenav.Base.{
  ℕ, ◌-◌, Bool, true, false, not, ◌&&◌, none, some, List, [], ◌∷◌, ◌++◌, ltb, if◌then◌else◌, Bytes,
  str, str_eq,
}
use go_stripenav.Submission.{
  Submission, Status, Kind, annulment, Time, pending, submitted, processing, accepted, rejected,
  aborted, Result, ok, err, is_terminal, status_text,
}
use go_stripenav.Store.{Context}
use go_stripenav.Nav.{
  nav_error_text, is_retriable, SubmitResult, Reply, reply, nav_failure, other_failure,
}
use go_stripenav.Worker.Document.{xml_looks_like}
use go_stripenav.Worker.{Worker, reporting_deadline}
use go_stripenav.Schemas.Api.{ProcessingResult}
use go_stripenav.Worker.Verdict.{
  overall_status, format_validation_messages, is_aborted, is_finished,
}
use go_stripenav.Worker.Backoff.{backoff_for}
use go_stripenav.Worker.Effects.{submission_result, latency, Mutator}
use go_stripenav.Worker.Mutators.{
  postpone, abort_child, mark_failure, mark_poll_failure, mark_submitted, mark_rejected,
  mark_accepted, mark_processing,
}
use go_stripenav.Worker.World.{
  Request, submits_invoice, annuls_invoice, queries_status, Derived, derived, underivable, Outside,
  answered, World, Round, tell, send,
}

module _ (out : Outside) where
  open out use {store, f64, xml_tokens, derive}

  -- `updateStatus`: an error is only logged.
  unfoldable pub update_status : Round out → Bytes → Mutator → World out → World out
  update_status rd id mut wd =
      let r = store.update rd.write_ctx rd.stamped_at id mut wd.state in
      record wd { state = r.0; metrics = wd.metrics ++ r.2 }

  unfoldable pub derive_for_retry : Submission → Derived
  derive_for_retry sub = elim derive [
    | some hook ↦ hook sub.event_id sub.raw_event
    | none ↦
        if not (xml_looks_like (xml_tokens sub.raw_event) (str "InvoiceData"))
          && not (xml_looks_like (xml_tokens sub.raw_event) (str "InvoiceAnnulment"))
        then underivable
            (str "stripenav: worker has no Derive hook and RawEvent is not a NAV payload")
        else elim sub.kind [
          | annulment ↦ derived [] [] sub.raw_event
          | _ ↦
              derived (if str_eq sub.operation [] then str "CREATE" else sub.operation)
                sub.raw_event []
        ]
  ]

  module _ (w : Worker) where
    unfoldable pub backoff : Round out → ℕ → ℕ
    backoff rd = backoff_for f64 w rd.jitter

    -- parentReady's switch on the status of the parent that it found.
    unfoldable pub by_parent :
        Status → Round out → Submission → Submission → World out → Bool × World out
    by_parent accepted rd sub parent wd = (true, wd)
    by_parent rejected rd sub parent wd = (
      false,
      tell out (submission_result (status_text aborted) ∷ [])
          (update_status rd sub.event_id (abort_child parent) wd),
    )
    by_parent aborted rd sub parent wd = (
      false,
      tell out (submission_result (status_text aborted) ∷ [])
          (update_status rd sub.event_id (abort_child parent) wd),
    )
    by_parent _ rd sub parent wd = (false, update_status rd sub.event_id (postpone w rd.now) wd)

    -- parentReady; `false` sends the lifecycle home.
    unfoldable pub parent_ready : Round out → Submission → World out → Bool × World out
    parent_ready rd sub wd =
        if str_eq sub.parent_event_id []
        then (true, wd)
        else elim (store.get rd.parent_ctx sub.parent_event_id wd.state) [
          | err e ↦ (false, update_status rd sub.event_id (postpone w rd.now) wd)
          | ok parent ↦ by_parent parent.status rd sub parent wd
        ]

    -- The client call of attemptSubmit, by the kind of the submission.
    unfoldable pub submit_request : Kind → Bytes → Bytes → Bytes → Request
    submit_request annulment op invoice annul =
        annuls_invoice (record { invoice_annulment = annul })
    submit_request _ op invoice annul =
        submits_invoice (record { operation = op; invoice_data = invoice })

    -- The end of attemptSubmit, by what the client returned.
    unfoldable pub after_submit :
        Round out → Submission → Reply SubmitResult → World out → World out
    unfolding backoff
    after_submit rd sub (reply res) wd =
        update_status rd sub.event_id (mark_submitted w rd.now res.transaction_id) wd
    after_submit rd sub (nav_failure e) wd =
        update_status rd sub.event_id
          (mark_failure (backoff rd) rd.now (nav_error_text e) (is_retriable e)) wd
    after_submit rd sub (other_failure t) wd =
        update_status rd sub.event_id (mark_failure (backoff rd) rd.now t true) wd

    unfoldable pub attempt_submit : Round out → Submission → World out → World out
    unfolding backoff after_submit derive_for_retry submit_request
    attempt_submit rd sub wd = elim (derive_for_retry sub) [
      | underivable t ↦ update_status rd sub.event_id (mark_failure (backoff rd) rd.now t false) wd
      | derived op invoice annul ↦ after_submit rd sub rd.submit_reply (
          tell out (latency (str "submit") ∷ [])
            (send out (submit_request sub.kind op invoice annul) (answered rd.submit_reply) wd))
    ]

    -- The end of pollStatus, by what the client returned.
    unfoldable pub after_poll :
        Round out → Submission → Reply (List ProcessingResult) → World out → World out
    unfolding backoff
    after_poll rd sub (nav_failure e) wd =
        update_status rd sub.event_id
          (mark_poll_failure (backoff rd) rd.now (nav_error_text e) (is_retriable e)) wd
    after_poll rd sub (other_failure t) wd =
        update_status rd sub.event_id (mark_poll_failure (backoff rd) rd.now t true) wd
    after_poll rd sub (reply resp) wd =
        if is_aborted (overall_status resp)
        then tell out (submission_result (status_text rejected) ∷ [])
            (update_status rd sub.event_id (mark_rejected (format_validation_messages resp)) wd)
        else if is_finished (overall_status resp)
        then tell out (submission_result (status_text accepted) ∷ [])
            (update_status rd sub.event_id mark_accepted wd)
        else update_status rd sub.event_id (mark_processing w rd.now) wd

    unfoldable pub poll_status : Round out → Submission → World out → World out
    unfolding backoff after_poll
    poll_status rd sub wd =
        if str_eq sub.transaction_id []
        then update_status rd sub.event_id
            (mark_poll_failure (backoff rd) rd.now
              (str "submitted submission missing transactionId") false)
            wd
        else after_poll rd sub rd.status_reply (
            tell out (latency (str "status") ∷ [])
              (send out (queries_status sub.transaction_id) (answered rd.status_reply) wd))

    abbrev is_pending : Status → Bool
    is_pending pending = true
    is_pending _ = false

    unfoldable pub overdue : Bool → Round out → Submission → Bool
    overdue warned rd sub =
        not warned
        && (is_pending sub.status
            && (ltb 0 sub.issued_at && ltb reporting_deadline (rd.checked_at - sub.issued_at)))

    -- The deadline alarm: whether it has been raised, and the world.
    unfoldable pub check_deadline : Bool → Round out → Submission → World out → Bool × World out
    check_deadline warned rd sub wd =
        if overdue warned rd sub
        then (true, tell out (submission_result (str "deadline_exceeded") ∷ []) wd)
        else (warned, wd)

    -- The switch on the status; `false` is a `return`.
    unfoldable pub act_on : Status → Round out → Submission → World out → Bool × World out
    act_on pending rd sub wd =
        let (ready, wd') = parent_ready rd sub wd in
        if ready then (true, attempt_submit rd sub wd') else (false, wd')
    act_on submitted rd sub wd = (true, poll_status rd sub wd)
    act_on processing rd sub wd = (true, poll_status rd sub wd)
    act_on _ rd sub wd = (false, wd)

    unfoldable pub act : Round out → Submission → World out → Bool × World out
    act rd sub wd = act_on sub.status rd sub wd

    -- The rest of a turn after its action: `went` says that the action did not return, `read` is
    -- the row read again, and `loop` goes on with it.
    unfoldable pub after_act :
        Bool → Result Submission → Round out → World out → (Submission → World out) → World out
    after_act false read rd wd loop = wd
    after_act true (err e) rd wd loop = wd
    after_act true (ok fresh) rd wd loop =
        if is_terminal fresh
        then wd
        else if ltb w.poll_interval (fresh.next_attempt_at - rd.waited_at)
        then wd
        else loop fresh

    -- The loop. When the rounds end the process stops where it stands.
    unfoldable pub lifecycle_loop : Bool → Submission → List (Round out) → World out → World out
    lifecycle_loop warned sub [] wd = wd
    lifecycle_loop warned sub (rd ∷ rds) wd =
        let (warned', wd₁) = check_deadline warned rd sub wd in
        let (went, wd₂) = act rd sub wd₁ in
        let read = store.get rd.read_ctx sub.event_id wd₂.state in
        let loop = λ (fresh : Submission).
          lifecycle_loop warned' fresh rds (record wd₂ { state = rd.others wd₂.state }) in
        if rd.lease_done then wd else after_act went read rd wd₂ loop

    -- runLifecycle: the loop, then the deferred release of the claim.
    unfoldable pub run_lifecycle :
        Context → Time → Submission → List (Round out) → World out → World out
    unfolding lifecycle_loop
    run_lifecycle ctx now initial rds wd =
        let wd' = lifecycle_loop false initial rds wd in
        record wd' { state = (store.release ctx now initial.event_id w.claimer_id wd'.state).0 }
