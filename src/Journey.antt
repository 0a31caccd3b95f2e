-- ===== src/Journey.antt =====
-- From a delivery to NAV's verdict: stripenav.go's processEvent, a ClaimBatch of worker.go's Run, and
-- the lifecycle that it starts, on the in-process store.
use go_stripenav.Base.{
  ◌+◌, ◌≤◌, ◌<◌, ◌≡◌, refl, sym, ap, ◌∙◌, subst, ◌≢◌, ◌⊎◌, inl, inr, true, false, none, some, List,
  [], ◌∷◌, ◌++◌, arith, length, In, Bytes, str, str_eq, str_eq_iff,
}
use go_stripenav.Submission.{Submission, Kind, Time, pending, accepted, ok, is_terminal}
use go_stripenav.Schemas.{InvoiceData}
use go_stripenav.Base.{xml_header}
use go_stripenav.Nav.{SubmitResult, reply}
use go_stripenav.Store.{Store, Context, get, claim, is_claimable}
use go_stripenav.Store.Table.{lookup, lookup-insert_self, Keyed}
use go_stripenav.Store.Batch.{claim_batch_sound}
use go_stripenav.Store.Fairness.{claim_batch_oldest}
use go_stripenav.Worker.{Worker}
use go_stripenav.Worker.Document.{XmlToken, xml_looks_like}
use go_stripenav.Worker.Backoff.{Float64}
use go_stripenav.Worker.World.{Round}
use go_stripenav.Worker.Actions.{derive_for_retry, run_lifecycle}
use go_stripenav.Worker.Renewal.{claim_and_process}
use go_stripenav.Worker.Progress.{GoesOn, is_derived}
use go_stripenav.Worker.Acceptance.{Finishes, IsAccepted, run_lifecycle-Accepts}
use go_stripenav.Bridge.{HandlerConfig, Event, Packages, Delivery}
use go_stripenav.Bridge.Documents.{Mapped}
use go_stripenav.Bridge.Drafts.{IsDraft}
use go_stripenav.Bridge.Deliver.{new_submission, process_event}
use go_stripenav.Bridge.Effect.{
  ignored, known, unread, refused, raced, stored, IsPlain, seen, with_payload, process_event-Effect,
}
use go_stripenav.Fleet.{outside, begun}

-- The row that a delivery has left under its event's id: pending, due at the delivery, unclaimed, and
-- with the marshalled document.
pub record IsWaiting (lib : Packages) (at : Time) (r : Submission) : Type 0 where
  pub fresh : r.status ≡ pending
  pub due : r.next_attempt_at ≡ at
  pub unclaimed : r.claimed_by ≡ []
  pub reports :
      (doc : InvoiceData) × (payload : Bytes) × (lib.marshal_invoice doc ≡ inl payload)
      × (r.raw_event ≡ xml_header ++ payload)

module _ (lib : Packages) (cfg : HandlerConfig) where
  draft-IsWaiting :
      (dl : Delivery) (event : Event) (kind : Kind) (body payload : Bytes) (m : Mapped)
      → IsDraft (new_submission lib cfg true dl event kind body) m
      → lib.marshal_invoice m.doc ≡ inl payload
      → IsWaiting lib dl.now (with_payload m payload)
        × ((with_payload m payload).event_id ≡ event.id)
  unfolding new_submission
  draft-IsWaiting dl event kind body payload m d q = (
    record {
      fresh = ap (λ (u : Submission). u.status) d.kept;
      due = ap (λ (u : Submission). u.next_attempt_at) d.kept;
      unclaimed = ap (λ (u : Submission). u.claimed_by) d.kept;
      reports = (m.doc, payload, q, refl);
    },
    ap (λ (u : Submission). u.event_id) d.kept,
  )

  -- A delivery that wakes the worker has stored such a row.
  pub woken-IsWaiting :
      (dl : Delivery) (event : Event) (body : Bytes) (s : Store)
      → IsPlain dl.put_ctx
      → (process_event lib cfg true dl event body s).woken ≡ true
      → (r : Submission) × (lookup event.id (process_event lib cfg true dl event body s).state.rows
          ≡ some r)
        × (r.event_id ≡ event.id)
        × IsWaiting lib dl.now r
  woken-IsWaiting dl event body s plain woken =
      elim (process_event-Effect lib cfg true dl event body s plain) [
        | ignored _ e ↦ absurd (true≢false (sym woken ∙ ap (λ o. o.woken) e))
        | known _ _ e ↦ absurd (true≢false (sym woken ∙ ap (λ o. o.woken) e))
        | unread _ e ↦ absurd (true≢false (sym woken ∙ ap (λ o. o.woken) e))
        | refused _ e ↦ absurd (true≢false (sym woken ∙ ap (λ o. o.woken) e))
        | raced _ _ e ↦ absurd (true≢false (sym woken ∙ ap (λ o. o.woken) e))
        | stored kind m payload _ _ d q e ↦
            let (waiting, id) = draft-IsWaiting dl event kind body payload m d q in
            (
              with_payload m payload,
              ap (λ o. lookup event.id o.state.rows) e
                  ∙ lookup-insert_self event.id (with_payload m payload) (seen dl s).rows,
              id,
              waiting,
            )
      ]
    where
      true≢false : true ≢ false
      true≢false e = cc

waiting-claimable :
    (lib : Packages) (at now : Time) (r : Submission)
    → IsWaiting lib at r
    → at ≤ now
    → is_claimable now r ≡ true
unfolding is_claimable is_terminal
waiting-claimable lib at now r h le =
    ground (arith, h.fresh, h.due, h.unclaimed, str_eq_iff r.claimed_by [])

module _ (lib : Packages) (f64 : Float64) (xml_tokens : Bytes → List XmlToken) where
  -- A marshalled InvoiceData reads as a document with that root.
  abbrev pub ReadsBack : Type 0
  ReadsBack =
      (doc : InvoiceData) (payload : Bytes)
      → lib.marshal_invoice doc ≡ inl payload
      → xml_looks_like (xml_tokens (xml_header ++ payload)) (str "InvoiceData") ≡ true

  waiting-derived :
      (at : Time) (r v : Submission)
      → ReadsBack
      → IsWaiting lib at r
      → v.raw_event ≡ r.raw_event
      → is_derived (derive_for_retry (outside f64 xml_tokens none) v) ≡ true
  unfolding derive_for_retry
  waiting-derived at r v reads h same =
      let (doc, payload, q, raw) = h.reports in
      let root : xml_looks_like (xml_tokens v.raw_event) (str "InvoiceData") ≡ true =
        ap (λ b. xml_looks_like (xml_tokens b) (str "InvoiceData")) (same ∙ raw)
        ∙ reads doc payload q in
      ground (arith, root)

  module _ (cfg : HandlerConfig) (w : Worker) where
    -- From a delivery to NAV's acceptance. A delivery that wakes the worker has stored a row; if
    -- that row still stands at a ClaimBatch of Run that is no earlier than the delivery and hands
    -- out less than its limit, in a store that keeps every row under its own id, the batch has the
    -- event's row, and its lifecycle ends with the row accepted, if in the first round the row
    -- depends on no other submission or on one that is found accepted and NAV answers its
    -- submission with a transaction, and if NAV answers each later query, for as long as it likes
    -- that operations are under way, and at last that all are done. The rounds keep the lease and
    -- meet no failure, the peers leave the row alone, a marshalled document reads back with the
    -- root InvoiceData, no Derive hook is set, and the Put meets no context whose error says that
    -- the row exists.
    pub delivery-IsAccepted :
        (dl : Delivery) (event : Event) (body : Bytes) (s : Store)
        → IsPlain dl.put_ctx
        → (process_event lib cfg true dl event body s).woken ≡ true
        → (s₁ : Store) → Keyed s₁.rows
        → lookup event.id s₁.rows
          ≡ lookup event.id (process_event lib cfg true dl event body s).state.rows
        → (now : Time) → dl.now ≤ now
        → (s₂ : Store) (out : List Submission) → claim_and_process w none now s₁ ≡ (s₂, ok out)
        → length out < w.batch_limit
        → ReadsBack
        → (rd : Round (outside f64 xml_tokens none))
          (rds : List (Round (outside f64 xml_tokens none))) (res : SubmitResult)
        → GoesOn (outside f64 xml_tokens none) w event.id rd
        → ((r : Submission)
            → lookup event.id s₁.rows ≡ some r
            → (str_eq r.parent_event_id [] ≡ true)
              ⊎ ((p : Submission) × (get rd.parent_ctx r.parent_event_id s₂ ≡ ok p)
                  × (p.status ≡ accepted)))
        → rd.submit_reply ≡ reply res
        → str_eq res.transaction_id [] ≡ false
        → Finishes (outside f64 xml_tokens none) w event.id rds
        → (ctx : Context) (released_at : Time)
        → (v : Submission) × In v out
          × (v.event_id ≡ event.id)
          × IsAccepted
              (outside f64 xml_tokens none)
              w
              event.id
              (run_lifecycle
                (outside f64 xml_tokens none)
                w
                ctx
                released_at
                v
                (rd ∷ rds)
                (begun f64 xml_tokens none s₂)).state
    unfolding claim_and_process
    delivery-IsAccepted dl event body s plain woken s₁ keyed kept now le s₂ out run room reads rd
          rds res goes free taken txn finishes ctx released_at =
        let (r, row_at, id, h) = woken-IsWaiting lib cfg dl event body s plain woken in
        let at = kept ∙ row_at in
        let (_, _, left) =
          claim_batch_oldest now w.claimer_id w.batch_limit w.lease_duration s₁ run in
        elim (left event.id r at (waiting-claimable lib dl.now now r h le)) [
          | inr (full, _) ↦ absurd (omega arith)
          | inl i ↦
              let (_, _, _, _, claimed) =
                claim_batch_sound now w.claimer_id w.batch_limit w.lease_duration s₁ keyed run _
                  i in
              let v = claim w.claimer_id (now + w.lease_duration) now r in
              (
                v,
                i,
                id,
                subst
                    (λ j.
                      IsAccepted (outside f64 xml_tokens none) w j
                        (run_lifecycle (outside f64 xml_tokens none) w ctx released_at v (rd ∷ rds)
                          (begun f64 xml_tokens none s₂)).state)
                    id
                    (run_lifecycle-Accepts (outside f64 xml_tokens none) w ctx released_at v rd rds
                      (begun f64 xml_tokens none s₂) res claimed h.fresh
                      (subst (λ j. GoesOn (outside f64 xml_tokens none) w j rd) (sym id) goes)
                      (record {
                        free = free r at;
                        document = waiting-derived dl.now r v reads h refl;
                        taken = taken;
                        transaction = txn;
                      })
                      (subst (λ j. Finishes (outside f64 xml_tokens none) w j rds) (sym id)
                        finishes)),
              )
        ]
