-- ===== src/Bridge/Effect.antt =====
-- stripenav.go: what processEvent does to the store, as a specification, and what follows of it.
use go_stripenav.Base.{
  xml_header, ◌≡◌, refl, ap, ◌≢◌, ◌⊎◌, inl, inr, Bool, false, none, some, ◌++◌, arith, Bool-cases,
  Option-cases, Bytes,
}
use go_stripenav.Submission.{Submission, Kind, invoice, annulment, credit_note, Error, Result-cases}
use go_stripenav.Base.Results.{sum-cases}
use go_stripenav.Store.{Store, Context, get, put}
use go_stripenav.Store.Table.{lookup, insert}
use go_stripenav.Worker.Effects.{in_memory-get}
use go_stripenav.Bridge.{
  HandlerConfig, Event, eligible_event_types, by_text, by_store, Failure, permanent, transient,
  Packages, Delivery,
}
use go_stripenav.Bridge.Documents.{Mapped}
use go_stripenav.Bridge.Drafts.{IsDraft, map_invoice_event-IsDraft, map_credit_note_event-IsDraft}
use go_stripenav.Bridge.Deliver.{
  Outcome, ended, is_not_found, is_already_exists, after_put, persist_mapped, persist_or_fail,
  new_submission, process_invoice, process_credit_note, by_kind, process_event,
}

-- The store as it stands at the delivery's Put.
abbrev pub seen : Delivery → Store → Store
seen dl s = dl.before_put (dl.after_get s)

abbrev pub with_payload : Mapped → Bytes → Submission
with_payload m payload = record m.sub { raw_event = xml_header ++ payload; operation = m.op }

-- The outcomes that a delivery may have.
pub data Effect (lib : Packages) (cfg : HandlerConfig) (has_worker : Bool) (dl : Delivery)
    (event : Event) (body : Bytes) (s : Store) (o : Outcome) : Type 0 where
  ignored :
      eligible_event_types event.type ≡ none
      → o ≡ ended none s
      → Effect lib cfg has_worker dl event body s o
  known :
      (sub : Submission)
      → lookup event.id s.rows ≡ some sub
      → o ≡ ended none s
      → Effect lib cfg has_worker dl event body s o
  unread :
      (e : Error)
      → o ≡ ended (some (transient (by_store e))) s
      → Effect lib cfg has_worker dl event body s o
  refused :
      (f : Failure) → o ≡ ended (some f) (seen dl s) → Effect lib cfg has_worker dl event body s o
  raced :
      (sub : Submission)
      → lookup event.id (seen dl s).rows ≡ some sub
      → o ≡ ended none (seen dl s)
      → Effect lib cfg has_worker dl event body s o
  stored :
      (kind : Kind) (m : Mapped) (payload : Bytes)
      → eligible_event_types event.type ≡ some kind
      → lookup event.id (seen dl s).rows ≡ none
      → IsDraft (new_submission lib cfg has_worker dl event kind body) m
      → lib.marshal_invoice m.doc ≡ inl payload
      → o ≡ record {
        state = record { rows = insert event.id (with_payload m payload) (seen dl s).rows };
        failure = none;
        woken = has_worker;
      }
      → Effect lib cfg has_worker dl event body s o

-- What a context is done with is not an answer of the store about the row.
abbrev pub IsPlain : Context → Type 0
IsPlain none = Unit {0}
IsPlain (some e) = is_already_exists e ≡ false

module _ (lib : Packages) (cfg : HandlerConfig) (has_worker : Bool) where
  by_put :
      (dl : Delivery) (event : Event) (body : Bytes) (s : Store) (kind : Kind) (m : Mapped)
      (payload : Bytes)
      → IsPlain dl.put_ctx
      → eligible_event_types event.type ≡ some kind
      → IsDraft (new_submission lib cfg has_worker dl event kind body) m
      → lib.marshal_invoice m.doc ≡ inl payload
      → Effect lib cfg has_worker dl event body s
          (after_put lib cfg has_worker (put dl.put_ctx (with_payload m payload) (seen dl s)))
  unfolding after_put put new_submission
  by_put dl event body s kind m payload plain el d q =
      let at : m.sub.event_id ≡ event.id = ap (λ x. x.event_id) d.kept in
      elim (Option-cases dl.put_ctx) [
        | inr (e, c) ↦ refused (transient (by_store e)) (ground (arith, c, plain))
        | inl c ↦ elim (Option-cases (lookup event.id (seen dl s).rows)) [
          | inl free ↦ stored kind m payload el free d q (ground (arith, c, free, at))
          | inr (sub, taken) ↦ raced sub taken (ground (arith, c, taken, at))
        ]
      ]

  by_persist :
      (dl : Delivery) (event : Event) (body : Bytes) (s : Store) (kind : Kind)
      (r : Mapped ⊎ Failure)
      → IsPlain dl.put_ctx
      → eligible_event_types event.type ≡ some kind
      → ((m : Mapped)
          → r ≡ inl m
          → IsDraft (new_submission lib cfg has_worker dl event kind body) m)
      → Effect lib cfg has_worker dl event body s
          (persist_or_fail lib cfg has_worker dl r (seen dl s))
  unfolding persist_or_fail persist_mapped
  by_persist dl event body s kind (inr f) plain el d = refused f refl
  by_persist dl event body s kind (inl m) plain el d =
      elim (sum-cases (lib.marshal_invoice m.doc)) [
        | inr (t, q) ↦
            refused (permanent (by_text t)) (rw (q, persist_or_fail, persist_mapped) refl)
        | inl (payload, q) ↦
            rw (q, persist_or_fail, persist_mapped)
              (by_put dl event body s kind m payload plain el (d m refl) q)
      ]

  by_kind-Effect :
      (dl : Delivery) (event : Event) (body : Bytes) (s : Store) (kind : Kind)
      → IsPlain dl.put_ctx
      → kind ≢ annulment
      → eligible_event_types event.type ≡ some kind
      → Effect lib cfg has_worker dl event body s (
          by_kind lib cfg has_worker dl event kind
            (new_submission lib cfg has_worker dl event kind body)
            (dl.after_get s))
  unfolding by_kind process_invoice process_credit_note
  by_kind-Effect dl event body s invoice plain ne el =
      by_persist dl event body s invoice _ plain el
        (λ m e. map_invoice_event-IsDraft lib cfg dl event _ (dl.after_get s) m e)
  by_kind-Effect dl event body s credit_note plain ne el =
      by_persist dl event body s credit_note _ plain el
        (λ m e. map_credit_note_event-IsDraft lib cfg dl event _ m e)
  by_kind-Effect dl event body s annulment plain ne el = absurd (ne refl)

  eligible-ne : (t : Bytes) (kind : Kind) → eligible_event_types t ≡ some kind → kind ≢ annulment
  unfolding eligible_event_types
  eligible-ne t kind e = λ q. ground (arith, e, q)

  -- processEvent has one of six outcomes: an event of another type, or one whose row is there at
  -- the Get, leaves the store; a failure of the Get is transient; other failures come after the Get
  -- and store nothing; a row that others have put since the Get is left and counts as success; or
  -- exactly one row is put, under the event's id where there was none, which is the new submission
  -- with the number of its document, the operation and the marshalled document, and the worker is
  -- woken. The Put does not meet a context whose error says that the row exists.
  pub process_event-Effect :
      (dl : Delivery) (event : Event) (body : Bytes) (s : Store)
      → IsPlain dl.put_ctx
      → Effect lib cfg has_worker dl event body s (process_event lib cfg has_worker dl event body s)
  unfolding process_event
  process_event-Effect dl event body s plain =
      elim (Option-cases (eligible_event_types event.type)) [
        | inl e ↦ ignored e (ground (arith, e))
        | inr (kind, e) ↦ elim (Result-cases (get dl.get_ctx event.id s)) [
          | inl (sub, g) ↦
              known sub (in_memory-get dl.get_ctx event.id s sub g) (ground (arith, e, g))
          | inr (x, g) ↦ elim (Bool-cases (is_not_found x)) [
            | inr f ↦ unread x (ground (arith, e, g, f))
            | inl f ↦
                rw (process_event, e, g, f)
                  (by_kind-Effect dl event body s kind plain (eligible-ne event.type kind e) e)
          ]
        ]
      ]
