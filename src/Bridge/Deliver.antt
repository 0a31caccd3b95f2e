-- ===== src/Bridge/Deliver.antt =====
-- stripenav.go: ServeHTTP, processEvent and persistMapped. The store is passed along; a submission is
-- stored by one Put.
use go_stripenav.Base.{
  xml_header, ℕ, ◌⊎◌, inl, inr, Bool, true, false, not, Option, none, some, [], ◌++◌, ltb,
  if◌then◌else◌, length, Bytes, str, str_eq,
}
use go_stripenav.Submission.{
  Submission, Kind, invoice, annulment, credit_note, pending, zero_time, Error, not_found,
  already_exists, ok, err,
}
use go_stripenav.Store.{Store, get, put}
use go_stripenav.Bridge.{
  HandlerConfig, Event, eligible_event_types, by_text, by_store, Failure, permanent, transient,
  is_permanent, Packages, Delivery, from_unix,
}
use go_stripenav.Bridge.Documents.{Mapped, map_invoice_event, map_credit_note_event}

-- How processEvent ends: with the store, the error, and whether it woke the worker.
pub record Outcome : Type 0 where
  pub state : Store
  pub failure : Option Failure
  pub woken : Bool

abbrev pub ended : Option Failure → Store → Outcome
ended f s = record { state = s; failure = f; woken = false }

abbrev pub is_not_found : Error → Bool
is_not_found not_found = true
is_not_found _ = false

abbrev pub is_already_exists : Error → Bool
is_already_exists already_exists = true
is_already_exists _ = false

-- `body` is `none` when it cannot be read.
pub record HttpRequest : Type 0 where
  pub method : Bytes
  pub body : Option Bytes
  pub stripe_signature : Bytes

abbrev pub max_body : ℕ
max_body = 1_048_576

-- The status that is answered, with what the delivery came to.
pub record Served : Type 0 where
  pub status : ℕ
  pub state : Store
  pub woken : Bool

module _ (lib : Packages) (cfg : HandlerConfig) (has_worker : Bool) where
  -- The end of persistMapped, by what Put returned.
  unfoldable pub after_put : Store × Option Error → Outcome
  after_put (s, none) = record { state = s; failure = none; woken = has_worker }
  after_put (s, some e) =
      if is_already_exists e then ended none s else ended (some (transient (by_store e))) s

  unfoldable pub persist_mapped : Delivery → Mapped → Store → Outcome
  unfolding after_put
  persist_mapped dl m s = elim (lib.marshal_invoice m.doc) [
    | inr t ↦ ended (some (permanent (by_text t))) s
    | inl payload ↦
        after_put
          (put dl.put_ctx (record m.sub { raw_event = xml_header ++ payload; operation = m.op }) s)
  ]

  -- The submission that processEvent starts from.
  unfoldable pub new_submission : Delivery → Event → Kind → Bytes → Submission
  new_submission dl event kind body = record {
    event_id = event.id;
    kind = kind;
    invoice_number = [];
    operation = [];
    parent_event_id = [];
    status = pending;
    attempts = 0;
    last_error = [];
    transaction_id = [];
    next_attempt_at = dl.now;
    issued_at = from_unix event.created;
    created_at = dl.now;
    updated_at = dl.now;
    raw_event = body;
    claimed_by = [];
    claimed_until = zero_time;
  }

  -- The end of processInvoice and processCreditNote.
  unfoldable pub persist_or_fail : Delivery → Mapped ⊎ Failure → Store → Outcome
  unfolding persist_mapped
  persist_or_fail dl (inr f) s = ended (some f) s
  persist_or_fail dl (inl m) s = persist_mapped dl m s

  unfoldable pub process_invoice : Delivery → Event → Submission → Store → Outcome
  unfolding persist_or_fail
  process_invoice dl event sub s =
      persist_or_fail dl (map_invoice_event lib cfg dl event sub s) (dl.before_put s)

  unfoldable pub process_credit_note : Delivery → Event → Submission → Store → Outcome
  unfolding persist_or_fail
  process_credit_note dl event sub s =
      persist_or_fail dl (map_credit_note_event lib cfg dl event sub) (dl.before_put s)

  -- The `switch` on the kind.
  unfoldable pub by_kind : Delivery → Event → Kind → Submission → Store → Outcome
  unfolding process_invoice process_credit_note
  by_kind dl event invoice sub s = process_invoice dl event sub s
  by_kind dl event credit_note sub s = process_credit_note dl event sub s
  by_kind dl event annulment sub s = ended none s

  unfoldable pub process_event : Delivery → Event → Bytes → Store → Outcome
  unfolding by_kind new_submission
  process_event dl event body s = elim (eligible_event_types event.type) [
    | none ↦ ended none s
    | some kind ↦ elim (get dl.get_ctx event.id s) [
      | ok known ↦ ended none s
      | err e ↦
          if is_not_found e
          then by_kind dl event kind (new_submission dl event kind body) (dl.after_get s)
          else ended (some (transient (by_store e))) s
    ]
  ]

  abbrev pub status_of : Option Failure → ℕ
  status_of none = 200
  status_of (some f) = if is_permanent f then 200 else 503

  -- ServeHTTP, from the signature on.
  unfoldable pub serve_signed : Delivery → Bytes → Bytes → Store → Served
  unfolding process_event
  serve_signed dl signature body s =
      if str_eq signature []
      then record { status = 400; state = s; woken = false }
      else elim (lib.construct_event body signature cfg.stripe_webhook_secret) [
        | none ↦ record { status = 400; state = s; woken = false }
        | some event ↦
            let o = process_event dl event body s in
            record { status = status_of o.failure; state = o.state; woken = o.woken }
      ]

  unfoldable pub serve_http : Delivery → HttpRequest → Store → Served
  unfolding serve_signed
  serve_http dl r s =
      if not (str_eq r.method (str "POST"))
      then record { status = 405; state = s; woken = false }
      else elim r.body [
        | none ↦ record { status = 400; state = s; woken = false }
        | some body ↦
            if ltb max_body (length body)
            then record { status = 400; state = s; woken = false }
            else serve_signed dl r.stripe_signature body s
      ]
