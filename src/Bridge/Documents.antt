-- ===== src/Bridge/Documents.antt =====
-- stripenav.go: how an event becomes the options and the invoice that the mapper takes, and at which rate.
use go_stripenav.Base.{
  zero, suc, ◌⊎◌, inl, inr, not, ◌||◌, Option, none, some, [], ◌++◌, ◌==◌, if◌then◌else◌, length,
  head?, Bytes, str, str_eq,
}
use go_stripenav.Base.Int.{ℤ, pos, negsuc}
use go_stripenav.Base.Ascii.{trim_space}
use go_stripenav.Base.Results.{◌>>=◌, map_error}
use go_stripenav.Submission.{Submission, Time, ok, err}
use go_stripenav.Store.{Store, Context, find_by_invoice_number}
use go_stripenav.Schemas.{InvoiceData}
use go_stripenav.Storno.{
  StripeInvoice, CreditNote, LineList, invoice_as_storno, credit_note_as_invoice,
}
use go_stripenav.Invoicemap.Options.{Supplier, MapOptions, op_create, op_modify, op_storno}
use go_stripenav.Invoicemap.Mapper.{map_invoice}
use go_stripenav.Bridge.{
  HandlerConfig, Event, by_text, by_mapping, Failure, permanent, transient, Packages, Delivery,
  from_unix, to_unix, equal_fold,
}

unfoldable pub find_parent_submission : Context → Bytes → Store → Option Submission
find_parent_submission ctx number s = elim (find_by_invoice_number ctx number s) [
  | err e ↦ none
  | ok rows ↦ head? rows
]

abbrev pub or_time : ℤ → Time → Time
or_time (pos zero) later = later
or_time (pos (suc n)) later = from_unix (pos (suc n))
or_time (negsuc n) later = later

unfoldable pub stripe_invoice_issue_time : StripeInvoice → Time → Time
stripe_invoice_issue_time inv fallback =
    let rest = or_time inv.effective_at (or_time inv.created fallback) in
    elim inv.finalized_at [ none ↦ rest | some t ↦ or_time t rest ]

unfoldable pub rate_for : HandlerConfig → Bytes → Time → Bytes ⊎ Failure
rate_for cfg currency at =
    if equal_fold currency (str "HUF") then inl [] else elim cfg.exchange_rate_provider [
      | none ↦ inr (
          permanent (
            by_text (
              str "stripenav: invoice currency "
              ++ currency
              ++ str " requires ExchangeRateProvider")))
      | some provider ↦ map_error (λ t. transient (by_text t)) (provider currency at)
    ]

-- MapOptions with the fields that the handler sets.
abbrev pub options : Supplier → Bytes → Bytes → MapOptions
options supplier operation original = record {
  supplier = supplier;
  operation = operation;
  original_invoice_number = original;
  modification_index = pos 0;
  exchange_rate_to_huf = [];
  invoice_appearance = [];
  payment_method = [];
  original_line_count = pos 0;
}

-- What the `switch` on the type of an invoice's event sets.
pub record Route : Type 0 where
  pub inv_for_map : StripeInvoice
  pub opts : MapOptions
  pub op : Bytes
  pub parent_event_id : Bytes
  pub parent_rate : Bytes

-- What is stored for a document, before its Put.
pub record Mapped : Type 0 where
  pub sub : Submission
  pub doc : InvoiceData
  pub op : Bytes

module _ (lib : Packages) (cfg : HandlerConfig) (dl : Delivery) where
  unfoldable pub decode_invoice : Event → StripeInvoice ⊎ Failure
  decode_invoice event =
      if length event.raw == 0
      then inr (permanent (by_text (str "stripenav: event has no data")))
      else map_error (λ t. permanent (by_text (str "decode invoice: " ++ t)))
          (lib.unmarshal_invoice event.raw)

  unfoldable pub decode_credit_note : Event → CreditNote ⊎ Failure
  decode_credit_note event =
      if length event.raw == 0
      then inr (permanent (by_text (str "stripenav: event has no data")))
      else map_error (λ t. permanent (by_text (str "decode credit note: " ++ t)))
          (lib.unmarshal_credit_note event.raw)

  unfoldable pub exchange_rate_from_mapped : Bytes → Bytes
  exchange_rate_from_mapped raw = elim (lib.unmarshal_rate raw) [
    | none ↦ []
    | some r ↦ trim_space r
  ]

  -- The case of a CREATE.
  unfoldable pub create_route : StripeInvoice → Route
  create_route inv = record {
    inv_for_map = inv;
    opts = options cfg.supplier op_create [];
    op = str "CREATE";
    parent_event_id = [];
    parent_rate = [];
  }

  abbrev pub line_count : Option LineList → ℤ
  line_count none = pos 0
  line_count (some list) = pos (length list.items)

  -- The case of a STORNO, by the submission that findParentSubmission found.
  unfoldable pub storno_route : StripeInvoice → Option Submission → Route
  unfolding exchange_rate_from_mapped
  storno_route inv parent = record {
    inv_for_map = invoice_as_storno inv (to_unix dl.storno_at);
    opts = record (options cfg.supplier op_storno inv.number) {
      original_line_count = line_count inv.lines;
    };
    op = str "STORNO";
    parent_event_id = elim parent [ none ↦ [] | some p ↦ p.event_id ];
    parent_rate = elim parent [
      | none ↦ []
      | some p ↦
          if not (equal_fold inv.currency (str "HUF"))
          then exchange_rate_from_mapped p.raw_event
          else []
    ];
  }

  unfoldable pub route : Event → StripeInvoice → Store → Route ⊎ Failure
  unfolding create_route storno_route find_parent_submission
  route event inv s =
      if str_eq event.type (str "invoice.finalized")
      then inl (create_route inv)
      else if str_eq event.type (str "invoice.voided")
          || str_eq event.type (str "invoice.marked_uncollectible")
      then inl (storno_route inv (find_parent_submission dl.find_ctx inv.number s))
      else inr (
          permanent
            (by_text (str "stripenav: unexpected invoice event " ++ lib.mapper.quoted event.type)))

  -- The parent's rate if it is known, else that of the time of issue.
  unfoldable pub rate_of : StripeInvoice → Route → Bytes ⊎ Failure
  unfolding rate_for stripe_invoice_issue_time
  rate_of inv r =
      if str_eq r.parent_rate []
      then rate_for cfg inv.currency (stripe_invoice_issue_time r.inv_for_map dl.fallback_at)
      else inl r.parent_rate

  -- MapInvoice's error is permanent.
  unfoldable pub mapped_or_permanent : StripeInvoice → MapOptions → InvoiceData ⊎ Failure
  unfolding map_invoice
  mapped_or_permanent inv opts =
      map_error (λ e. permanent (by_mapping e)) (map_invoice lib.mapper inv opts)

  -- processInvoice, up to persistMapped.
  unfoldable pub map_invoice_event : Event → Submission → Store → Mapped ⊎ Failure
  unfolding decode_invoice route rate_of mapped_or_permanent
  map_invoice_event event sub s = do
    inv ← decode_invoice event
    r ← route event inv s
    rate ← rate_of inv r
    doc ← mapped_or_permanent r.inv_for_map (record r.opts { exchange_rate_to_huf = rate })
    inl (record {
      sub = record sub {
        parent_event_id = r.parent_event_id;
        invoice_number = r.inv_for_map.number;
      };
      doc = doc;
      op = r.op;
    })

  abbrev pub credit_note_issue_time : CreditNote → Time
  credit_note_issue_time cn = or_time cn.effective_at (or_time cn.created dl.fallback_at)

  abbrev pub original_of : CreditNote → Bytes ⊎ Failure
  original_of cn = elim cn.invoice_number [
    | none ↦ inr (permanent (by_text (str "stripenav: credit note has no invoice reference")))
    | some number ↦ inl number
  ]

  -- processCreditNote, up to persistMapped.
  unfoldable pub map_credit_note_event : Event → Submission → Mapped ⊎ Failure
  unfolding decode_credit_note rate_for mapped_or_permanent
  map_credit_note_event event sub = do
    cn ← decode_credit_note event
    original ← original_of cn
    rate ← rate_for cfg cn.currency (credit_note_issue_time cn)
    doc ←
        mapped_or_permanent (credit_note_as_invoice cn)
          (record (options cfg.supplier op_modify original) {
            modification_index = pos 1;
            exchange_rate_to_huf = rate;
          })
    inl (record { sub = record sub { invoice_number = cn.number }; doc = doc; op = str "MODIFY" })
