-- ===== src/Bridge/Reversals.antt =====
-- stripenav.go: which document an event is reported as, and which rate a STORNO goes on with.
use go_stripenav.Base.{
  ◌≡◌, refl, sym, ap, ◌∙◌, subst, ◌⊎◌, inl, inr, Bool, true, false, ◌||◌, Option, none, some, [],
  ◌++◌, arith, Bool-cases, Bytes, str, str_eq, str_eq_iff,
}
use go_stripenav.Base.Int.{pos}
use go_stripenav.Base.Results.{bind_inl, inl_inj, map_error-inl, sum-cases, ◌>>=◌}
use go_stripenav.Submission.{Submission}
use go_stripenav.Schemas.{InvoiceData, InvoiceReference}
use go_stripenav.Store.{Store}
use go_stripenav.Storno.{StripeInvoice, CreditNote, invoice_as_storno, credit_note_as_invoice}
use go_stripenav.Invoicemap.Options.{MapOptions, op_create, op_storno, op_modify}
use go_stripenav.Invoicemap.Options.Checked.{completed, validate_options-inl}
use go_stripenav.Invoicemap.Mapper.{reference_of, document_of}
use go_stripenav.Invoicemap.Mapper.Success.{map_invoice-Success}
use go_stripenav.Bridge.{HandlerConfig, Event, Packages, Delivery, equal_fold, Failure}
use go_stripenav.Bridge.Documents.{
  Mapped, Route, decode_invoice, route, rate_of, mapped_or_permanent, map_invoice_event,
  decode_credit_note, rate_for, original_of, credit_note_issue_time, map_credit_note_event, options,
  create_route, storno_route, find_parent_submission, exchange_rate_from_mapped,
}

abbrev pub reference : Mapped → Option InvoiceReference
reference m = m.doc.invoice_main.invoice.invoice_reference

abbrev pub first_modification : Bytes → InvoiceReference
first_modification original = record {
  original_invoice_number = original;
  modify_without_master = false;
  modification_index = pos 1;
}

abbrev pub reverses : Event → Bool
reverses event =
    str_eq event.type (str "invoice.voided")
    || str_eq event.type (str "invoice.marked_uncollectible")

module _ (lib : Packages) (cfg : HandlerConfig) (dl : Delivery) where
  mapped-reference :
      (inv : StripeInvoice) (given : MapOptions) (doc : InvoiceData)
      → mapped_or_permanent lib cfg dl inv given ≡ inl doc
      → doc.invoice_main.invoice.invoice_reference ≡ reference_of lib.mapper (completed given)
  unfolding mapped_or_permanent document_of
  mapped-reference inv given doc e =
      let w = map_invoice-Success lib.mapper inv given doc (map_error-inl _ _ e) in
      ap (λ d. d.invoice_main.invoice.invoice_reference) (sym w.result)
      ∙ ap (reference_of lib.mapper)
          (sym (validate_options-inl lib.mapper.quoted given w.opts w.valid))

  -- What a finalized, a voided or an uncollectible invoice is stored as.
  pub data Reported (event : Event) (s : Store) (inv : StripeInvoice) (m : Mapped) : Type 0 where
    as_create :
        str_eq event.type (str "invoice.finalized") ≡ true
        → m.op ≡ op_create
        → m.sub.invoice_number ≡ inv.number
        → reference m ≡ none
        → Reported event s inv m
    as_storno :
        reverses event ≡ true
        → m.op ≡ op_storno
        → m.sub.invoice_number ≡ inv.number ++ str "-STORNO"
        → reference m ≡ some (first_modification inv.number)
        → m.sub.parent_event_id ≡ elim (find_parent_submission dl.find_ctx inv.number s) [
          | none ↦ []
          | some p ↦ p.event_id
        ]
        → Reported event s inv m

  -- The end of processInvoice before persistMapped, from the rate on.
  abbrev pub at_rate : Route → Submission → Bytes → Mapped ⊎ Failure
  at_rate r sub rate =
      mapped_or_permanent lib cfg dl r.inv_for_map (record r.opts { exchange_rate_to_huf = rate })
      >>= λ doc. inl (record {
        sub = record sub {
          parent_event_id = r.parent_event_id;
          invoice_number = r.inv_for_map.number;
        };
        doc = doc;
        op = r.op;
      })

  abbrev after_route : StripeInvoice → Route → Submission → Mapped ⊎ Failure
  after_route inv r sub = rate_of lib cfg dl inv r >>= at_rate r sub

  -- What is handed over, by its route.
  abbrev Follows : Route → Mapped → Type 0
  Follows r m =
      (rate : Bytes) × (m.op ≡ r.op)
      × (m.sub.invoice_number ≡ r.inv_for_map.number)
      × (m.sub.parent_event_id ≡ r.parent_event_id)
      × (reference m
          ≡ reference_of lib.mapper (completed (record r.opts { exchange_rate_to_huf = rate })))

  follows :
      (sub : Submission) (inv : StripeInvoice) (r : Route) (m : Mapped)
      → after_route inv r sub ≡ inl m
      → Follows r m
  follows sub inv r m e =
      let (rate, rated, e1) = bind_inl (rate_of lib cfg dl inv r) _ e in
      let given : MapOptions = record r.opts { exchange_rate_to_huf = rate } in
      let (doc, mapped, e2) = bind_inl (mapped_or_permanent lib cfg dl r.inv_for_map given) _ e1 in
      subst (Follows r) (inl_inj e2)
        (rate, refl, refl, refl, mapped-reference r.inv_for_map given doc mapped)

  as_route :
      (event : Event) (s : Store) (inv : StripeInvoice) (r : Route) (m : Mapped)
      → route lib cfg dl event inv s ≡ inl r
      → Follows r m
      → Reported event s inv m
  unfolding route create_route storno_route invoice_as_storno reference_of str_eq
  as_route event s inv r m routed w =
      elim (Bool-cases (str_eq event.type (str "invoice.finalized"))) [
        | inl f ↦
            let is : r ≡ create_route lib cfg dl inv = ground (arith, f, routed) in
            let (rate, op, number, parent, ref) = subst (λ x. Follows x m) is w in
            as_create f op number ref
        | inr f ↦ elim (Bool-cases (reverses event)) [
          | inl v ↦
              let is : r
                  ≡ storno_route lib cfg dl inv (find_parent_submission dl.find_ctx inv.number s) =
                ground (arith, f, v, routed) in
              let (rate, op, number, parent, ref) = subst (λ x. Follows x m) is w in
              as_storno v op number ref parent
          | inr v ↦ absurd (ground (arith, f, v, routed))
        ]
      ]

  invoice-Reported :
      (event : Event) (sub : Submission) (s : Store) (m : Mapped)
      → map_invoice_event lib cfg dl event sub s ≡ inl m
      → (inv : StripeInvoice) × (decode_invoice lib cfg dl event ≡ inl inv) × Reported event s inv m
  unfolding map_invoice_event
  invoice-Reported event sub s m e =
      let (inv, decoded, e1) = bind_inl (decode_invoice lib cfg dl event) _ e in
      let (r, routed, e2) = bind_inl (route lib cfg dl event inv s) _ e1 in
      (inv, decoded, as_route event s inv r m routed (follows sub inv r m e2))

  -- An event of an invoice fails to map, or it is a finalized invoice and becomes a CREATE under
  -- the invoice's number without a reference, or it is a voided or uncollectible one and becomes a
  -- STORNO under that number with -STORNO, which refers to the invoice as its first modification,
  -- and whose parent is the submission that findParentSubmission found, if any.
  pub map_invoice_event-Reported :
      (event : Event) (sub : Submission) (s : Store)
      → ((m : Mapped) × (inv : StripeInvoice) × (map_invoice_event lib cfg dl event sub s ≡ inl m)
          × (decode_invoice lib cfg dl event ≡ inl inv)
          × Reported event s inv m)
        ⊎ ((f : Failure) × (map_invoice_event lib cfg dl event sub s ≡ inr f))
  map_invoice_event-Reported event sub s =
      elim (sum-cases (map_invoice_event lib cfg dl event sub s)) [
        | inl (m, e) ↦
            let (inv, decoded, w) = invoice-Reported event sub s m e in inl (m, inv, e, decoded, w)
        | inr failed ↦ inr failed
      ]

  credit_note-reference :
      (event : Event) (sub : Submission) (m : Mapped)
      → map_credit_note_event lib cfg dl event sub ≡ inl m
      → (cn : CreditNote) × (original : Bytes) × (decode_credit_note lib cfg dl event ≡ inl cn)
        × (cn.invoice_number ≡ some original)
        × (m.op ≡ op_modify)
        × (m.sub.invoice_number ≡ cn.number)
        × (reference m ≡ some (first_modification original))
  unfolding map_credit_note_event reference_of str_eq
  credit_note-reference event sub m e =
      let (cn, decoded, e1) = bind_inl (decode_credit_note lib cfg dl event) _ e in
      let (original, referred, e2) = bind_inl (original_of lib cfg dl cn) _ e1 in
      let (rate, rated, e3) =
        bind_inl (rate_for cfg cn.currency (credit_note_issue_time lib cfg dl cn)) _ e2 in
      let given : MapOptions = record (options cfg.supplier op_modify original) {
        modification_index = pos 1;
        exchange_rate_to_huf = rate;
      } in
      let (doc, mapped, e4) =
        bind_inl (mapped_or_permanent lib cfg dl (credit_note_as_invoice cn) given) _ e3 in
      (
        cn,
        original,
        decoded,
        ground (arith, referred),
        ap (λ x. x.op) (sym (inl_inj e4)),
        ap (λ x. x.sub.invoice_number) (sym (inl_inj e4)),
        ap reference (sym (inl_inj e4))
            ∙ mapped-reference (credit_note_as_invoice cn) given doc mapped,
      )

  -- An event of a credit note fails to map, or becomes a MODIFY under the note's number that refers
  -- to the note's invoice as its first modification.
  pub map_credit_note_event-reference :
      (event : Event) (sub : Submission)
      → ((m : Mapped) × (cn : CreditNote) × (original : Bytes) × (map_credit_note_event lib cfg dl
              event sub
            ≡ inl m)
          × (decode_credit_note lib cfg dl event ≡ inl cn)
          × (cn.invoice_number ≡ some original)
          × (m.op ≡ op_modify)
          × (m.sub.invoice_number ≡ cn.number)
          × (reference m ≡ some (first_modification original)))
        ⊎ ((f : Failure) × (map_credit_note_event lib cfg dl event sub ≡ inr f))
  map_credit_note_event-reference event sub =
      elim (sum-cases (map_credit_note_event lib cfg dl event sub)) [
        | inl (m, e) ↦
            let (cn, original, decoded, referred, op, number, ref) =
              credit_note-reference event sub m e in
            inl (m, cn, original, e, decoded, referred, op, number, ref)
        | inr failed ↦ inr failed
      ]

  not_finalized :
      (t : Bytes)
      → (str_eq t (str "invoice.voided") || str_eq t (str "invoice.marked_uncollectible")) ≡ true
      → str_eq t (str "invoice.finalized") ≡ false
  unfolding str_eq
  not_finalized t h = elim (Bool-cases (str_eq t (str "invoice.finalized"))) [
    | inr f ↦ f
    | inl f ↦ absurd (
        ground (
          arith,
          subst
              (λ u.
                (str_eq u (str "invoice.voided") || str_eq u (str "invoice.marked_uncollectible"))
                ≡ true)
              ((str_eq_iff t _).0 f) h,
        ))
  ]

  -- Where the stored original has a rate, a STORNO in another currency than HUF goes on with it.
  pub storno_at_rate :
      (event : Event) (sub : Submission) (s : Store) (inv : StripeInvoice) (parent : Submission)
      → reverses event ≡ true
      → decode_invoice lib cfg dl event ≡ inl inv
      → equal_fold inv.currency (str "HUF") ≡ false
      → find_parent_submission dl.find_ctx inv.number s ≡ some parent
      → str_eq (exchange_rate_from_mapped lib cfg dl parent.raw_event) [] ≡ false
      → map_invoice_event lib cfg dl event sub s
        ≡ at_rate
            (storno_route lib cfg dl inv (some parent))
            sub
            (exchange_rate_from_mapped lib cfg dl parent.raw_event)
  unfolding map_invoice_event route rate_of storno_route
  storno_at_rate event sub s inv parent rev decoded foreign found known =
      let routed : route lib cfg dl event inv s ≡ inl (storno_route lib cfg dl inv (some parent)) =
        ground (arith, not_finalized event.type rev, rev, found) in
      let rated : rate_of lib cfg dl inv (storno_route lib cfg dl inv (some parent))
          ≡ inl (exchange_rate_from_mapped lib cfg dl parent.raw_event) =
        ground (arith, foreign, known) in
      ap (λ x. x >>= λ i. route lib cfg dl event i s >>= λ r. after_route i r sub) decoded
      ∙ ap (λ x. x >>= λ r. after_route inv r sub) routed
      ∙ ap (λ x. x >>= at_rate (storno_route lib cfg dl inv (some parent)) sub) rated
