-- ===== src/Bridge/Drafts.antt =====
-- stripenav.go: what processInvoice and processCreditNote hand to persistMapped.
use go_stripenav.Base.{◌≡◌, refl, sym, ap, ◌∙◌, subst, inl, str}
use go_stripenav.Base.Results.{bind_inl, inl_inj, map_error-inl}
use go_stripenav.Base.Int.{pos}
use go_stripenav.Submission.{Submission}
use go_stripenav.Schemas.{InvoiceData}
use go_stripenav.Store.{Store}
use go_stripenav.Storno.{StripeInvoice, CreditNote, credit_note_as_invoice}
use go_stripenav.Invoicemap.Options.{MapOptions}
use go_stripenav.Invoicemap.Mapper.{document_of}
use go_stripenav.Invoicemap.Mapper.Success.{map_invoice-Success}
use go_stripenav.Bridge.{HandlerConfig, Event, Packages, Delivery}
use go_stripenav.Bridge.Documents.{
  Mapped, decode_invoice, route, rate_of, mapped_or_permanent, map_invoice_event,
  decode_credit_note, rate_for, original_of, credit_note_issue_time, map_credit_note_event, options,
}

-- What is handed over for `sub` is `sub` with its number, its parent and the document's number.
pub record IsDraft (sub : Submission) (m : Mapped) : Type 0 where
  pub numbered : m.doc.invoice_number ≡ m.sub.invoice_number
  pub kept : m.sub ≡ record sub {
    invoice_number = m.sub.invoice_number;
    parent_event_id = m.sub.parent_event_id;
  }

module _ (lib : Packages) (cfg : HandlerConfig) (dl : Delivery) where
  mapped-number :
      (inv : StripeInvoice) (opts : MapOptions) (doc : InvoiceData)
      → mapped_or_permanent lib cfg dl inv opts ≡ inl doc
      → doc.invoice_number ≡ inv.number
  unfolding mapped_or_permanent document_of
  mapped-number inv opts doc e =
      let w = map_invoice-Success lib.mapper inv opts doc (map_error-inl _ _ e) in
      ap (λ d. d.invoice_number) (sym w.result)

  pub map_invoice_event-IsDraft :
      (event : Event) (sub : Submission) (s : Store) (m : Mapped)
      → map_invoice_event lib cfg dl event sub s ≡ inl m
      → IsDraft sub m
  unfolding map_invoice_event
  map_invoice_event-IsDraft event sub s m e =
      let (inv, decoded, e1) = bind_inl (decode_invoice lib cfg dl event) _ e in
      let (r, routed, e2) = bind_inl (route lib cfg dl event inv s) _ e1 in
      let (rate, rated, e3) = bind_inl (rate_of lib cfg dl inv r) _ e2 in
      let (doc, mapped, e4) =
        bind_inl
          (mapped_or_permanent lib cfg dl r.inv_for_map
            (record r.opts { exchange_rate_to_huf = rate }))
          _ e3 in
      subst (IsDraft sub) (inl_inj e4) (record {
        numbered =
            mapped-number r.inv_for_map (record r.opts { exchange_rate_to_huf = rate }) doc mapped;
        kept = refl;
      })

  credit_note_as_invoice-number : (cn : CreditNote) → (credit_note_as_invoice cn).number ≡ cn.number
  unfolding credit_note_as_invoice
  credit_note_as_invoice-number cn = refl

  pub map_credit_note_event-IsDraft :
      (event : Event) (sub : Submission) (m : Mapped)
      → map_credit_note_event lib cfg dl event sub ≡ inl m
      → IsDraft sub m
  unfolding map_credit_note_event
  map_credit_note_event-IsDraft event sub m e =
      let (cn, decoded, e1) = bind_inl (decode_credit_note lib cfg dl event) _ e in
      let (original, referred, e2) = bind_inl (original_of lib cfg dl cn) _ e1 in
      let (rate, rated, e3) =
        bind_inl (rate_for cfg cn.currency (credit_note_issue_time lib cfg dl cn)) _ e2 in
      let opts : MapOptions = record (options cfg.supplier (str "MODIFY") original) {
        modification_index = pos 1;
        exchange_rate_to_huf = rate;
      } in
      let (doc, mapped, e4) =
        bind_inl (mapped_or_permanent lib cfg dl (credit_note_as_invoice cn) opts) _ e3 in
      subst (IsDraft sub) (inl_inj e4) (record {
        numbered =
            mapped-number (credit_note_as_invoice cn) opts doc mapped
            ∙ credit_note_as_invoice-number cn;
        kept = refl;
      })
