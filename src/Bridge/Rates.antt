-- ===== src/Bridge/Rates.antt =====
-- stripenav.go and internal/invoicemap/mapping.go: the rate at which the document of a STORNO is made.
use go_stripenav.Base.{
  ℕ, ◌≡◌, refl, sym, ap, ◌∙◌, subst, ◌⊎◌, inl, inr, true, false, Option, some, List, [], ◌∷◌, arith,
  Bool-cases, Option-cases, Bytes, str, str_eq, str_eq_iff,
}
use go_stripenav.Base.Ascii.{to_lower, to_upper}
use go_stripenav.Base.Results.{bind_inl, inl_inj, map_error-inl, sum-cases}
use go_stripenav.Submission.{Submission}
use go_stripenav.Schemas.{InvoiceData, Line}
use go_stripenav.Store.{Store}
use go_stripenav.Storno.{StripeInvoice, LineItem, invoice_as_storno}
use go_stripenav.Invoicemap.Currency.{float_string}
use go_stripenav.Invoicemap.Rational.{Rat}
use go_stripenav.Invoicemap.Lines.{RateTotals, InvoiceTotals}
use go_stripenav.Invoicemap.Build.{build_lines, build_summary}
use go_stripenav.Invoicemap.Options.{MapOptions}
use go_stripenav.Invoicemap.Options.Checked.{validate_options-inl}
use go_stripenav.Invoicemap.Mapper.{Library, parse_rate, exchange_rate_of, document_of, detail_of}
use go_stripenav.Invoicemap.Mapper.Success.{Success, map_invoice-Success}
use go_stripenav.Bridge.{HandlerConfig, Event, Packages, Delivery, equal_fold, Failure}
use go_stripenav.Bridge.Documents.{
  Mapped, decode_invoice, mapped_or_permanent, map_invoice_event, storno_route,
  find_parent_submission, exchange_rate_from_mapped,
}
use go_stripenav.Bridge.Reversals.{reverses, storno_at_rate}

lower-upper : (s : Bytes) → to_lower (to_upper s) ≡ to_lower s
unfolding to_lower to_upper
lower-upper [] = refl
lower-upper (c ∷ s) = ground (arith, lower-upper s)

-- A currency that is not HUF in any case is not HUF in capitals.
not_huf : (c : Bytes) → equal_fold c (str "HUF") ≡ false → str_eq (to_upper c) (str "HUF") ≡ false
not_huf c h = elim (Bool-cases (str_eq (to_upper c) (str "HUF"))) [
  | inr e ↦ e
  | inl e ↦
      let same = sym (lower-upper c) ∙ ap to_lower ((str_eq_iff (to_upper c) (str "HUF")).0 e) in
      absurd (ground (arith, h, (str_eq_iff (to_lower c) (to_lower (str "HUF"))).1 same))
]

-- A document that was made at the rate that a text gives: it prints that rate with six decimals,
-- and its lines and its summary are computed with it.
pub record IsAtRate (lib : Library) (text : Bytes) (doc : InvoiceData) : Type 0 where
  pub rate : Rat
  pub read : lib.set_string text ≡ some rate
  pub printed :
      doc.invoice_main.invoice.invoice_head.invoice_detail.exchange_rate ≡ float_string 6 rate
  pub currency : Bytes
  pub operation : Bytes
  pub count : ℕ
  pub items : List (Option LineItem)
  pub built : List Line × List RateTotals × InvoiceTotals
  pub computed :
      build_lines lib.inclusive_tax lib.set_string currency rate operation count items ≡ inl built
  pub lines : doc.invoice_main.invoice.invoice_lines.lines ≡ built.0
  pub summary :
      doc.invoice_main.invoice.invoice_summary
      ≡ build_summary lib.set_string currency built.1 built.2

rate_read :
    (lib : Library) (currency : Bytes) (opts : MapOptions) (rate : Rat)
    → str_eq currency (str "HUF") ≡ false
    → exchange_rate_of lib currency opts ≡ inl rate
    → lib.set_string opts.exchange_rate_to_huf ≡ some rate
unfolding exchange_rate_of parse_rate
rate_read lib currency opts rate foreign e = elim (Option-cases given) [
  | inl n ↦ elim (Bool-cases (str_eq opts.exchange_rate_to_huf [])) [
    | inl b ↦ absurd (ground (arith, foreign, b, e))
    | inr b ↦ absurd (ground (arith, foreign, b, n, e))
  ]
  | inr (q, n) ↦ elim (Bool-cases (str_eq opts.exchange_rate_to_huf [])) [
    | inl b ↦ absurd (ground (arith, foreign, b, e))
    | inr b ↦ ground (arith, foreign, b, n, e)
  ]
]
  where
    given : Option Rat
    given = lib.set_string opts.exchange_rate_to_huf

map_invoice-IsAtRate :
    (lib : Library) (inv : StripeInvoice) (given : MapOptions) (doc : InvoiceData)
    → str_eq (to_upper inv.currency) (str "HUF") ≡ false
    → Success lib inv given doc
    → IsAtRate lib given.exchange_rate_to_huf doc
unfolding document_of detail_of
map_invoice-IsAtRate lib inv given doc foreign w =
    let same : w.opts.exchange_rate_to_huf ≡ given.exchange_rate_to_huf =
      ap (λ o. o.exchange_rate_to_huf)
        (sym (validate_options-inl lib.quoted given w.opts w.valid)) in
    record {
      rate = w.rate;
      read =
          ap lib.set_string (sym same)
          ∙ rate_read lib (to_upper inv.currency) w.opts w.rate foreign w.rated;
      printed =
          ap (λ d. d.invoice_main.invoice.invoice_head.invoice_detail.exchange_rate) (sym w.result);
      currency = to_upper inv.currency;
      operation = w.opts.operation;
      count = _;
      items = w.list.items;
      built = w.built;
      computed = w.lines_built;
      lines = ap (λ d. d.invoice_main.invoice.invoice_lines.lines) (sym w.result);
      summary = ap (λ d. d.invoice_main.invoice.invoice_summary) (sym w.result);
    }

module _ (lib : Packages) (cfg : HandlerConfig) (dl : Delivery) where
  -- A STORNO in another currency than HUF whose original is stored with a rate fails to map, or its
  -- document is made at exactly that rate: it prints it with six decimals, and its lines and its
  -- summary are computed with it, whatever a rate provider would say.
  pub storno_rate :
      (event : Event) (sub : Submission) (s : Store) (inv : StripeInvoice) (parent : Submission)
      → reverses event ≡ true
      → decode_invoice lib cfg dl event ≡ inl inv
      → equal_fold inv.currency (str "HUF") ≡ false
      → find_parent_submission dl.find_ctx inv.number s ≡ some parent
      → str_eq (exchange_rate_from_mapped lib cfg dl parent.raw_event) [] ≡ false
      → ((m : Mapped) × (map_invoice_event lib cfg dl event sub s ≡ inl m)
          × IsAtRate lib.mapper (exchange_rate_from_mapped lib cfg dl parent.raw_event) m.doc)
        ⊎ ((f : Failure) × (map_invoice_event lib cfg dl event sub s ≡ inr f))
  unfolding mapped_or_permanent storno_route invoice_as_storno
  storno_rate event sub s inv parent rev decoded foreign found known =
      elim (sum-cases (map_invoice_event lib cfg dl event sub s)) [
        | inr failed ↦ inr failed
        | inl (m, e) ↦
            let at =
              sym (storno_at_rate lib cfg dl event sub s inv parent rev decoded foreign found known)
              ∙ e in
            let (doc, mapped, is) = bind_inl (mapped_or_permanent lib cfg dl _ _) _ at in
            inl (
              m,
              e,
              subst
                  (λ x.
                    IsAtRate lib.mapper (exchange_rate_from_mapped lib cfg dl parent.raw_event)
                      x.doc)
                  (inl_inj is)
                  (map_invoice-IsAtRate lib.mapper _ _ doc (not_huf inv.currency foreign)
                    (map_invoice-Success lib.mapper _ _ doc (map_error-inl _ _ mapped))),
            )
      ]
