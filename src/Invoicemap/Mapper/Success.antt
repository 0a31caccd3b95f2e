-- ===== src/Invoicemap/Mapper/Success.antt =====
-- internal/invoicemap/mapping.go: what MapInvoice has checked and computed when it returns a document.
use go_stripenav.Base.{ℕ, ◌≡◌, inl, false, not, List, [], arith, str_eq}
use go_stripenav.Base.Ascii.{to_upper}
use go_stripenav.Base.Results.{bind_inl, guard-inl}
use go_stripenav.Schemas.{InvoiceData, SupplierInfo, Line}
use go_stripenav.Storno.{StripeInvoice, LineList}
use go_stripenav.Invoicemap.Rational.{Rat}
use go_stripenav.Invoicemap.Options.{MapOptions, validate_options, issue_date, build_supplier}
use go_stripenav.Invoicemap.Lines.{RateTotals, InvoiceTotals}
use go_stripenav.Invoicemap.Build.{build_lines}
use go_stripenav.Invoicemap.Mapper.{
  Library, check_issued, check_lines, exchange_rate_of, original_lines, document_of, map_invoice,
}

module _ (lib : Library) where
  open lib use {inclusive_tax, set_string, quoted, civil_date}

  pub record Success (inv : StripeInvoice) (given : MapOptions) (doc : InvoiceData) : Type 0 where
    pub opts : MapOptions
    pub issued : ℕ
    pub list : LineList
    pub rate : Rat
    pub supplier : SupplierInfo
    pub built : List Line × List RateTotals × InvoiceTotals
    pub valid : validate_options quoted given ≡ inl opts
    pub numbered : str_eq inv.number [] ≡ false
    pub dated : check_issued lib (issue_date inv) ≡ inl issued
    pub complete : check_lines lib inv.lines ≡ inl list
    pub in_currency : str_eq (to_upper inv.currency) [] ≡ false
    pub rated : exchange_rate_of lib (to_upper inv.currency) opts ≡ inl rate
    pub supplied : build_supplier opts.supplier ≡ inl supplier
    pub lines_built :
        build_lines inclusive_tax set_string
          (to_upper inv.currency)
          rate
          opts.operation
          (original_lines lib opts.original_line_count list)
          list.items
        ≡ inl built
    pub result : document_of lib inv opts (to_upper inv.currency) rate issued supplier built ≡ doc

  pub map_invoice-Success :
      (inv : StripeInvoice) (given : MapOptions) (doc : InvoiceData)
      → map_invoice lib inv given ≡ inl doc
      → Success inv given doc
  unfolding map_invoice
  map_invoice-Success inv given doc e =
      let (opts, valid, e1) = bind_inl (validate_options quoted given) _ e in
      let (numbered, e2) = guard-inl (not (str_eq inv.number [])) _ _ e1 in
      let (issued, dated, e3) = bind_inl (check_issued lib (issue_date inv)) _ e2 in
      let (list, complete, e4) = bind_inl (check_lines lib inv.lines) _ e3 in
      let (in_currency, e5) = guard-inl (not (str_eq (to_upper inv.currency) [])) _ _ e4 in
      let (rate, rated, e6) = bind_inl (exchange_rate_of lib (to_upper inv.currency) opts) _ e5 in
      let (supplier, supplied, e7) = bind_inl (build_supplier opts.supplier) _ e6 in
      let (built, lines_built, e8) =
        bind_inl
          (build_lines inclusive_tax set_string (to_upper inv.currency) rate opts.operation
            (original_lines lib opts.original_line_count list) list.items)
          _ e7 in
      record {
        opts = opts;
        issued = issued;
        list = list;
        rate = rate;
        supplier = supplier;
        built = built;
        valid = valid;
        numbered = ground (arith, numbered);
        dated = dated;
        complete = complete;
        in_currency = ground (arith, in_currency);
        rated = rated;
        supplied = supplied;
        lines_built = lines_built;
        result = ground (arith, e8);
      }
