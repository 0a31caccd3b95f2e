-- ===== src/Invoicemap/Mapper/Total.antt =====
-- internal/invoicemap/mapping.go: which invoices MapInvoice maps.
use go_stripenav.Base.{
  ℕ, suc, ◌≡◌, refl, ◌∙◌, subst, inl, inr, Bool, true, false, not, ◌&&◌, ◌||◌, Option, none, some,
  List, [], ◌∷◌, arith, ◌==◌, length, any, Bytes, str, str_eq,
}
use go_stripenav.Base.Ascii.{to_upper, trim_space}
use go_stripenav.Base.Results.{
  SucceedsIf, is_result, is_result-SucceedsIf, bind-SucceedsIf, guard-SucceedsIf,
}
use go_stripenav.Storno.{StripeInvoice, LineList, LineItem}
use go_stripenav.Invoicemap.Rational.{Rat}
use go_stripenav.Invoicemap.Options.{
  MapOptions, MappingError, Supplier, new_mapping_error, validate_options, issue_date,
  build_supplier,
}
use go_stripenav.Invoicemap.Options.Checked.{
  acceptable, completed, validate_options-inl, validate_options_lem,
}
use go_stripenav.Invoicemap.Tax.{split_hungarian_tax_number}
use go_stripenav.Invoicemap.Lines.{RateTotals, InvoiceTotals, new_invoice_totals}
use go_stripenav.Invoicemap.Build.{build_lines, lines_loop, some_lines}
use go_stripenav.Invoicemap.Mapper.{
  Library, check_issued, check_lines, exchange_rate_of, parse_rate, original_lines, map_invoice,
  code_unsupported_currency,
}

abbrev pub is_there {ℓ} : {A : Type ℓ} → Option A → Bool
is_there none = false
is_there (some a) = true

-- At least one item, and no further page.
abbrev is_complete : Option LineList → Bool
is_complete none = false
is_complete (some list) = not (length list.items == 0) && not list.has_more

abbrev has_line : Option LineList → Bool
has_line none = false
has_line (some list) = any is_there list.items

module _ (lib : Library) where
  open lib use {inclusive_tax, set_string, quoted, civil_date}

  abbrev has_rate : Bytes → Bytes → Bool
  has_rate currency rate =
      str_eq currency (str "HUF") || (not (str_eq rate []) && is_there (set_string rate))

  abbrev has_supplier : Supplier → Bool
  has_supplier s =
      is_there (split_hungarian_tax_number s.tax_number)
      && not (str_eq (trim_space s.address.additional_detail) [])

  -- What an invoice and its options need, in the order in which it is checked.
  abbrev pub is_mappable : StripeInvoice → MapOptions → Bool
  is_mappable inv given =
      acceptable given
      && (not (str_eq inv.number [])
          && (is_there (issue_date inv)
              && (is_complete inv.lines
                  && (not (str_eq (to_upper inv.currency) [])
                      && (has_rate (to_upper inv.currency) given.exchange_rate_to_huf
                          && (has_supplier given.supplier && (has_line inv.lines && true)))))))

  issued-SucceedsIf : (t : Option ℕ) → SucceedsIf (is_there t) (check_issued lib t)
  unfolding check_issued
  issued-SucceedsIf t = is_result-SucceedsIf (is_there t) (check_issued lib t) (ground arith)

  lines-SucceedsIf : (l : Option LineList) → SucceedsIf (is_complete l) (check_lines lib l)
  unfolding check_lines
  lines-SucceedsIf l = is_result-SucceedsIf (is_complete l) (check_lines lib l) (ground arith)

  check_lines-some :
      (l : Option LineList) (list : LineList) → check_lines lib l ≡ inl list → l ≡ some list
  unfolding check_lines
  check_lines-some none list e = cc
  check_lines-some (some l) list e = ground (arith, e)

  rate-SucceedsIf :
      (currency : Bytes) (opts : MapOptions)
      → SucceedsIf
          (has_rate currency opts.exchange_rate_to_huf)
          (exchange_rate_of lib currency opts)
  unfolding exchange_rate_of parse_rate
  rate-SucceedsIf currency opts =
      is_result-SucceedsIf (has_rate currency opts.exchange_rate_to_huf)
        (exchange_rate_of lib currency opts) (ground arith)

  supplier-SucceedsIf : (s : Supplier) → SucceedsIf (has_supplier s) (build_supplier s)
  unfolding build_supplier
  supplier-SucceedsIf s = is_result-SucceedsIf (has_supplier s) (build_supplier s) (ground arith)

  some_lines-any :
      (currency : Bytes) (rate : Rat) (op : Bytes) (count idx : ℕ) (items : List (Option LineItem))
      (by_rate : List RateTotals) (totals : InvoiceTotals)
      → is_result (
          some_lines inclusive_tax set_string currency rate
            (lines_loop inclusive_tax set_string currency rate op count idx items by_rate totals))
        ≡ any is_there items
  unfolding lines_loop some_lines
  some_lines-any currency rate op count idx [] by_rate totals = refl
  some_lines-any currency rate op count idx (none ∷ ls) by_rate totals =
      some_lines-any currency rate op count (suc idx) ls by_rate totals
  some_lines-any currency rate op count idx (some l ∷ ls) by_rate totals = refl

  build_lines-SucceedsIf :
      (currency : Bytes) (rate : Rat) (op : Bytes) (count : ℕ) (l : Option LineList)
      (list : LineList)
      → l ≡ some list
      → SucceedsIf
          (has_line l)
          (build_lines inclusive_tax set_string currency rate op count list.items)
  unfolding build_lines
  build_lines-SucceedsIf currency rate op count l list e =
      is_result-SucceedsIf (has_line l) _ (
        some_lines-any currency rate op count 0 list.items [] new_invoice_totals
        ∙ ground (arith, e))

  options-SucceedsIf :
      (given : MapOptions) → SucceedsIf (acceptable given) (validate_options quoted given)
  options-SucceedsIf given = elim (validate_options_lem quoted given) [
    | inl (a, q) ↦ inl (a, (completed given, q))
    | inr (a, x) ↦ inr (a, x)
  ]

  -- MapInvoice returns a document exactly when the options are acceptable, the number, the issue
  -- date and the currency are there, the list of lines is complete and has a line that is not nil,
  -- the currency is HUF or the rate parses, and the supplier has a valid tax number and a street;
  -- otherwise it returns an error.
  pub map_invoice-SucceedsIf :
      (inv : StripeInvoice) (given : MapOptions)
      → SucceedsIf (is_mappable inv given) (map_invoice lib inv given)
  unfolding map_invoice
  map_invoice-SucceedsIf inv given =
      bind-SucceedsIf (acceptable given) _ (validate_options quoted given) _
        (options-SucceedsIf given)
        (λ opts v. guard-SucceedsIf _ _ _ _ (
          bind-SucceedsIf _ _ _ _ (issued-SucceedsIf (issue_date inv)) (λ t d.
            bind-SucceedsIf _ _ _ _ (lines-SucceedsIf inv.lines) (λ list c.
              guard-SucceedsIf (not (str_eq currency [])) _ no_currency _ (
                bind-SucceedsIf _ _ _ _ (rated opts v) (λ rate r.
                  bind-SucceedsIf _ _ _ _ (supplied opts v) (λ supplier u.
                    bind-SucceedsIf _ true _ _
                      (build_lines-SucceedsIf currency rate opts.operation
                        (original_lines lib opts.original_line_count list) inv.lines list
                        (check_lines-some inv.lines list c))
                      (λ built b. inl (refl, (_, refl))))))))))
    where
      currency : Bytes
      currency = to_upper inv.currency

      no_currency : MappingError
      no_currency = new_mapping_error code_unsupported_currency (str "invoice.currency")

      rated :
          (opts : MapOptions)
          → validate_options quoted given ≡ inl opts
          → SucceedsIf
              (has_rate currency given.exchange_rate_to_huf)
              (exchange_rate_of lib currency opts)
      rated opts v =
          subst
            (λ o.
              SucceedsIf (has_rate currency given.exchange_rate_to_huf)
                (exchange_rate_of lib currency o))
            (validate_options-inl quoted given opts v) (rate-SucceedsIf currency (completed given))

      supplied :
          (opts : MapOptions)
          → validate_options quoted given ≡ inl opts
          → SucceedsIf (has_supplier given.supplier) (build_supplier opts.supplier)
      supplied opts v =
          subst (λ o. SucceedsIf (has_supplier given.supplier) (build_supplier o.supplier))
            (validate_options-inl quoted given opts v) (supplier-SucceedsIf given.supplier)
