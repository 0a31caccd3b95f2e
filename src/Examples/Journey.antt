-- ===== src/Examples/Journey.antt =====
-- A concrete journey from a delivery to acceptance.
use go_stripenav.Base.{
  ◌≡◌, refl, sym, ap, ◌∙◌, inl, Bool, true, false, Option, none, some, List, [], ◌∷◌, arith, length,
  In, Bytes, str, str_eq,
}
use go_stripenav.Base.Ascii.{to_lower, to_upper, trim_prefix, trim_space}
use go_stripenav.Submission.{Submission, Result, ok, err, is_terminal}
use go_stripenav.Invoicemap.Tax.{split_hungarian_tax_number}
use go_stripenav.Store.Sort.{insert_by_created, sort_by_created}
use go_stripenav.Worker.Renewal.{claim_and_process}
use go_stripenav.Worker.World.{Round}
use go_stripenav.Worker.Actions.{run_lifecycle}
use go_stripenav.Worker.Verdict.{overall_status, overall_loop}
use go_stripenav.Worker.Progress.{GoesOn}
use go_stripenav.Worker.Acceptance.{Finishes, done, IsAccepted}
use go_stripenav.Worker.Document.{XmlToken, start_element, xml_looks_like}
use go_stripenav.Fleet.{outside, begun}
use go_stripenav.Journey.{ReadsBack, delivery-IsAccepted}
use go_stripenav.Examples.Data.{worker, whole, finished, calm_round}
use go_stripenav.Examples.Mapping.{decimal}
use go_stripenav.Bridge.{Event, eligible_event_types}
use go_stripenav.Bridge.Deliver.{
  process_event, by_kind, process_invoice, persist_or_fail, persist_mapped, after_put,
  new_submission,
}
use go_stripenav.Bridge.Documents.{
  map_invoice_event, decode_invoice, route, rate_of, mapped_or_permanent, create_route, rate_for,
}
use go_stripenav.Store.{
  Store, get, put, claim_batch, chosen, candidates, is_claimable, write_claims,
}
use go_stripenav.Store.Table.{lookup, insert, Keyed}
use go_stripenav.Invoicemap.Mapper.{
  map_invoice, document_of, check_issued, check_lines, exchange_rate_of, parse_rate,
}
use go_stripenav.Invoicemap.Options.{
  validate_options, by_operation, with_defaults, build_supplier, issue_date,
}
use go_stripenav.Invoicemap.Build.{build_lines, lines_loop, some_lines}
use go_stripenav.Examples.Deliveries.{packages, handler_config, delivery, voided}

abbrev finalized : Event
finalized = record voided { type = str "invoice.finalized" }

abbrev nobody : Store
nobody = record { rows = [] }

abbrev stored : Store
stored = (process_event packages handler_config true delivery finalized (str "{}") nobody).state

woken :
    (process_event packages handler_config true delivery finalized (str "{}") nobody).woken ≡ true
unfolding process_event by_kind process_invoice persist_or_fail persist_mapped after_put
    new_submission map_invoice_event decode_invoice route rate_of mapped_or_permanent create_route
    rate_for get put lookup insert map_invoice document_of check_issued check_lines exchange_rate_of
    parse_rate validate_options by_operation with_defaults build_supplier issue_date build_lines
    lines_loop some_lines eligible_event_types str_eq to_lower to_upper decimal
    split_hungarian_tax_number trim_prefix trim_space
woken = refl

stored-Keyed : Keyed stored.rows
unfolding process_event by_kind process_invoice persist_or_fail persist_mapped after_put
    new_submission map_invoice_event decode_invoice route rate_of mapped_or_permanent create_route
    rate_for get put lookup insert map_invoice document_of check_issued check_lines exchange_rate_of
    parse_rate validate_options by_operation with_defaults build_supplier issue_date build_lines
    lines_loop some_lines eligible_event_types str_eq to_lower to_upper decimal
    split_hungarian_tax_number trim_prefix trim_space
stored-Keyed = (refl, refl, tt)

-- Whether a row is there that depends on no other.
abbrev stands_alone : Option Submission → Bool
stands_alone none = false
stands_alone (some r) = str_eq r.parent_event_id []

alone : stands_alone (lookup finalized.id stored.rows) ≡ true
unfolding process_event by_kind process_invoice persist_or_fail persist_mapped after_put
    new_submission map_invoice_event decode_invoice route rate_of mapped_or_permanent create_route
    rate_for get put lookup insert map_invoice document_of check_issued check_lines exchange_rate_of
    parse_rate validate_options by_operation with_defaults build_supplier issue_date build_lines
    lines_loop some_lines eligible_event_types str_eq to_lower to_upper decimal
    split_hungarian_tax_number trim_prefix trim_space
alone = refl

abbrev claimed : Store × Result (List Submission)
claimed = claim_and_process worker none delivery.now stored

abbrev handed_out : Result (List Submission) → List Submission
handed_out (ok out) = out
handed_out (err e) = []

claims_it : claimed ≡ (claimed.0, ok (handed_out claimed.1))
unfolding process_event by_kind process_invoice persist_or_fail persist_mapped after_put
    new_submission map_invoice_event decode_invoice route rate_of mapped_or_permanent create_route
    rate_for get put lookup insert map_invoice document_of check_issued check_lines exchange_rate_of
    parse_rate validate_options by_operation with_defaults build_supplier issue_date build_lines
    lines_loop some_lines eligible_event_types str_eq to_lower to_upper decimal
    split_hungarian_tax_number trim_prefix trim_space claim_and_process claim_batch chosen
    candidates is_claimable is_terminal sort_by_created insert_by_created write_claims
claims_it = refl

few : length (handed_out claimed.1) ≡ 1
unfolding process_event by_kind process_invoice persist_or_fail persist_mapped after_put
    new_submission map_invoice_event decode_invoice route rate_of mapped_or_permanent create_route
    rate_for get put lookup insert map_invoice document_of check_issued check_lines exchange_rate_of
    parse_rate validate_options by_operation with_defaults build_supplier issue_date build_lines
    lines_loop some_lines eligible_event_types str_eq to_lower to_upper decimal
    split_hungarian_tax_number trim_prefix trim_space claim_and_process claim_batch chosen
    candidates is_claimable is_terminal sort_by_created insert_by_created write_claims
few = refl

abbrev root_only : Bytes → List XmlToken
root_only b = start_element (str "InvoiceData") ∷ []

reads_back : ReadsBack packages whole root_only
unfolding xml_looks_like str_eq
reads_back doc payload e = refl

abbrev calm : Round (outside whole root_only none)
calm = record {
  lease_done = calm_round.lease_done;
  parent_ctx = calm_round.parent_ctx;
  write_ctx = calm_round.write_ctx;
  read_ctx = calm_round.read_ctx;
  checked_at = calm_round.checked_at;
  now = calm_round.now;
  stamped_at = calm_round.stamped_at;
  waited_at = calm_round.waited_at;
  jitter = calm_round.jitter;
  submit_reply = calm_round.submit_reply;
  status_reply = calm_round.status_reply;
  others = λ s. s;
}

goes_on : GoesOn (outside whole root_only none) worker finalized.id calm
goes_on = record {
  held = refl;
  writes = refl;
  reads = refl;
  undisturbed = λ s. refl;
  waited = omega arith;
}

finishes : Finishes (outside whole root_only none) worker finalized.id (calm ∷ [])
unfolding overall_status overall_loop str_eq
finishes =
    done (finished ∷ []) (record { kept = refl; written = refl; answer = refl; not_aborted = refl })
      refl

delivery-IsAccepted_example :
    (v : Submission) × In v (handed_out claimed.1)
    × (v.event_id ≡ finalized.id)
    × IsAccepted
        (outside whole root_only none)
        worker
        finalized.id
        (run_lifecycle
          (outside whole root_only none)
          worker
          none
          200
          v
          (calm ∷ calm ∷ [])
          (begun whole root_only none claimed.0)).state
delivery-IsAccepted_example =
    delivery-IsAccepted packages whole root_only handler_config worker delivery finalized (str "{}")
      nobody tt woken stored stored-Keyed refl delivery.now (omega arith) claimed.0
      (handed_out claimed.1) claims_it (omega (arith, few)) reads_back calm (calm ∷ [])
      (record { transaction_id = str "T1" }) goes_on (λ r e. inl (sym (ap stands_alone e) ∙ alone))
      refl (unfold str_eq in refl) finishes none 200
