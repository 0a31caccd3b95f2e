-- ===== src/Examples/Deliveries.antt =====
-- Concrete runs of the theorems about the webhook handler.
use go_stripenav.Base.{
  ◌≡◌, refl, ◌⊎◌, inl, inr, true, false, none, some, [], ◌∷◌, if◌then◌else◌, Bytes, str, str_eq,
}
use go_stripenav.Base.Ascii.{to_lower, trim_left, trim_space}
use go_stripenav.Base.Decimal.{utoa}
use go_stripenav.Base.Int.{pos}
use go_stripenav.Submission.{canceled}
use go_stripenav.Store.{Store, new, find_by_invoice_number, with_invoice_number}
use go_stripenav.Store.Sort.{sort_by_created, insert_by_created}
use go_stripenav.Storno.{StripeInvoice, CreditNote}
use go_stripenav.Navclient.Config.{new_client, strip_non_digits, trim_slashes, drop_slashes}
use go_stripenav.Worker.{new_worker}
use go_stripenav.Bridge.{
  HandlerConfig, Event, Failure, Packages, Delivery, validate_config, equal_fold,
}
use go_stripenav.Bridge.Documents.{
  Mapped, decode_invoice, decode_credit_note, map_invoice_event, map_credit_note_event,
  find_parent_submission, exchange_rate_from_mapped,
}
use go_stripenav.Bridge.Deliver.{HttpRequest, process_event, serve_http}
use go_stripenav.Bridge.Effect.{Effect, process_event-Effect}
use go_stripenav.Bridge.Answers.{
  AtMostOnce, process_event_once, Unsigned, Signed, serve_http-Answer,
}
use go_stripenav.Bridge.Reversals.{
  reverses, Reported, map_invoice_event-Reported, reference, first_modification,
  map_credit_note_event-reference,
}
use go_stripenav.Bridge.Rates.{IsAtRate, storno_rate}
use go_stripenav.Bridge.Startup.{
  BridgeHandler, handler, with_options, make_client, make_worker, worker_config, shutdown, expired,
  with_nav_client,
}
use go_stripenav.Invoicemap.Options.{op_modify}
use go_stripenav.Examples.Client.{config, ready, note}
use go_stripenav.Examples.Documents.{supplier}
use go_stripenav.Examples.Data.{first, three_rows}
use go_stripenav.Examples.Mapping.{library, whole_invoice}

-- A voided invoice, whose signature is the secret.
abbrev pub voided : Event
voided = record {
  id = str "evt_9";
  type = str "invoice.voided";
  created = pos 1_700_000_000;
  raw = str "{}";
}

abbrev pub packages : Packages
packages = record {
  mapper = library;
  construct_event = λ body signature secret. if str_eq signature secret then some voided else none;
  unmarshal_invoice = λ b. inl whole_invoice;
  unmarshal_credit_note = λ b. inl note;
  marshal_invoice = λ d. inl d.invoice_number;
  marshal_annulment = λ a. inl a.annulment_reference;
  unmarshal_rate = λ b. some (str " 395.42 ");
  format_timestamp = utoa;
}

abbrev pub handler_config : HandlerConfig
handler_config = record {
  stripe_webhook_secret = str "whsec";
  supplier = supplier;
  store = none;
  exchange_rate_provider = some (λ currency at. inl (str "400"));
  accept_timeout = pos 0;
  nav = config;
  has_nav_client = false;
  disable_worker = false;
  worker_max_sleep = pos 0;
  worker_poll_interval = pos 0;
  worker_lease_duration = pos 0;
  worker_claimer_id = str "w1";
}

abbrev pub delivery : Delivery
delivery = record {
  get_ctx = none;
  find_ctx = none;
  put_ctx = none;
  after_get = λ s. s;
  before_put = λ s. s;
  now = 63_835_596_810_000_000_000;
  storno_at = 63_835_596_810_000_000_000;
  fallback_at = 63_835_596_810_000_000_000;
}

abbrev request : HttpRequest
request = record { method = str "POST"; body = some (str "{}"); stripe_signature = str "whsec" }

serve_http-Answer_example :
    Unsigned packages handler_config true request three_rows
      (serve_http packages handler_config true delivery request three_rows)
    ⊎ Signed packages handler_config true delivery request three_rows
        (serve_http packages handler_config true delivery request three_rows)
serve_http-Answer_example =
    serve_http-Answer packages handler_config true delivery request three_rows tt

process_event_once_example :
    AtMostOnce packages handler_config true delivery delivery voided
      (str "{}")
      three_rows
      (process_event packages handler_config true delivery voided (str "{}") three_rows)
process_event_once_example =
    process_event_once packages handler_config true delivery delivery voided (str "{}") (str "{}")
      three_rows tt refl

process_event-Effect_example :
    Effect packages handler_config true delivery voided
      (str "{}")
      three_rows
      (process_event packages handler_config true delivery voided (str "{}") three_rows)
process_event-Effect_example =
    process_event-Effect packages handler_config true delivery voided (str "{}") three_rows tt

map_invoice_event-Reported_example :
    ((m : Mapped) × (inv : StripeInvoice) × (map_invoice_event packages handler_config delivery
          voided first three_rows
        ≡ inl m)
      × (decode_invoice packages handler_config delivery voided ≡ inl inv)
      × Reported packages handler_config delivery voided three_rows inv m)
    ⊎ ((f : Failure) × (map_invoice_event packages handler_config delivery voided first three_rows
          ≡ inr f))
map_invoice_event-Reported_example =
    map_invoice_event-Reported packages handler_config delivery voided first three_rows

map_credit_note_event-reference_example :
    ((m : Mapped) × (cn : CreditNote) × (original : Bytes) × (map_credit_note_event packages
          handler_config delivery voided first
        ≡ inl m)
      × (decode_credit_note packages handler_config delivery voided ≡ inl cn)
      × (cn.invoice_number ≡ some original)
      × (m.op ≡ op_modify)
      × (m.sub.invoice_number ≡ cn.number)
      × (reference m ≡ some (first_modification original)))
    ⊎ ((f : Failure) × (map_credit_note_event packages handler_config delivery voided first
          ≡ inr f))
map_credit_note_event-reference_example =
    map_credit_note_event-reference packages handler_config delivery voided first

abbrev with_original : Store
with_original = record { rows = (str "evt_1", first) ∷ [] }

decoded : decode_invoice packages handler_config delivery voided ≡ inl whole_invoice
unfolding decode_invoice
decoded = refl

found : find_parent_submission none (str "A-1") with_original ≡ some first
unfolding find_parent_submission find_by_invoice_number with_invoice_number sort_by_created
    insert_by_created str_eq
found = refl

foreign : equal_fold whole_invoice.currency (str "HUF") ≡ false
unfolding to_lower str_eq
foreign = refl

known :
    str_eq (exchange_rate_from_mapped packages handler_config delivery first.raw_event) [] ≡ false
unfolding exchange_rate_from_mapped trim_space trim_left str_eq
known = refl

reversing : reverses voided ≡ true
unfolding str_eq
reversing = refl

storno_rate_example :
    ((m : Mapped) × (map_invoice_event packages handler_config delivery voided first with_original
        ≡ inl m)
      × IsAtRate packages.mapper
          (exchange_rate_from_mapped packages handler_config delivery first.raw_event)
          m.doc)
    ⊎ ((f : Failure) × (map_invoice_event packages handler_config delivery voided first
            with_original
          ≡ inr f))
storno_rate_example =
    storno_rate packages handler_config delivery voided first with_original whole_invoice first
      reversing decoded foreign found known

abbrev serving : BridgeHandler
serving = record {
  cfg = record handler_config {
    store = some (record { rows = [] });
    accept_timeout = pos 5_000_000_000;
  };
  client = some ready;
  worker = some (record {
    claimer_id = str "w1";
    max_sleep = 10_000_000_000;
    poll_interval = 5_000_000_000;
    lease_duration = 60_000_000_000;
    base_backoff = 30_000_000_000;
    max_backoff = 900_000_000_000;
    batch_limit = 50;
  });
}

serves : handler (str "host") [] handler_config [] ≡ inl serving
unfolding handler with_options validate_config make_client make_worker new_client strip_non_digits
    trim_slashes drop_slashes worker_config new_worker new str_eq
serves = refl

-- A Shutdown that is not waited for in full.
cut_short : shutdown serving (expired canceled) ≡ (true, some canceled)
unfolding shutdown
cut_short = refl

own_client : (with_nav_client true handler_config).has_nav_client ≡ true
unfolding with_nav_client
own_client = refl
