-- ===== src/Bridge.antt =====
-- stripenav.go: what the webhook handler is configured with, what a delivery meets, and how a failure
-- is told apart. The logger, the metrics and the clock are left out.
pub mod Documents
pub mod Deliver
pub mod Drafts
pub mod Effect
pub mod Answers
pub mod Reversals
pub mod Rates
pub mod Startup
use go_stripenav.Base.{
  ℕ, zero, suc, ◌+◌, ◌-◌, ◌*◌, ◌/◌, ◌⊎◌, inl, inr, Bool, true, false, ◌||◌, Option, none, some, [],
  if◌then◌else◌, Bytes, str, str_eq,
}
use go_stripenav.Base.Int.{ℤ, pos, negsuc, sub_ℕ}
use go_stripenav.Base.Ascii.{to_lower}
use go_stripenav.Submission.{Kind, invoice, credit_note, Time, Error}
use go_stripenav.Store.{Store, Context, new}
use go_stripenav.Schemas.{InvoiceData, InvoiceAnnulment}
use go_stripenav.Storno.{StripeInvoice, CreditNote}
use go_stripenav.Invoicemap.Options.{Supplier, MappingError}
use go_stripenav.Invoicemap.Mapper
use go_stripenav.Navclient.Config.{Config, ClientError}
use go_stripenav.Worker.{ConfigError}

-- The provider takes a currency and a time; `has_nav_client` tells whether a client is injected.
pub record HandlerConfig : Type 0 where
  pub stripe_webhook_secret : Bytes
  pub supplier : Supplier
  pub store : Option Store
  pub exchange_rate_provider : Option (Bytes → Time → Bytes ⊎ Bytes)
  pub accept_timeout : ℤ
  pub nav : Config
  pub has_nav_client : Bool
  pub disable_worker : Bool
  pub worker_max_sleep : ℤ
  pub worker_poll_interval : ℤ
  pub worker_lease_duration : ℤ
  pub worker_claimer_id : Bytes

pub data HandlerError : Type 0 where
  webhook_secret_required supplier_tax_number_required : HandlerError
  by_client : ClientError → HandlerError
  by_worker : ConfigError → HandlerError

abbrev pub default_accept_timeout : ℤ
default_accept_timeout = pos 5_000_000_000

-- `if t <= 0 { t = 5 * time.Second }`.
abbrev pub timeout_or_default : ℤ → ℤ
timeout_or_default (pos zero) = default_accept_timeout
timeout_or_default (pos (suc n)) = pos (suc n)
timeout_or_default (negsuc n) = default_accept_timeout

unfoldable pub validate_config : HandlerConfig → HandlerConfig ⊎ HandlerError
validate_config cfg =
    if str_eq cfg.stripe_webhook_secret []
    then inr webhook_secret_required
    else if str_eq cfg.supplier.tax_number []
    then inr supplier_tax_number_required
    else inl (record cfg {
      store = elim cfg.store [ none ↦ some new | some s ↦ some s ];
      accept_timeout = timeout_or_default cfg.accept_timeout;
    })

-- A Stripe event, of which `raw` is the JSON of the object.
pub record Event : Type 0 where
  pub id : Bytes
  pub type : Bytes
  pub created : ℤ
  pub raw : Bytes

-- The map, by the event's type.
unfoldable pub eligible_event_types : Bytes → Option Kind
eligible_event_types t =
    if str_eq t (str "invoice.finalized")
      || (str_eq t (str "invoice.voided") || str_eq t (str "invoice.marked_uncollectible"))
    then some invoice
    else if str_eq t (str "credit_note.created") || str_eq t (str "credit_note.voided")
    then some credit_note
    else none

-- What a failure says.
pub data Cause : Type 0 where
  by_text : Bytes → Cause
  by_mapping : MappingError → Cause
  by_store : Error → Cause

-- A permanentError, or any other error.
pub data Failure : Type 0 where
  permanent transient : Cause → Failure

abbrev pub is_permanent : Failure → Bool
is_permanent (permanent c) = true
is_permanent (transient c) = false

-- What other packages do: webhook.ConstructEventWithOptions by the secret, encoding/json,
-- encoding/xml (of the last, the reading of the rate of a stored document), and the time layout of NAV.
pub record Packages : Type 0 where
  pub mapper : Mapper.Library
  pub construct_event : Bytes → Bytes → Bytes → Option Event
  pub unmarshal_invoice : Bytes → StripeInvoice ⊎ Bytes
  pub unmarshal_credit_note : Bytes → CreditNote ⊎ Bytes
  pub marshal_invoice : InvoiceData → Bytes ⊎ Bytes
  pub marshal_annulment : InvoiceAnnulment → Bytes ⊎ Bytes
  pub unmarshal_rate : Bytes → Option Bytes
  pub format_timestamp : Time → Bytes

-- What one delivery meets: the contexts of its three calls of the store, what others do to the store
-- after its Get and before its Put, and the readings of the clock, for the submission, for the
-- time of a storno, and for a document without a time.
pub record Delivery : Type 0 where
  pub get_ctx : Context
  pub find_ctx : Context
  pub put_ctx : Context
  pub after_get : Store → Store
  pub before_put : Store → Store
  pub now : Time
  pub storno_at : Time
  pub fallback_at : Time

-- The Unix epoch in seconds of Go's zero time.
abbrev pub unix_epoch : ℕ
unix_epoch = 62_135_596_800

-- `time.Unix(sec, 0)`, for a time from Go's zero time on.
abbrev pub from_unix : ℤ → Time
from_unix (pos n) = (unix_epoch + n) * 1_000_000_000
from_unix (negsuc n) = (unix_epoch - suc n) * 1_000_000_000

-- `t.Unix()`.
abbrev pub to_unix : Time → ℤ
to_unix t = sub_ℕ (t / 1_000_000_000) unix_epoch

-- `strings.EqualFold` with ASCII text that has no further case variants.
abbrev pub equal_fold : Bytes → Bytes → Bool
equal_fold s t = str_eq (to_lower s) (to_lower t)
