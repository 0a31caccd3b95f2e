-- ===== src/Worker/World.antt =====
-- What the submission lifecycle of worker.go works on. A round is one turn of runLifecycle's loop:
-- what the store, the NAV client and the clocks answer in it, and what others do to the store while
-- it waits. The world is the store, with what was sent to NAV and told the metrics, oldest first.
use go_stripenav.Base.{none, ◌≡◌, Bool, true, false, Option, List, [], ◌∷◌, ◌++◌, Bytes}
use go_stripenav.Submission.{Time}
use go_stripenav.Store.{Context}
use go_stripenav.Nav.{
  SubmitResult, InvoiceOperation, AnnulmentOperation, Reply, reply, nav_failure, other_failure,
}
use go_stripenav.Worker.Document.{XmlToken}
use go_stripenav.Schemas.Api.{ProcessingResult}
use go_stripenav.Worker.Backoff.{Float64}
use go_stripenav.Worker.Effects.{Metric, SubmissionStore}

-- A call of the NAV client; `is_answered` says whether it returned a result. NAV may have taken a
-- submission whose call returned none, when its reply was lost.
pub data Request : Type 0 where
  submits_invoice : InvoiceOperation → Request
  annuls_invoice : AnnulmentOperation → Request
  queries_status : Bytes → Request

pub record Sent : Type 0 where
  pub request : Request
  pub is_answered : Bool

-- What deriveForRetry returns.
pub data Derived : Type 0 where
  derived : (operation invoice_data annulment_data : Bytes) → Derived
  underivable : Bytes → Derived

-- What the lifecycle does not implement: the store, the float64 operations, the tokens that
-- encoding/xml reads from a document, and the Derive hook, which is nil in production.
pub record Outside : Type 1 where
  pub store : SubmissionStore
  pub f64 : Float64
  pub xml_tokens : Bytes → List XmlToken
  pub derive : Option (Bytes → Bytes → Derived)

abbrev pub answered {ℓ} : {A : Type ℓ} → Reply A → Bool
answered (reply a) = true
answered (nav_failure e) = false
answered (other_failure t) = false

module _ (out : Outside) where
  open out use {store, f64, xml_tokens, derive}

  pub record World : Type 0 where
    pub state : store.State
    pub metrics : List Metric
    pub sent : List Sent

  pub record Round : Type 0 where
    pub lease_done : Bool
    pub parent_ctx : Context
    pub write_ctx : Context
    pub read_ctx : Context
    pub checked_at : Time
    pub now : Time
    pub stamped_at : Time
    pub waited_at : Time
    pub jitter : f64.Float
    pub submit_reply : Reply SubmitResult
    pub status_reply : Reply (List ProcessingResult)
    pub others : store.State → store.State

  -- If the submission of the round is answered, the write that records it meets no failure of the
  -- context.
  abbrev pub IsRecorded : Round → Type 0
  IsRecorded rd = answered rd.submit_reply ≡ true → rd.write_ctx ≡ none

  abbrev pub tell : List Metric → World → World
  tell ms wd = record wd { metrics = wd.metrics ++ ms }

  abbrev pub send : Request → Bool → World → World
  send request answer wd = record wd {
    sent = wd.sent ++ (record { request = request; is_answered = answer } ∷ []);
  }
