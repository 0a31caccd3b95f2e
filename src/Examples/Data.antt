-- ===== src/Examples/Data.antt =====
-- The data of the examples: submissions, a store, and the world of a lifecycle.
use go_stripenav.Base.{
  ℕ, ◌*◌, ◌≤◌, ◌≡◌, refl, ◌≢◌, false, none, List, [], ◌∷◌, ◌-◌, drop, take, length, arith, ltb,
  Bytes, str, str_eq, str_eq_iff,
}
use go_stripenav.Submission.{Submission, pending, processing, accepted, invoice}
use go_stripenav.Store.{Store}
use go_stripenav.Nav.{reply}
use go_stripenav.Worker.{Worker}
use go_stripenav.Worker.Backoff.{Float64}
use go_stripenav.Worker.Effects.{in_memory}
use go_stripenav.Schemas.Api.{ProcessingResult}
use go_stripenav.Worker.Document.{XmlToken, start_element}
use go_stripenav.Worker.World.{Outside, World, Round}

-- A pending invoice, created at 10 and due at 20.
abbrev pub first : Submission
first = record {
  event_id = str "evt_1";
  kind = invoice;
  invoice_number = str "A-1";
  operation = str "CREATE";
  parent_event_id = [];
  status = pending;
  attempts = 0;
  last_error = [];
  transaction_id = [];
  next_attempt_at = 20;
  issued_at = 5;
  created_at = 10;
  updated_at = 10;
  raw_event = str "<InvoiceData>";
  claimed_by = [];
  claimed_until = 0;
}

-- A later one that NAV is processing.
abbrev pub second : Submission
second = record first {
  event_id = str "evt_2";
  status = processing;
  transaction_id = str "T2";
  created_at = 15;
}

abbrev pub closed : Submission
closed = record first { event_id = str "evt_3"; status = accepted; created_at = 8 }

abbrev pub three_rows : Store
three_rows = record {
  rows = (str "evt_2", second) ∷ (str "evt_1", first) ∷ (str "evt_3", closed) ∷ [];
}

pub whole_mono : (a b : ℕ) → ltb b a ≡ false → a ≤ b
whole_mono a b h = ground (arith, h)

-- Whole numbers for the float64 values.
abbrev pub whole : Float64
whole = record {
  Float = ℕ;
  of_int = λ n. n;
  mul = ◌*◌;
  gt = λ a b. ltb b a;
  to_int = λ n. n;
  to_int-of_int = λ n h. refl;
  to_int-mono = whole_mono;
}

-- The tokens of a document that is one tag.
abbrev pub tag_only : Bytes → List XmlToken
tag_only b = start_element (drop 1 (take (length b - 1) b)) ∷ []

abbrev pub outside : Outside
outside = record { store = in_memory; f64 = whole; xml_tokens = tag_only; derive = none }

abbrev pub worker : Worker
worker = record {
  claimer_id = str "host-ab12";
  max_sleep = 60;
  poll_interval = 30;
  lease_duration = 300;
  base_backoff = 60;
  max_backoff = 3600;
  batch_limit = 50;
}

abbrev pub finished : ProcessingResult
finished = record {
  index = 1;
  batch_index = none;
  invoice_status = str "DONE";
  original_request = [];
  technical_validation_messages = [];
  business_validation_messages = [];
  compressed_content_indicator = false;
}

-- NAV takes the submission and later reports it done.
abbrev pub calm_round : Round outside
calm_round = record {
  lease_done = false;
  parent_ctx = none;
  write_ctx = none;
  read_ctx = none;
  checked_at = 30;
  now = 30;
  stamped_at = 31;
  waited_at = 100;
  jitter = 1;
  submit_reply = reply (record { transaction_id = str "T1" });
  status_reply = reply (finished ∷ []);
  others = λ s. s;
}

abbrev pub start : World outside
start = record { state = three_rows; metrics = []; sent = [] }

pub differ_ne : (s t : Bytes) → str_eq s t ≡ false → s ≢ t
differ_ne s t h e = ground (arith, (str_eq_iff s t).1 e)
