-- ===== src/Examples/Requests.antt =====
-- Concrete runs of the theorems about what the NAV client sends.
use go_stripenav.Base.{
  refl, ◌≡◌, arith, take, inl, true, none, some, List, [], ◌∷◌, ◌++◌, Bytes, str,
}
use go_stripenav.Nav.{InvoiceOperation}
use go_stripenav.Navclient.Replies.{Decoder}
use go_stripenav.Navclient.Config.{strip_non_digits}
use go_stripenav.Navclient.Sign.{request_signature}
use go_stripenav.Invoicemap.Currency.{fixed_digits}
use go_stripenav.Navclient.Timestamps.{Civil, format_timestamp, signing_timestamp}
use go_stripenav.Navclient.Signed.{envelope-signed}
use go_stripenav.Navclient.Requests.{Network, Draw, response, submit_invoice, envelope}
use go_stripenav.Navclient.Batches.{Sends, submit_invoice-Sends}
use go_stripenav.Schemas.Api.{BasicResult, CommonResponseHeader}
use go_stripenav.Examples.Client.{ready}

abbrev fine : BasicResult
fine = record { func_code = str "OK"; error_code = []; message = [] }

abbrev header : CommonResponseHeader
header = record {
  request_id = str "RID1";
  timestamp = [];
  request_version = str "3.0";
  header_version = str "1.0";
}

-- Bodies that hold what is asked of them, and ciphers that leave a text as it is.
abbrev decoder {ℓ} : {A : Type ℓ} → (Bytes → A) → Decoder A
decoder make = record {
  exception = λ b. none;
  extract_basic_result = λ b. fine;
  unmarshal = λ b. inl (make b);
}

abbrev network : Network
network = record {
  hashes = record { sha512 = λ b. b; sha3_512 = λ b. b };
  utc = λ t. record {
    year = 2026;
    month = 5;
    day = 27;
    hour = 10;
    minute = 55;
    second = 31;
    nanosecond = 440_000_000;
  };
  base64 = λ b. b;
  base64_decode = λ b. some b;
  new_cipher = λ k. true;
  decrypt_blocks = λ k b. b;
  marshal = λ r. inl (str "<request/>");
  post = λ path body. response 200 (str "0123456789abcde" ++ 1 ∷ []);
  token_response = decoder (λ b. record {
    header = header;
    result = fine;
    encoded_exchange_token = b;
    token_validity_from = [];
    token_validity_to = [];
  });
  invoice_response = decoder (λ b. record { header = header; result = fine; transaction_id = b });
  annulment_response = decoder (λ b. record { header = header; result = fine; transaction_id = b });
  status_response = decoder (λ b. record {
    header = header;
    result = fine;
    processing_results = record {
      processing_result = [];
      original_request_version = [];
      annulment_data = none;
    };
  });
  token_error_text = λ e. str "token";
  client_error_text = λ e. str "batch";
}

abbrev draw : Draw
draw = record { draw = 123_456_789_012; now = 9 }

abbrev batch : List InvoiceOperation
batch =
    record { operation = str "CREATE"; invoice_data = str "<a/>" }
    ∷ record { operation = str "STORNO"; invoice_data = str "<b/>" }
    ∷ []

submit_invoice-Sends_example :
    Sends network ready draw draw batch (submit_invoice network ready draw draw batch)
submit_invoice-Sends_example = submit_invoice-Sends network ready draw draw batch (λ b. refl)

envelope-signed_example :
    (envelope network ready draw []).user.request_signature.value
    ≡ request_signature network.hashes
        (envelope network ready draw []).header.request_id
        (take 14 (strip_non_digits (envelope network ready draw []).header.timestamp))
        ready.sign_key
        []
envelope-signed_example = envelope-signed network ready draw [] (ground arith)

-- The two forms of one time.
abbrev moment : Civil
moment = network.utc 9

moment-timestamp : format_timestamp moment ≡ str "2026-05-27T10:55:31.440Z"
unfolding format_timestamp fixed_digits
moment-timestamp = refl

moment-signing : signing_timestamp moment ≡ str "20260527105531"
unfolding signing_timestamp fixed_digits
moment-signing = refl
