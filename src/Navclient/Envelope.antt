-- ===== src/Navclient/Envelope.antt =====
-- internal/navclient/envelope.go and requests.go: the envelope that all requests share, and the
-- requests, without their XML names. The random draw and the UTC reading of a time are parameters.
use go_stripenav.Base.{ℕ, ◌%◌, Bool, List, ◌++◌, Bytes, str}
use go_stripenav.Submission.{Time}
use go_stripenav.Navclient.Config.{Software}
use go_stripenav.Navclient.Sign.{SignedOperation, Hashes, password_hash, request_signature}
use go_stripenav.Invoicemap.Currency.{fixed_digits}
use go_stripenav.Navclient.Timestamps.{Civil, format_timestamp, signing_timestamp}

pub record SoftwareXml : Type 0 where
  pub id : Bytes
  pub name : Bytes
  pub operation : Bytes
  pub main_version : Bytes
  pub dev_name : Bytes
  pub dev_contact : Bytes
  pub dev_country_code : Bytes
  pub dev_tax_number : Bytes

unfoldable pub software_to_xml : Software → SoftwareXml
software_to_xml s = record {
  id = s.id;
  name = s.name;
  operation = s.operation;
  main_version = s.main_version;
  dev_name = s.dev_name;
  dev_contact = s.dev_contact;
  dev_country_code = s.dev_country_code;
  dev_tax_number = s.dev_tax_number;
}

pub record CommonHeaderXml : Type 0 where
  pub request_id : Bytes
  pub timestamp : Bytes
  pub request_version : Bytes
  pub header_version : Bytes

pub record PasswordHashXml : Type 0 where
  pub crypto_type : Bytes
  pub value : Bytes

pub record RequestSigXml : Type 0 where
  pub crypto_type : Bytes
  pub value : Bytes

pub record CommonUserXml : Type 0 where
  pub login : Bytes
  pub password_hash : PasswordHashXml
  pub tax_number : Bytes
  pub request_signature : RequestSigXml

abbrev pub schema_version : Bytes
schema_version = str "3.0"

abbrev pub header_version : Bytes
header_version = str "1.0"

-- "RID" and twelve digits of `draw`, which is random, or a clock's where there is no randomness.
unfoldable pub new_request_id : ℕ → Bytes
new_request_id draw = str "RID" ++ fixed_digits 12 (draw % 1_000_000_000_000)

pub record EnvelopeContext : Type 0 where
  pub request_id : Bytes
  pub timestamp : Bytes
  pub signature : Bytes

module _ (hashes : Hashes) (utc : Time → Civil) where
  unfoldable pub new_envelope_context : ℕ → Time → Bytes → List SignedOperation → EnvelopeContext
  unfolding new_request_id format_timestamp signing_timestamp request_signature
  new_envelope_context draw now sign_key ops = record {
    request_id = new_request_id draw;
    timestamp = format_timestamp (utc now);
    signature =
        request_signature hashes (new_request_id draw) (signing_timestamp (utc now)) sign_key ops;
  }

  unfoldable pub header : EnvelopeContext → CommonHeaderXml
  header ec = record {
    request_id = ec.request_id;
    timestamp = ec.timestamp;
    request_version = schema_version;
    header_version = header_version;
  }

  unfoldable pub user : EnvelopeContext → Bytes → Bytes → Bytes → CommonUserXml
  unfolding password_hash
  user ec login password tax_number = record {
    login = login;
    password_hash = record { crypto_type = str "SHA-512"; value = password_hash hashes password };
    tax_number = tax_number;
    request_signature = record { crypto_type = str "SHA3-512"; value = ec.signature };
  }

-- What every request holds.
pub record Envelope : Type 0 where
  pub xmlns_com : Bytes
  pub header : CommonHeaderXml
  pub user : CommonUserXml
  pub software : SoftwareXml

abbrev pub xmlns_common_uri : Bytes
xmlns_common_uri = str "http://schemas.nav.gov.hu/NTCA/1.0/common"

pub record InvoiceOperationXml : Type 0 where
  pub index : ℕ
  pub invoice_operation : Bytes
  pub invoice_data : Bytes

pub record AnnulmentOperationXml : Type 0 where
  pub index : ℕ
  pub annulment_operation : Bytes
  pub invoice_annulment : Bytes

pub record ManageInvoiceRequest : Type 0 where
  pub envelope : Envelope
  pub exchange_token : Bytes
  pub compressed_content : Bool
  pub operations : List InvoiceOperationXml

pub record ManageAnnulmentRequest : Type 0 where
  pub envelope : Envelope
  pub exchange_token : Bytes
  pub annulments : List AnnulmentOperationXml

pub record QueryTransactionStatusRequest : Type 0 where
  pub envelope : Envelope
  pub transaction_id : Bytes
  pub return_original_request : Bool

-- A request of any kind; a token exchange has the envelope alone.
pub data ApiRequest : Type 0 where
  token_exchange : Envelope → ApiRequest
  manage_invoice : ManageInvoiceRequest → ApiRequest
  manage_annulment : ManageAnnulmentRequest → ApiRequest
  query_transaction_status : QueryTransactionStatusRequest → ApiRequest
