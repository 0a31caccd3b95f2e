-- ===== src/Navclient/Requests.antt =====
-- internal/navclient/client.go: the calls of the client. A call leaves what it sent and returns a reply.
-- The encoding of XML and base64, the UTC reading of a time, the cipher, the hashes, HTTP and the rate limiter are parameters.
use go_stripenav.Base.{
  xml_header, ℕ, suc, ◌+◌, ◌⊎◌, inl, inr, Bool, false, Option, none, some, List, [], ◌∷◌, ◌++◌,
  if◌then◌else◌, length, Bytes, str, str_eq,
}
use go_stripenav.Submission.{Time}
use go_stripenav.Nav.{
  InvoiceOperation, AnnulmentOperation, SubmitResult, Reply, reply, nav_failure, other_failure,
}
use go_stripenav.Schemas.Api.{
  TokenExchangeResponse, ManageInvoiceResponse, ManageAnnulmentResponse,
  QueryTransactionStatusResponse,
}
use go_stripenav.Navclient.Config.{Config, ClientError, check_batch}
use go_stripenav.Navclient.Replies.{Decoder, read_response}
use go_stripenav.Navclient.Token.{TokenError, decrypt_exchange_token}
use go_stripenav.Navclient.Sign.{SignedOperation, Hashes}
use go_stripenav.Navclient.Timestamps.{Civil}
use go_stripenav.Navclient.Envelope.{
  software_to_xml, new_envelope_context, header, user, Envelope, xmlns_common_uri,
  InvoiceOperationXml, AnnulmentOperationXml, ApiRequest, token_exchange, manage_invoice,
  manage_annulment, query_transaction_status,
}

-- How far the HTTP request of a call came: it was not built, the rate limiter was not waited for, it
-- was not answered, the answer broke off, or there is a status with a body.
pub data Http : Type 0 where
  not_built not_waited not_answered not_read : Bytes → Http
  response : ℕ → Bytes → Http

pub record Network : Type 0 where
  pub hashes : Hashes
  pub utc : Time → Civil
  pub base64 : Bytes → Bytes
  pub base64_decode : Bytes → Option Bytes
  pub new_cipher : Bytes → Bool
  pub decrypt_blocks : Bytes → Bytes → Bytes
  pub marshal : ApiRequest → Bytes ⊎ Bytes
  pub post : Bytes → Bytes → Http
  pub token_response : Decoder TokenExchangeResponse
  pub invoice_response : Decoder ManageInvoiceResponse
  pub annulment_response : Decoder ManageAnnulmentResponse
  pub status_response : Decoder QueryTransactionStatusResponse
  pub token_error_text : TokenError → Bytes
  pub client_error_text : ClientError → Bytes

-- The random draw and the reading of the clock for one envelope.
pub record Draw : Type 0 where
  pub draw : ℕ
  pub now : Time

abbrev pub path_of : ApiRequest → Bytes
path_of (token_exchange e) = str "/tokenExchange"
path_of (manage_invoice r) = str "/manageInvoice"
path_of (manage_annulment r) = str "/manageAnnulment"
path_of (query_transaction_status r) = str "/queryTransactionStatus"

-- The operations of a batch as they are sent, from an index up, and as they are signed.
unfoldable pub enc_ops : (Bytes → Bytes) → ℕ → List InvoiceOperation → List InvoiceOperationXml
enc_ops base64 i [] = []
enc_ops base64 i (op ∷ ops) =
    record {
      index = i + 1;
      invoice_operation = op.operation;
      invoice_data = base64 op.invoice_data;
    }
    ∷ enc_ops base64 (suc i) ops

unfoldable pub signed_ops : (Bytes → Bytes) → List InvoiceOperation → List SignedOperation
signed_ops base64 [] = []
signed_ops base64 (op ∷ ops) =
    record { operation = op.operation; base64_payload = base64 op.invoice_data }
    ∷ signed_ops base64 ops

abbrev pub annul_op : Bytes
annul_op = str "ANNUL"

unfoldable pub enc_annulments :
    (Bytes → Bytes) → ℕ → List AnnulmentOperation → List AnnulmentOperationXml
enc_annulments base64 i [] = []
enc_annulments base64 i (op ∷ ops) =
    record {
      index = i + 1;
      annulment_operation = annul_op;
      invoice_annulment = base64 op.invoice_annulment;
    }
    ∷ enc_annulments base64 (suc i) ops

unfoldable pub signed_annulments : (Bytes → Bytes) → List AnnulmentOperation → List SignedOperation
signed_annulments base64 [] = []
signed_annulments base64 (op ∷ ops) =
    record { operation = annul_op; base64_payload = base64 op.invoice_annulment }
    ∷ signed_annulments base64 ops

-- The requests that came to HTTPClient.Do, and the reply.
pub record Called (A : Type 0) : Type 0 where
  pub sent : List ApiRequest
  pub result : Reply A

-- A call that was given up before HTTPClient.Do.
abbrev pub unsent : {A : Type 0} → Bytes → Called A
unsent t = record { sent = []; result = other_failure t }

-- What a call sent and replied, with the requests sent before it.
abbrev pub sent_after : {A : Type 0} → List ApiRequest → Called A → Called A
sent_after before c = record { sent = before ++ c.sent; result = c.result }

module _ (net : Network) (cfg : Config) where
  -- `do` from its HTTP request on.
  abbrev pub after_post : {A : Type 0} → Decoder A → ApiRequest → Http → Called A
  after_post decoder req (not_built t) = unsent (str "nav: build http request: " ++ t)
  after_post decoder req (not_waited t) = unsent (str "nav: rate-limit wait: " ++ t)
  after_post decoder req (not_answered t) = record {
    sent = req ∷ [];
    result = other_failure (str "nav: http " ++ path_of req ++ str ": " ++ t);
  }
  after_post decoder req (not_read t) = record {
    sent = req ∷ [];
    result = other_failure (str "nav: read response: " ++ t);
  }
  after_post decoder req (response status answer) = record {
    sent = req ∷ [];
    result = read_response decoder status answer;
  }

  abbrev pub after_marshal : {A : Type 0} → Decoder A → ApiRequest → Bytes ⊎ Bytes → Called A
  after_marshal decoder req (inr t) = unsent (str "nav: marshal request: " ++ t)
  after_marshal decoder req (inl body) =
      after_post decoder req (net.post (cfg.base_url ++ path_of req) (xml_header ++ body))

  -- `do`: what it sent, and the reply, read by the decoder of the call.
  unfoldable pub do_request : {A : Type 0} → Decoder A → ApiRequest → Called A
  do_request decoder req = after_marshal decoder req (net.marshal req)

  unfoldable pub envelope : Draw → List SignedOperation → Envelope
  unfolding new_envelope_context header user software_to_xml
  envelope d ops =
      let ec = new_envelope_context net.hashes net.utc d.draw d.now cfg.sign_key ops in
      record {
        xmlns_com = xmlns_common_uri;
        header = header net.hashes net.utc ec;
        user = user net.hashes net.utc ec cfg.login cfg.password cfg.tax_number;
        software = software_to_xml cfg.software;
      }

  abbrev pub plaintext : TokenExchangeResponse → Bytes ⊎ TokenError
  plaintext resp =
      decrypt_exchange_token net.base64_decode net.new_cipher net.decrypt_blocks
        resp.encoded_exchange_token cfg.exchange_key

  -- The reply of ExchangeToken, by that of `do`.
  abbrev pub token_result : Reply TokenExchangeResponse → Reply Bytes
  token_result (nav_failure e) = nav_failure e
  token_result (other_failure t) = other_failure t
  token_result (reply resp) = elim (plaintext resp) [
    | inr e ↦ other_failure (net.token_error_text e)
    | inl token ↦ reply token
  ]

  -- The token's value; the times of its validity are not used.
  unfoldable pub exchange_token : Draw → Called Bytes
  unfolding do_request envelope decrypt_exchange_token
  exchange_token d =
      let c = do_request net.token_response (token_exchange (envelope d [])) in
      record { sent = c.sent; result = token_result c.result }

  abbrev pub invoice_result : Reply ManageInvoiceResponse → Reply SubmitResult
  invoice_result (reply r) = reply (record { transaction_id = r.transaction_id })
  invoice_result (nav_failure e) = nav_failure e
  invoice_result (other_failure t) = other_failure t

  abbrev pub annulment_result : Reply ManageAnnulmentResponse → Reply SubmitResult
  annulment_result (reply r) = reply (record { transaction_id = r.transaction_id })
  annulment_result (nav_failure e) = nav_failure e
  annulment_result (other_failure t) = other_failure t

  -- The request of SubmitInvoice, with the token.
  unfoldable pub invoice_request : Draw → Bytes → List InvoiceOperation → ApiRequest
  unfolding envelope enc_ops signed_ops
  invoice_request d token ops = manage_invoice (record {
    envelope = envelope d (signed_ops net.base64 ops);
    exchange_token = token;
    compressed_content = false;
    operations = enc_ops net.base64 0 ops;
  })

  unfoldable pub annulment_request : Draw → Bytes → List AnnulmentOperation → ApiRequest
  unfolding envelope enc_annulments signed_annulments
  annulment_request d token ops = manage_annulment (record {
    envelope = envelope d (signed_annulments net.base64 ops);
    exchange_token = token;
    annulments = enc_annulments net.base64 0 ops;
  })

  -- A call from checkBatch on; `call` is the rest of it.
  abbrev pub after_batch : {A : Type 0} → Option ClientError → Called A → Called A
  after_batch (some e) call = unsent (net.client_error_text e)
  after_batch none call = call

  -- A call from the reply of ExchangeToken on, whose request was sent before.
  abbrev pub after_token :
      {A : Type 0} → List ApiRequest → Reply Bytes → (Bytes → Called A) → Called A
  after_token before (nav_failure e) send = record { sent = before; result = nav_failure e }
  after_token before (other_failure t) send = record { sent = before; result = other_failure t }
  after_token before (reply token) send = sent_after before (send token)

  -- The two halves that SubmitInvoice and AnnulInvoice share: the batch and the token; `send` is the
  -- call's own request, with the token.
  unfoldable pub with_token : {A : Type 0} → Draw → ℕ → (Bytes → Called A) → Called A
  unfolding exchange_token
  with_token d size send =
      after_batch (check_batch size)
        (after_token (exchange_token d).sent (exchange_token d).result send)

  unfoldable pub submit_invoice : Draw → Draw → List InvoiceOperation → Called SubmitResult
  unfolding with_token do_request invoice_request
  submit_invoice d e ops = with_token d (length ops) λ token.
      let c = do_request net.invoice_response (invoice_request e token ops) in
      record { sent = c.sent; result = invoice_result c.result }

  unfoldable pub annul_invoice : Draw → Draw → List AnnulmentOperation → Called SubmitResult
  unfolding with_token do_request annulment_request
  annul_invoice d e ops = with_token d (length ops) λ token.
      let c = do_request net.annulment_response (annulment_request e token ops) in
      record { sent = c.sent; result = annulment_result c.result }

  unfoldable pub query_status : Draw → Bytes → Bool → Called QueryTransactionStatusResponse
  unfolding do_request envelope
  query_status d transaction_id return_original =
      if str_eq transaction_id []
      then unsent (str "nav: transactionID is required")
      else do_request net.status_response (
          query_transaction_status (record {
            envelope = envelope d [];
            transaction_id = transaction_id;
            return_original_request = return_original;
          }))
