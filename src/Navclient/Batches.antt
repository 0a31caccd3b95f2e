-- ===== src/Navclient/Batches.antt =====
-- internal/navclient/client.go, sign.go: what a batch sends and signs.
use go_stripenav.Base.{
  ℕ, suc, ◌+◌, ◌≤◌, ◌<◌, ◌≡◌, refl, sym, ap, subst, ◌≢◌, ◌⊎◌, inl, inr, false, Option, none, some,
  List, [], ◌∷◌, ◌++◌, map, arith, ltb, ◌==◌, Bool-cases, length, Bytes,
}
use mathlib.Core.Path.{ap₂}
use go_stripenav.Nav.{
  nav_failure, other_failure, InvoiceOperation, Reply, reply, SubmitResult, max_batch_size,
}
use go_stripenav.Navclient.Config.{Config, ClientError, check_batch, no_operation, batch_too_large}
use go_stripenav.Navclient.Sign.{SignedOperation, request_signature}
use go_stripenav.Navclient.Envelope.{
  InvoiceOperationXml, ApiRequest, manage_invoice, ManageInvoiceRequest, token_exchange,
  new_request_id, new_envelope_context, header, user,
}
use go_stripenav.Navclient.Timestamps.{signing_timestamp}
use go_stripenav.Navclient.Replies.{Decoder}
use go_stripenav.Schemas.Api.{TokenExchangeResponse, ManageInvoiceResponse}
use go_stripenav.Navclient.Requests.{
  Http, not_built, not_waited, not_answered, not_read, response, after_post, after_marshal,
  after_token, after_batch, token_result, Network, Draw, Called, enc_ops, signed_ops,
  submit_invoice, with_token, exchange_token, envelope, invoice_request, invoice_result, do_request,
}

-- What a document of a batch is told apart by: its position from `i` up.
abbrev pub numbered_from : ℕ → List InvoiceOperation → List (ℕ × InvoiceOperation)
numbered_from i [] = []
numbered_from i (op ∷ ops) = (i, op) ∷ numbered_from (suc i) ops

-- What NAV reads from the operations of a request.
abbrev pub read_op : (Bytes → Option Bytes) → InvoiceOperationXml → Option (ℕ × InvoiceOperation)
read_op decode x = elim (decode x.invoice_data) [
  | none ↦ none
  | some d ↦ some (x.index, record { operation = x.invoice_operation; invoice_data = d })
]

-- What NAV signs of the operations of a request.
abbrev pub as_signed : InvoiceOperationXml → SignedOperation
as_signed x = record { operation = x.invoice_operation; base64_payload = x.invoice_data }

enc_ops-signed :
    (base64 : Bytes → Bytes) (i : ℕ) (ops : List InvoiceOperation)
    → map as_signed (enc_ops base64 i ops) ≡ signed_ops base64 ops
unfolding enc_ops signed_ops
enc_ops-signed base64 i [] = refl
enc_ops-signed base64 i (op ∷ ops) =
    ap (λ xs. record { operation = op.operation; base64_payload = base64 op.invoice_data } ∷ xs)
      (enc_ops-signed base64 (suc i) ops)

enc_ops-read :
    (base64 : Bytes → Bytes) (decode : Bytes → Option Bytes)
    → ((b : Bytes) → decode (base64 b) ≡ some b)
    → (i : ℕ) (ops : List InvoiceOperation)
    → map (read_op decode) (enc_ops base64 i ops) ≡ map (λ x. some x) (numbered_from (i + 1) ops)
unfolding enc_ops
enc_ops-read base64 decode law i [] = refl
enc_ops-read base64 decode law i (op ∷ ops) =
    ap₂ (λ x xs. x ∷ xs) (ground (arith, law op.invoice_data))
      (subst
        (λ k.
          map (read_op decode) (enc_ops base64 (suc i) ops)
          ≡ map (λ x. some x) (numbered_from k ops))
        (omega arith) (enc_ops-read base64 decode law (suc i) ops))

check_batch_lem :
    (n : ℕ)
    → ((0 < n) × (n ≤ max_batch_size) × (check_batch n ≡ none))
      ⊎ (((n ≡ 0) ⊎ (max_batch_size < n)) × ((x : ClientError) × (check_batch n ≡ some x)))
unfolding check_batch
check_batch_lem n = elim (Bool-cases (n == 0)) [
  | inl z ↦ inr (inl (ground (arith, z)), (no_operation, ground (arith, z)))
  | inr z ↦ elim (Bool-cases (ltb max_batch_size n)) [
    | inl l ↦ inr (inr (ground (arith, l)), (batch_too_large, ground (arith, z, l)))
    | inr l ↦ inl (ground (arith, z), ground (arith, l), ground (arith, z, l))
  ]
]

module _ (net : Network) (cfg : Config) where
  -- A request with the operations of a batch, all of them, in order, from 1 up, signed as they stand.
  pub record IsBatch (e : Draw) (ops : List InvoiceOperation) (r : ManageInvoiceRequest)
      : Type 0 where
    pub read :
        map (read_op net.base64_decode) r.operations ≡ map (λ x. some x) (numbered_from 1 ops)
    pub signed :
        r.envelope.user.request_signature.value
        ≡ request_signature net.hashes r.envelope.header.request_id
            (signing_timestamp (net.utc e.now))
            cfg.sign_key
            (map as_signed r.operations)

  abbrev Fails : {A : Type 0} → Called A → Type 0
  Fails {A} c = (a : A) → c.result ≢ reply a

  -- What a call may send, with what it replies.
  pub data Sends (d e : Draw) (ops : List InvoiceOperation) (c : Called SubmitResult) : Type 0 where
    nothing :
        (length ops ≡ 0) ⊎ (max_batch_size < length ops) → c.sent ≡ [] → Fails c → Sends d e ops c
    token_only :
        (c.sent ≡ []) ⊎ (c.sent ≡ token_exchange (envelope net cfg d []) ∷ [])
        → Fails (exchange_token net cfg d)
        → Fails c
        → Sends d e ops c
    batch :
        (r : ManageInvoiceRequest)
        → 0 < length ops
        → length ops ≤ max_batch_size
        → (exchange_token net cfg d).result ≡ reply r.exchange_token
        → IsBatch e ops r
        → ((c.sent ≡ token_exchange (envelope net cfg d []) ∷ []) × Fails c)
          ⊎ (c.sent ≡ token_exchange (envelope net cfg d []) ∷ manage_invoice r ∷ [])
        → Sends d e ops c

  abbrev batch_request : Draw → Bytes → List InvoiceOperation → ManageInvoiceRequest
  batch_request e token ops = record {
    envelope = envelope net cfg e (signed_ops net.base64 ops);
    exchange_token = token;
    compressed_content = false;
    operations = enc_ops net.base64 0 ops;
  }

  batch_request-IsBatch :
      (e : Draw) (token : Bytes) (ops : List InvoiceOperation)
      → ((b : Bytes) → net.base64_decode (net.base64 b) ≡ some b)
      → IsBatch e ops (batch_request e token ops)
  unfolding envelope new_envelope_context header user
  batch_request-IsBatch e token ops law = record {
    read = enc_ops-read net.base64 net.base64_decode law 0 ops;
    signed =
        ap
          (request_signature net.hashes (new_request_id e.draw) (signing_timestamp (net.utc e.now))
            cfg.sign_key)
          (sym (enc_ops-signed net.base64 0 ops));
  }

  -- `do` sends its request and nothing else, or nothing, and then it fails.
  abbrev Sent : {A : Type 0} → ApiRequest → Called A → Type 0
  Sent req c = ((c.sent ≡ []) × Fails c) ⊎ (c.sent ≡ req ∷ [])

  after_post-Sent :
      {A : Type 0} (decoder : Decoder A) (req : ApiRequest) (h : Http)
      → Sent req (after_post net cfg decoder req h)
  after_post-Sent decoder req (not_built t) = inl (refl, λ a q. cc)
  after_post-Sent decoder req (not_waited t) = inl (refl, λ a q. cc)
  after_post-Sent decoder req (not_answered t) = inr refl
  after_post-Sent decoder req (not_read t) = inr refl
  after_post-Sent decoder req (response status answer) = inr refl

  after_marshal-Sent :
      {A : Type 0} (decoder : Decoder A) (req : ApiRequest) (m : Bytes ⊎ Bytes)
      → Sent req (after_marshal net cfg decoder req m)
  after_marshal-Sent decoder req (inr t) = inl (refl, λ a q. cc)
  after_marshal-Sent decoder req (inl body) = after_post-Sent decoder req _

  do_request-Sent :
      {A : Type 0} (decoder : Decoder A) (req : ApiRequest)
      → Sent req (do_request net cfg decoder req)
  unfolding do_request
  do_request-Sent decoder req = after_marshal-Sent decoder req (net.marshal req)

  token_failed :
      (r : Reply TokenExchangeResponse)
      → ((a : TokenExchangeResponse) → r ≢ reply a)
      → (b : Bytes) → token_result net cfg r ≢ reply b
  token_failed (reply a) h b q = h a refl
  token_failed (nav_failure e) h b q = cc
  token_failed (other_failure t) h b q = cc

  invoice_failed :
      (r : Reply ManageInvoiceResponse)
      → ((a : ManageInvoiceResponse) → r ≢ reply a)
      → (b : SubmitResult) → invoice_result net cfg r ≢ reply b
  invoice_failed (reply a) h b q = h a refl
  invoice_failed (nav_failure e) h b q = cc
  invoice_failed (other_failure t) h b q = cc

  exchange_token-Sent :
      (d : Draw) → Sent (token_exchange (envelope net cfg d [])) (exchange_token net cfg d)
  unfolding exchange_token
  exchange_token-Sent d =
      elim (do_request-Sent net.token_response (token_exchange (envelope net cfg d []))) [
        | inl (none_sent, fails) ↦ inl (none_sent, token_failed _ fails)
        | inr one ↦ inr one
      ]

  token_sent :
      (d : Draw)
      → ((exchange_token net cfg d).sent ≡ [])
        ⊎ ((exchange_token net cfg d).sent ≡ token_exchange (envelope net cfg d []) ∷ [])
  token_sent d = elim (exchange_token-Sent d) [ inl (s, fails) ↦ inl s | inr s ↦ inr s ]

  -- The rest of SubmitInvoice, after ExchangeToken replied.
  rest-Sends :
      (d e : Draw) (ops : List InvoiceOperation) (r : Reply Bytes)
      → ((b : Bytes) → net.base64_decode (net.base64 b) ≡ some b)
      → 0 < length ops
      → length ops ≤ max_batch_size
      → (exchange_token net cfg d).result ≡ r
      → Sends d e ops (
          after_token net cfg (exchange_token net cfg d).sent r λ token.
            let c : Called ManageInvoiceResponse =
              do_request net cfg net.invoice_response (invoice_request net cfg e token ops) in
            record { sent = c.sent; result = invoice_result net cfg c.result })
  unfolding invoice_request
  rest-Sends d e ops (nav_failure x) law some_ops few t =
      token_only (token_sent d) (λ a q. cc) (λ a q. cc)
  rest-Sends d e ops (other_failure x) law some_ops few t =
      token_only (token_sent d) (λ a q. cc) (λ a q. cc)
  rest-Sends d e ops (reply token) law some_ops few t = elim (exchange_token-Sent d) [
    | inl (s, fails) ↦ absurd (fails token t)
    | inr s ↦
        batch (batch_request e token ops) some_ops few t (batch_request-IsBatch e token ops law)
          (elim (do_request-Sent net.invoice_response
            (manage_invoice (batch_request e token ops))) [
              | inl (quiet, fails) ↦ inl (ap₂ (λ x y. x ++ y) s quiet, invoice_failed _ fails)
              | inr sends ↦ inr (ap₂ (λ x y. x ++ y) s sends)
            ])
  ]

  -- SubmitInvoice sends nothing for an empty batch or one of more than 100 operations; else it asks
  -- for a token, if its request for one comes to be sent, and sends nothing more if it gets none;
  -- with the token it makes one request, from which NAV reads all operations of the batch, in
  -- order, with indexes from 1 up, and whose signature covers the operations as they stand in it,
  -- and it fails or sends that request, once. It returns a result only if it sent both. A request
  -- is sent when it comes to HTTPClient.Do. Base64 decodes what it encoded.
  pub submit_invoice-Sends :
      (d e : Draw) (ops : List InvoiceOperation)
      → ((b : Bytes) → net.base64_decode (net.base64 b) ≡ some b)
      → Sends d e ops (submit_invoice net cfg d e ops)
  unfolding submit_invoice with_token
  submit_invoice-Sends d e ops law = elim (check_batch_lem (length ops)) [
    | inr (bad, (x, c)) ↦
        subst (λ o. Sends d e ops (after_batch net cfg o rest)) (sym c)
          (nothing bad refl (λ r q. cc))
    | inl (some_ops, few, c) ↦
        subst (λ o. Sends d e ops (after_batch net cfg o rest)) (sym c)
          (rest-Sends d e ops (exchange_token net cfg d).result law some_ops few refl)
  ]
    where
      rest : Called SubmitResult
      rest =
          after_token net cfg (exchange_token net cfg d).sent (exchange_token net cfg d).result
            λ token.
              let c : Called ManageInvoiceResponse =
                do_request net cfg net.invoice_response (invoice_request net cfg e token ops) in
              record { sent = c.sent; result = invoice_result net cfg c.result }
