-- ===== src/Navclient/Signed.antt =====
-- internal/navclient/envelope.go: what the receiver of an envelope can check its signature against.
use go_stripenav.Base.{◌<◌, ◌≡◌, sym, ap, List, take}
use go_stripenav.Navclient.Config.{Config, strip_non_digits}
use go_stripenav.Navclient.Sign.{SignedOperation, request_signature}
use go_stripenav.Navclient.Timestamps.{signing_timestamp_lem}
use go_stripenav.Navclient.Envelope.{new_request_id, new_envelope_context, header, user}
use go_stripenav.Navclient.Requests.{Network, Draw, envelope}

module _ (net : Network) (cfg : Config) where
  -- The signature of an envelope is the one that its own request id, the first 14 digits of its own
  -- timestamp, the sign key and the operations have, for a time before the year 10000.
  pub envelope-signed :
      (d : Draw) (ops : List SignedOperation)
      → (net.utc d.now).year < 10_000
      → (envelope net cfg d ops).user.request_signature.value
        ≡ request_signature net.hashes
            (envelope net cfg d ops).header.request_id
            (take 14 (strip_non_digits (envelope net cfg d ops).header.timestamp))
            cfg.sign_key
            ops
  unfolding envelope new_envelope_context header user
  envelope-signed d ops soon =
      ap (λ t. request_signature net.hashes (new_request_id d.draw) t cfg.sign_key ops)
        (sym (signing_timestamp_lem (net.utc d.now) soon))
