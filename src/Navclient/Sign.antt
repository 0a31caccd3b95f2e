-- ===== src/Navclient/Sign.antt =====
-- internal/navclient/sign.go: password hashes, index hashes and request signatures. SHA-512 and SHA3-512
-- are parameters.
use go_stripenav.Base.{ℕ, ◌+◌, ◌-◌, ◌/◌, ◌%◌, List, [], ◌∷◌, ◌++◌, ltb, if◌then◌else◌, Bytes}
use go_stripenav.Base.Ascii.{to_upper}

pub record SignedOperation : Type 0 where
  pub operation : Bytes
  pub base64_payload : Bytes

-- The digests of crypto/sha512 and crypto/sha3.
pub record Hashes : Type 0 where
  pub sha512 : Bytes → Bytes
  pub sha3_512 : Bytes → Bytes

abbrev pub hex_digit : ℕ → ℕ
hex_digit d = if ltb d 10 then b'0' + d else b'a' + (d - 10)

-- `hex.EncodeToString`.
unfoldable pub hex : Bytes → Bytes
hex [] = []
hex (c ∷ s) = hex_digit (c / 16) ∷ hex_digit (c % 16) ∷ hex s

module _ (hashes : Hashes) where
  unfoldable pub password_hash : Bytes → Bytes
  password_hash password = to_upper (hex (hashes.sha512 password))

  unfoldable pub index_hash : Bytes → Bytes → Bytes
  index_hash operation payload = to_upper (hex (hashes.sha3_512 (operation ++ payload)))

  -- The loop over the operations.
  unfoldable pub index_hashes : List SignedOperation → Bytes
  unfolding index_hash
  index_hashes [] = []
  index_hashes (op ∷ ops) = index_hash op.operation op.base64_payload ++ index_hashes ops

  unfoldable pub request_signature : Bytes → Bytes → Bytes → List SignedOperation → Bytes
  unfolding index_hashes
  request_signature request_id timestamp sign_key ops =
      to_upper (hex (hashes.sha3_512 (request_id ++ timestamp ++ sign_key ++ index_hashes ops)))
