-- ===== src/Navclient/Replies.antt =====
-- internal/navclient/client.go: how `do` reads an HTTP response.
use go_stripenav.Base.{
  ℕ, zero, suc, ◌/◌, ◌≤◌, ◌<◌, ◌≡◌, refl, ◌↔◌, ◌⊎◌, inl, inr, Bool, false, not, Option, none, some,
  [], ◌∷◌, ◌++◌, arith, leb, ◌==◌, if◌then◌else◌, Bool-cases, length, take, Bytes, str, str_eq,
}
use go_stripenav.Nav.{NavError, Reply, reply, nav_failure, other_failure}
use go_stripenav.Schemas.Api.{BasicResult, GeneralExceptionResponse}
use go_stripenav.Navclient.Failures.{new_nav_error, nav_error_from_result, nav_error_from_exception}

abbrev pub byte_at : ℕ → Bytes → ℕ
byte_at i [] = 0
byte_at zero (c ∷ s) = c
byte_at (suc i) (c ∷ s) = byte_at i s

-- Whether the two high bits of a byte are 1 and 0.
abbrev pub is_continuation : ℕ → Bool
is_continuation c = c / 64 == 2

-- The loop that backs up to a rune boundary.
unfoldable pub rune_boundary : Bytes → ℕ → ℕ
rune_boundary b zero = 0
rune_boundary b (suc n) =
    let back = rune_boundary b n in if is_continuation (byte_at (suc n) b) then back else suc n

-- The three bytes of the horizontal ellipsis.
abbrev pub ellipsis : Bytes
ellipsis = 226 ∷ 128 ∷ 166 ∷ []

unfoldable pub trim : Bytes → ℕ → Bytes
unfolding rune_boundary
trim b n = if leb (length b) n then b else take (rune_boundary b n) b ++ ellipsis

-- encoding/xml's reading of the body, as an exception, as any response's `result`, and as the
-- response that is asked for, or the error's text.
pub record Decoder {ℓ} (A : Type ℓ) : Type ℓ where
  pub exception : Bytes → Option GeneralExceptionResponse
  pub extract_basic_result : Bytes → BasicResult
  pub unmarshal : Bytes → A ⊎ Bytes

module _ {ℓ} {A : Type ℓ} (decoder : Decoder A) where
  -- A response of HTTP status 400 or more.
  unfoldable pub read_failure : ℕ → Bytes → NavError
  unfolding trim new_nav_error nav_error_from_result nav_error_from_exception
  read_failure status body =
      let br = decoder.extract_basic_result body in
      let from_envelope : NavError =
        if not (str_eq br.func_code []) then nav_error_from_result status br else record {
          http_status = status;
          func_code = [];
          code = [];
          message = str "unexpected NAV response: " ++ trim body 200;
          retriable = leb 500 status;
        } in
      elim (decoder.exception body) [
        | some exc ↦
            if not (str_eq exc.message [])
            then nav_error_from_exception status exc
            else from_envelope
        | none ↦ from_envelope
      ]

  -- `do`, from the response that it has read to the end.
  unfoldable pub read_response : ℕ → Bytes → Reply A
  unfolding read_failure trim nav_error_from_result
  read_response status body =
      if leb 400 status
      then nav_failure (read_failure status body)
      else elim (decoder.unmarshal body) [
        | inr text ↦
            other_failure
              (str "nav: parse response: " ++ text ++ str " (body=" ++ trim body 200 ++ str ")")
        | inl out ↦
            if str_eq (decoder.extract_basic_result body).func_code (str "ERROR")
            then nav_failure (nav_error_from_result status (decoder.extract_basic_result body))
            else reply out
      ]

  -- What `do` makes of a response that it has read: a success exactly when the HTTP status is below
  -- 400 (3xx included), the body parses, and its result is no ERROR; it then returns what was
  -- parsed.
  pub read_response_lem :
      (status : ℕ) (body : Bytes) (out : A)
      → (read_response status body ≡ reply out) ↔ (
          (status < 400)
          × (decoder.unmarshal body ≡ inl out)
          × (str_eq (decoder.extract_basic_result body).func_code (str "ERROR") ≡ false))
  unfolding read_response
  read_response_lem status body out = elim (Bool-cases (leb 400 status)) [
    | inl e ↦ ground (arith, e)
    | inr e ↦ elim (unmarshalled body) [
      | inl (v, u) ↦ ground (arith, e, u)
      | inr (t, u) ↦ ground (arith, e, u)
    ]
  ]
    where
      unmarshalled :
          (b : Bytes)
          → ((v : A) × (decoder.unmarshal b ≡ inl v))
            ⊎ ((t : Bytes) × (decoder.unmarshal b ≡ inr t))
      unmarshalled b =
          elim (decoder.unmarshal b)
            as (λ r. ((v : A) × (r ≡ inl v)) ⊎ ((t : Bytes) × (r ≡ inr t))) [
              | inl v ↦ inl (v, refl)
              | inr t ↦ inr (t, refl)
            ]

rune_boundary_lem :
    (b : Bytes) (n : ℕ)
    → (rune_boundary b n ≤ n)
      × ((rune_boundary b n ≡ 0) ⊎ (is_continuation (byte_at (rune_boundary b n) b) ≡ false))
unfolding rune_boundary
rune_boundary_lem b zero = (omega arith, inl refl)
rune_boundary_lem b (suc n) = elim (Bool-cases (is_continuation (byte_at (suc n) b))) [
  | inl e ↦ rw e (omega (arith, (rune_boundary_lem b n).0), (rune_boundary_lem b n).1)
  | inr e ↦ rw e (omega arith, inr e)
]

-- A body within the limit is quoted whole; a longer one is cut at or before the limit, never within
-- a UTF-8 sequence, and ends in an ellipsis.
pub trim_lem :
    (b : Bytes) (n : ℕ)
    → ((length b ≤ n) × (trim b n ≡ b))
      ⊎ ((n < length b)
          × ((m : ℕ) × (m ≤ n)
              × ((m ≡ 0) ⊎ (is_continuation (byte_at m b) ≡ false))
              × (trim b n ≡ take m b ++ ellipsis)))
unfolding trim
trim_lem b n = elim (Bool-cases (leb (length b) n)) [
  | inl e ↦ inl (ground (arith, e), ground (arith, e))
  | inr e ↦ inr (
    ground (arith, e),
    (rune_boundary b n, (rune_boundary_lem b n).0, (rune_boundary_lem b n).1, ground (arith, e)),
  )
]
