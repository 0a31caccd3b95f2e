-- ===== src/Navclient/Token.antt =====
-- internal/navclient/token.go: the exchange token's padding. base64, AES and its block size belong
-- to Go's library.
use mathlib.Core.Path.{ap₂}
use go_stripenav.Base.{
  ℕ, zero, suc, ◌+◌, ◌-◌, ◌%◌, ◌≤◌, ◌<◌, ◌≡◌, refl, sym, ap, ◌∙◌, ◌↔◌, ◌⊎◌, inl, inr, Bool, true,
  false, not, ◌||◌, Option, none, some, [], ◌∷◌, ◌++◌, arith, ltb, ◌==◌, if◌then◌else◌, Bool-cases,
  length, take, drop, replicate, all, length-append, take-append, drop-append, take-append-drop,
  length-drop, length-replicate, Bytes,
}

-- What unpadPKCS7 and decryptExchangeToken refuse.
pub data TokenError : Type 0 where
  exchange_key_size decode_failed not_blocks cipher_failed : TokenError
  empty_plaintext bad_padding_bytes : TokenError
  bad_padding_length : ℕ → TokenError

abbrev pub last : Bytes → ℕ
last [] = 0
last (c ∷ []) = c
last (c ∷ d ∷ s) = last (d ∷ s)

-- The rest of unpadPKCS7, by the last byte `n`.
unfoldable pub unpad_by : ℕ → Bytes → ℕ → Bytes ⊎ TokenError
unpad_by n b block_size =
    if n == 0 || (ltb block_size n || ltb (length b) n)
    then inr (bad_padding_length n)
    else if all (λ c. c == n) (drop (length b - n) b)
    then inl (take (length b - n) b)
    else inr bad_padding_bytes

unfoldable pub unpad_pkcs7 : Bytes → ℕ → Bytes ⊎ TokenError
unfolding unpad_by
unpad_pkcs7 [] block_size = inr empty_plaintext
unpad_pkcs7 (c ∷ s) block_size = unpad_by (last (c ∷ s)) (c ∷ s) block_size

abbrev pub aes_block_size : ℕ
aes_block_size = 16

-- The parameters are base64.StdEncoding.DecodeString, aes.NewCipher and Decrypt of every block.
unfoldable pub decrypt_exchange_token :
    (Bytes → Option Bytes)
    → (Bytes → Bool)
    → (Bytes → Bytes → Bytes)
    → Bytes
    → Bytes
    → Bytes ⊎ TokenError
unfolding unpad_pkcs7
decrypt_exchange_token decode_string new_cipher decrypt_blocks encoded exchange_key =
    if not (length exchange_key == 16)
    then inr exchange_key_size
    else elim (decode_string encoded) [
      | none ↦ inr decode_failed
      | some ct ↦
          if length ct == 0 || not (length ct % aes_block_size == 0)
          then inr not_blocks
          else if not (new_cipher exchange_key)
          then inr cipher_failed
          else unpad_pkcs7 (decrypt_blocks exchange_key ct) aes_block_size
    ]

last-append : (p : Bytes) (m c : ℕ) → last (p ++ replicate (suc m) c) ≡ c
last-append [] zero c = refl
last-append [] (suc m) c = last-append [] m c
last-append (x ∷ []) zero c = refl
last-append (x ∷ []) (suc m) c = last-append [] m c
last-append (x ∷ y ∷ p) m c = last-append (y ∷ p) m c

all-replicate : (n c : ℕ) → all (λ x. x == c) (replicate n c) ≡ true
all-replicate zero c = refl
all-replicate (suc n) c = ground (arith, all-replicate n c)

replicate-all : (s : Bytes) (c : ℕ) → all (λ x. x == c) s ≡ true → s ≡ replicate (length s) c
replicate-all [] c h = refl
replicate-all (x ∷ s) c h =
    ap₂ (λ a b. a ∷ b) (ground (arith, h)) (replicate-all s c (ground (arith, h)))

unpad_by_pad :
    (n : ℕ) (p : Bytes) (block_size : ℕ)
    → 0 < n
    → n ≤ block_size
    → unpad_by n (p ++ replicate n n) block_size ≡ inl p
unfolding unpad_by
unpad_by_pad n p block_size pos_n le =
    let len : length (p ++ replicate n n) ≡ length p + n =
      omega (arith, length-append p (replicate n n), length-replicate n n) in
    let cut : length (p ++ replicate n n) - n ≡ length p = omega (arith, len) in
    let guard : (n == 0 || (ltb block_size n || ltb (length (p ++ replicate n n)) n)) ≡ false =
      ground (arith, len, pos_n, le) in
    rw
      (
        unpad_by,
        guard,
        cut,
        drop-append p (replicate n n),
        all-replicate n n,
        take-append p (replicate n n),
      )
      refl

unpad_by_inv :
    (n : ℕ) (b p : Bytes) (block_size : ℕ)
    → unpad_by n b block_size ≡ inl p
    → (0 < n) × (n ≤ block_size) × (b ≡ p ++ replicate n n)
unfolding unpad_by
unpad_by_inv n b p block_size e =
    elim (Bool-cases (n == 0 || (ltb block_size n || ltb (length b) n))) [
      | inl g ↦ absurd (ground (arith, g, e))
      | inr g ↦ elim (Bool-cases (all (λ c. c == n) (drop (length b - n) b))) [
        | inr f ↦ absurd (ground (arith, g, f, e))
        | inl f ↦
            let head : take (length b - n) b ≡ p = ground (arith, g, f, e) in
            let size : length (drop (length b - n) b) ≡ n =
              omega (arith, length-drop (length b - n) b, fits g) in
            let tail : drop (length b - n) b ≡ replicate n n =
              replicate-all (drop (length b - n) b) n f ∙ ap (λ k. replicate k n) size in
            (
              ground (arith, g),
              ground (arith, g),
              sym (take-append-drop (length b - n) b) ∙ ap₂ (λ x y. x ++ y) head tail,
            )
      ]
    ]
  where
    fits : (n == 0 || (ltb block_size n || ltb (length b) n)) ≡ false → n ≤ length b
    fits g = ground (arith, g)

-- unpadPKCS7 is the inverse of PKCS#7 padding: it returns a text exactly of that text followed by n
-- bytes n, for some n from 1 up to the block size, and refuses all else.
pub unpad_pkcs7_lem :
    (b p : Bytes) (block_size : ℕ)
    → (unpad_pkcs7 b block_size ≡ inl p)
      ↔ ((n : ℕ) × (0 < n) × (n ≤ block_size) × (b ≡ p ++ replicate n n))
unfolding unpad_pkcs7
unpad_pkcs7_lem [] p block_size = (
  λ e. absurd (ground (arith, e)),
  λ (n, pos_n, le, e).
      absurd
        (omega (arith, pos_n, ap length e, length-append p (replicate n n), length-replicate n n)),
)
unpad_pkcs7_lem (c ∷ s) p block_size = (
  λ e.
      let (pos_n, le, q) = unpad_by_inv (last (c ∷ s)) (c ∷ s) p block_size e in
      (last (c ∷ s), pos_n, le, q),
  λ (n, pos_n, le, e). padded n pos_n le e,
)
  where
    by_last : (n : ℕ) → 0 < n → last (p ++ replicate n n) ≡ n
    by_last zero h = absurd (omega (arith, h))
    by_last (suc m) h = last-append p m (suc m)

    padded :
        (n : ℕ)
        → 0 < n
        → n ≤ block_size
        → c ∷ s ≡ p ++ replicate n n
        → unpad_by (last (c ∷ s)) (c ∷ s) block_size ≡ inl p
    padded n pos_n le e =
        let at_end : last (c ∷ s) ≡ n = ap last e ∙ by_last n pos_n in
        ap (λ k. unpad_by k (c ∷ s) block_size) at_end
        ∙ ap (λ b. unpad_by n b block_size) e
        ∙ unpad_by_pad n p block_size pos_n le
