-- ===== src/Navclient/Timestamps.antt =====
-- internal/navclient/envelope.go: formatTimestamp and signingTimestamp, on the UTC reading of a time.
use go_stripenav.Base.{
  ℕ, zero, suc, ◌+◌, ◌/◌, ◌%◌, ◌<◌, ◌≡◌, refl, sym, ap, ◌∙◌, true, false, [], ◌∷◌, ◌++◌,
  append_assoc, arith, ltb, if◌then◌else◌, length, take, all, length-append, take-append, Bytes,
}
use go_stripenav.Base.Ascii.{is_digit}
use go_stripenav.Base.Decimal.{utoa}
use go_stripenav.Invoicemap.Currency.{fixed_digits}
use go_stripenav.Navclient.Config.{strip_non_digits}

-- What `time.Time.UTC` reads as.
pub record Civil : Type 0 where
  pub year : ℕ
  pub month : ℕ
  pub day : ℕ
  pub hour : ℕ
  pub minute : ℕ
  pub second : ℕ
  pub nanosecond : ℕ

-- `2006`: four digits, or more for a later year.
abbrev pub year_text : ℕ → Bytes
year_text y = if ltb y 10_000 then fixed_digits 4 y else utoa y

-- `2006-01-02T15:04:05.000Z`.
unfoldable pub format_timestamp : Civil → Bytes
format_timestamp c =
    year_text c.year
    ++ b'-'
      ∷ (fixed_digits 2 c.month
          ++ b'-'
            ∷ (fixed_digits 2 c.day
                ++ b'T'
                  ∷ (fixed_digits 2 c.hour
                      ++ b':'
                        ∷ (fixed_digits 2 c.minute
                            ++ b':'
                              ∷ (fixed_digits 2 c.second
                                  ++ b'.'
                                    ∷ (fixed_digits 3 (c.nanosecond / 1_000_000) ++ b'Z' ∷ []))))))

-- `20060102150405`.
unfoldable pub signing_timestamp : Civil → Bytes
signing_timestamp c =
    year_text c.year
    ++ (fixed_digits 2 c.month
        ++ (fixed_digits 2 c.day
            ++ (fixed_digits 2 c.hour ++ (fixed_digits 2 c.minute ++ fixed_digits 2 c.second))))

all-append :
    (xs ys : Bytes)
    → all is_digit xs ≡ true
    → all is_digit ys ≡ true
    → all is_digit (xs ++ ys) ≡ true
all-append [] ys h k = k
all-append (x ∷ xs) ys h k = ground (arith, all-append xs ys, h, k)

fixed_digits-all : (width n : ℕ) → all is_digit (fixed_digits width n) ≡ true
unfolding fixed_digits
fixed_digits-all zero n = refl
fixed_digits-all (suc width) n =
    all-append (fixed_digits width (n / 10)) _ (fixed_digits-all width (n / 10)) (ground arith)

length-fixed_digits : (width n : ℕ) → length (fixed_digits width n) ≡ width
unfolding fixed_digits
length-fixed_digits zero n = refl
length-fixed_digits (suc width) n = omega (
  arith,
  length-append (fixed_digits width (n / 10)) ((b'0' + n % 10) ∷ []),
  length-fixed_digits width (n / 10),
)

-- A run of digits and what parts it from the next.
strip-part :
    (xs ys zs : Bytes) (c : ℕ)
    → all is_digit xs ≡ true
    → is_digit c ≡ false
    → strip_non_digits ys ≡ zs
    → strip_non_digits (xs ++ c ∷ ys) ≡ xs ++ zs
unfolding strip_non_digits
strip-part [] ys zs c h other e = rw other e
strip-part (x ∷ xs) ys zs c h other e = ground (arith, h, strip-part xs ys zs c, other, e)

year_text-digits : (y : ℕ) → y < 10_000 → year_text y ≡ fixed_digits 4 y
year_text-digits y soon = ground arith

append_six :
    (a b c d e f z : Bytes)
    → a ++ (b ++ (c ++ (d ++ (e ++ (f ++ z))))) ≡ (a ++ (b ++ (c ++ (d ++ (e ++ f))))) ++ z
append_six a b c d e f z = simp append_assoc refl

stripped :
    (c : Civil)
    → c.year < 10_000
    → strip_non_digits (format_timestamp c)
      ≡ signing_timestamp c ++ (fixed_digits 3 (c.nanosecond / 1_000_000) ++ [])
unfolding format_timestamp signing_timestamp
stripped c soon =
    strip-part (year_text c.year) _ _ b'-'
      (ap (all is_digit) (year_text-digits c.year soon) ∙ fixed_digits-all 4 c.year) refl
      (strip-part (fixed_digits 2 c.month) _ _ b'-' (fixed_digits-all 2 c.month) refl (
        strip-part (fixed_digits 2 c.day) _ _ b'T' (fixed_digits-all 2 c.day) refl (
          strip-part (fixed_digits 2 c.hour) _ _ b':' (fixed_digits-all 2 c.hour) refl (
            strip-part (fixed_digits 2 c.minute) _ _ b':' (fixed_digits-all 2 c.minute) refl (
              strip-part (fixed_digits 2 c.second) _ _ b'.' (fixed_digits-all 2 c.second) refl (
                strip-part (fixed_digits 3 (c.nanosecond / 1_000_000)) [] [] b'Z'
                  (fixed_digits-all 3 (c.nanosecond / 1_000_000)) refl
                  (unfold strip_non_digits in refl)))))))
    ∙ append_six (year_text c.year) (fixed_digits 2 c.month) (fixed_digits 2 c.day)
        (fixed_digits 2 c.hour) (fixed_digits 2 c.minute) (fixed_digits 2 c.second) _

length-signing_timestamp : (c : Civil) → c.year < 10_000 → length (signing_timestamp c) ≡ 14
unfolding signing_timestamp
length-signing_timestamp c soon =
    let year = ap (λ (s : Bytes). length s) (year_text-digits c.year soon) in
    simp (length-append, year, length-fixed_digits) refl

-- The signed form of a time before the year 10000 is the first 14 digits of the header's.
pub signing_timestamp_lem :
    (c : Civil)
    → c.year < 10_000
    → take 14 (strip_non_digits (format_timestamp c)) ≡ signing_timestamp c
signing_timestamp_lem c soon =
    ap (take 14) (stripped c soon)
    ∙ ap (λ n. take n (signing_timestamp c ++ (fixed_digits 3 (c.nanosecond / 1_000_000) ++ [])))
        (sym (length-signing_timestamp c soon))
    ∙ take-append (signing_timestamp c) _
