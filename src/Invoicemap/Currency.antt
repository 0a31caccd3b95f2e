-- ===== src/Invoicemap/Currency.antt =====
-- internal/invoicemap/currency.go: Stripe's minor units, NAV's decimal texts, and HUF.
use go_stripenav.Base.{
  ℕ, zero, suc, ◌+◌, ◌*◌, ◌/◌, ◌%◌, ◌^◌, ◌≡◌, refl, Bool, List, [], ◌∷◌, ◌++◌, ltb, ◌==◌,
  if◌then◌else◌, any, Bytes, str, str_eq,
}
use go_stripenav.Base.Int.{ℤ, pos, negsuc, is_neg, abs, signed}
use go_stripenav.Base.Decimal.{utoa}
use go_stripenav.Base.Ascii.{to_lower}
use go_stripenav.Invoicemap.Rational.{Rat, mul}

abbrev pub zero_decimal_currencies : List Bytes
zero_decimal_currencies =
    str "bif"
    ∷ str "clp"
    ∷ str "djf"
    ∷ str "gnf"
    ∷ str "jpy"
    ∷ str "kmf"
    ∷ str "krw"
    ∷ str "mga"
    ∷ str "pyg"
    ∷ str "rwf"
    ∷ str "ugx"
    ∷ str "vnd"
    ∷ str "vuv"
    ∷ str "xaf"
    ∷ str "xof"
    ∷ str "xpf"
    ∷ []

unfoldable pub is_zero_decimal : Bytes → Bool
unfolding to_lower
is_zero_decimal code = any (λ c. str_eq c (to_lower code)) zero_decimal_currencies

unfoldable pub currency_minor_scale : Bytes → ℕ
currency_minor_scale code = if is_zero_decimal code then 1 else 100

unfoldable pub amount_from_minor : ℤ → Bytes → Rat
unfolding currency_minor_scale
amount_from_minor minor code = record { num = minor; den = currency_minor_scale code }

-- roundToInt on the sizes: `QuoRem` truncates, so the sign goes on the result.
unfoldable pub round_size : ℕ → ℕ → ℕ
round_size n d = if n % d == 0 then n / d else if ltb (2 * (n % d)) d then n / d else n / d + 1

unfoldable pub round_to_int : Rat → ℤ
round_to_int r = signed (is_neg r.num) (round_size (abs r.num) r.den)

-- `(*big.Int).String`.
unfoldable pub int_text : ℤ → Bytes
int_text (pos n) = utoa n
int_text (negsuc n) = str "-" ++ utoa (suc n)

-- The last `width` decimal digits, with leading zeros.
unfoldable pub fixed_digits : ℕ → ℕ → Bytes
fixed_digits zero n = []
fixed_digits (suc width) n = fixed_digits width (n / 10) ++ (b'0' + n % 10) ∷ []

-- `(*big.Rat).FloatString(prec)` for a positive `prec`: the last digit is rounded, halves away from
-- zero, and the sign is that of the fraction, also where all digits are 0.
unfoldable pub float_string : ℕ → Rat → Bytes
float_string prec r =
    let m = round_size (abs r.num * 10 ^ prec) r.den in
    (if is_neg r.num then str "-" else [])
    ++ utoa (m / 10 ^ prec)
    ++ str "."
    ++ fixed_digits prec (m % 10 ^ prec)

unfoldable pub format_amount : Rat → Bytes → Bytes
unfolding round_to_int int_text float_string
format_amount r code = if is_zero_decimal code then int_text (round_to_int r) else float_string 2 r

unfoldable pub format_huf : Rat → Bytes
unfolding round_to_int int_text
format_huf r = int_text (round_to_int r)

unfoldable pub to_huf : Rat → Rat → Rat
unfolding mul
to_huf amount rate = mul amount rate

minus_tenth : float_string 2 (record { num = negsuc 0; den = 1000 }) ≡ str "-0.00"
unfolding float_string round_size utoa fixed_digits
minus_tenth = refl

one_and_a_half : format_amount (record { num = negsuc 254; den = 100 }) (str "EUR") ≡ str "-2.55"
unfolding format_amount is_zero_decimal float_string round_size utoa fixed_digits str_eq
one_and_a_half = refl
