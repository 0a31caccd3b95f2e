-- ===== src/Navclient/Config.antt =====
-- nav/config.go and NewClient of internal/navclient/client.go. The HTTP client and the clock,
-- which belong to other packages, are left out, and the rate limiter is its rate and burst.
use mathlib.Core.List.{reverse}
use go_stripenav.Base.{
  ℕ, zero, suc, ◌≡◌, refl, subst, ◌⊎◌, inl, inr, Bool, true, false, not, ◌||◌, Option, none, some,
  [], ◌∷◌, arith, ltb, ◌==◌, if◌then◌else◌, Bool-cases, length, take, all, length-take, Bytes,
  str_eq,
}
use go_stripenav.Base.Int.{ℤ, pos, negsuc}
use go_stripenav.Base.Ascii.{is_digit}
use go_stripenav.Nav.{max_batch_size}

pub record Software : Type 0 where
  pub id : Bytes
  pub name : Bytes
  pub operation : Bytes
  pub main_version : Bytes
  pub dev_name : Bytes
  pub dev_contact : Bytes
  pub dev_country_code : Bytes
  pub dev_tax_number : Bytes

pub record Config : Type 0 where
  pub base_url : Bytes
  pub login : Bytes
  pub password : Bytes
  pub tax_number : Bytes
  pub sign_key : Bytes
  pub exchange_key : Bytes
  pub software : Software

pub data ClientError : Type 0 where
  base_url_required login_required password_required tax_number_required : ClientError
  tax_number_short sign_key_required exchange_key_size software_required : ClientError
  no_operation batch_too_large : ClientError

abbrev pub default_rate_burst : ℤ
default_rate_burst = pos 1

-- A burst that is not positive is the default.
abbrev pub burst_or_default : ℤ → ℤ
burst_or_default (pos zero) = default_rate_burst
burst_or_default (pos (suc n)) = pos (suc n)
burst_or_default (negsuc n) = default_rate_burst

unfoldable pub strip_non_digits : Bytes → Bytes
strip_non_digits [] = []
strip_non_digits (c ∷ s) = if is_digit c then c ∷ strip_non_digits s else strip_non_digits s

-- `strings.TrimRight(s, "/")`.
unfoldable pub drop_slashes : Bytes → Bytes
drop_slashes [] = []
drop_slashes (c ∷ s) = if c == b'/' then drop_slashes s else c ∷ s

unfoldable pub trim_slashes : Bytes → Bytes
unfolding drop_slashes
trim_slashes s = reverse (drop_slashes (reverse s))

unfoldable pub new_client : Config → Config ⊎ ClientError
unfolding strip_non_digits trim_slashes
new_client cfg =
    if str_eq cfg.base_url []
    then inr base_url_required
    else if str_eq cfg.login []
    then inr login_required
    else if str_eq cfg.password []
    then inr password_required
    else if str_eq cfg.tax_number []
    then inr tax_number_required
    else if ltb (length (strip_non_digits cfg.tax_number)) 8
    then inr tax_number_short
    else if str_eq cfg.sign_key []
    then inr sign_key_required
    else if not (length cfg.exchange_key == 16)
    then inr exchange_key_size
    else if str_eq cfg.software.id []
        || (str_eq cfg.software.name [] || str_eq cfg.software.operation [])
    then inr software_required
    else inl (record cfg {
      tax_number = take 8 (strip_non_digits cfg.tax_number);
      base_url = trim_slashes cfg.base_url;
    })

-- The rate limiter that NewClient sets up, if any: its rate, of a type of floating-point numbers with
-- a test `r <= 0`, and its burst.
unfoldable pub new_limiter : {F : Type 0} → (F → Bool) → F → Bool → F → ℤ → Option (F × ℤ)
new_limiter is_low default_rate_limit disable_rate_limit rate_limit rate_burst =
    if disable_rate_limit
    then none
    else some (
      (if is_low rate_limit then default_rate_limit else rate_limit),
      burst_or_default rate_burst,
    )

-- checkBatch; `none` is no error.
unfoldable pub check_batch : ℕ → Option ClientError
check_batch n =
    if n == 0
    then some no_operation
    else if ltb max_batch_size n
    then some batch_too_large
    else none

strip_non_digits-all : (s : Bytes) → all is_digit (strip_non_digits s) ≡ true
unfolding strip_non_digits
strip_non_digits-all [] = refl
strip_non_digits-all (c ∷ s) = ground (arith, strip_non_digits-all s)

all-take : (p : ℕ → Bool) (n : ℕ) (s : Bytes) → all p s ≡ true → all p (take n s) ≡ true
all-take p zero s h = refl
all-take p (suc n) [] h = refl
all-take p (suc n) (c ∷ s) h = ground (arith, all-take p n s)

-- What every request relies on.
pub record IsReady (cfg : Config) : Type 0 where
  pub tax_digits : all is_digit cfg.tax_number ≡ true
  pub tax_size : length cfg.tax_number ≡ 8
  pub key_size : length cfg.exchange_key ≡ 16
  pub has_login : str_eq cfg.login [] ≡ false
  pub has_password : str_eq cfg.password [] ≡ false
  pub signs : str_eq cfg.sign_key [] ≡ false
  pub names :
      (str_eq cfg.software.id []
        || (str_eq cfg.software.name [] || str_eq cfg.software.operation []))
      ≡ false

abbrev normalised : Config → Config
normalised cfg = record cfg {
  tax_number = take 8 (strip_non_digits cfg.tax_number);
  base_url = trim_slashes cfg.base_url;
}

-- The checks of NewClient, in two halves.
abbrev lacks_credential : Config → Bool
lacks_credential cfg =
    str_eq cfg.base_url []
    || (str_eq cfg.login [] || (str_eq cfg.password [] || str_eq cfg.tax_number []))

abbrev misfits : Config → Bool
misfits cfg =
    ltb (length (strip_non_digits cfg.tax_number)) 8
    || (str_eq cfg.sign_key []
        || (not (length cfg.exchange_key == 16)
            || (str_eq cfg.software.id []
                || (str_eq cfg.software.name [] || str_eq cfg.software.operation []))))

passes :
    (cfg ready : Config)
    → new_client cfg ≡ inl ready
    → (lacks_credential cfg ≡ false) × (misfits cfg ≡ false) × (normalised cfg ≡ ready)
unfolding new_client
passes cfg ready e = elim (Bool-cases (lacks_credential cfg)) [
  | inl g ↦ absurd (ground (arith, g, e))
  | inr g ↦ elim (Bool-cases (misfits cfg)) [
    | inl f ↦ absurd (ground (arith, g, f, e))
    | inr f ↦ (g, f, ground (arith, g, f, e))
  ]
]

-- A client that NewClient returns has a tax number of eight digits, however it was written, an
-- exchange key of 16 bytes, a login, a password, a signature key and a named software.
pub new_client-IsReady : (cfg ready : Config) → new_client cfg ≡ inl ready → IsReady ready
new_client-IsReady cfg ready e =
    let (g, f, q) = passes cfg ready e in
    subst IsReady q (record {
      tax_digits =
          all-take is_digit 8 (strip_non_digits cfg.tax_number)
            (strip_non_digits-all cfg.tax_number);
      tax_size = ground (arith, f, length-take 8 (strip_non_digits cfg.tax_number));
      key_size = ground (arith, f);
      has_login = ground (arith, g);
      has_password = ground (arith, g);
      signs = ground (arith, f);
      names = ground (arith, f);
    })
