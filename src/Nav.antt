-- ===== src/Nav.antt =====
-- nav/errors.go, nav/types.go and nav/constants.go: the operations that a NAV client takes, its
-- result and its typed error. HTTP statuses are natural numbers.
use go_stripenav.Base.{ℕ, Bool, not, [], ◌++◌, if◌then◌else◌, Bytes, str, str_eq}
use go_stripenav.Base.Decimal.{utoa}

abbrev pub max_batch_size : ℕ
max_batch_size = 100

pub record NavError : Type 0 where
  pub http_status : ℕ
  pub func_code : Bytes
  pub code : Bytes
  pub message : Bytes
  pub retriable : Bool

-- `(*NAVError).Error` and `IsRetriable`, of an error that is not nil.
unfoldable pub nav_error_text : NavError → Bytes
nav_error_text e =
    if not (str_eq e.code [])
    then str "nav: "
      ++ e.func_code
      ++ str "/"
      ++ e.code
      ++ str " (http "
      ++ utoa e.http_status
      ++ str "): "
      ++ e.message
    else str "nav: http " ++ utoa e.http_status ++ str ": " ++ e.message

unfoldable pub is_retriable : NavError → Bool
is_retriable e = e.retriable

pub record InvoiceOperation : Type 0 where
  pub operation : Bytes
  pub invoice_data : Bytes

pub record AnnulmentOperation : Type 0 where
  pub invoice_annulment : Bytes

pub record SubmitResult : Type 0 where
  pub transaction_id : Bytes

-- What a call of the client returns: a value, a `*NAVError`, or any other error by its text.
pub data Reply {ℓ} (A : Type ℓ) : Type ℓ where
  reply : A → Reply A
  nav_failure : NavError → Reply A
  other_failure : Bytes → Reply A
