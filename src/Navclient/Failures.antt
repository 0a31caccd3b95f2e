-- ===== src/Navclient/Failures.antt =====
-- internal/navclient/errors.go: which failures that NAV reports are worth a retry.
use go_stripenav.Base.{
  ℕ, ◌≤◌, ◌≡◌, ◌↔◌, ◌⊎◌, inl, inr, Bool, true, false, ◌||◌, Option, none, some, arith, leb,
  if◌then◌else◌, Option-cases, Bytes, str, str_eq,
}
use go_stripenav.Nav.{NavError}
use go_stripenav.Schemas.Api.{BasicResult, GeneralExceptionResponse}

-- The map: absent codes are `none`.
unfoldable pub retriable_error_codes : Bytes → Option Bool
retriable_error_codes code =
    if str_eq code (str "OPERATION_FAILED") || str_eq code (str "INTERNAL_ERROR")
    then some true
    else if str_eq code (str "INVALID_REQUEST")
        || (str_eq code (str "INVALID_USER_RIGHT")
            || (str_eq code (str "INVALID_SECURITY_USER")
                || (str_eq code (str "INVALID_SOFTWARE") || str_eq code (str "INVALID_VERSION"))))
    then some false
    else none

unfoldable pub new_nav_error : ℕ → Bytes → Bytes → Bytes → NavError
new_nav_error status fc error_code text = record {
  http_status = status;
  func_code = fc;
  code = error_code;
  message = text;
  retriable = elim (retriable_error_codes error_code) [ some v ↦ v | none ↦ leb 500 status ];
}

unfoldable pub nav_error_from_result : ℕ → BasicResult → NavError
unfolding new_nav_error
nav_error_from_result status r = new_nav_error status r.func_code r.error_code r.message

unfoldable pub nav_error_from_exception : ℕ → GeneralExceptionResponse → NavError
unfolding new_nav_error
nav_error_from_exception status e = new_nav_error status e.func_code e.error_code e.message

-- An error of NAV is retriable exactly when its code says so, or when its code is none of the
-- documented ones and the HTTP status is 500 or more.
pub new_nav_error_lem :
    (status : ℕ) (fc error_code text : Bytes)
    → ((new_nav_error status fc error_code text).retriable ≡ true) ↔ (
        (retriable_error_codes error_code ≡ some true)
        ⊎ ((retriable_error_codes error_code ≡ none) × (500 ≤ status)))
unfolding new_nav_error
new_nav_error_lem status fc error_code text =
    elim (Option-cases (retriable_error_codes error_code)) [
      | inl e ↦ ground (arith, e)
      | inr (v, e) ↦ ground (arith, e)
    ]
