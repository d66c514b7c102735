-- ===== src/Exceptions.antt =====
-- common/exceptions.py: the errors of the API with their HTTP status and stable code, and the other
-- exceptions that the program raises or catches.
pub mod Handler
use kw_awards_voting_platfom.Prelude.{ℕ, String}

-- The subclasses of `ApiError`. `sms_unavailable` is `SmsBudgetExhausted` of common/sms_budget.py,
-- which carries `retry_after`; `invalid_otp` is `InvalidOTP` of voting/otp.py.
pub data ApiError : Type 0 where
  voting_closed nominations_closed already_voted conflict already_voided : ApiError
  already_reviewed duplicate_nomination invalid_transition window_required : ApiError
  captcha_failed unsupported_phone_number invalid_otp : ApiError
  sms_unavailable : ℕ → ApiError

-- Why the database refuses a row: `IntegrityError` with pgcode 23505 or 23514, or a trigger.
pub data Violation : Type 0 where
  unique check append_only_trigger : Violation

pub data Exc : Type 0 where
  api : ApiError → Exc
  -- DRF's `NotFound`, `ValidationError` and `AuthenticationFailed`
  not_found validation_error authentication_failed : Exc
  -- Django's `PermissionDenied`, of which `AppendOnlyError` is a subclass
  append_only : Exc
  does_not_exist protected_error value_error zero_division_error attribute_error sms_error : Exc
  integrity : Violation → Exc

pub data Result {ℓ} (A : Type ℓ) : Type ℓ where
  ok : A → Result A
  err : Exc → Result A

-- `status_code` of each class.
unfoldable pub status_code : ApiError → ℕ
status_code voting_closed = 403
status_code nominations_closed = 403
status_code already_voted = 409
status_code conflict = 409
status_code already_voided = 409
status_code already_reviewed = 409
status_code duplicate_nomination = 409
status_code invalid_transition = 409
status_code window_required = 400
status_code captcha_failed = 400
status_code unsupported_phone_number = 400
status_code invalid_otp = 400
status_code (sms_unavailable _) = 503

-- `default_code` of each class.
unfoldable pub default_code : ApiError → String
default_code voting_closed = "voting_closed"
default_code nominations_closed = "nominations_closed"
default_code already_voted = "already_voted"
default_code conflict = "conflict"
default_code already_voided = "already_voided"
default_code already_reviewed = "already_reviewed"
default_code duplicate_nomination = "duplicate_nomination"
default_code invalid_transition = "invalid_transition"
default_code window_required = "window_required"
default_code captcha_failed = "captcha_failed"
default_code unsupported_phone_number = "unsupported_phone_number"
default_code invalid_otp = "invalid_otp"
default_code (sms_unavailable _) = "sms_unavailable"
