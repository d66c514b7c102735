-- ===== src/Exceptions/Handler.antt =====
-- common/exceptions.py: `exception_handler`, which gives every error response the same shape, and
-- `all_error_codes`, the codes that the documentation of the API lists.
pub mod Documented
use kw_awards_voting_platfom.Prelude.{
  ℕ, Bool, true, false, Option, none, some, List, [], ◌∷◌, ◌++◌, String, str_eq, any, if◌then◌else◌,
}
use text.Mathlib.TextEquality.{eq_iff}
use kw_awards_voting_platfom.Exceptions.{
  Exc, api, not_found, validation_error, authentication_failed, append_only, ApiError,
  voting_closed, nominations_closed, already_voted, conflict, already_voided, already_reviewed,
  duplicate_nomination, invalid_transition, window_required, captcha_failed,
  unsupported_phone_number, invalid_otp, sms_unavailable, status_code, default_code,
}

-- The detail of an exception of djangorestframework, by what `exception_handler` reads of it: a text with
-- its code, a dictionary of exactly `detail` and `code`, with the value of `code`, or another list or
-- dictionary. djangorestframework sends a list or dictionary as it is, and a text under `detail`.
pub data Detail : Type 0 where
  message pair : String → Detail
  structure : Detail

-- An `APIException`. `default_code` is that of its class, and `is_validation` is
-- `isinstance(exc, DRFValidationError)`.
pub record ApiException : Type 0 where
  pub status : ℕ
  pub retry_after : Option ℕ
  pub default_code : String
  pub detail : Detail
  pub is_validation : Bool

-- What a view raises: Django's two exceptions, an `APIException`, or something else.
pub data Raised : Type 0 where
  http404 permission_denied other : Raised
  api_exception : ApiException → Raised

-- What djangorestframework and djangorestframework-simplejwt give: status and `default_code` of the classes
-- that the program raises, and the codes of the others that it lists.
pub record Framework : Type 0 where
  pub not_found : ℕ × String
  pub invalid : ℕ × String
  pub authentication_failed : ℕ × String
  pub permission_denied : ℕ × String
  pub invalid_token : ℕ × String
  pub other_codes : List String

-- A response: the status, the header Retry-After, the code, and whether `fields` are filled in.
pub record ErrorResponse : Type 0 where
  pub status : ℕ
  pub retry_after : Option ℕ
  pub code : String
  pub has_fields : Bool

-- An instance of a class of djangorestframework, with a detail.
abbrev pub instance_of : ℕ × String → Detail → ApiException
instance_of (status, code) detail = record {
  status = status;
  retry_after = none;
  default_code = code;
  detail = detail;
  is_validation = false;
}

-- The conversion of Django's exceptions; `none` is what djangorestframework does not handle.
converted : Framework → Raised → Option ApiException
converted lib http404 = some (instance_of lib.not_found (message lib.not_found.1))
converted lib permission_denied =
    some (instance_of lib.permission_denied (message lib.permission_denied.1))
converted lib (api_exception e) = some e
converted lib other = none

-- `codes if isinstance(codes, str) else getattr(exc, "default_code", "error")`, with `exc.get_codes()`.
code_of : ApiException → Detail → String
code_of e (message code) = code
code_of e _ = e.default_code

respond : ApiException → String → Bool → ErrorResponse
respond e code has_fields = record {
  status = e.status;
  retry_after = e.retry_after;
  code = code;
  has_fields = has_fields;
}

answer_to : Framework → ApiException → Detail → ErrorResponse
unfolding code_of respond
answer_to lib e (pair code) = respond e code false
answer_to lib e detail =
    if e.is_validation then respond e lib.invalid.1 true else respond e (code_of e detail) false

answered : Framework → Option ApiException → Option ErrorResponse
unfolding answer_to
answered lib none = none
answered lib (some e) = some (answer_to lib e e.detail)

-- `exception_handler`; `none` leaves the exception to Django, which answers 500.
unfoldable pub exception_handler : Framework → Raised → Option ErrorResponse
unfolding converted answered
exception_handler lib raised = answered lib (converted lib raised)

-- `getattr(exc, "retry_after", None)`
retry_after_of : ApiError → Option ℕ
retry_after_of (sms_unavailable seconds) = some seconds
retry_after_of e = none

-- `ApiError.__init__`, without the message: a code or a status that is given replaces that of the class.
unfoldable pub api_error : ApiError → Option String → Option ℕ → ApiException
unfolding retry_after_of
api_error e code status = record {
  status = elim status [ none ↦ status_code e | some given ↦ given ];
  retry_after = retry_after_of e;
  default_code = default_code e;
  detail = pair (elim code [ none ↦ default_code e | some given ↦ given ]);
  is_validation = false;
}

-- The subclasses of `ApiError`, by one value of each.
abbrev pub api_errors : List ApiError
api_errors =
    voting_closed
    ∷ nominations_closed
    ∷ already_voted
    ∷ conflict
    ∷ already_voided
    ∷ already_reviewed
    ∷ duplicate_nomination
    ∷ invalid_transition
    ∷ window_required
    ∷ captcha_failed
    ∷ unsupported_phone_number
    ∷ invalid_otp
    ∷ sms_unavailable 0
    ∷ []

abbrev pub codes_of : List ApiError → List String
codes_of [] = []
codes_of (e ∷ errors) = default_code e ∷ codes_of errors

-- `all_error_codes`, as a set.
unfoldable pub all_error_codes : Framework → List String
all_error_codes lib =
    codes_of api_errors
    ++ (lib.not_found.1 ∷ lib.invalid.1 ∷ lib.authentication_failed.1 ∷ lib.permission_denied.1
        ∷ lib.invalid_token.1 ∷ "no_active_account" ∷ lib.other_codes)
