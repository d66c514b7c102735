-- ===== src/Exceptions/Handler/Documented.antt =====
-- The answers to what the program raises, and the list of codes.
use kw_awards_voting_platfom.Prelude.{
  ℕ, Bool, true, false, Option, none, some, List, ◌∷◌, String, str_eq, any, ◌≡◌, refl,
}
use kw_awards_voting_platfom.Exceptions.{ApiError, status_code}
use kw_awards_voting_platfom.Exceptions.Handler.{
  message, pair, structure, Raised, http404, permission_denied, api_exception, Framework,
  ErrorResponse, instance_of, exception_handler, api_error, all_error_codes,
}

-- What the program's own `raise` statements and `get_object_or_404` raise, of what the API answers: an
-- `ApiError` of its class; `NotFound` or `Http404`; a `ValidationError`; `AppendOnlyError`, which is
-- Django's `PermissionDenied`; `AuthenticationFailed` with a message, or as the login raises it, with
-- the code `no_active_account`; and `InvalidToken`, whose detail djangorestframework-simplejwt makes a
-- dictionary of `detail` and `code`.
pub data ProgramError : Type 0 where
  of_api : ApiError → ProgramError
  absent_row hidden_row invalid_data append_only_log not_allowed login_refused no_token :
      ProgramError

pub raised_by : Framework → ProgramError → Raised
raised_by lib (of_api e) = api_exception (api_error e none none)
raised_by lib absent_row = http404
raised_by lib hidden_row = api_exception (instance_of lib.not_found (message lib.not_found.1))
raised_by lib invalid_data =
    api_exception (record (instance_of lib.invalid structure) { is_validation = true })
raised_by lib append_only_log = permission_denied
raised_by lib not_allowed =
    api_exception (instance_of lib.authentication_failed (message lib.authentication_failed.1))
raised_by lib login_refused =
    api_exception (instance_of lib.authentication_failed (message "no_active_account"))
raised_by lib no_token = api_exception (instance_of lib.invalid_token (pair lib.invalid_token.1))

-- The status that belongs to each.
abbrev pub status_of : Framework → ProgramError → ℕ
status_of lib (of_api e) = status_code e
status_of lib absent_row = lib.not_found.0
status_of lib hidden_row = lib.not_found.0
status_of lib invalid_data = lib.invalid.0
status_of lib append_only_log = lib.permission_denied.0
status_of lib not_allowed = lib.authentication_failed.0
status_of lib login_refused = lib.authentication_failed.0
status_of lib no_token = lib.invalid_token.0

abbrev pub is_invalid_data : ProgramError → Bool
is_invalid_data invalid_data = true
is_invalid_data _ = false

abbrev pub is_listed : Framework → String → Bool
is_listed lib code = any (λ c. str_eq c code) (all_error_codes lib)

-- An answer with the status of the problem and a code of the list, in which the fields are filled in only
-- for invalid data.
abbrev pub IsAnswer : Framework → ProgramError → Option ErrorResponse → Type 0
IsAnswer lib p none = ⊥
IsAnswer lib p (some r) =
    (is_listed lib r.code ≡ true)
    × (r.status ≡ status_of lib p)
    × (r.has_fields ≡ is_invalid_data p)

-- A code of the libraries, at its place in the list.
module _ (lib : Framework) (code : String) where
  abbrev library_codes : List String
  library_codes =
      lib.not_found.1 ∷ lib.invalid.1 ∷ lib.authentication_failed.1 ∷ lib.permission_denied.1
      ∷ lib.invalid_token.1 ∷ "no_active_account" ∷ lib.other_codes

-- A code that an exception carries itself is answered as it is, listed or not.
own_code :
    (lib : Framework) (status : ℕ) (default code : String)
    → exception_handler lib (api_exception (instance_of (status, default) (message code)))
      ≡ some (record { status = status; retry_after = none; code = code; has_fields = false })
unfolding exception_handler
own_code lib status default code = refl
