-- ===== src/Backends.antt =====
-- common/sms.py and common/captcha.py choose a provider, and settings/prod.py refuses to start with one
-- that is meant for development.
pub mod Production
use kw_awards_voting_platfom.Prelude.{
  ℕ, Bool, true, false, ◌&&◌, ◌||◌, not, Option, none, some, List, [], ◌∷◌, String, Text, codes,
  str_eq, is_empty, ◌==◌, text_eq, if◌then◌else◌,
}

-- The settings that the choice and its guard read. Lists are joined to texts, which are empty when the
-- list is.
pub record Deployment : Type 0 where
  pub sms_backend : String
  pub captcha_backend : String
  pub africastalking_username : Text
  pub africastalking_api_key : Text
  pub turnstile_secret_key : Text
  pub cache_url : Text
  pub allowed_hosts : Text
  pub frontend_url : Text
  pub database_name : Text
  pub database_user : Text
  pub cors_allowed_origins : Text
  pub audit_phone_hash_key : Text
  pub secret_key : Text

-- `imported_sms` is a class that is not of the repository, named by its dotted path.
pub data SmsBackend : Type 0 where
  console_sms locmem_sms e2e_sms africastalking : SmsBackend
  imported_sms : String → SmsBackend

pub data CaptchaBackend : Type 0 where
  dummy turnstile : CaptchaBackend
  imported_captcha : String → CaptchaBackend

abbrev pub has_credentials : Deployment → Bool
has_credentials d =
    not (is_empty d.africastalking_username) && not (is_empty d.africastalking_api_key)

-- The name after `auto` is resolved.
unfoldable pub sms_name : Deployment → String
sms_name d =
    if str_eq d.sms_backend "auto"
    then (if has_credentials d then "africastalking" else "console")
    else d.sms_backend

-- `import_string(name)()`: the dotted path of a class of common/sms.py names that class. No other module
-- of the program, tests aside, has it under a name.
unfoldable pub import_sms : String → SmsBackend
import_sms name =
    if str_eq name "common.sms.ConsoleSmsBackend"
    then console_sms
    else if str_eq name "common.sms.LocMemSmsBackend"
    then locmem_sms
    else if str_eq name "common.sms.E2EDatabaseSmsBackend"
    then e2e_sms
    else if str_eq name "common.sms.AfricasTalkingSmsBackend"
    then africastalking
    else imported_sms name

-- The chain of `if name == ...` in `get_sms_backend`.
unfoldable pub sms_by_name : String → SmsBackend
unfolding import_sms
sms_by_name name =
    if str_eq name "console"
    then console_sms
    else if str_eq name "locmem"
    then locmem_sms
    else if str_eq name "e2e"
    then e2e_sms
    else if str_eq name "africastalking"
    then africastalking
    else import_sms name

unfoldable pub get_sms_backend : Deployment → SmsBackend
unfolding sms_name sms_by_name
get_sms_backend d = sms_by_name (sms_name d)

unfoldable pub captcha_name : Deployment → String
captcha_name d =
    if str_eq d.captcha_backend "auto"
    then (if is_empty d.turnstile_secret_key then "dummy" else "turnstile")
    else d.captcha_backend

-- The same, for common/captcha.py.
unfoldable pub import_captcha : String → CaptchaBackend
import_captcha name =
    if str_eq name "common.captcha.DummyCaptchaBackend"
    then dummy
    else if str_eq name "common.captcha.TurnstileCaptchaBackend"
    then turnstile
    else imported_captcha name

-- The chain of `if name == ...` in `get_captcha_backend`.
unfoldable pub captcha_by_name : String → CaptchaBackend
unfolding import_captcha
captcha_by_name name =
    if str_eq name "dummy"
    then dummy
    else if str_eq name "turnstile"
    then turnstile
    else import_captcha name

unfoldable pub get_captcha_backend : Deployment → CaptchaBackend
unfolding captcha_name captcha_by_name
get_captcha_backend d = captcha_by_name (captcha_name d)

-- `TurnstileCaptchaBackend.verify`; `answers` is the provider, false where the request fails.
unfoldable pub turnstile_verify :
    Text → (Text → Text → Option Text → Bool) → Text → Option Text → Bool
turnstile_verify secret answers token remote_ip =
    if is_empty token || is_empty secret then false else answers secret token remote_ip

-- `s.startswith(prefix)`
starts_with : Text → Text → Bool
starts_with [] s = true
starts_with (a ∷ prefix) [] = false
starts_with (a ∷ prefix) (b ∷ s) = a == b && starts_with prefix s

-- `_required` has an empty value, or the two keys are one.
unfoldable pub lacks_required : Deployment → Bool
unfolding starts_with
lacks_required d =
    is_empty d.allowed_hosts
    || (is_empty d.frontend_url
        || (is_empty d.database_name
            || (is_empty d.database_user
                || (is_empty d.cors_allowed_origins
                    || (is_empty d.audit_phone_hash_key
                        || text_eq d.audit_phone_hash_key d.secret_key)))))

-- The tests that add to `_problems`.
unfoldable pub cache_problem : Deployment → Bool
unfolding starts_with
cache_problem d = starts_with (codes "locmem") d.cache_url || is_empty d.cache_url

unfoldable pub sms_problem : Deployment → Bool
sms_problem d =
    str_eq (sms_name d) "console" || (str_eq (sms_name d) "locmem" || str_eq (sms_name d) "e2e")

unfoldable pub credentials_problem : Deployment → Bool
credentials_problem d = str_eq (sms_name d) "africastalking" && not (has_credentials d)

unfoldable pub captcha_problem : Deployment → Bool
captcha_problem d =
    str_eq (captcha_name d) "dummy"
    || (str_eq (captcha_name d) "turnstile" && is_empty d.turnstile_secret_key)

-- `_problems` is not empty.
unfoldable pub has_problems : Deployment → Bool
has_problems d = cache_problem d || (sms_problem d || (credentials_problem d || captcha_problem d))

-- settings/prod.py loads without `ImproperlyConfigured`.
unfoldable pub prod_loads : Deployment → Bool
prod_loads d = not (lacks_required d) && not (has_problems d)
