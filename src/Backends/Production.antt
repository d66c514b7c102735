-- ===== src/Backends/Production.antt =====
-- What a deployment whose production settings load uses.
use kw_awards_voting_platfom.Prelude.{
  Bool, true, false, not, ◌||◌, ◌&&◌, if◌then◌else◌, ◌≡◌, refl, inl, inr, String, str_eq, is_empty,
  arith, text_eq, Bool-cases,
}
use text.Mathlib.TextEquality.{eq_iff}
use kw_awards_voting_platfom.Backends.{
  Deployment, SmsBackend, console_sms, locmem_sms, e2e_sms, africastalking, CaptchaBackend, dummy,
  turnstile, has_credentials, sms_name, import_sms, sms_by_name, get_sms_backend, captcha_name,
  import_captcha, captcha_by_name, get_captcha_backend, lacks_required, sms_problem,
  credentials_problem, captcha_problem, has_problems, prod_loads,
}

-- The backends that are for development and tests only.
abbrev pub is_development : SmsBackend → Bool
is_development console_sms = true
is_development locmem_sms = true
is_development e2e_sms = true
is_development _ = false

abbrev pub is_africastalking : SmsBackend → Bool
is_africastalking africastalking = true
is_africastalking _ = false

abbrev pub is_dummy : CaptchaBackend → Bool
is_dummy dummy = true
is_dummy _ = false

abbrev pub is_turnstile : CaptchaBackend → Bool
is_turnstile turnstile = true
is_turnstile _ = false

-- The dotted path of one of them.
abbrev pub is_development_path : String → Bool
is_development_path name =
    str_eq name "common.sms.ConsoleSmsBackend"
    || (str_eq name "common.sms.LocMemSmsBackend" || str_eq name "common.sms.E2EDatabaseSmsBackend")

-- What an SMS setting and the backend chosen for it have to do with each other: the backend is one for
-- development exactly if the setting is the dotted path of one, and Africa's Talking has credentials
-- unless the setting is its dotted path.
abbrev pub SmsChoice : String → Bool → SmsBackend → Type 0
SmsChoice setting ready chosen =
    (is_development chosen ≡ is_development_path setting)
    × ((is_africastalking chosen
          && (not (str_eq setting "common.sms.AfricasTalkingSmsBackend") && not ready))
        ≡ false)

abbrev pub CaptchaChoice : String → Bool → CaptchaBackend → Type 0
CaptchaChoice setting no_secret chosen =
    (is_dummy chosen ≡ str_eq setting "common.captcha.DummyCaptchaBackend")
    × ((is_turnstile chosen
          && (not (str_eq setting "common.captcha.TurnstileCaptchaBackend") && no_secret))
        ≡ false)

named : (s t : String) → str_eq s t ≡ true → s ≡ t
named s t h = (eq_iff s t).0 h

-- A name that production lets pass.
sms_by_name-SmsChoice :
    (name : String) (ready : Bool)
    → (str_eq name "console" || (str_eq name "locmem" || str_eq name "e2e")) ≡ false
    → (str_eq name "africastalking" && not ready) ≡ false
    → SmsChoice name ready (sms_by_name name)
unfolding sms_by_name import_sms
sms_by_name-SmsChoice name ready h k = elim (Bool-cases (str_eq name "africastalking")) [
  | inl talks ↦
      let is_ready : ready ≡ true = ground arith in
      rw (named name "africastalking" talks, is_ready) (refl, refl)
  | inr other ↦ elim (Bool-cases (str_eq name "common.sms.AfricasTalkingSmsBackend")) [
    | inl path ↦ rw (named name "common.sms.AfricasTalkingSmsBackend" path) (refl, refl)
    | inr another ↦ (ground arith, ground arith)
  ]
]

captcha_by_name-CaptchaChoice :
    (name : String) (no_secret : Bool)
    → str_eq name "dummy" ≡ false
    → (str_eq name "turnstile" && no_secret) ≡ false
    → CaptchaChoice name no_secret (captcha_by_name name)
unfolding captcha_by_name import_captcha
captcha_by_name-CaptchaChoice name no_secret h k = elim (Bool-cases (str_eq name "turnstile")) [
  | inl turns ↦
      let secret : no_secret ≡ false = ground arith in
      rw (named name "turnstile" turns, secret) (refl, refl)
  | inr other ↦ elim (Bool-cases (str_eq name "common.captcha.TurnstileCaptchaBackend")) [
    | inl path ↦ rw (named name "common.captcha.TurnstileCaptchaBackend" path) (refl, refl)
    | inr another ↦ (ground arith, ground arith)
  ]
]

-- The name after "auto" is resolved.
abbrev resolved : String → String → String → Bool → String
resolved setting real fallback ready =
    if str_eq setting "auto" then (if ready then real else fallback) else setting

resolved_auto :
    (setting real fallback : String) (ready : Bool)
    → str_eq setting "auto" ≡ true
    → resolved setting real fallback ready ≡ (if ready then real else fallback)
resolved_auto setting real fallback ready auto = rw auto refl

sms_resolved :
    (setting : String) (ready : Bool)
    → let name = resolved setting "africastalking" "console" ready in
      (str_eq name "console" || (str_eq name "locmem" || str_eq name "e2e")) ≡ false
      → (str_eq name "africastalking" && not ready) ≡ false
      → SmsChoice setting ready (sms_by_name name)
unfolding sms_by_name
sms_resolved setting ready h k = elim (Bool-cases (str_eq setting "auto")) [
  | inr given ↦ rw given (sms_by_name-SmsChoice setting ready (rw given at h) (rw given at k))
  | inl auto ↦ elim (Bool-cases ready) [
    | inl set ↦ rw (named setting "auto" auto, set) (refl, refl)
    | inr unset ↦ absurd (ground (arith, rw (auto, unset) at h))
  ]
]

captcha_resolved :
    (setting : String) (no_secret : Bool)
    → let name = resolved setting "dummy" "turnstile" no_secret in
      str_eq name "dummy" ≡ false
      → (str_eq name "turnstile" && no_secret) ≡ false
      → CaptchaChoice setting no_secret (captcha_by_name name)
unfolding captcha_by_name
captcha_resolved setting no_secret h k = elim (Bool-cases (str_eq setting "auto")) [
  | inr given ↦
      rw given (captcha_by_name-CaptchaChoice setting no_secret (rw given at h) (rw given at k))
  | inl auto ↦ elim (Bool-cases no_secret) [
    | inr secret ↦ rw (named setting "auto" auto, secret) (refl, refl)
    | inl missing ↦ absurd (ground (arith, rw (auto, missing) at h))
  ]
]

passes : (a b : Bool) → (not a && not b) ≡ true → (a ≡ false) × (b ≡ false)
passes a b h = ground arith

no_problems :
    (d : Deployment)
    → has_problems d ≡ false
    → (sms_problem d ≡ false) × (credentials_problem d ≡ false) × (captcha_problem d ≡ false)
unfolding has_problems
no_problems d h = (ground arith, ground arith, ground arith)

get_sms_backend-SmsChoice :
    (d : Deployment)
    → has_problems d ≡ false
    → SmsChoice d.sms_backend (has_credentials d) (get_sms_backend d)
unfolding get_sms_backend sms_name sms_problem credentials_problem
get_sms_backend-SmsChoice d h =
    let (names, ready, _) = no_problems d h in
    sms_resolved d.sms_backend (has_credentials d) names ready

captcha_apart : (a b c : Bool) → (a || (b && c)) ≡ false → (a ≡ false) × ((b && c) ≡ false)
captcha_apart a b c h = (ground arith, ground arith)

get_captcha_backend-CaptchaChoice :
    (d : Deployment)
    → has_problems d ≡ false
    → CaptchaChoice d.captcha_backend (is_empty d.turnstile_secret_key) (get_captcha_backend d)
unfolding get_captcha_backend captcha_name captcha_problem
get_captcha_backend-CaptchaChoice d h =
    let (_, _, captcha) = no_problems d h in
    let apart =
      captcha_apart (str_eq (captcha_name d) "dummy") (str_eq (captcha_name d) "turnstile")
        (is_empty d.turnstile_secret_key) captcha in
    captcha_resolved d.captcha_backend (is_empty d.turnstile_secret_key) apart.0 apart.1

keys_differ :
    (d : Deployment)
    → lacks_required d ≡ false
    → (is_empty d.audit_phone_hash_key ≡ false)
      × (text_eq d.audit_phone_hash_key d.secret_key ≡ false)
unfolding lacks_required
keys_differ d h = ground arith

-- If the production settings load: codes go out through a backend for development exactly if the setting
-- is the dotted path of one in common/sms.py, which the settings do not refuse, and through Africa's
-- Talking without credentials only if the setting is its dotted path; the CAPTCHA is the one that always
-- passes exactly if the setting is its dotted path in common/captcha.py, and Turnstile without a secret
-- only if the setting is the dotted path of that; and phone numbers in the audit log are hashed with a key
-- that is set and is not the secret key. Dotted paths into other modules are taken for other classes.
pub prod_loads_lem :
    (d : Deployment)
    → prod_loads d ≡ true
    → SmsChoice d.sms_backend (has_credentials d) (get_sms_backend d)
      × CaptchaChoice d.captcha_backend (is_empty d.turnstile_secret_key) (get_captcha_backend d)
      × (is_empty d.audit_phone_hash_key ≡ false)
      × (text_eq d.audit_phone_hash_key d.secret_key ≡ false)
unfolding prod_loads
prod_loads_lem d h =
    let (required, problems) = passes (lacks_required d) (has_problems d) h in
    (
      get_sms_backend-SmsChoice d problems,
      get_captcha_backend-CaptchaChoice d problems,
      (keys_differ d required).0,
      (keys_differ d required).1,
    )
