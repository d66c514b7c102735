-- ===== src/Examples/Entrances.antt =====
-- Voters and staff at the endpoints.
use kw_awards_voting_platfom.Prelude.{
  ℕ, suc, ◌+◌, ◌≤◌, Bool, true, false, ◌&&◌, ◌||◌, Option, none, some, List, [], ◌∷◌, Text, codes,
  leb, ◌==◌, any, text_eq, text_eq_refl, ◌≡◌, ◌⊎◌, refl, sym, inl, inr, arith,
}
use kw_awards_voting_platfom.Exceptions.{
  Result, ok, err, api, authentication_failed, unsupported_phone_number, captcha_failed,
}
use kw_awards_voting_platfom.Models.Accounts.{User}
use kw_awards_voting_platfom.Models.Voting.{Voter, Challenge}
use kw_awards_voting_platfom.Models.State.{World, Request, voter}
use kw_awards_voting_platfom.Ip.{get_client_ip}
use kw_awards_voting_platfom.Phone.{normalize_phone, normalize_phone_strict, default_region}
use kw_awards_voting_platfom.Access.{Claims, Jwt, authenticate_either}
use kw_awards_voting_platfom.Accounts.Login.{
  Obtain, validate_login, IsAudited, validate_login-IsAudited,
}
use kw_awards_voting_platfom.Voting.Otp.{find_voter, hash_code}
use kw_awards_voting_platfom.Voting.Otp.Live.{has_id}
use kw_awards_voting_platfom.Voting.Otp.Blind.{within_budget, is_blocked_number, answer}
use kw_awards_voting_platfom.Voting.Otp.Verify.{live_challenge}
use kw_awards_voting_platfom.Voting.Otp.Verify.Attempts.{accepted, verify_otp_accepts}
use kw_awards_voting_platfom.Voting.Endpoints.{
  voter_claims, issue_voter_token, is_valid_code, post_otp_request, post_otp_verify,
}
use kw_awards_voting_platfom.Voting.Endpoints.Journey.{bearer, post_otp_verify-authenticate_either}
use kw_awards_voting_platfom.Voting.Endpoints.Blind.{post_otp_request-answer}
use kw_awards_voting_platfom.Examples.Data.{env, amina, phone, world, request_at, numbers}

-- Voter tokens of two letters: the type and the voter.
abbrev encode : Claims → Text
encode c = 118 ∷ elim c.voter_id [ none ↦ [] | some id ↦ id ∷ [] ]

abbrev read_token : Text → Option Claims
read_token (c ∷ id ∷ []) = if_voter (c == 118) id
  where
    if_voter : Bool → ℕ → Option Claims
    if_voter true id = some (voter_claims id)
    if_voter false id = none
read_token _ = none

abbrev pub jwt : Jwt
jwt = record {
  voter_token = read_token;
  access_token = λ raw. none;
  raw_token = λ words. ok none;
  get_user = λ users c. none;
}

signed : (id : ℕ) → jwt.voter_token (encode (voter_claims id)) ≡ some (voter_claims id)
signed id = refl

abbrev tried : Request
tried = request_at 200 51

abbrev code : Text
code = codes "123456"

abbrev is_decimal : ℕ → Bool
is_decimal c = leb 48 c && leb c 57

-- A world with one challenge, whose code is "123456".
abbrev challenge : Challenge
challenge = record {
  id = 61;
  voter = 7;
  code_hash = hash_code env 61 code;
  expires_at = 1000;
  attempts = 1;
  consumed_at = none;
  requested_ip = none;
  user_agent = [];
  created_at = 50;
}

abbrev pending_login : World
pending_login = record world { db = record world.db { challenges = challenge ∷ [] } }

found_amina : find_voter phone pending_login.db ≡ some amina
unfolding find_voter text_eq
found_amina = refl

found_live : live_challenge 7 200 pending_login.db ≡ some challenge
unfolding live_challenge
found_live = refl

below_limit : 1 + 1 ≤ 3
below_limit = omega arith

valid_number : normalize_phone numbers phone default_region ≡ some phone
unfolding normalize_phone kw_awards_voting_platfom.Phone.parse_phone
    kw_awards_voting_platfom.Prelude.strip kw_awards_voting_platfom.Prelude.lstrip
    kw_awards_voting_platfom.Prelude.is_space
valid_number = refl

valid_code : is_valid_code is_decimal env code ≡ true
unfolding is_valid_code
valid_code = refl

let_in :
    post_otp_verify numbers is_decimal encode env tried phone code pending_login
    ≡ (ok (118 ∷ 7 ∷ []), accepted env tried amina phone challenge pending_login)
unfolding post_otp_verify issue_voter_token
let_in =
    rw
      (
        valid_number,
        valid_code,
        verify_otp_accepts env tried phone code pending_login amina found_amina refl challenge
            found_live below_limit (text_eq_refl (hash_code env 61 code)),
      )
      refl

post_otp_verify-authenticate_either_example :
    (p : Text) × (v : Voter) × (normalize_phone numbers phone default_region ≡ some p)
    × (find_voter p pending_login.db ≡ some v)
    × (authenticate_either jwt
          (accepted env tried amina phone challenge pending_login).db
          (bearer jwt encode signed (118 ∷ 7 ∷ []))
        ≡ ok (some (voter v.id)))
post_otp_verify-authenticate_either_example =
    post_otp_verify-authenticate_either jwt encode signed numbers is_decimal env tried phone code
      pending_login (accepted env tried amina phone challenge pending_login) (118 ∷ 7 ∷ [])
      (refl, tt) let_in

abbrev kenya : List Text
kenya = default_region ∷ []

abbrev no_captcha : Text → Option Text → Bool
no_captcha token address = true

post_otp_request-answer_example :
    (normalize_phone_strict numbers phone kenya default_region ≡ none
      → post_otp_request numbers kenya no_captcha env tried phone [] world
        ≡ (err (api unsupported_phone_number), world))
    × ((p : Text)
        → normalize_phone_strict numbers phone kenya default_region ≡ some p
        → (no_captcha [] (get_client_ip env tried) ≡ false
            → post_otp_request numbers kenya no_captcha env tried phone [] world
              ≡ (err (api captcha_failed), world))
          × (no_captcha [] (get_client_ip env tried) ≡ true
              → any (λ (v : Voter). v.id == 51) world.db.voters ≡ false
              → any (has_id 52) world.db.challenges ≡ false
              → (post_otp_request numbers kenya no_captcha env tried phone [] world).0
                ≡ answer env tried
                    (within_budget env tried world.cache || is_blocked_number p world.db)))
post_otp_request-answer_example =
    post_otp_request-answer numbers kenya no_captcha env tried phone [] world

-- One staff user, whose password is "pw".
abbrev chair : User
chair = record {
  id = 1;
  email = codes "chair@kw.example";
  is_active = true;
  is_staff = true;
  is_superuser = false;
  groups = [];
}

abbrev obtain : Obtain
obtain = record { validate = λ email password w. if_right w (text_eq password (codes "pw")) }
  where
    if_right : World → Bool → Result (User × (Text × Text)) × World
    if_right w true = (ok (chair, (codes "refresh", codes "access")), w)
    if_right w false = (err authentication_failed, w)

log_kept : (obtain.validate chair.email (codes "pw") world).1.db.audit_log ≡ world.db.audit_log
unfolding text_eq
log_kept = refl

validate_login-IsAudited_example :
    IsAudited env obtain tried chair.email
      (codes "pw")
      world
      (validate_login env obtain tried chair.email (codes "pw") world)
validate_login-IsAudited_example =
    validate_login-IsAudited env obtain tried chair.email (codes "pw") world log_kept
