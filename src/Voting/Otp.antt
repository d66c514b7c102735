-- ===== src/Voting/Otp.antt =====
-- voting/otp.py: one-time codes for the login of voters.
pub mod Verify
pub mod Live
pub mod Steps
pub mod Reach
pub mod Login
pub mod Once
pub mod Blind
use kw_awards_voting_platfom.Prelude.{
  ℕ, suc, ◌+◌, ◌*◌, ◌/◌, ◌^◌, Bool, true, false, ◌&&◌, Option, none, some, List, [], ◌∷◌, ◌++◌,
  String, Text, codes, text_eq, padded, uuid_text, decimal, ◌==◌, ltb, leb, is_none, is_some, find?,
  any, update_where, take, if◌then◌else◌,
}
use kw_awards_voting_platfom.Exceptions.{Result, Exc, ok, err, api, invalid_otp, integrity, unique}
use kw_awards_voting_platfom.Exec.{⊤, Action, pure, raise, atomic, modify, ◌>>=◌, ◌>>◌, raise_if}
use kw_awards_voting_platfom.Models.Voting.{Voter, Challenge}
use kw_awards_voting_platfom.Models.Audit.{AuditAction, Json, Metadata}
use kw_awards_voting_platfom.Models.State.{Db, World, Env, Request}
use kw_awards_voting_platfom.Phone.{mask_phone}
use kw_awards_voting_platfom.Ip.{get_client_ip}
use kw_awards_voting_platfom.Cache.{second}
use kw_awards_voting_platfom.SmsBudget.{reserve}
use kw_awards_voting_platfom.Audit.{log, log_voter_event}

-- `generate_code`, from what `secrets.randbelow` draws, which is less than 10 ^ OTP_LENGTH.
unfoldable pub generate_code : Env → Request → Text
generate_code env r = padded 10 env.otp_length r.random_code

unfoldable pub hash_code : Env → ℕ → Text → Text
hash_code env challenge_id code =
    env.hmac_sha256 (env.sha256 (codes "otp-hmac-key:" ++ env.secret_key))
      (uuid_text challenge_id ++ (58 ∷ code))

unfoldable pub find_voter : Text → Db → Option Voter
find_voter phone db = find? (λ (v : Voter). text_eq v.phone_e164 phone) db.voters

-- A voter's challenge that is neither consumed nor expired.
abbrev pub is_live_for : ℕ → ℕ → Challenge → Bool
is_live_for voter_id now c = c.voter == voter_id && (is_none c.consumed_at && ltb now c.expires_at)

abbrev pub put_challenges : List Challenge → Db → Db
put_challenges rows db = record db { challenges = rows }

abbrev pub put_voters : List Voter → Db → Db
put_voters rows db = record db { voters = rows }

create_voter : Voter → Option Voter → Action Voter
create_voter new (some v) w = (ok v, w)
create_voter new none w =
    if any (λ (v : Voter). v.id == new.id) w.db.voters
    then (err (integrity unique), w)
    else (ok new, record w { db = put_voters (new ∷ w.db.voters) w.db })

-- `Voter.objects.get_or_create(phone_e164=phone_e164)`
unfoldable pub get_or_create_voter : Request → Text → Action Voter
unfolding create_voter
get_or_create_voter r phone w =
    create_voter
      (record {
        id = r.uuid;
        phone_e164 = phone;
        verified_at = none;
        is_blocked = false;
        created_at = r.now;
      })
      (find_voter phone w.db) w

-- "Only the newest code is valid."
unfoldable pub expire_live : ℕ → ℕ → List Challenge → List Challenge
expire_live voter_id now rows =
    update_where (is_live_for voter_id now) (λ c. record c { expires_at = now }) rows

unfoldable pub new_challenge : Env → Request → Voter → Challenge
new_challenge env r v = record {
  id = r.second_uuid;
  voter = v.id;
  code_hash = hash_code env r.second_uuid (generate_code env r);
  expires_at = r.now + env.otp_ttl_seconds * second;
  attempts = 0;
  consumed_at = none;
  requested_ip = get_client_ip env r;
  user_agent = take 300 r.http_user_agent;
  created_at = r.now;
}

-- `challenge.save()` on a new challenge.
insert_challenge : Challenge → Action ⊤
insert_challenge c w =
    if any (λ (d : Challenge). d.id == c.id) w.db.challenges
    then (err (integrity unique), w)
    else (ok tt, record w { db = put_challenges (c ∷ w.db.challenges) w.db })

-- The body of the transaction.
unfoldable pub issue_challenge : Env → Request → Voter → Text → Action ⊤
unfolding insert_challenge
issue_challenge env r v phone = do
  modify (λ db. put_challenges (expire_live v.id r.now db.challenges) db)
  insert_challenge (new_challenge env r v)
  log_voter_event env r.now (some r) AuditAction.otp_requested (some v) phone
      (some ("voting.otpchallenge", r.second_uuid)) (("sent", Json.flag true) ∷ [])

-- The text that is sent.
unfoldable pub sms_text : Env → Request → Text
sms_text env r =
    codes "Your KW Awards verification code is "
    ++ generate_code env r
    ++ codes ". It expires in "
    ++ decimal (env.otp_ttl_seconds / 60)
    ++ codes " minutes."

-- `send_sms` under `except SmsError`: a failure is logged only.
send_quietly : Env → Text → Text → Action ⊤
send_quietly env phone text w =
    if env.sms_delivers phone text
    then (ok tt, record w { outbox = (phone, text) ∷ w.outbox })
    else (ok tt, w)

send_code : Env → Request → Text → Voter → Action ⊤
unfolding send_quietly
send_code env r phone v = do
  reserve env r (some v) phone
  atomic (issue_challenge env r v phone)
  send_quietly env phone (sms_text env r)

abbrev pub blocked_metadata : Metadata
blocked_metadata = ("sent", Json.flag false) ∷ ("blocked", Json.flag true) ∷ []

unfoldable pub request_otp : Env → Request → Text → Action ⊤
unfolding send_code
request_otp env r phone = do
  v ← get_or_create_voter r phone
  (λ w.
      if v.is_blocked
      then log_voter_event env r.now (some r) AuditAction.otp_requested (some v) phone none
          blocked_metadata w
      else send_code env r phone v w)
