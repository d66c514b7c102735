-- ===== src/Voting/Otp/Blind.antt =====
-- What the answer to a request for a code lets a caller learn of a phone number.
use kw_awards_voting_platfom.Prelude.{
  ℕ, Bool, true, false, not, ◌||◌, Option, none, some, List, ◌∷◌, Text, ◌≡◌, refl, inl, inr, ◌==◌,
  ltb, any, arith, Bool-cases, Option-cases, if◌then◌else◌,
}
use kw_awards_voting_platfom.Exceptions.{Result, ok, err, api, sms_unavailable}
use kw_awards_voting_platfom.Models.Voting.{Voter}
use kw_awards_voting_platfom.Models.Audit.{AuditAction}
use kw_awards_voting_platfom.Models.State.{Db, World, Env, Request, Counter, sms_budget}
use kw_awards_voting_platfom.Audit.{has_forbidden, is_forbidden}
use kw_awards_voting_platfom.Audit.Laws.{log_voter_event_clean}
use kw_awards_voting_platfom.Cache.{count_one}
use kw_awards_voting_platfom.SmsBudget.{
  nairobi_day, seconds_until_next_nairobi_day, settle_budget, reserve, exhausted_metadata,
}
use kw_awards_voting_platfom.Voting.Otp.{
  find_voter, create_voter, put_voters, get_or_create_voter, send_code, send_quietly, request_otp,
  blocked_metadata,
}
use kw_awards_voting_platfom.Voting.Otp.Live.{has_id}
use kw_awards_voting_platfom.Voting.Otp.Login.{issued}

-- One more message is within the budget of the day.
unfoldable pub within_budget : Env → Request → List Counter → Bool
within_budget env r cache =
    env.sms_daily_limit == 0
    || not (
        ltb env.sms_daily_limit
          (count_one r.now (sms_budget (nairobi_day r.now)) (seconds_until_next_nairobi_day r.now)
            cache).0)

exhausted_clean : (count limit : ℕ) → has_forbidden (exhausted_metadata count limit) ≡ false
unfolding has_forbidden is_forbidden
exhausted_clean count limit = refl

blocked_clean : has_forbidden blocked_metadata ≡ false
unfolding has_forbidden is_forbidden
blocked_clean = refl

reserve_within :
    (env : Env) (r : Request) (v : Option Voter) (phone : Text) (w : World)
    → within_budget env r w.cache ≡ true
    → (w' : World) × (reserve env r v phone w ≡ (ok tt, w')) × (w'.db ≡ w.db)
unfolding within_budget reserve settle_budget
reserve_within env r v phone w h = elim (Bool-cases (env.sms_daily_limit == 0)) [
  | inl off ↦ (w, ground arith, refl)
  | inr on ↦
      let (count, cache) =
        count_one r.now (sms_budget (nairobi_day r.now)) (seconds_until_next_nairobi_day r.now)
          w.cache in
      (record w { cache = cache }, ground arith, refl)
]

reserve_beyond :
    (env : Env) (r : Request) (v : Option Voter) (phone : Text) (w : World)
    → within_budget env r w.cache ≡ false
    → (reserve env r v phone w).0
      ≡ err (api (sms_unavailable (seconds_until_next_nairobi_day r.now)))
unfolding within_budget reserve settle_budget
reserve_beyond env r v phone w h =
    let (count, cache) =
      count_one r.now (sms_budget (nairobi_day r.now)) (seconds_until_next_nairobi_day r.now)
        w.cache in
    let logs =
      log_voter_event_clean env r.now (some r) AuditAction.sms_budget_exhausted v phone none
        (exhausted_metadata count env.sms_daily_limit) (record w { cache = cache })
        (exhausted_clean count env.sms_daily_limit) in
    ground arith

send_code_within :
    (env : Env) (r : Request) (phone : Text) (v : Voter) (w : World)
    → within_budget env r w.cache ≡ true
    → any (has_id r.second_uuid) w.db.challenges ≡ false
    → (send_code env r phone v w).0 ≡ ok tt
unfolding send_code send_quietly
send_code_within env r phone v w h fresh =
    let (w', reserves, same) = reserve_within env r (some v) phone w h in
    let (row, issues) = issued env r v phone w' (rw same fresh) in
    rw (reserves, issues) (ground arith)

send_code_beyond :
    (env : Env) (r : Request) (phone : Text) (v : Voter) (w : World)
    → within_budget env r w.cache ≡ false
    → (send_code env r phone v w).0
      ≡ err (api (sms_unavailable (seconds_until_next_nairobi_day r.now)))
unfolding send_code
send_code_beyond env r phone v w h =
    let refuses = reserve_beyond env r (some v) phone w h in ground arith

-- Whether the number has a voter who is blocked.
abbrev blocked_of : Option Voter → Bool
blocked_of none = false
blocked_of (some v) = v.is_blocked

pub is_blocked_number : Text → Db → Bool
is_blocked_number phone db = blocked_of (find_voter phone db)

-- What a caller gets: a success, or 503 with the seconds until the budget is renewed.
abbrev pub answer : Env → Request → Bool → Result (Unit {0})
answer env r granted =
    if granted then ok tt else err (api (sms_unavailable (seconds_until_next_nairobi_day r.now)))

send_code-answer :
    (env : Env) (r : Request) (phone : Text) (v : Voter) (w : World)
    → any (has_id r.second_uuid) w.db.challenges ≡ false
    → (send_code env r phone v w).0 ≡ answer env r (within_budget env r w.cache)
send_code-answer env r phone v w fresh = elim (Bool-cases (within_budget env r w.cache)) [
  | inl h ↦ rw h (send_code_within env r phone v w h fresh)
  | inr h ↦ rw h (send_code_beyond env r phone v w h)
]

-- With new identifiers, a request for a code is answered in one of two ways: with success, if one more
-- message is within the budget of the day or the number belongs to a blocked voter, to whom nothing is
-- sent; and with 503 otherwise. Whether the number has a voter, verified or not, makes no difference, nor
-- does whether the provider delivers the message.
pub request_otp-answer :
    (env : Env) (r : Request) (phone : Text) (w : World)
    → any (λ (v : Voter). v.id == r.uuid) w.db.voters ≡ false
    → any (has_id r.second_uuid) w.db.challenges ≡ false
    → (request_otp env r phone w).0
      ≡ answer env r (within_budget env r w.cache || is_blocked_number phone w.db)
unfolding request_otp get_or_create_voter create_voter is_blocked_number
request_otp-answer env r phone w new_voter fresh = elim (Option-cases (find_voter phone w.db)) [
  | inl absent ↦
      let new : Voter = record {
        id = r.uuid;
        phone_e164 = phone;
        verified_at = none;
        is_blocked = false;
        created_at = r.now;
      } in
      let sends =
        send_code-answer env r phone new (record w { db = put_voters (new ∷ w.db.voters) w.db })
          fresh in
      ground (arith, sends)
  | inr (v, found) ↦ elim (Bool-cases v.is_blocked) [
    | inl blocked ↦
        let logs =
          log_voter_event_clean env r.now (some r) AuditAction.otp_requested (some v) phone none
            blocked_metadata w blocked_clean in
        ground (arith, logs)
    | inr passes ↦ ground (arith, send_code-answer env r phone v w fresh)
  ]
]
