-- ===== src/Voting/Otp/Verify.antt =====
-- voting/otp.py: `verify_otp`, which answers every failure in the same way.
pub mod Attempts
pub mod Guessing
use kw_awards_voting_platfom.Prelude.{
  ℕ, suc, Bool, true, false, ◌&&◌, Option, none, some, List, [], ◌∷◌, String, Text, codes, text_eq,
  ◌==◌, leb, is_some, find?, update_where, if◌then◌else◌,
}
use kw_awards_voting_platfom.Exceptions.{Result, Exc, ok, err, api, invalid_otp}
use kw_awards_voting_platfom.Exec.{⊤, Action, pure, raise, atomic, modify, ◌>>=◌, ◌>>◌}
use kw_awards_voting_platfom.Models.Voting.{Voter, Challenge}
use kw_awards_voting_platfom.Models.Audit.{AuditAction, Json, Metadata}
use kw_awards_voting_platfom.Models.State.{Db, World, Env, Request}
use kw_awards_voting_platfom.Phone.{mask_phone}
use kw_awards_voting_platfom.Audit.{Entry, log, log_voter_event}
use kw_awards_voting_platfom.Voting.Otp.{
  find_voter, hash_code, is_live_for, put_challenges, put_voters,
}

-- The newest live challenge of a voter.
unfoldable pub live_challenge : ℕ → ℕ → Db → Option Challenge
live_challenge voter_id now db = find? (is_live_for voter_id now) db.challenges

-- `filter(pk=challenge.pk).update(attempts=F("attempts") + 1)`
unfoldable pub count_attempt : ℕ → List Challenge → List Challenge
count_attempt id rows =
    update_where (λ (c : Challenge). c.id == id) (λ c. record c { attempts = suc c.attempts }) rows

unfoldable pub consume : ℕ → ℕ → List Challenge → List Challenge
consume id now rows =
    update_where (λ (c : Challenge). c.id == id) (λ c. record c { consumed_at = some now }) rows

abbrev pub failure_metadata : String → ℕ → Metadata
failure_metadata reason attempts =
    ("reason", Json.str (codes reason)) ∷ ("attempts", Json.num attempts) ∷ []

-- `if not succeeded`: the entry of the audit log; `none` stands for `succeeded == False`.
unfoldable pub fail : Env → Request → Option Voter → Text → String → ℕ → Action (Option Voter)
fail env r v phone reason attempts = do
  log_voter_event env r.now (some r) AuditAction.otp_failed v phone none
      (failure_metadata reason attempts)
  pure none

-- The voter after `verified_at` is set, unless it was.
abbrev pub as_verified : ℕ → Voter → Voter
as_verified now v = if is_some v.verified_at then v else record v { verified_at = some now }

-- `voter.save(update_fields=["verified_at", ...])`, if it was not verified.
unfoldable pub save_verified : ℕ → Voter → List Voter → List Voter
save_verified now v rows =
    if is_some v.verified_at
    then rows
    else update_where (λ (x : Voter). x.id == v.id) (λ x. record x { verified_at = some now }) rows

abbrev pub verified_entry : Voter → Text → Challenge → Entry
verified_entry v phone c = record {
  action = AuditAction.otp_verified;
  actor_user = none;
  actor_voter = some v.id;
  target = some ("voting.otpchallenge", c.id);
  metadata =
      ("phone_masked", Json.str (mask_phone phone)) ∷ ("attempts", Json.num (suc c.attempts)) ∷ [];
}

unfoldable pub succeed : Env → Request → Voter → Text → Challenge → Action (Option Voter)
succeed env r v phone c = do
  modify (λ db. put_challenges (consume c.id r.now db.challenges) db)
  modify (λ db. put_voters (save_verified r.now v db.voters) db)
  log env r.now (some r) (verified_entry v phone c)
  pure (some (as_verified r.now v))

-- The attempt is counted before the codes are compared.
unfoldable pub compare_code :
    Env → Request → Voter → Text → Text → Challenge → Action (Option Voter)
compare_code env r v phone code c = do
  modify (λ db. put_challenges (count_attempt c.id db.challenges) db)
  (λ w.
      if text_eq c.code_hash (hash_code env c.id code)
      then succeed env r v phone c w
      else fail env r (some v) phone "invalid_code" (suc c.attempts) w)

unfoldable pub check_challenge :
    Env → Request → Voter → Text → Text → Option Challenge → Action (Option Voter)
check_challenge env r v phone code none w = fail env r (some v) phone "no_active_challenge" 0 w
check_challenge env r v phone code (some c) w =
    if leb env.otp_max_attempts c.attempts
    then fail env r (some v) phone "attempts_exhausted" c.attempts w
    else compare_code env r v phone code c w

-- The body of the transaction.
unfoldable pub attempt : Env → Request → Text → Text → Option Voter → Action (Option Voter)
attempt env r phone code none w = fail env r none phone "no_active_challenge" 0 w
attempt env r phone code (some v) w =
    if v.is_blocked
    then fail env r (some v) phone "blocked" 0 w
    else check_challenge env r v phone code (live_challenge v.id r.now w.db) w

-- The exception is raised when the transaction has committed.
abbrev pub voter_or_raise : Option Voter → Action Voter
voter_or_raise none w = (err (api invalid_otp), w)
voter_or_raise (some v) w = (ok v, w)

unfoldable pub verify_otp : Env → Request → Text → Text → Action Voter
verify_otp env r phone code w =
    (atomic (attempt env r phone code (find_voter phone w.db)) >>= voter_or_raise) w
