-- ===== src/Voting/Otp/Verify/Attempts.antt =====
-- What `verify_otp` answers on each of its branches.
use kw_awards_voting_platfom.Prelude.{
  ℕ, suc, ◌≤◌, ◌<◌, true, false, Option, none, some, String, Text, text_eq, ◌≡◌, refl, arith,
}
use kw_awards_voting_platfom.Exceptions.{ok, err, api, invalid_otp}
use kw_awards_voting_platfom.Models.Voting.{Voter, Challenge}
use kw_awards_voting_platfom.Models.Audit.{AuditAction}
use kw_awards_voting_platfom.Models.State.{World, Env, Request}
use kw_awards_voting_platfom.Audit.{has_forbidden, is_forbidden, add_entry, entry_row, voter_entry}
use kw_awards_voting_platfom.Audit.Laws.{log_clean, log_voter_event_clean}
use kw_awards_voting_platfom.Voting.Otp.{find_voter, hash_code, put_challenges, put_voters}
use kw_awards_voting_platfom.Voting.Otp.Verify.{
  live_challenge, count_attempt, consume, failure_metadata, fail, as_verified, save_verified,
  verified_entry, succeed, compare_code, check_challenge, attempt, verify_otp,
}

-- The world after a failure: the audit log has one entry more, with the reason.
unfoldable pub failed : Env → Request → Option Voter → Text → String → ℕ → World → World
failed env r v phone reason attempts = add_entry (
    entry_row env r.now (some r)
      (voter_entry env AuditAction.otp_failed v phone none (failure_metadata reason attempts)))

failure_clean : (reason : String) (n : ℕ) → has_forbidden (failure_metadata reason n) ≡ false
unfolding has_forbidden is_forbidden
failure_clean reason n = refl

pub fail-failed :
    (env : Env) (r : Request) (v : Option Voter) (phone : Text) (reason : String) (n : ℕ)
    (w : World)
    → fail env r v phone reason n w ≡ (ok none, failed env r v phone reason n w)
unfolding fail failed
fail-failed env r v phone reason n w =
    rw
      (log_voter_event_clean env r.now (some r) AuditAction.otp_failed v phone none
        (failure_metadata reason n) w (failure_clean reason n))
      refl

-- The world in which the attempt on a challenge has been counted.
unfoldable pub counted : ℕ → World → World
counted id w = record w { db = put_challenges (count_attempt id w.db.challenges) w.db }

-- The world after a success: the challenge is consumed, its attempt counted, the voter verified, and
-- the audit log has the entry.
unfoldable pub accepted : Env → Request → Voter → Text → Challenge → World → World
accepted env r v phone c w =
    let db =
      put_voters (save_verified r.now v w.db.voters)
        (put_challenges (consume c.id r.now (count_attempt c.id w.db.challenges)) w.db) in
    add_entry (entry_row env r.now (some r) (verified_entry v phone c)) (record w { db = db })

verified_clean :
    (v : Voter) (phone : Text) (c : Challenge)
    → has_forbidden (verified_entry v phone c).metadata ≡ false
unfolding has_forbidden is_forbidden
verified_clean v phone c = refl

succeed-accepted :
    (env : Env) (r : Request) (v : Voter) (phone : Text) (c : Challenge) (w : World)
    → succeed env r v phone c (counted c.id w)
      ≡ (ok (some (as_verified r.now v)), accepted env r v phone c w)
unfolding succeed counted accepted
succeed-accepted env r v phone c w =
    let db =
      put_voters (save_verified r.now v w.db.voters)
        (put_challenges (consume c.id r.now (count_attempt c.id w.db.challenges)) w.db) in
    rw
      (log_clean env r.now (some r) (verified_entry v phone c) (record w { db = db })
        (verified_clean v phone c))
      refl

module _ (env : Env) (r : Request) (phone code : Text) (w : World) where
  -- A phone number that no voter has, or whose voter is blocked, is refused in the same way, and only
  -- the audit log changes.
  pub verify_otp_unknown :
      ((find_voter phone w.db ≡ none)
        → verify_otp env r phone code w
          ≡ (err (api invalid_otp), failed env r none phone "no_active_challenge" 0 w))
      × ((v : Voter)
          → find_voter phone w.db ≡ some v
          → v.is_blocked ≡ true
          → verify_otp env r phone code w
            ≡ (err (api invalid_otp), failed env r (some v) phone "blocked" 0 w))
  unfolding verify_otp attempt
  verify_otp_unknown = (
    (λ h. ground (arith, fail-failed env r none phone "no_active_challenge" 0 w)),
    (λ v h b. ground (arith, fail-failed env r (some v) phone "blocked" 0 w)),
  )

module _ (env : Env) (r : Request) (phone code : Text) (w : World) (v : Voter)
    (found : find_voter phone w.db ≡ some v) (free_to_log_in : v.is_blocked ≡ false) where
  -- For a voter who is not blocked: without a live challenge the code is refused. With one whose
  -- attempts are used up every code is refused, the right one too. A wrong code is refused, and its
  -- attempt stays counted. The answer is the same in the three cases, and the audit log tells them apart.
  pub verify_otp_refuses :
      ((live_challenge v.id r.now w.db ≡ none)
        → verify_otp env r phone code w
          ≡ (err (api invalid_otp), failed env r (some v) phone "no_active_challenge" 0 w))
      × ((c : Challenge)
          → live_challenge v.id r.now w.db ≡ some c
          → env.otp_max_attempts ≤ c.attempts
          → verify_otp env r phone code w ≡ (
            err (api invalid_otp),
            failed env r (some v) phone "attempts_exhausted" c.attempts w,
          ))
      × ((c : Challenge)
          → live_challenge v.id r.now w.db ≡ some c
          → c.attempts < env.otp_max_attempts
          → text_eq c.code_hash (hash_code env c.id code) ≡ false
          → verify_otp env r phone code w ≡ (
            err (api invalid_otp),
            failed env r (some v) phone "invalid_code" (suc c.attempts) (counted c.id w),
          ))
  unfolding verify_otp attempt check_challenge compare_code counted
  verify_otp_refuses = (
    (λ h. ground (arith, fail-failed env r (some v) phone "no_active_challenge" 0 w)),
    (λ c h m. ground (arith, fail-failed env r (some v) phone "attempts_exhausted" c.attempts w)),
    (λ c h m e.
        ground (
          arith,
          fail-failed env r (some v) phone "invalid_code" (suc c.attempts) (counted c.id w),
        )),
  )

  -- For a voter who is not blocked: the right code on a live challenge with attempts left is
  -- accepted; the challenge is consumed, the attempt counted, and the voter verified.
  pub verify_otp_accepts :
      (c : Challenge)
      → live_challenge v.id r.now w.db ≡ some c
      → c.attempts < env.otp_max_attempts
      → text_eq c.code_hash (hash_code env c.id code) ≡ true
      → verify_otp env r phone code w ≡ (ok (as_verified r.now v), accepted env r v phone c w)
  unfolding verify_otp attempt check_challenge compare_code counted
  verify_otp_accepts c h m e = ground (arith, succeed-accepted env r v phone c w)
