-- ===== src/Voting/Otp/Reach.antt =====
-- Requests and verifications of codes, in any order, for any phone numbers.
use kw_awards_voting_platfom.Prelude.{ℕ, ◌≤◌, List, Text, ◌≡◌, inl, inr, arith}
use kw_awards_voting_platfom.Models.Voting.{Challenge}
use kw_awards_voting_platfom.Models.State.{World, Env, Request}
use kw_awards_voting_platfom.Voting.Otp.{is_live_for, request_otp}
use kw_awards_voting_platfom.Voting.Otp.Live.{
  OneLive, Distinct, Bounded, issue-OneLive, attempt-OneLive, expire_live-Distinct,
  count_attempt-Distinct, consume-Distinct, expire_live-Bounded, count_attempt-Bounded,
  consume-Bounded,
}
use kw_awards_voting_platfom.Voting.Otp.Verify.{verify_otp, live_challenge}
use kw_awards_voting_platfom.Voting.Otp.Steps.{request_otp-challenges, verify_otp-challenges}

-- A step from a world at a time to a world at a time that is not earlier. `elsewhere` is a step of any
-- code that leaves the challenges alone.
pub data OtpStep (env : Env) : ℕ → World → ℕ → World → Type 0 where
  request :
      (before : ℕ) (r : Request) (phone : Text) (w : World)
      → before ≤ r.now
      → OtpStep env before w r.now (request_otp env r phone w).1
  verify :
      (before : ℕ) (r : Request) (phone code : Text) (w : World)
      → before ≤ r.now
      → OtpStep env before w r.now (verify_otp env r phone code w).1
  elsewhere :
      (before after : ℕ) (w w' : World)
      → before ≤ after
      → w'.db.challenges ≡ w.db.challenges
      → OtpStep env before w after w'

pub data OtpReach (env : Env) (s : ℕ) (w : World) : ℕ → World → Type 0 where
  here : OtpReach env s w s w
  then : {t u : ℕ} {a b : World} → OtpReach env s w t a → OtpStep env t a u b → OtpReach env s w u b

-- The invariant of the table of challenges.
pub record IsTidy (limit now : ℕ) (rows : List Challenge) : Type 0 where
  pub one_live : OneLive now rows
  pub distinct : Distinct rows
  pub bounded : Bounded limit rows

same-IsTidy :
    (limit before now : ℕ) (a b : List Challenge)
    → b ≡ a
    → before ≤ now
    → IsTidy limit before a
    → IsTidy limit now b
same-IsTidy limit before now a b e later h = rw e (record {
  one_live = λ id t l. h.one_live id t (ground arith);
  distinct = h.distinct;
  bounded = h.bounded;
})

step-IsTidy :
    {env : Env} {t u : ℕ} {a b : World}
    → OtpStep env t a u b
    → IsTidy env.otp_max_attempts t a.db.challenges
    → IsTidy env.otp_max_attempts u b.db.challenges
unfolding live_challenge
step-IsTidy {env} (request before r phone w later) h =
    let b = (request_otp env r phone w).1.db.challenges in
    let rows = w.db.challenges in
    elim (request_otp-challenges env r phone w) [
      | inl same ↦ same-IsTidy env.otp_max_attempts before r.now rows b same later h
      | inr (c, e, fresh, zero_attempts) ↦ rw e (record {
        one_live = issue-OneLive before r.now c rows later h.one_live;
        distinct = (fresh, expire_live-Distinct c.voter r.now rows h.distinct);
        bounded =
            (ground arith, expire_live-Bounded env.otp_max_attempts c.voter r.now rows h.bounded);
      })
    ]
step-IsTidy {env} (verify before r phone code w later) h =
    let b = (verify_otp env r phone code w).1.db.challenges in
    let rows = w.db.challenges in
    elim (verify_otp-challenges env r phone code w) [
      | inl same ↦ same-IsTidy env.otp_max_attempts before r.now rows b same later h
      | inr (v, c, live, left, effect) ↦
          let (counted_one, consumed_one) =
            attempt-OneLive before r.now c.id rows later h.one_live in
          let distinct = count_attempt-Distinct c.id rows h.distinct in
          let bounded =
            count_attempt-Bounded env.otp_max_attempts (is_live_for v.id r.now) rows c live left
              h.distinct h.bounded in
          elim effect [
            | inl e ↦
                rw e (record { one_live = counted_one; distinct = distinct; bounded = bounded })
            | inr e ↦ rw e (record {
              one_live = consumed_one;
              distinct = consume-Distinct c.id r.now _ distinct;
              bounded = consume-Bounded env.otp_max_attempts c.id r.now _ bounded;
            })
          ]
    ]
step-IsTidy {env} (elsewhere before after w w' later e) h =
    same-IsTidy env.otp_max_attempts before after w.db.challenges w'.db.challenges e later h

-- From a tidy table, whatever codes are requested and tried, at times that do not run backwards: every
-- voter has at most one live challenge, identifiers stay distinct, and no challenge ever counts more
-- than `OTP_MAX_ATTEMPTS` attempts.
pub IsTidy-OtpReach :
    {env : Env} {t : ℕ} {a : World} {u : ℕ} {b : World}
    → IsTidy env.otp_max_attempts t a.db.challenges
    → OtpReach env t a u b
    → IsTidy env.otp_max_attempts u b.db.challenges
IsTidy-OtpReach h here = h
IsTidy-OtpReach h (then r s) = step-IsTidy s (IsTidy-OtpReach h r)
