-- ===== src/Examples/Codes.antt =====
-- One-time codes at the gala.
use kw_awards_voting_platfom.Prelude.{
  ℕ, suc, ◌+◌, ◌≤◌, ◌<◌, text_eq, text_eq_refl, count_where, Bool, true, false, Option, none, some,
  List, [], ◌∷◌, Text, ◌≡◌, refl, any, codes, arith,
}
use kw_awards_voting_platfom.Exceptions.{ok, err, api, invalid_otp}
use kw_awards_voting_platfom.Models.Voting.{Voter, Challenge}
use kw_awards_voting_platfom.Models.State.{World, Request}
use kw_awards_voting_platfom.Voting.Otp.{
  is_live_for, find_voter, hash_code, generate_code, get_or_create_voter, request_otp,
}
use kw_awards_voting_platfom.SmsBudget.{reserve}
use kw_awards_voting_platfom.Voting.Otp.Verify.{live_challenge, as_verified, verify_otp}
use kw_awards_voting_platfom.Voting.Otp.Verify.Attempts.{
  failed, counted, verify_otp_refuses, verify_otp_accepts,
}
use kw_awards_voting_platfom.Voting.Otp.Verify.Guessing.{tries, verify_otp_sound, guess_limit}
use kw_awards_voting_platfom.Voting.Otp.Reach.{OtpStep, OtpReach, IsTidy, IsTidy-OtpReach}
use kw_awards_voting_platfom.Voting.Otp.Once.{verify_otp_once}
use kw_awards_voting_platfom.Voting.Otp.Login.{verify_otp-request_otp}
use kw_awards_voting_platfom.Examples.Data.{env, amina, phone, world, request_at}

abbrev asked : Request
asked = request_at 100 41

abbrev tried : Request
tried = request_at 200 51

abbrev after_budget : World
after_budget = (reserve env asked (some amina) phone world).1

got_amina : get_or_create_voter asked phone world ≡ (ok amina, world)
unfolding get_or_create_voter find_voter text_eq
got_amina = refl

in_budget : reserve env asked (some amina) phone world ≡ (ok tt, after_budget)
unfolding reserve kw_awards_voting_platfom.SmsBudget.settle_budget
    kw_awards_voting_platfom.Cache.count_one kw_awards_voting_platfom.Cache.cache_incr
    kw_awards_voting_platfom.Cache.cache_get kw_awards_voting_platfom.Cache.cache_add
    kw_awards_voting_platfom.Cache.key_eq kw_awards_voting_platfom.SmsBudget.nairobi_day
    kw_awards_voting_platfom.SmsBudget.seconds_until_next_nairobi_day
in_budget = refl

in_time : 200 + 1 ≤ 600000100
in_time = omega arith

one_attempt : 1 ≤ 3
one_attempt = omega arith

verify_otp-request_otp_example :
    (verify_otp env tried phone (generate_code env asked) (request_otp env asked phone world).1).0
    ≡ ok (as_verified 200 amina)
verify_otp-request_otp_example =
    verify_otp-request_otp env asked tried phone world world after_budget amina got_amina refl
      in_budget refl in_time one_attempt

-- A world with one challenge, whose code is "42".
abbrev challenge : Challenge
challenge = record {
  id = 61;
  voter = 7;
  code_hash = hash_code env 61 (codes "42");
  expires_at = 1000;
  attempts = 1;
  consumed_at = none;
  requested_ip = none;
  user_agent = [];
  created_at = 50;
}

abbrev pending_login : World
pending_login = record world { db = record world.db { challenges = challenge ∷ [] } }

found_amina : find_voter phone pending_login.db ≡ some amina
unfolding find_voter text_eq
found_amina = refl

found_live : live_challenge 7 200 pending_login.db ≡ some challenge
unfolding live_challenge
found_live = refl

below_limit : 1 + 1 ≤ 3
below_limit = omega arith

right_code : text_eq challenge.code_hash (hash_code env 61 (codes "42")) ≡ true
right_code = text_eq_refl (hash_code env 61 (codes "42"))

let_in : (verify_otp env tried phone (codes "42") pending_login).0 ≡ ok (as_verified 200 amina)
let_in =
    rw
      (verify_otp_accepts env tried phone (codes "42") pending_login amina found_amina refl
        challenge found_live below_limit right_code)
      refl

one_row : (id t : ℕ) → 100 ≤ t → count_where (is_live_for id t) (challenge ∷ []) ≤ 1
one_row id t h = ground arith

tidy : IsTidy 3 100 (challenge ∷ [])
tidy = record { one_live = one_row; distinct = (refl, tt); bounded = (one_attempt, tt) }

in_order : 100 ≤ 200
in_order = omega arith

and_later : 200 ≤ 300
and_later = omega arith

verify_otp_once_example :
    (verify_otp env
      (request_at 300 71)
      phone
      (codes "42")
      (verify_otp env tried phone (codes "42") pending_login).1).0
    ≡ err (api invalid_otp)
verify_otp_once_example =
    verify_otp_once env 100 tried (request_at 300 71) phone (codes "42") (codes "42") pending_login
      (as_verified 200 amina) tidy in_order let_in and_later

verify_otp_sound_example :
    (v : Voter) × (c : Challenge) × (find_voter phone pending_login.db ≡ some v)
    × (v.is_blocked ≡ false)
    × (live_challenge v.id 200 pending_login.db ≡ some c)
    × (c.attempts < 3)
    × (c.code_hash ≡ hash_code env c.id (codes "42"))
    × (as_verified 200 amina ≡ as_verified 200 v)
verify_otp_sound_example =
    verify_otp_sound env tried phone (codes "42") pending_login (as_verified 200 amina) let_in

wrong_code : text_eq challenge.code_hash (hash_code env 61 (codes "41")) ≡ false
unfolding text_eq hash_code kw_awards_voting_platfom.Prelude.uuid_text
    kw_awards_voting_platfom.Prelude.padded
wrong_code = refl

before_expiry : 200 + 1 ≤ 1000
before_expiry = omega arith

two_left : 3 ≤ 1 + 2
two_left = omega arith

guess_limit_example :
    (verify_otp env tried phone
      (codes "42")
      (tries env phone ((tried, codes "41") ∷ (tried, codes "41") ∷ []) pending_login)).0
    ≡ err (api invalid_otp)
guess_limit_example =
    guess_limit env phone amina ((tried, codes "41") ∷ (tried, codes "41") ∷ []) pending_login
      challenge tried (codes "42") found_amina refl refl refl
      ((before_expiry, wrong_code), ((before_expiry, wrong_code), tt)) before_expiry two_left

verify_otp_refuses_example :
    (live_challenge 7 200 pending_login.db ≡ none
      → verify_otp env tried phone (codes "41") pending_login ≡ (
        err (api invalid_otp),
        failed env tried (some amina) phone "no_active_challenge" 0 pending_login,
      ))
    × ((c : Challenge)
        → live_challenge 7 200 pending_login.db ≡ some c
        → 3 ≤ c.attempts
        → verify_otp env tried phone (codes "41") pending_login ≡ (
          err (api invalid_otp),
          failed env tried (some amina) phone "attempts_exhausted" c.attempts pending_login,
        ))
    × ((c : Challenge)
        → live_challenge 7 200 pending_login.db ≡ some c
        → c.attempts < 3
        → text_eq c.code_hash (hash_code env c.id (codes "41")) ≡ false
        → verify_otp env tried phone (codes "41") pending_login ≡ (
          err (api invalid_otp),
          failed env tried
              (some amina)
              phone
              "invalid_code"
              (suc c.attempts)
              (counted c.id pending_login),
        ))
verify_otp_refuses_example =
    verify_otp_refuses env tried phone (codes "41") pending_login amina found_amina refl

steps : OtpReach env 100 pending_login 200 (verify_otp env tried phone (codes "41") pending_login).1
steps =
    OtpReach.then OtpReach.here (OtpStep.verify 100 tried phone (codes "41") pending_login in_order)

IsTidy-OtpReach_example :
    IsTidy 3 200 (verify_otp env tried phone (codes "41") pending_login).1.db.challenges
IsTidy-OtpReach_example = IsTidy-OtpReach tidy steps
