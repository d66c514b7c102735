-- ===== src/Voting/Endpoints/Blind.antt =====
-- What `OTPRequestView` answers.
use kw_awards_voting_platfom.Prelude.{
  ◌==◌, Bool, true, false, ◌||◌, Option, none, some, List, Text, ◌≡◌, any, arith,
}
use kw_awards_voting_platfom.Exceptions.{err, api, unsupported_phone_number, captcha_failed}
use kw_awards_voting_platfom.Models.Voting.{Voter}
use kw_awards_voting_platfom.Models.State.{World, Env, Request}
use kw_awards_voting_platfom.Ip.{get_client_ip}
use kw_awards_voting_platfom.Phone.{PhoneNumbers, normalize_phone_strict, default_region}
use kw_awards_voting_platfom.Voting.Otp.Live.{has_id}
use kw_awards_voting_platfom.Voting.Otp.Blind.{
  within_budget, is_blocked_number, answer, request_otp-answer,
}
use kw_awards_voting_platfom.Voting.Endpoints.{post_otp_request}

module _ (lib : PhoneNumbers) (regions : List Text) (verify_captcha : Text → Option Text → Bool)
    (env : Env) (r : Request) (raw token : Text) (w : World) where
  -- The endpoint for codes, with new identifiers: a number that is not a mobile number of an allowed
  -- region, and then a CAPTCHA that fails, are refused, and nothing changes. Otherwise the answer is
  -- success if the daily budget allows one more message or the number belongs to a blocked voter, and 503
  -- if not. So within the budget the answer does not depend on whether the number is known.
  pub post_otp_request-answer :
      (normalize_phone_strict lib raw regions default_region ≡ none
        → post_otp_request lib regions verify_captcha env r raw token w
          ≡ (err (api unsupported_phone_number), w))
      × ((phone : Text)
          → normalize_phone_strict lib raw regions default_region ≡ some phone
          → (verify_captcha token (get_client_ip env r) ≡ false
              → post_otp_request lib regions verify_captcha env r raw token w
                ≡ (err (api captcha_failed), w))
            × (verify_captcha token (get_client_ip env r) ≡ true
                → any (λ (v : Voter). v.id == r.uuid) w.db.voters ≡ false
                → any (has_id r.second_uuid) w.db.challenges ≡ false
                → (post_otp_request lib regions verify_captcha env r raw token w).0
                  ≡ answer env r (within_budget env r w.cache || is_blocked_number phone w.db)))
  unfolding post_otp_request
  post_otp_request-answer = (
    (λ invalid. ground arith),
    (λ phone valid. (
      (λ robot. ground arith),
      (λ human new_voter fresh. ground (arith, request_otp-answer env r phone w new_voter fresh)),
    )),
  )
