-- ===== src/Voting/Endpoints.antt =====
-- voting/views.py, voting/throttles.py and the validation of voting/serializers.py: the endpoints of
-- voters. Request data is what the declared fields let through, with its ends trimmed.
pub mod Journey
pub mod Blind
pub mod Guarded
use kw_awards_voting_platfom.Prelude.{
  ℕ, Bool, true, false, ◌&&◌, ◌||◌, not, Option, none, some, List, [], ◌∷◌, String, Text, length,
  all, ◌==◌, is_some, is_empty, filter, find?, any, text_eq, if◌then◌else◌,
}
use kw_awards_voting_platfom.Exceptions.{
  Result, ok, err, api, validation_error, not_found, unsupported_phone_number, captcha_failed,
  attribute_error,
}
use kw_awards_voting_platfom.Exec.{⊤, Action, pure, raise, or_raise, raise_if, ◌>>=◌, ◌>>◌}
use kw_awards_voting_platfom.Models.Accounts.{Role}
use kw_awards_voting_platfom.Models.Events.{Event}
use kw_awards_voting_platfom.Models.Voting.{Voter, Vote, VoteSource}
use kw_awards_voting_platfom.Models.State.{
  Db, World, Env, Request, Principal, anonymous, staff, voter,
}
use kw_awards_voting_platfom.CleanText.{clean_text}
use kw_awards_voting_platfom.Ip.{get_client_ip}
use kw_awards_voting_platfom.Phone.{
  PhoneNumbers, normalize_phone, normalize_phone_strict, default_region,
}
use kw_awards_voting_platfom.Access.{Claims, is_voter, has_permission}
use kw_awards_voting_platfom.Throttles.{
  Verdict, allow_request, ip_ident, phone_ident, user_or_ip_ident,
}
use kw_awards_voting_platfom.Events.{find_event}
use kw_awards_voting_platfom.Voting.Table.{find_vote, same_source}
use kw_awards_voting_platfom.Voting.Services.{cast_free_vote, void_vote}
use kw_awards_voting_platfom.Voting.Otp.{request_otp}
use kw_awards_voting_platfom.Voting.Otp.Verify.{verify_otp}

-- `OTPRequestView.post`; `regions` is `settings.OTP_ALLOWED_REGIONS` and `verify_captcha` the provider.
unfoldable pub post_otp_request :
    PhoneNumbers → List Text → (Text → Option Text → Bool) → Env → Request → Text → Text → Action ⊤
post_otp_request lib regions verify_captcha env r raw token = do
  phone ← (λ w.
      or_raise (api unsupported_phone_number)
        (normalize_phone_strict lib raw regions default_region) w)
  raise_if (not (verify_captcha token (get_client_ip env r))) (api captcha_failed)
  request_otp env r phone

-- `code = RegexField(r"^\d+$", min_length=6, max_length=6)` with `validate_code`; `is_decimal` is what a
-- regular expression takes for `\d`.
unfoldable pub is_valid_code : (ℕ → Bool) → Env → Text → Bool
is_valid_code is_decimal env code =
    (all is_decimal code && length code == 6) && length code == env.otp_length

-- The claims that `issue_voter_token` sets.
abbrev pub voter_claims : ℕ → Claims
voter_claims id = record { scope = some "vote"; voter_id = some id }

-- `issue_voter_token`; `encode` signs the claims.
unfoldable pub issue_voter_token : (Claims → Text) → Voter → Text
issue_voter_token encode v = encode (voter_claims v.id)

-- `OTPVerifyView.post`, with `_PhoneMixin.validate_phone`.
unfoldable pub post_otp_verify :
    PhoneNumbers → (ℕ → Bool) → (Claims → Text) → Env → Request → Text → Text → Action Text
post_otp_verify lib is_decimal encode env r raw code = do
  phone ← (λ w. or_raise validation_error (normalize_phone lib raw default_region) w)
  raise_if (not (is_valid_code is_decimal env code)) validation_error
  v ← verify_otp env r phone code
  pure (issue_voter_token encode v)

-- The throttles of a view, each with what `allow_request` of its class answers.
throttled : Env → Request → String → Option Text → Action Verdict
throttled env r scope ident w =
    let (answer, cache) = allow_request env scope ident r.now w.cache in
    (answer, record w { cache = cache })

-- `OTPRequestView.throttle_classes`, on the phone of the request's data.
unfoldable pub otp_request_throttles :
    PhoneNumbers → Env → Request → Option Text → List (Action Verdict)
unfolding throttled
otp_request_throttles lib env r raw =
    throttled env r "otp_request_phone_short" (phone_ident lib raw)
    ∷ throttled env r "otp_request_phone_day" (phone_ident lib raw)
    ∷ throttled env r "otp_request_ip" (ip_ident env r)
    ∷ []

-- `OTPVerifyView.throttle_classes`
unfoldable pub otp_verify_throttles :
    PhoneNumbers → Env → Request → Option Text → List (Action Verdict)
unfolding throttled
otp_verify_throttles lib env r raw =
    throttled env r "otp_verify_phone" (phone_ident lib raw)
    ∷ throttled env r "otp_verify_ip" (ip_ident env r)
    ∷ []

-- The actions of `VoteViewSet`.
pub data VoteAction : Type 0 where
  list_votes retrieve_vote create mine void : VoteAction

-- `VoteViewSet.get_permissions`, with what the permission answers.
unfoldable pub vote_permission : Env → Request → Text → Text → VoteAction → Action Bool
vote_permission env r path method VoteAction.create w = (ok (is_voter r.user), w)
vote_permission env r path method VoteAction.mine w = (ok (is_voter r.user), w)
vote_permission env r path method _ w = has_permission env r Role.event_admin path method w

-- `VoteViewSet.get_throttles`
unfoldable pub vote_throttles : Env → Request → VoteAction → List (Action Verdict)
unfolding throttled
vote_throttles env r VoteAction.create =
    throttled env r "vote_voter" (user_or_ip_ident env r r.user)
    ∷ throttled env r "vote_ip" (ip_ident env r)
    ∷ []
vote_throttles env r _ = []

-- `request.user.voter`
voter_of_user : Principal → Option ℕ
voter_of_user (voter v) = some v
voter_of_user _ = none

-- `VoteViewSet.create`
unfoldable pub create_vote : Env → Request → ℕ → Action Vote
unfolding voter_of_user
create_vote env r nomination_id = do
  v ← (λ w. or_raise attribute_error (voter_of_user r.user) w)
  cast_free_vote env r v nomination_id

-- `VoteViewSet.mine`, before its pages are cut.
unfoldable pub my_votes : Request → Action (List Vote)
unfolding voter_of_user
my_votes r = do
  v ← (λ w. or_raise attribute_error (voter_of_user r.user) w)
  (λ w. (ok (filter (λ (x : Vote). x.voter == v) w.db.votes), w))

staff_id : Principal → Option ℕ
staff_id (staff u) = some u
staff_id _ = none

-- `VoteViewSet.void`, with `VoidSerializer`: a reason that is empty once it is cleaned is refused.
unfoldable pub post_void : Env → Request → ℕ → Text → Action Vote
unfolding staff_id
post_void env r pk raw = do
  raise_if (is_empty (clean_text env false raw)) validation_error
  v ← (λ w. or_raise not_found (find_vote pk w.db) w)
  by ← (λ w. or_raise attribute_error (staff_id r.user) w)
  void_vote env r.now (some r) v.id by (clean_text env false raw)

-- The parameters of `VoteFilter`; a parameter that is left out does not filter.
pub record VoteFilter : Type 0 where
  pub event : Option Text
  pub award : Option ℕ
  pub nomination : Option ℕ
  pub source : Option VoteSource
  pub is_voided : Option Bool
  pub phone : Option Text

abbrev given : {A : Type 0} → Option A → (A → Bool) → Bool
given none test = true
given (some a) test = test a

abbrev slug_is : Text → Option Event → Bool
slug_is slug none = false
slug_is slug (some e) = text_eq e.slug slug

-- `filter_voided`: `voided_at__isnull=not value`.
abbrev voided_is : Bool → Vote → Bool
voided_is true v = is_some v.voided_at
voided_is false v = not (is_some v.voided_at)

-- `voter__phone_e164=...`
abbrev phone_is : Db → Text → Vote → Bool
phone_is db phone v = any (λ (x : Voter). x.id == v.voter && text_eq x.phone_e164 phone) db.voters

unfoldable pub passes_filter : Db → VoteFilter → Option Text → Vote → Bool
passes_filter db f phone v =
    given f.event (λ slug. slug_is slug (find_event v.event db))
    && (given f.award (λ id. v.award == id)
        && (given f.nomination (λ id. v.nomination == id)
            && (given f.source (λ s. same_source v.source s)
                && (given f.is_voided (λ b. voided_is b v) && given phone (λ p. phone_is db p v)))))

-- `filter_phone` refuses a number that is not valid.
filter_phone : PhoneNumbers → Option Text → Result (Option Text)
filter_phone lib none = ok none
filter_phone lib (some raw) = elim (normalize_phone lib raw default_region) [
  | none ↦ err validation_error
  | some phone ↦ ok (some phone)
]

-- `VoteViewSet.list`, before its pages are cut.
unfoldable pub filter_votes : PhoneNumbers → VoteFilter → Action (List Vote)
unfolding filter_phone
filter_votes lib f = do
  phone ← (λ w. (filter_phone lib f.phone, w))
  (λ w. (ok (filter (passes_filter w.db f phone) w.db.votes), w))
