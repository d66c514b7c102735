-- ===== src/Examples/Doors.antt =====
-- Submissions, roles, tokens and a production deployment.
use kw_awards_voting_platfom.Prelude.{
  ℕ, Bool, true, false, ◌&&◌, not, Option, none, some, List, [], ◌∷◌, Text, ◌≡◌, ◌⊎◌, refl, codes,
  text_eq, is_empty, is_some, ◌==◌, if◌then◌else◌,
}
use kw_awards_voting_platfom.Exceptions.{Exc, Result, ok, err}
use kw_awards_voting_platfom.Models.Accounts.{User, Role}
use kw_awards_voting_platfom.Models.Events.{Event, Award, nominations_open, nominations_are_open}
use kw_awards_voting_platfom.Models.Nominations.{Nominee, Nomination}
use kw_awards_voting_platfom.Models.State.{World, Request, voter, staff}
use kw_awards_voting_platfom.Audit.{entry_row, add_entry}
use kw_awards_voting_platfom.CleanText.{clean_text}
use kw_awards_voting_platfom.Nominations.{public_nominations}
use kw_awards_voting_platfom.Nominations.Submission.{
  Form, validate_award, validate_contact_phone, is_duplicate, new_nomination, submit_nomination,
}
use kw_awards_voting_platfom.Nominations.Submission.Hidden.{IsSubmission, submit_nomination-cases}
use kw_awards_voting_platfom.Access.{
  Claims, Jwt, authenticate_either, authenticate_public, has_permission, denied_entry,
}
use kw_awards_voting_platfom.Backends.{
  Deployment, africastalking, imported_sms, turnstile, imported_captcha, has_credentials, sms_name,
  captcha_name, get_sms_backend, get_captcha_backend, prod_loads,
}
use kw_awards_voting_platfom.Backends.Production.{SmsChoice, CaptchaChoice, prod_loads_lem}
use kw_awards_voting_platfom.Examples.Data.{
  env, best_song, gala, amina, phone, world, request_at, numbers,
}

clean_line : clean_text env false (codes " The   Best ") ≡ codes "The Best"
unfolding clean_text kw_awards_voting_platfom.Prelude.strip kw_awards_voting_platfom.Prelude.lstrip
    kw_awards_voting_platfom.Prelude.is_space
clean_line = refl

-- The gala while nominations are open.
abbrev early : World
early = record world {
  db = record world.db {
    events =
        record gala {
          status = nominations_open;
          nominations_close_at = some 1000;
          voting_opens_at = some 2000;
        }
        ∷ [];
  };
}

abbrev form : Form
form = record {
  award = 1;
  name = codes "Dee";
  stage_name = [];
  bio = codes "Sings";
  photo = codes "dee.jpg";
  contact_phone = phone;
  contact_email = [];
}

abbrev r : Request
r = request_at 100 91

abbrev outcome : Result Nomination × World
outcome = submit_nomination env numbers r true form early

accepted_form : outcome.0 ≡ ok (new_nomination env r best_song)
unfolding submit_nomination validate_award kw_awards_voting_platfom.Events.find_award
    kw_awards_voting_platfom.Nominations.event_of_award
    kw_awards_voting_platfom.Events.find_category kw_awards_voting_platfom.Events.find_event
    kw_awards_voting_platfom.Nominations.Submission.validate_contact_phone
    kw_awards_voting_platfom.Phone.normalize_phone kw_awards_voting_platfom.Prelude.strip
    kw_awards_voting_platfom.Prelude.lstrip kw_awards_voting_platfom.Prelude.is_space clean_text
    nominations_are_open is_duplicate text_eq
    kw_awards_voting_platfom.Nominations.Submission.create_nomination
    kw_awards_voting_platfom.Nominations.Submission.new_nominee add_entry entry_row
    kw_awards_voting_platfom.Audit.has_forbidden kw_awards_voting_platfom.Audit.is_forbidden
    kw_awards_voting_platfom.Audit.log kw_awards_voting_platfom.Ip.get_client_ip
    kw_awards_voting_platfom.Models.Nominations.nomination_checks new_nomination
    kw_awards_voting_platfom.Phone.parse_phone kw_awards_voting_platfom.Audit.lower_code
accepted_form = refl

submit_nomination-cases_example :
    ((e : Exc) × (outcome.0 ≡ err e) × (outcome.1 ≡ early))
    ⊎ ((a : Award) × (e : Event) × (p : Text) × (n : Nomination) × (y : Nominee) × (true ≡ true)
        × (validate_award early.db 1 ≡ some (a, e))
        × (nominations_are_open e 100 ≡ true)
        × ((is_empty [] && is_empty p) ≡ false)
        × (is_duplicate env early.db a.id (clean_text env false (codes "Dee")) ≡ false)
        × (validate_contact_phone numbers phone ≡ some p)
        × IsSubmission env r form p n y
        × (outcome.0 ≡ ok n)
        × (outcome.1.db.nominations ≡ n ∷ early.db.nominations)
        × (outcome.1.db.nominees ≡ y ∷ early.db.nominees)
        × (public_nominations outcome.1.db ≡ public_nominations early.db))
submit_nomination-cases_example = submit_nomination-cases env numbers r true form early

abbrev moderator : User
moderator = record {
  id = 1;
  email = codes "mod@kw.example";
  is_active = true;
  is_staff = true;
  is_superuser = false;
  groups = Role.moderator ∷ [];
}

abbrev staffed : World
staffed = record world {
  db = record world.db {
    users = moderator ∷ [];
    voters = record amina { verified_at = some 50 } ∷ [];
  };
}

abbrev by_moderator : Request
by_moderator = record (request_at 100 1) { user = staff 1 }

-- Tokens whose first code tells their type.
abbrev claims : Claims
claims = record { scope = some "vote"; voter_id = some 7 }

abbrev type_of : ℕ → Text → Option Claims
type_of t [] = none
type_of t (c ∷ s) = if c == t then some claims else none

abbrev jwt : Jwt
jwt = record {
  voter_token = type_of 118;
  access_token = type_of 97;
  raw_token = λ words. ok (some (codes "voter"));
  get_user = λ users c. none;
}

abbrev header : List Text
header = codes "Bearer" ∷ codes "voter" ∷ []

is_voter : authenticate_either jwt staffed.db header ≡ ok (some (voter 7))
unfolding authenticate_either kw_awards_voting_platfom.Access.authenticate_voter text_eq
    kw_awards_voting_platfom.Audit.lower_code
is_voter = refl

abbrev deployment : Deployment
deployment = record {
  sms_backend = "auto";
  captcha_backend = "auto";
  africastalking_username = codes "kw";
  africastalking_api_key = codes "k";
  turnstile_secret_key = codes "t";
  cache_url = codes "redis://cache";
  allowed_hosts = codes "kw.example";
  frontend_url = codes "https://kw.example";
  database_name = codes "kw";
  database_user = codes "kw";
  cors_allowed_origins = codes "https://kw.example";
  audit_phone_hash_key = codes "a";
  secret_key = codes "s";
}

loads : prod_loads deployment ≡ true
unfolding prod_loads kw_awards_voting_platfom.Backends.lacks_required text_eq
    kw_awards_voting_platfom.Backends.has_problems kw_awards_voting_platfom.Backends.cache_problem
    kw_awards_voting_platfom.Backends.sms_problem sms_name
    kw_awards_voting_platfom.Backends.credentials_problem
    kw_awards_voting_platfom.Backends.captcha_problem captcha_name
loads = refl

prod_loads_lem_example :
    SmsChoice "auto" true (get_sms_backend deployment)
    × CaptchaChoice "auto" false (get_captcha_backend deployment)
    × (is_empty (codes "a") ≡ false)
    × (text_eq (codes "a") (codes "s") ≡ false)
prod_loads_lem_example = prod_loads_lem deployment loads
