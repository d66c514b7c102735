-- ===== src/Nominations/Submission.antt =====
-- The public form for nominations: nominations/serializers.py (`NominationSubmitSerializer`) and
-- `NominationViewSet.create`. The links of a nominee are not modelled.
pub mod Hidden
use kw_awards_voting_platfom.Prelude.{
  ℕ, Bool, true, false, ◌&&◌, ◌||◌, not, Option, none, some, List, [], ◌∷◌, Text, text_eq, is_empty,
  ◌==◌, find?, any, if◌then◌else◌,
}
use kw_awards_voting_platfom.Exceptions.{
  ok, err, api, captcha_failed, nominations_closed, duplicate_nomination, validation_error,
  integrity, unique, check,
}
use kw_awards_voting_platfom.Exec.{⊤, Action, pure, or_raise, atomic, ◌>>=◌, ◌>>◌, raise_if}
use kw_awards_voting_platfom.CleanText.{clean_text}
use kw_awards_voting_platfom.Models.Events.{Event, Award, is_public, nominations_are_open}
use kw_awards_voting_platfom.Models.Nominations.{
  Nominee, Nomination, approved, pending, nstatus_eq, nomination_checks, nomination_clash,
}
use kw_awards_voting_platfom.Models.Audit.{AuditAction, Json}
use kw_awards_voting_platfom.Models.State.{Db, World, Env, Request}
use kw_awards_voting_platfom.Audit.{Entry, log}
use kw_awards_voting_platfom.Ip.{get_client_ip}
use kw_awards_voting_platfom.Phone.{PhoneNumbers, normalize_phone, default_region}
use kw_awards_voting_platfom.Events.{find_award}
use kw_awards_voting_platfom.Nominations.{event_of_award}

-- What the fields of the form let through; a field that is left out is empty. The photo is the file
-- that `process_image` makes.
pub record Form : Type 0 where
  pub award : ℕ
  pub name : Text
  pub stage_name : Text
  pub bio : Text
  pub photo : Text
  pub contact_phone : Text
  pub contact_email : Text

shown_award : Award → Option Event → Option (Award × Event)
shown_award a none = none
shown_award a (some e) = if a.is_active && is_public e then some (a, e) else none

award_found : Db → Option Award → Option (Award × Event)
unfolding shown_award
award_found db none = none
award_found db (some a) = shown_award a (event_of_award db a)

-- `validate_award`
unfoldable pub validate_award : Db → ℕ → Option (Award × Event)
unfolding award_found
validate_award db id = award_found db (find_award id db)

-- `validate_contact_phone`
unfoldable pub validate_contact_phone : PhoneNumbers → Text → Option Text
validate_contact_phone lib value =
    if is_empty value then some [] else normalize_phone lib value default_region

named : Env → Text → Option Nominee → Bool
named env name none = false
named env name (some n) = text_eq (env.upper n.name) (env.upper name)

-- The test for a duplicate; `iexact` compares in upper case.
unfoldable pub is_duplicate : Env → Db → ℕ → Text → Bool
unfolding named
is_duplicate env db award name =
    any
      (λ (n : Nomination).
        (n.award == award && (nstatus_eq n.status pending || nstatus_eq n.status approved))
        && named env name (find? (λ (x : Nominee). x.id == n.nominee) db.nominees))
      db.nominations

unfoldable pub new_nominee : Env → Request → Form → Text → Nominee
new_nominee env r f phone = record {
  id = r.uuid;
  name = clean_text env false f.name;
  stage_name = clean_text env false f.stage_name;
  bio = clean_text env true (clean_text env true f.bio);
  photo = f.photo;
  contact_phone = phone;
  contact_email = f.contact_email;
  owner = none;
}

unfoldable pub new_nomination : Env → Request → Award → Nomination
new_nomination env r a = record {
  id = r.second_uuid;
  nominee = r.uuid;
  award = a.id;
  status = pending;
  submitted_by_ip = get_client_ip env r;
  reviewed_by = none;
  reviewed_at = none;
  rejection_reason = [];
}

insert_nominee : Nominee → Action ⊤
insert_nominee n w =
    if any (λ (x : Nominee). x.id == n.id) w.db.nominees
    then (err (integrity unique), w)
    else (ok tt, record w { db = record w.db { nominees = n ∷ w.db.nominees } })

insert_nomination : Nomination → Action ⊤
insert_nomination n w =
    if not (nomination_checks n)
    then (err (integrity check), w)
    else if any (nomination_clash n) w.db.nominations
    then (err (integrity unique), w)
    else (ok tt, record w { db = record w.db { nominations = n ∷ w.db.nominations } })

abbrev pub submission_entry : Request → Award → Entry
submission_entry r a = record {
  action = AuditAction.nomination_submitted;
  actor_user = none;
  actor_voter = none;
  target = some ("nominations.nomination", r.second_uuid);
  metadata = ("award_id", Json.num a.id) ∷ ("nominee_id", Json.num r.uuid) ∷ [];
}

-- `NominationSubmitSerializer.create`, the body of the transaction.
unfoldable pub create_nomination : Env → Request → Form → Text → Award → Action Nomination
unfolding insert_nominee insert_nomination
create_nomination env r f phone a = do
  insert_nominee (new_nominee env r f phone)
  insert_nomination (new_nomination env r a)
  log env r.now (some r) (submission_entry r a)
  pure (new_nomination env r a)

-- `NominationViewSet.create`; `captcha` is what `verify_captcha` answers.
unfoldable pub submit_nomination : Env → PhoneNumbers → Request → Bool → Form → Action Nomination
submit_nomination env lib r captcha f = do
  raise_if (not captcha) (api captcha_failed)
  found ← (λ w. or_raise validation_error (validate_award w.db f.award) w)
  phone ← or_raise validation_error (validate_contact_phone lib f.contact_phone)
  raise_if (is_empty (clean_text env false f.name)) validation_error
  raise_if (not (nominations_are_open found.1 r.now)) (api nominations_closed)
  raise_if (is_empty f.contact_email && is_empty phone) validation_error
  (λ w.
      raise_if (is_duplicate env w.db found.0.id (clean_text env false f.name))
        (api duplicate_nomination) w)
  atomic (create_nomination env r f phone found.0)
