-- ===== src/Nominations/Serializers.antt =====
-- nominations/serializers.py: the shapes in which nominations are sent to the public and to moderators,
-- and `NominationViewSet.get_serializer_class`. The links of a nominee and the times of a row are not
-- modelled.
pub mod Private
use kw_awards_voting_platfom.Prelude.{
  ℕ, Bool, Option, none, some, List, map, Text, ◌==◌, find?, if◌then◌else◌,
}
use kw_awards_voting_platfom.Models.Accounts.{User}
use kw_awards_voting_platfom.Models.Events.{Event, Category, Award}
use kw_awards_voting_platfom.Models.Nominations.{Nominee, Nomination, NominationStatus}
use kw_awards_voting_platfom.Models.State.{Db, World, Env, Principal}
use kw_awards_voting_platfom.Events.{find_event, find_award, find_category}
use kw_awards_voting_platfom.Nominations.Views.{is_moderator, nomination_queryset}

-- `AwardRefSerializer`, with its `get_category`
pub record CategoryRef : Type 0 where
  pub id : ℕ
  pub name : Text
  pub slug : Text

pub record AwardRef : Type 0 where
  pub id : ℕ
  pub name : Text
  pub slug : Text
  pub category : CategoryRef
  pub event : Text

award_ref_in : Award → Category → Option Event → Option AwardRef
award_ref_in a c none = none
award_ref_in a c (some e) = some (record {
  id = a.id;
  name = a.name;
  slug = a.slug;
  category = record { id = c.id; name = c.name; slug = c.slug };
  event = e.slug;
})

award_ref_of : Db → Award → Option Category → Option AwardRef
unfolding award_ref_in
award_ref_of db a none = none
award_ref_of db a (some c) = award_ref_in a c (find_event c.event db)

award_ref_found : Db → Option Award → Option AwardRef
unfolding award_ref_of
award_ref_found db none = none
award_ref_found db (some a) = award_ref_of db a (find_category a.category db)

unfoldable pub award_ref : Db → ℕ → Option AwardRef
unfolding award_ref_found
award_ref db id = award_ref_found db (find_award id db)

-- `PublicNomineeSerializer`
pub record PublicNominee : Type 0 where
  pub id : ℕ
  pub name : Text
  pub stage_name : Text
  pub bio : Text
  pub photo : Text

abbrev pub public_nominee : Option Nominee → Option PublicNominee
public_nominee none = none
public_nominee (some n) =
    some
      (record { id = n.id; name = n.name; stage_name = n.stage_name; bio = n.bio; photo = n.photo })

-- `PublicNominationSerializer`
pub record PublicNomination : Type 0 where
  pub id : ℕ
  pub award : Option AwardRef
  pub nominee : Option PublicNominee

abbrev pub nominee_of : Db → Nomination → Option Nominee
nominee_of db n = find? (λ (x : Nominee). x.id == n.nominee) db.nominees

unfoldable pub public_nomination : Db → Nomination → PublicNomination
public_nomination db n = record {
  id = n.id;
  award = award_ref db n.award;
  nominee = public_nominee (nominee_of db n);
}

-- `StaffNominationSerializer`, with `StaffNomineeSerializer` and the e-mail address of the reviewer.
pub record StaffNomination : Type 0 where
  pub id : ℕ
  pub status : NominationStatus
  pub award : Option AwardRef
  pub nominee : Option Nominee
  pub submitted_by_ip : Option Text
  pub reviewed_by : Option Text
  pub reviewed_at : Option ℕ
  pub rejection_reason : Text

email_of : Option User → Option Text
email_of none = none
email_of (some u) = some u.email

reviewer_email : Db → Option ℕ → Option Text
unfolding email_of
reviewer_email db none = none
reviewer_email db (some id) = email_of (find? (λ (u : User). u.id == id) db.users)

unfoldable pub staff_nomination : Db → Nomination → StaffNomination
unfolding reviewer_email
staff_nomination db n = record {
  id = n.id;
  status = n.status;
  award = award_ref db n.award;
  nominee = nominee_of db n;
  submitted_by_ip = n.submitted_by_ip;
  reviewed_by = reviewer_email db n.reviewed_by;
  reviewed_at = n.reviewed_at;
  rejection_reason = n.rejection_reason;
}

-- An item of a response.
pub data Item : Type 0 where
  for_public : PublicNomination → Item
  for_staff : StaffNomination → Item

-- `get_serializer_class` of the list.
unfoldable pub serialize_nomination : Db → Principal → Nomination → Item
serialize_nomination db user n =
    if is_moderator db user
    then for_staff (staff_nomination db n)
    else for_public (public_nomination db n)

-- `NominationViewSet.list`, before its pages are cut.
unfoldable pub nomination_list : Env → Db → Principal → List Item
nomination_list env db user = map (serialize_nomination db user) (nomination_queryset env db user)
