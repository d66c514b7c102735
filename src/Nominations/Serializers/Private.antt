-- ===== src/Nominations/Serializers/Private.antt =====
-- The columns that the public list does not read.
use kw_awards_voting_platfom.Prelude.{
  ℕ, false, Option, none, some, [], map, ◌≡◌, refl, sym, ap, ◌∙◌, ◌==◌,
}
use kw_awards_voting_platfom.Prelude.Sorting.{sort_by}
use kw_awards_voting_platfom.Prelude.Mapping.{
  map_found, find?-map, filter-map, sort_by-map, map-map,
}
use kw_awards_voting_platfom.Models.Nominations.{Nominee, Nomination}
use kw_awards_voting_platfom.Models.State.{Db, Env, Principal, anonymous, staff, voter}
use kw_awards_voting_platfom.Events.{find_event, find_award, find_category}
use kw_awards_voting_platfom.Nominations.{
  is_shown, public_nominations, award_and_event, event_of_award,
}
use kw_awards_voting_platfom.Nominations.Views.{
  name_of, nominee_name, by_name, visible_nominations, is_moderator, nomination_queryset,
}
use kw_awards_voting_platfom.Nominations.Serializers.{
  for_public, public_nominee, nominee_of, award_ref, public_nomination, serialize_nomination,
  nomination_list,
}

abbrev pub without_contact : Nominee → Nominee
without_contact n = record n { contact_phone = []; contact_email = []; owner = none }

abbrev pub without_review : Nomination → Nomination
without_review n = record n {
  submitted_by_ip = none;
  reviewed_by = none;
  reviewed_at = none;
  rejection_reason = [];
}

-- The database without the contacts of nominees and the origin and the review of nominations.
unfoldable pub scrubbed : Db → Db
scrubbed db = record db {
  nominees = map without_contact db.nominees;
  nominations = map without_review db.nominations;
}

module _ (db : Db) where
  scrubbed-nominee :
      (n : Nomination)
      → nominee_of (scrubbed db) (without_review n) ≡ map_found without_contact (nominee_of db n)
  unfolding scrubbed
  scrubbed-nominee n =
      find?-map without_contact _ (λ (x : Nominee). x.id == n.nominee) db.nominees (λ x. refl)

  same_name : (o : Option Nominee) → name_of (map_found without_contact o) ≡ name_of o
  same_name none = refl
  same_name (some n) = refl

  same_public :
      (o : Option Nominee) → public_nominee (map_found without_contact o) ≡ public_nominee o
  same_public none = refl
  same_public (some n) = refl

  scrubbed-name :
      (n : Nomination) → nominee_name (scrubbed db) (without_review n) ≡ nominee_name db n
  scrubbed-name n = ap name_of (scrubbed-nominee n) ∙ same_name (nominee_of db n)

  scrubbed-by_name :
      (env : Env) (a b : Nomination)
      → by_name env (scrubbed db) (without_review a) (without_review b) ≡ by_name env db a b
  unfolding by_name
  scrubbed-by_name env a b = rw (scrubbed-name a, scrubbed-name b) refl

  scrubbed-is_shown : (n : Nomination) → is_shown (scrubbed db) (without_review n) ≡ is_shown db n
  unfolding is_shown scrubbed award_and_event event_of_award find_award find_category find_event
  scrubbed-is_shown n = refl

  scrubbed-public_nominations :
      public_nominations (scrubbed db) ≡ map without_review (public_nominations db)
  unfolding public_nominations scrubbed
  scrubbed-public_nominations =
      filter-map without_review (is_shown (scrubbed db)) (is_shown db) db.nominations
        scrubbed-is_shown

  scrubbed-visible :
      (env : Env)
      → visible_nominations env (scrubbed db) ≡ map without_review (visible_nominations env db)
  unfolding visible_nominations
  scrubbed-visible env =
      ap (sort_by (by_name env (scrubbed db))) scrubbed-public_nominations
      ∙ sort_by-map without_review (by_name env (scrubbed db)) (by_name env db)
          (scrubbed-by_name env) (public_nominations db)

  scrubbed-award_ref : (id : ℕ) → award_ref (scrubbed db) id ≡ award_ref db id
  unfolding award_ref scrubbed find_award find_category find_event
  scrubbed-award_ref id = refl

  scrubbed-public_nomination :
      (n : Nomination) → public_nomination (scrubbed db) (without_review n) ≡ public_nomination db n
  unfolding public_nomination
  scrubbed-public_nomination n =
      rw (scrubbed-award_ref n.award, scrubbed-nominee n, same_public (nominee_of db n)) refl

  scrubbed-is_moderator :
      (user : Principal) → is_moderator (scrubbed db) user ≡ is_moderator db user
  unfolding is_moderator scrubbed kw_awards_voting_platfom.Access.principal_has_role
  scrubbed-is_moderator anonymous = refl
  scrubbed-is_moderator (staff u) = refl
  scrubbed-is_moderator (voter v) = refl

  module _ (env : Env) (user : Principal) (other : is_moderator db user ≡ false) where
    still_other : is_moderator (scrubbed db) user ≡ false
    still_other = scrubbed-is_moderator user ∙ other

    scrubbed-item :
        (n : Nomination)
        → serialize_nomination (scrubbed db) user (without_review n)
          ≡ serialize_nomination db user n
    unfolding serialize_nomination
    scrubbed-item n = rw (still_other, other) (ap for_public (scrubbed-public_nomination n))

    scrubbed-nomination_list : nomination_list env (scrubbed db) user ≡ nomination_list env db user
    unfolding nomination_list nomination_queryset
    scrubbed-nomination_list =
        rw (still_other, other)
          (ap (map (serialize_nomination (scrubbed db) user)) (scrubbed-visible env)
            ∙ map-map without_review (serialize_nomination (scrubbed db) user)
                (serialize_nomination db user) (visible_nominations env db) scrubbed-item)

-- The list of nominations tells a caller who is not a moderator nothing about the contacts and the
-- owners of nominees, nor about the address that a nomination came from, its reviewer, the time of the
-- review and the reason of a rejection: two databases that differ in these only give the same list.
pub nomination_list-scrubbed :
    (env : Env) (db db' : Db) (user : Principal)
    → scrubbed db ≡ scrubbed db'
    → is_moderator db user ≡ false
    → nomination_list env db user ≡ nomination_list env db' user
nomination_list-scrubbed env db db' user same other =
    let other' : is_moderator db' user ≡ false =
      sym (scrubbed-is_moderator db' user)
      ∙ ap (λ x. is_moderator x user) (sym same)
      ∙ still_other db env user other in
    sym (scrubbed-nomination_list db env user other)
    ∙ ap (λ x. nomination_list env x user) same
    ∙ scrubbed-nomination_list db' env user other'
