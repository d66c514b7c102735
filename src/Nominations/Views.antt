-- ===== src/Nominations/Views.antt =====
-- nominations/views.py: what the public and moderators see of the nominations, and the endpoints of the
-- review. Pages, filters and the columns of a response are not modelled.
pub mod Shown
pub mod Queue
use kw_awards_voting_platfom.Prelude.{
  ℕ, Bool, true, false, ◌&&◌, not, Option, none, some, List, [], ◌∷◌, Text, text_eq, is_empty, ◌==◌,
  leb, find?, filter, any, if◌then◌else◌,
}
use kw_awards_voting_platfom.Exceptions.{
  Result, ok, err, not_found, validation_error, attribute_error,
}
use kw_awards_voting_platfom.Prelude.Sorting.{sort_by}
use kw_awards_voting_platfom.Exec.{Action, gets, raise_if, or_raise, ◌>>=◌, ◌>>◌}
use kw_awards_voting_platfom.CleanText.{clean_text}
use kw_awards_voting_platfom.Models.Accounts.{Role}
use kw_awards_voting_platfom.Models.Events.{Award}
use kw_awards_voting_platfom.Models.Nominations.{Nominee, Nomination}
use kw_awards_voting_platfom.Models.State.{
  Db, World, Env, Request, Principal, anonymous, staff, voter,
}
use kw_awards_voting_platfom.Access.{principal_has_role, has_permission}
use kw_awards_voting_platfom.Events.{find_award}
use kw_awards_voting_platfom.Events.Views.{not_draft}
use kw_awards_voting_platfom.Nominations.{event_of_award, public_nominations, review_nomination}

abbrev pub name_of : Option Nominee → Text
name_of none = []
name_of (some n) = n.name

abbrev pub nominee_name : Db → Nomination → Text
nominee_name db n = name_of (find? (λ (x : Nominee). x.id == n.nominee) db.nominees)

-- `order_by("nominee__name", "id")`
unfoldable pub by_name : Env → Db → Nomination → Nomination → Bool
by_name env db a b =
    if text_eq (nominee_name db a) (nominee_name db b)
    then leb a.id b.id
    else env.collate (nominee_name db a) (nominee_name db b)

-- `public_nominations`, in its order.
unfoldable pub visible_nominations : Env → Db → List Nomination
visible_nominations env db = sort_by (by_name env db) (public_nominations db)

-- `NominationViewSet._is_moderator`
unfoldable pub is_moderator : Db → Principal → Bool
is_moderator db user = principal_has_role db Role.moderator user

-- `NominationViewSet.get_queryset`. A table stands newest first, which is the order of the queue.
unfoldable pub nomination_queryset : Env → Db → Principal → List Nomination
nomination_queryset env db user =
    if is_moderator db user then db.nominations else visible_nominations env db

-- `get_object`, and `NominationViewSet.retrieve`.
unfoldable pub get_nomination : Env → Principal → ℕ → Action Nomination
get_nomination env user pk w =
    or_raise not_found (find? (λ (n : Nomination). n.id == pk) (nomination_queryset env w.db user))
      w

-- The actions of `NominationViewSet`.
pub data NominationAction : Type 0 where
  list_nominations retrieve_nomination create approve reject : NominationAction

-- `NominationViewSet.get_permissions`, with what the permission answers.
unfoldable pub nomination_permission : Env → Request → Text → Text → NominationAction → Action Bool
nomination_permission env r path method NominationAction.approve w =
    has_permission env r Role.moderator path method w
nomination_permission env r path method NominationAction.reject w =
    has_permission env r Role.moderator path method w
nomination_permission env r path method _ w = (ok true, w)

reviewer_of : Principal → Option ℕ
reviewer_of (staff u) = some u
reviewer_of _ = none

-- `services.review_nomination(self.get_object(), ...)` by `request.user`
unfoldable pub review_object : Env → Request → ℕ → Bool → Text → Action Nomination
unfolding reviewer_of
review_object env r pk approves reason = do
  n ← get_nomination env r.user pk
  u ← (λ w. or_raise attribute_error (reviewer_of r.user) w)
  review_nomination env r.now (some r) n.id approves u reason

-- `NominationViewSet.approve`
unfoldable pub post_approve : Env → Request → ℕ → Action Nomination
post_approve env r pk = review_object env r pk true []

-- `NominationViewSet.reject`, with `RejectSerializer`: a reason that is empty once it is cleaned is
-- refused.
unfoldable pub post_reject : Env → Request → ℕ → Text → Action Nomination
post_reject env r pk raw = do
  raise_if (is_empty (clean_text env false raw)) validation_error
  review_object env r pk false (clean_text env false raw)

-- `NomineeViewSet.retrieve`: a nominee with a visible nomination, and its visible nominations.
unfoldable pub nominee_profile : Env → ℕ → Action (Nominee × List Nomination)
nominee_profile env pk = do
  n ← (λ w.
      or_raise not_found
        (find? (λ (x : Nominee). x.id == pk)
          (filter
            (λ (x : Nominee).
              any (λ (m : Nomination). m.nominee == x.id) (visible_nominations env w.db))
            w.db.nominees))
        w)
  gets (λ db. (n, filter (λ (m : Nomination). m.nominee == n.id) (visible_nominations env db)))

-- `Award.objects.filter(is_active=True).exclude(category__event__status=DRAFT)`
abbrev listed_award : Db → Option Award → Option Award
listed_award db none = none
listed_award db (some a) = if a.is_active && not_draft (event_of_award db a) then some a else none

-- `AwardNominationsView.get_queryset`
unfoldable pub award_nominations : Env → ℕ → Action (List Nomination)
award_nominations env award_id = do
  a ← (λ w. or_raise not_found (listed_award w.db (find_award award_id w.db)) w)
  gets (λ db. filter (λ (n : Nomination). n.award == a.id) (visible_nominations env db))
