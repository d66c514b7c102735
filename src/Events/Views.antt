-- ===== src/Events/Views.antt =====
-- events/views.py, events/selectors.py and events/serializers.py: what the public and event admins see of
-- events, categories and awards, the gate of the results, and the validation of windows.
pub mod Public
pub mod Validation
use kw_awards_voting_platfom.Prelude.{
  ℕ, Bool, true, false, ◌&&◌, ◌||◌, not, Option, none, some, List, [], ◌∷◌, map, ◌==◌, ltb, leb,
  find?, filter, is_some, Text, text_eq, if◌then◌else◌,
}
use kw_awards_voting_platfom.Exceptions.{Result, ok, err, not_found, validation_error}
use kw_awards_voting_platfom.Exec.{Action, raise_if, or_raise, gets, ◌>>=◌, ◌>>◌}
use kw_awards_voting_platfom.Models.Accounts.{Role}
use kw_awards_voting_platfom.Models.Events.{
  Event, EventStatus, Category, Award, draft, results_published, status_eq,
}
use kw_awards_voting_platfom.Models.State.{Db, World, Env, Request, Principal}
use kw_awards_voting_platfom.Access.{principal_has_role}
use kw_awards_voting_platfom.Events.{find_event, change_status}
use kw_awards_voting_platfom.Nominations.{event_of_award}
use kw_awards_voting_platfom.Voting.Results.{CategoryResults, event_results}

-- `is_event_admin`
unfoldable pub is_event_admin : Db → Principal → Bool
is_event_admin db user = principal_has_role db Role.event_admin user

-- A row whose joined event is there and is not a draft.
abbrev pub not_draft : Option Event → Bool
not_draft none = false
not_draft (some e) = not (status_eq e.status draft)

-- `exclude_drafts`; `event_of` is the join that `event_lookup` names.
unfoldable pub exclude_drafts : {A : Type 0} → (A → Option Event) → Db → Principal → List A → List A
exclude_drafts event_of db user rows =
    if is_event_admin db user then rows else filter (λ a. not_draft (event_of a)) rows

abbrev pub event_of_category : Db → Category → Option Event
event_of_category db c = find_event c.event db

-- `EventViewSet.get_queryset`, `CategoryViewSet.get_queryset` and `AwardViewSet.get_queryset`, without
-- what they prefetch.
unfoldable pub event_queryset : Db → Principal → List Event
event_queryset db user = exclude_drafts some db user db.events

unfoldable pub category_queryset : Db → Principal → List Category
category_queryset db user = exclude_drafts (event_of_category db) db user db.categories

unfoldable pub award_queryset : Db → Principal → List Award
award_queryset db user =
    let visible = exclude_drafts (event_of_award db) db user db.awards in
    if not (is_event_admin db user) then filter (λ (a : Award). a.is_active) visible else visible

-- `_AwardsMixin.get_awards`, with `include_inactive` of the context.
unfoldable pub get_awards : Db → Bool → Category → List Award
get_awards db include_inactive c =
    filter (λ (a : Award). include_inactive || a.is_active)
      (filter (λ (a : Award). a.category == c.id) db.awards)

-- `EventSerializer.get_categories`: the categories of an event, each with its awards. The context's
-- `include_inactive` is whether the viewer is an event admin (`get_serializer_context`).
unfoldable pub get_categories : Db → Principal → Event → List (Category × List Award)
get_categories db user e =
    map (λ (c : Category). (c, get_awards db (is_event_admin db user) c))
      (filter (λ (c : Category). c.event == e.id) db.categories)

-- `get_object` of the events, by slug.
unfoldable pub get_event : Principal → Text → Action Event
get_event user slug w =
    or_raise not_found (find? (λ (e : Event). text_eq e.slug slug) (event_queryset w.db user)) w

-- `EventViewSet.retrieve`, with the event's columns and its categories.
unfoldable pub retrieve_event : Principal → Text → Action (Event × List (Category × List Award))
retrieve_event user slug = do e ← get_event user slug; gets (λ db. (e, get_categories db user e))

-- `EventViewSet.results`
unfoldable pub results : Env → Principal → Text → Action (Event × List CategoryResults)
results env user slug = do
  e ← get_event user slug
  (λ w.
      raise_if (not (is_event_admin w.db user) && not (status_eq e.status results_published))
        not_found w)
  gets (λ db. (e, event_results env db e.id))

-- `EventViewSet.set_status`, behind its permission and for a status that the serializer takes.
unfoldable pub set_status : Env → Request → Text → EventStatus → Action Event
set_status env r slug new_status = do
  e ← get_event r.user slug
  change_status env r.now (some r) e.id new_status

-- The windows of the fields after the request: those that it names, and the stored ones.
pub record Windows : Type 0 where
  pub nominations_open_at : Option ℕ
  pub nominations_close_at : Option ℕ
  pub voting_opens_at : Option ℕ
  pub voting_closes_at : Option ℕ

-- `attrs[name] if name in attrs else getattr(self.instance, name, None)`
abbrev pub value : Option (Option ℕ) → Option ℕ → Option ℕ
value none stored = stored
value (some given) stored = given

-- What a request gives for the windows: `none` where it does not name the field.
pub record GivenWindows : Type 0 where
  pub nominations_open_at : Option (Option ℕ)
  pub nominations_close_at : Option (Option ℕ)
  pub voting_opens_at : Option (Option ℕ)
  pub voting_closes_at : Option (Option ℕ)

unfoldable pub merge_windows : GivenWindows → Windows → Windows
merge_windows given stored = record {
  nominations_open_at = value given.nominations_open_at stored.nominations_open_at;
  nominations_close_at = value given.nominations_close_at stored.nominations_close_at;
  voting_opens_at = value given.voting_opens_at stored.voting_opens_at;
  voting_closes_at = value given.voting_closes_at stored.voting_closes_at;
}

-- The keys of `errors`.
pub data WindowError : Type 0 where
  nominations_close_at voting_closes_at voting_opens_at : WindowError

-- `a and b and not a < b`, and the same with `<=`.
abbrev pub not_before : Option ℕ → Option ℕ → Bool
not_before (some a) (some b) = not (ltb a b)
not_before _ _ = false

abbrev pub after : Option ℕ → Option ℕ → Bool
after (some a) (some b) = not (leb a b)
after _ _ = false

unfoldable pub add_error : Bool → WindowError → List WindowError → List WindowError
add_error wrong e errors = if wrong then e ∷ errors else errors

unfoldable pub window_errors : Windows → List WindowError
unfolding add_error
window_errors w =
    add_error (not_before w.nominations_open_at w.nominations_close_at)
      WindowError.nominations_close_at
      (add_error (not_before w.voting_opens_at w.voting_closes_at) WindowError.voting_closes_at
        (add_error (after w.nominations_close_at w.voting_opens_at) WindowError.voting_opens_at []))

abbrev if_none : List WindowError → Windows → Result Windows
if_none [] w = ok w
if_none (e ∷ errors) w = err validation_error

-- `EventSerializer.validate`, on the windows of the stored event, all unset for a new one.
unfoldable pub validate : GivenWindows → Windows → Result Windows
validate given stored = let w = merge_windows given stored in if_none (window_errors w) w
