-- ===== src/Events/Views/Public.antt =====
-- What callers who are not event admins see.
use kw_awards_voting_platfom.Prelude.{
  Bool, true, false, ◌||◌, Option, none, some, List, [], ◌∷◌, map, ◌≡◌, find?, filter, All,
  All-filter, All-filtered, All-zip, ◌==◌, Text, text_eq, arith,
}
use kw_awards_voting_platfom.Exceptions.{ok, err, not_found}
use kw_awards_voting_platfom.Models.Events.{
  Event, Category, Award, results_published, status_eq, is_public,
}
use kw_awards_voting_platfom.Models.State.{Db, World, Env, Principal}
use kw_awards_voting_platfom.Nominations.{event_of_award}
use kw_awards_voting_platfom.Voting.Results.{event_results}
use kw_awards_voting_platfom.Events.Views.{
  is_event_admin, not_draft, exclude_drafts, event_of_category, event_queryset, category_queryset,
  award_queryset, get_awards, get_categories, get_event, results,
}

All-mapped :
    {A B : Type 0} (P : B → Type 0) (f : A → B) (xs : List A)
    → ((x : A) → P (f x))
    → All P (map f xs)
All-mapped P f [] h = tt
All-mapped P f (x ∷ xs) h = (h x, All-mapped P f xs h)

-- All awards that are listed are active.
abbrev AreActive : List Award → Type 0
AreActive awards = All (λ (a : Award). a.is_active ≡ true) awards

module _ (db : Db) (user : Principal) (other : is_event_admin db user ≡ false) where
  -- A caller who is not an event admin sees no draft, nothing inside a draft, and no award that is not
  -- active: not in the lists of events, categories and awards, and not nested in a category.
  pub querysets-public :
      All (λ (e : Event). is_public e ≡ true) (event_queryset db user)
      × All
          (λ (c : Category). not_draft (event_of_category db c) ≡ true)
          (category_queryset db user)
      × All
          (λ (a : Award). (a.is_active ≡ true) × (not_draft (event_of_award db a) ≡ true))
          (award_queryset db user)
      × ((e : Event)
          → All (λ (item : Category × List Award). AreActive item.1) (get_categories db user e))
  unfolding event_queryset category_queryset award_queryset get_categories get_awards exclude_drafts
  querysets-public =
      let visible = filter (λ (a : Award). not_draft (event_of_award db a)) db.awards in
      rw other (
        All-filtered is_public db.events,
        All-filtered (λ c. not_draft (event_of_category db c)) db.categories,
        All-zip (λ (a : Award). a.is_active ≡ true) (λ a. not_draft (event_of_award db a) ≡ true)
            (filter (λ (a : Award). a.is_active) visible)
            (All-filtered (λ (a : Award). a.is_active) visible)
            (All-filter (λ a. not_draft (event_of_award db a) ≡ true) (λ (a : Award). a.is_active)
              visible (All-filtered (λ a. not_draft (event_of_award db a)) db.awards)),
        λ e.
            All-mapped (λ (item : Category × List Award). AreActive item.1) _ _
              (λ c.
                All-filtered (λ (a : Award). a.is_active)
                  (filter (λ (a : Award). a.category == c.id) db.awards)),
      )

-- Whether the results of an event are for the caller.
abbrev may_read : Db → Principal → Event → Bool
may_read db user e = is_event_admin db user || status_eq e.status results_published

module _ (env : Env) (user : Principal) (slug : Text) (w : World) where
  abbrev looked_up : Option Event
  looked_up = find? (λ (x : Event). text_eq x.slug slug) (event_queryset w.db user)

  -- The results are those of the event that the caller sees under the slug, if its results are published
  -- or the caller is an event admin. Otherwise the answer is "not found", the same as for a slug that no
  -- event has. Nothing changes.
  pub results_lem :
      (looked_up ≡ none → results env user slug w ≡ (err not_found, w))
      × ((e : Event)
          → looked_up ≡ some e
          → (may_read w.db user e ≡ true
              → results env user slug w ≡ (ok (e, event_results env w.db e.id), w))
            × (may_read w.db user e ≡ false → results env user slug w ≡ (err not_found, w)))
  unfolding results get_event
  results_lem =
      ((λ absent. ground arith), (λ e found. ((λ may. ground arith), (λ may_not. ground arith))))
