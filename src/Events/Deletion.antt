-- ===== src/Events/Deletion.antt =====
-- The deletion of events, categories and awards: `perform_destroy` of events/views.py, with the foreign
-- keys of events/models.py, nominations/models.py, voting/models.py and payments/models.py.
pub mod Links
pub mod Integrity
pub mod Outcomes
use kw_awards_voting_platfom.Prelude.{
  ℕ, Bool, true, false, ◌&&◌, ◌||◌, not, List, [], ◌∷◌, map, ◌==◌, any, filter, if◌then◌else◌,
}
use kw_awards_voting_platfom.Exceptions.{Exc, ok, err, api, conflict, protected_error}
use kw_awards_voting_platfom.Exec.{⊤, Action, raise, catch}
use kw_awards_voting_platfom.Models.Events.{Event, Category, Award}
use kw_awards_voting_platfom.Models.Nominations.{Nomination}
use kw_awards_voting_platfom.Models.Voting.{Vote}
use kw_awards_voting_platfom.Models.Payments.{Payment}
use kw_awards_voting_platfom.Models.State.{Db, World}

-- The identifiers of the rows that a deletion takes along by `CASCADE`.
pub record Collected : Type 0 where
  pub events : List ℕ
  pub categories : List ℕ
  pub awards : List ℕ
  pub nominations : List ℕ

abbrev pub among : List ℕ → ℕ → Bool
among ids id = any (λ j. id == j) ids

abbrev pub categories_of : Db → List ℕ → List ℕ
categories_of db events =
    map (λ (c : Category). c.id) (filter (λ (c : Category). among events c.event) db.categories)

abbrev pub awards_of : Db → List ℕ → List ℕ
awards_of db categories =
    map (λ (a : Award). a.id) (filter (λ (a : Award). among categories a.category) db.awards)

abbrev pub nominations_of : Db → List ℕ → List ℕ
nominations_of db awards =
    map (λ (n : Nomination). n.id)
      (filter (λ (n : Nomination). among awards n.award) db.nominations)

unfoldable pub collect_award : Db → ℕ → Collected
collect_award db id = record {
  events = [];
  categories = [];
  awards = id ∷ [];
  nominations = nominations_of db (id ∷ []);
}

unfoldable pub collect_category : Db → ℕ → Collected
collect_category db id =
    let awards = awards_of db (id ∷ []) in
    record {
      events = [];
      categories = id ∷ [];
      awards = awards;
      nominations = nominations_of db awards;
    }

unfoldable pub collect_event : Db → ℕ → Collected
collect_event db id =
    let categories = categories_of db (id ∷ []) in
    let awards = awards_of db categories in
    record {
      events = id ∷ [];
      categories = categories;
      awards = awards;
      nominations = nominations_of db awards;
    }

-- The keys of votes and payments to what is collected, all `PROTECT`.
abbrev pub vote_refers : Collected → Vote → Bool
vote_refers c v =
    among c.events v.event || (among c.awards v.award || among c.nominations v.nomination)

abbrev pub payment_refers : Collected → Payment → Bool
payment_refers c p = among c.nominations p.nomination

-- `instance.delete()`, once the rows are collected.
unfoldable pub delete_collected : Collected → Action ⊤
delete_collected c w =
    if any (vote_refers c) w.db.votes || any (payment_refers c) w.db.payments
    then (err protected_error, w)
    else (
      ok tt,
      record w {
        db = record w.db {
          events = filter (λ (e : Event). not (among c.events e.id)) w.db.events;
          categories = filter (λ (x : Category). not (among c.categories x.id)) w.db.categories;
          awards = filter (λ (a : Award). not (among c.awards a.id)) w.db.awards;
          nominations =
              filter (λ (n : Nomination). not (among c.nominations n.id)) w.db.nominations;
        };
      },
    )

-- `except ProtectedError`
on_protected : Exc → Action ⊤
on_protected protected_error = raise (api conflict)
on_protected e = raise e

-- `perform_destroy` of an instance whose deletion collects `c`.
unfoldable pub perform_destroy : (Db → Collected) → Action ⊤
unfolding on_protected
perform_destroy collect w = catch (delete_collected (collect w.db)) on_protected w
