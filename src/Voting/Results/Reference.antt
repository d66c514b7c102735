-- ===== src/Voting/Results/Reference.antt =====
-- `event_results`, which groups all votes of an event at once, against the tally of each award.
use kw_awards_voting_platfom.Prelude.{
  ℕ, true, ◌&&◌, some, List, [], ◌∷◌, ◌≡◌, refl, ap, ◌==◌, ==_iff, map, filter, All, All-map,
  All-zip, All-filter, All-filtered, arith,
}
use kw_awards_voting_platfom.Prelude.Sorting.{sort_by, All-sort_by}
use kw_awards_voting_platfom.Models.Events.{Event, Category, Award}
use kw_awards_voting_platfom.Models.State.{Db, Env}
use kw_awards_voting_platfom.Events.{find_award, find_category, find_event}
use kw_awards_voting_platfom.Nominations.{event_of_award}
use kw_awards_voting_platfom.Voting.Results.{
  totals_by_nomination, award_tally, total_votes, event_nominations, AwardResults, CategoryResults,
  award_results, event_results, order_le,
}
use kw_awards_voting_platfom.Voting.Results.Agreement.{Carries, Follows, by_award-award_tally}

-- The categories of an event and the active awards of a category, in their order.
abbrev pub ordered_categories : Env → Db → ℕ → List Category
ordered_categories env db event =
    sort_by (λ (a b : Category). order_le env.collate a.display_order a.name b.display_order b.name)
      (filter (λ (c : Category). c.event == event) db.categories)

abbrev pub ordered_awards : Env → Db → ℕ → List Award
ordered_awards env db category =
    sort_by (λ (a b : Award). order_le env.collate a.display_order a.name b.display_order b.name)
      (filter (λ (a : Award). a.category == category && a.is_active) db.awards)

-- The results of an event, award by award: each with its own tally and the sum of the tally.
abbrev pub tallied : Env → Db → Award → AwardResults
tallied env db a = record {
  award = a.id;
  votes = total_votes (award_tally env db a.id);
  nominations = award_tally env db a.id;
}

pub tallies_of_event : Env → Db → ℕ → List CategoryResults
tallies_of_event env db event =
    map
      (λ (c : Category). record {
        category = c.id;
        awards = map (tallied env db) (ordered_awards env db c.id);
      })
      (ordered_categories env db event)

-- The rows of the catalogue are found by their identifiers.
pub record IsKeyed (db : Db) : Type 0 where
  pub categories : All (λ (c : Category). find_category c.id db ≡ some c) db.categories
  pub awards : All (λ (a : Award). find_award a.id db ≡ some a) db.awards

-- A vote for a nomination carries the award of the nomination, and a vote with an award of the event
-- carries the event.
pub record IsCarried (db : Db) (e : Event) : Type 0 where
  pub award : All (λ (a : Award). Follows a.id db.nominations db.votes) db.awards
  pub event :
      All (λ (a : Award). event_of_award db a ≡ some e → Carries a.id e.id db.votes) db.awards

map_cong :
    {A B : Type 0} (f g : A → B) (xs : List A) → All (λ x. f x ≡ g x) xs → map f xs ≡ map g xs
map_cong f g [] h = refl
map_cong f g (x ∷ xs) h = rw (h.0, map_cong f g xs h.1) refl

module _ (env : Env) (db : Db) (e : Event) where
  award_results-tallied :
      (a : Award)
      → find_award a.id db ≡ some a
      → event_of_award db a ≡ some e
      → Carries a.id e.id db.votes
      → Follows a.id db.nominations db.votes
      → award_results env db
          (totals_by_nomination (λ v. v.event == e.id) db.votes)
          (event_nominations db e.id)
          a
        ≡ tallied env db a
  unfolding award_results
  award_results-tallied a found there carries follows =
      rw (by_award-award_tally db a e found there carries env follows) refl

  in_category :
      (c : Category) (a : Award)
      → find_category c.id db ≡ some c
      → find_event c.event db ≡ some e
      → (a.category == c.id) ≡ true
      → event_of_award db a ≡ some e
  unfolding event_of_award
  in_category c a category_found event_found same =
      rw ((==_iff a.category c.id).0 same) (rw category_found event_found)

  module _ (found : find_event e.id db ≡ some e) (keyed : IsKeyed db)
      (carried : IsCarried db e) where
    -- What is known of an award of the catalogue.
    abbrev Known : Award → Type 0
    Known a =
        (find_award a.id db ≡ some a)
        × (Follows a.id db.nominations db.votes
            × (event_of_award db a ≡ some e → Carries a.id e.id db.votes))

    known : All Known db.awards
    known = All-zip _ _ db.awards keyed.awards (All-zip _ _ db.awards carried.award carried.event)

    category-tallied :
        (c : Category)
        → find_category c.id db ≡ some c
        → (c.event == e.id) ≡ true
        → map
            (award_results env db
              (totals_by_nomination (λ v. v.event == e.id) db.votes)
              (event_nominations db e.id))
            (ordered_awards env db c.id)
          ≡ map (tallied env db) (ordered_awards env db c.id)
    category-tallied c category_found ours =
        let event_found : find_event c.event db ≡ some e =
          rw ((==_iff c.event e.id).0 ours) found in
        let chosen = λ (a : Award). a.category == c.id && a.is_active in
        map_cong _ _ (ordered_awards env db c.id) (
          All-sort_by _ _ (filter chosen db.awards) (
            All-map (λ a. Known a × (chosen a ≡ true)) _ (filter chosen db.awards)
              (λ a (facts, chosen_here).
                let there =
                  in_category c a category_found event_found (ground (arith, chosen_here)) in
                award_results-tallied a facts.0 there (facts.1.1 there) facts.1.0)
              (All-zip _ _ (filter chosen db.awards) (All-filter Known chosen db.awards known)
                (All-filtered chosen db.awards))))

    -- The results of an event, which are computed from one grouping of all votes of the event, are those
    -- that the tallies of its awards give: the same categories and active awards in the same order, each
    -- award with its tally and the sum of its tally. This holds where the rows of the catalogue are found
    -- by their identifiers, every vote for a nomination carries the award of the nomination, and every vote
    -- with an award of the event carries the event.
    pub event_results-award_tally : event_results env db e.id ≡ tallies_of_event env db e.id
    unfolding event_results tallies_of_event
    event_results-award_tally =
        let ours = λ (c : Category). c.event == e.id in
        map_cong _ _ (ordered_categories env db e.id) (
          All-sort_by _ _ (filter ours db.categories) (
            All-map (λ c. (find_category c.id db ≡ some c) × (ours c ≡ true)) _
              (filter ours db.categories)
              (λ c (category_found, own).
                ap (λ awards. record { category = c.id; awards = awards })
                  (category-tallied c category_found own))
              (All-zip _ _ (filter ours db.categories)
                (All-filter _ ours db.categories keyed.categories)
                (All-filtered ours db.categories))))
