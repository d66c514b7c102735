-- ===== src/Voting/Results.antt =====
-- voting/results.py: results are computed from the votes, never stored.
pub mod Ranking
pub mod Tallies
pub mod Agreement
pub mod Reference
pub mod Stats
use kw_awards_voting_platfom.Prelude.{
  ℕ, ◌+◌, Bool, true, false, ◌&&◌, ◌||◌, not, Option, none, some, List, [], ◌∷◌, map, ◌==◌, ltb,
  leb, filter, find?, count_where, sum_where, Text, text_eq, text_le, if◌then◌else◌,
}
use kw_awards_voting_platfom.Prelude.Sorting.{sort_by}
use kw_awards_voting_platfom.Models.Events.{Event, Award, Category}
use kw_awards_voting_platfom.Models.Nominations.{Nomination, Nominee, approved, pending, nstatus_eq}
use kw_awards_voting_platfom.Models.Voting.{Vote, is_active_vote}
use kw_awards_voting_platfom.Models.State.{Db, Env}
use kw_awards_voting_platfom.Events.{find_award}
use kw_awards_voting_platfom.Nominations.{award_and_event}

-- A dictionary from a nomination to its votes.
abbrev pub Totals : Type 0
Totals = List (ℕ × ℕ)

-- One more row of the group with key `k`.
unfoldable pub add_total : ℕ → ℕ → Totals → Totals
add_total k q [] = (k, q) ∷ []
add_total k q ((j, t) ∷ rest) = if j == k then (j, t + q) ∷ rest else (j, t) ∷ add_total k q rest

-- `_totals_by_nomination(**filters)`: active votes that pass the filter, grouped by nomination.
unfoldable pub totals_by_nomination : (Vote → Bool) → List Vote → Totals
unfolding add_total
totals_by_nomination filters [] = []
totals_by_nomination filters (v ∷ votes) =
    let rest = totals_by_nomination filters votes in
    if is_active_vote v && filters v then add_total v.nomination v.quantity rest else rest

-- `totals.get(k, 0)`
unfoldable pub get_total : ℕ → Totals → ℕ
get_total k [] = 0
get_total k ((j, t) ∷ rest) = if j == k then t else get_total k rest

-- An entry of a ranking. Its photo and stage name, which are only shown, are left out.
pub record Entry : Type 0 where
  pub nomination_id : ℕ
  pub nominee_id : ℕ
  pub name : Text
  pub votes : ℕ
  pub rank : ℕ

-- The sort key of `_rank`, as a test: more votes first, then the name in lower case, then the
-- nomination. The text of a uuid is ordered as the number that it writes.
unfoldable pub rank_le : (Text → Text) → Entry → Entry → Bool
rank_le lower a b =
    ltb b.votes a.votes
    || (a.votes == b.votes
        && (not (text_le (lower b.name) (lower a.name))
            || (text_eq (lower a.name) (lower b.name) && leb a.nomination_id b.nomination_id)))

-- `1 + sum(1 for other in entries if other["votes"] > entry["votes"])`
abbrev pub rank_in : List Entry → ℕ → ℕ
rank_in entries votes = 1 + count_where (λ (other : Entry). ltb votes other.votes) entries

abbrev pub with_rank : List Entry → Entry → Entry
with_rank entries e = record e { rank = rank_in entries e.votes }

unfoldable pub rank : (Text → Text) → List Entry → List Entry
rank lower entries = let sorted = sort_by (rank_le lower) entries in map (with_rank sorted) sorted

name_of : Option Nominee → Text
name_of none = []
name_of (some n) = n.name

-- `_entry`; the rank is filled in by `_rank`.
unfoldable pub entry : Db → Totals → Nomination → Entry
unfolding name_of
entry db totals n = record {
  nomination_id = n.id;
  nominee_id = n.nominee;
  name = name_of (find? (λ (x : Nominee). x.id == n.nominee) db.nominees);
  votes = get_total n.id totals;
  rank = 0;
}

-- The approved nominations of an award.
unfoldable pub award_nominations : Db → ℕ → List Nomination
award_nominations db award =
    filter (λ (n : Nomination). n.award == award && nstatus_eq n.status approved) db.nominations

unfoldable pub award_tally : Env → Db → ℕ → List Entry
award_tally env db award = rank env.lower (
    map (entry db (totals_by_nomination (λ v. v.award == award) db.votes))
      (award_nominations db award))

-- `sum(e["votes"] for e in entries)`
unfoldable pub total_votes : List Entry → ℕ
total_votes [] = 0
total_votes (e ∷ entries) = e.votes + total_votes entries

pub record AwardResults : Type 0 where
  pub award : ℕ
  pub votes : ℕ
  pub nominations : List Entry

pub record CategoryResults : Type 0 where
  pub category : ℕ
  pub awards : List AwardResults

unfoldable pub in_event : ℕ → Option (Award × Event) → Bool
in_event event none = false
in_event event (some (a, e)) = e.id == event

-- The approved nominations of an event's awards, by the join `award__category__event`.
unfoldable pub event_nominations : Db → ℕ → List Nomination
unfolding in_event
event_nominations db event =
    filter
      (λ (n : Nomination). in_event event (award_and_event db n) && nstatus_eq n.status approved)
      db.nominations

-- The list that `by_award` holds for an award.
unfoldable pub by_award : Db → Totals → List Nomination → ℕ → List Entry
by_award db totals nominations award =
    map (entry db totals) (filter (λ (n : Nomination). n.award == award) nominations)

abbrev pub order_le : (Text → Text → Bool) → ℕ → Text → ℕ → Text → Bool
order_le collate a s b t = ltb a b || (a == b && collate s t)

unfoldable pub award_results : Env → Db → Totals → List Nomination → Award → AwardResults
award_results env db totals nominations a =
    let entries = rank env.lower (by_award db totals nominations a.id) in
    record { award = a.id; votes = total_votes entries; nominations = entries }

-- `event_results`, without the event's own columns: categories, awards, ranked nominations.
unfoldable pub event_results : Env → Db → ℕ → List CategoryResults
event_results env db event =
    let totals = totals_by_nomination (λ v. v.event == event) db.votes in
    let nominations = event_nominations db event in
    map
      (λ (c : Category). record {
        category = c.id;
        awards = map (award_results env db totals nominations) (
            sort_by
              (λ (a b : Award). order_le env.collate a.display_order a.name b.display_order b.name)
              (filter (λ (a : Award). a.category == c.id && a.is_active) db.awards));
      })
      (sort_by
        (λ (a b : Category). order_le env.collate a.display_order a.name b.display_order b.name)
        (filter (λ (c : Category). c.event == event) db.categories))
