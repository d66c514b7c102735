-- ===== src/Voting/Results/Stats.antt =====
-- voting/results.py: `event_stats`, the numbers of the dashboard.
pub mod Sums
use kw_awards_voting_platfom.Prelude.{
  ℕ, ◌+◌, Bool, true, false, ◌&&◌, ◌||◌, not, Option, none, some, List, [], ◌∷◌, map, ◌==◌, leb,
  is_some, any, find?, filter, count_where, sum_where, length, Text, if◌then◌else◌,
}
use kw_awards_voting_platfom.Prelude.Sorting.{sort_by}
use kw_awards_voting_platfom.Models.Events.{Event, Award, Category}
use kw_awards_voting_platfom.Models.Nominations.{
  Nomination, NominationStatus, pending, approved, nstatus_eq,
}
use kw_awards_voting_platfom.Models.Voting.{Vote, is_active_vote}
use kw_awards_voting_platfom.Models.State.{Db, Env}
use kw_awards_voting_platfom.Events.{find_award, find_category}
use kw_awards_voting_platfom.Nominations.{award_and_event}
use kw_awards_voting_platfom.Voting.Results.{Totals, add_total, in_event}

-- `SUM(quantity)` of the votes in each group that a key makes.
pub group_totals : (Vote → ℕ) → List Vote → Totals
group_totals key [] = []
group_totals key (v ∷ votes) =
    let rest = group_totals key votes in add_total (key v) v.quantity rest

-- `COUNT(DISTINCT voter)`
pub distinct_voters : List Vote → List ℕ
distinct_voters [] = []
distinct_voters (v ∷ votes) =
    let rest = distinct_voters votes in
    if any (λ id. v.voter == id) rest then rest else v.voter ∷ rest

-- The category of a vote, by the join `award__category`.
abbrev pub category_of_award : Option Award → Option ℕ
category_of_award none = none
category_of_award (some a) = some a.category

abbrev pub category_of : Db → Vote → Option ℕ
category_of db v = category_of_award (find_award v.award db)

abbrev or_zero : Option ℕ → ℕ
or_zero none = 0
or_zero (some k) = k

abbrev in_category : Db → ℕ → Vote → Bool
in_category db k v = or_zero (category_of db v) == k

pub record CategoryStats : Type 0 where
  pub category_id : ℕ
  pub category : Text
  pub votes : ℕ
  pub voters : ℕ

abbrev name_of_category : Option Category → Text
name_of_category none = []
name_of_category (some c) = c.name

-- A row of `per_category`, from a group and its sum.
unfoldable pub category_stats : Db → List Vote → ℕ × ℕ → CategoryStats
unfolding distinct_voters
category_stats db joined (k, total) = record {
  category_id = k;
  category = name_of_category (find_category k db);
  votes = total;
  voters = length (distinct_voters (filter (in_category db k) joined));
}

-- The votes whose award is there, which the join keeps.
abbrev with_award : Db → List Vote → List Vote
with_award db votes = filter (λ v. is_some (category_of db v)) votes

unfoldable pub per_category : Env → Db → List Vote → List CategoryStats
unfolding group_totals
per_category env db active =
    let joined = with_award db active in
    sort_by (λ (a b : CategoryStats). env.collate a.category b.category)
      (map (category_stats db joined) (group_totals (λ v. or_zero (category_of db v)) joined))

-- `votes_over_time`: days with their votes. `day_of` is `TruncDate` in the time zone of the settings.
unfoldable pub votes_over_time : (ℕ → ℕ) → List Vote → Totals
unfolding group_totals
votes_over_time day_of active =
    sort_by (λ (a b : ℕ × ℕ). leb a.0 b.0) (group_totals (λ v. day_of v.created_at) active)

pub record Stats : Type 0 where
  pub votes : ℕ
  pub voters : ℕ
  pub voided_votes : ℕ
  pub pending_nominations : ℕ
  pub approved_nominations : ℕ
  pub over_time : Totals
  pub categories : List CategoryStats

count_nominations : Db → ℕ → NominationStatus → ℕ
count_nominations db event status =
    count_where
      (λ (n : Nomination). in_event event (award_and_event db n) && nstatus_eq n.status status)
      db.nominations

-- `event_stats`, without the columns of the event.
unfoldable pub event_stats : Env → (ℕ → ℕ) → Db → ℕ → Stats
unfolding count_nominations distinct_voters
event_stats env day_of db event =
    let votes = filter (λ (v : Vote). v.event == event) db.votes in
    let active = filter is_active_vote votes in
    record {
      votes = sum_where (λ (v : Vote). true) (λ v. v.quantity) active;
      voters = length (distinct_voters active);
      voided_votes = count_where (λ (v : Vote). is_some v.voided_at) votes;
      pending_nominations = count_nominations db event pending;
      approved_nominations = count_nominations db event approved;
      over_time = votes_over_time day_of active;
      categories = per_category env db active;
    }
