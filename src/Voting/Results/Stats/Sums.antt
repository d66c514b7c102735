-- ===== src/Voting/Results/Stats/Sums.antt =====
-- The numbers of the dashboard agree with each other and with the tallies.
use kw_awards_voting_platfom.Prelude.{
  ℕ, ◌+◌, ◌≤◌, Bool, true, List, [], ◌∷◌, map, ◌≡◌, refl, ◌∙◌, ap, ◌==◌, leb, is_some, filter,
  count_where, sum_where, length, All, All-filter, arith,
}
use kw_awards_voting_platfom.Prelude.Sorting.{sort_by, insert_by}
use kw_awards_voting_platfom.Models.Voting.{Vote, is_active_vote}
use kw_awards_voting_platfom.Models.State.{Db, Env}
use kw_awards_voting_platfom.Voting.Results.{Totals, add_total}
use kw_awards_voting_platfom.Voting.Results.Stats.{
  group_totals, distinct_voters, or_zero, category_of, CategoryStats, category_stats, with_award,
  per_category, votes_over_time, event_stats,
}

-- `SUM` of a number of each row.
abbrev pub sum_of : {A : Type 0} → (A → ℕ) → List A → ℕ
sum_of f [] = 0
sum_of f (x ∷ xs) = f x + sum_of f xs

module _ {A : Type 0} (f : A → ℕ) (le : A → A → Bool) where
  sum_of-insert_by : (a : A) (xs : List A) → sum_of f (insert_by le a xs) ≡ f a + sum_of f xs
  unfolding insert_by
  sum_of-insert_by a [] = refl
  sum_of-insert_by a (x ∷ xs) = ground (arith, sum_of-insert_by a xs)

  sum_of-sort_by : (xs : List A) → sum_of f (sort_by le xs) ≡ sum_of f xs
  unfolding sort_by
  sum_of-sort_by [] = refl
  sum_of-sort_by (x ∷ xs) = sum_of-insert_by x (sort_by le xs) ∙ omega (arith, sum_of-sort_by xs)

sum_of-add_total :
    (k q : ℕ) (t : Totals) → sum_of (λ row. row.1) (add_total k q t) ≡ q + sum_of (λ row. row.1) t
unfolding add_total
sum_of-add_total k q [] = refl
sum_of-add_total k q ((j, x) ∷ t) = ground (arith, sum_of-add_total k q t)

-- The sums of the groups add up to the sum of all, whatever the key.
sum_of-group_totals :
    (key : Vote → ℕ) (votes : List Vote)
    → sum_of (λ row. row.1) (group_totals key votes)
      ≡ sum_where (λ (v : Vote). true) (λ v. v.quantity) votes
unfolding group_totals
sum_of-group_totals key [] = refl
sum_of-group_totals key (v ∷ votes) =
    sum_of-add_total (key v) v.quantity (group_totals key votes)
    ∙ omega (arith, sum_of-group_totals key votes)

sum_of-map :
    (db : Db) (joined : List Vote) (groups : Totals)
    → sum_of (λ (c : CategoryStats). c.votes) (map (category_stats db joined) groups)
      ≡ sum_of (λ row. row.1) groups
unfolding category_stats
sum_of-map db joined [] = refl
sum_of-map db joined (g ∷ groups) = ap (λ n. g.1 + n) (sum_of-map db joined groups)

-- The join keeps every vote whose award is there.
with_award-all :
    (db : Db) (votes : List Vote)
    → All (λ v. is_some (category_of db v) ≡ true) votes
    → with_award db votes ≡ votes
with_award-all db [] h = refl
with_award-all db (v ∷ votes) h = rw h.0 (ap (λ vs. v ∷ vs) (with_award-all db votes h.1))

length-distinct_voters :
    (votes : List Vote)
    → All (λ v. leb 1 v.quantity ≡ true) votes
    → length (distinct_voters votes) ≤ sum_where (λ (v : Vote). true) (λ v. v.quantity) votes
unfolding distinct_voters
length-distinct_voters [] h = omega arith
length-distinct_voters (v ∷ votes) h = ground (arith, h.0, length-distinct_voters votes h.1)

count-voided :
    (votes : List Vote)
    → length (filter is_active_vote votes) + count_where (λ (v : Vote). is_some v.voided_at) votes
      ≡ length votes
count-voided [] = refl
count-voided (v ∷ votes) = ground (arith, count-voided votes)

-- Where the award of every vote is there and every vote has a positive quantity: in the numbers of the
-- dashboard of an event the votes of the days add up to the total, and so do the votes of the
-- categories; there are at most as many voters as votes; and the active and the voided votes are all the
-- votes of the event.
pub event_stats_lem :
    (env : Env) (day_of : ℕ → ℕ) (db : Db) (event : ℕ)
    → All (λ v. is_some (category_of db v) ≡ true) db.votes
    → All (λ v. leb 1 v.quantity ≡ true) db.votes
    → let s = event_stats env day_of db event in
      let votes = filter (λ (v : Vote). v.event == event) db.votes in
      (sum_of (λ row. row.1) s.over_time ≡ s.votes)
      × (sum_of (λ (c : CategoryStats). c.votes) s.categories ≡ s.votes)
      × (s.voters ≤ s.votes)
      × (length (filter is_active_vote votes) + s.voided_votes ≡ length votes)
unfolding event_stats votes_over_time per_category
event_stats_lem env day_of db event linked positive =
    let votes = filter (λ (v : Vote). v.event == event) db.votes in
    let active = filter is_active_vote votes in
    let active_linked =
      All-filter _ is_active_vote votes
        (All-filter _ (λ (v : Vote). v.event == event) db.votes linked) in
    let active_positive =
      All-filter _ is_active_vote votes
        (All-filter _ (λ (v : Vote). v.event == event) db.votes positive) in
    let groups = group_totals (λ v. or_zero (category_of db v)) active in
    (
      sum_of-sort_by (λ row. row.1) _ (group_totals (λ v. day_of v.created_at) active)
          ∙ sum_of-group_totals (λ v. day_of v.created_at) active,
      rw (with_award-all db active active_linked) (
          sum_of-sort_by (λ (c : CategoryStats). c.votes) _ (map (category_stats db active) groups)
          ∙ sum_of-map db active groups
          ∙ sum_of-group_totals (λ v. or_zero (category_of db v)) active),
      length-distinct_voters active active_positive,
      count-voided votes,
    )
