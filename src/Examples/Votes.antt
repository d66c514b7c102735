-- ===== src/Examples/Votes.antt =====
-- Votes at the gala.
use kw_awards_voting_platfom.Prelude.{
  ℕ, ◌≤◌, true, some, List, [], ◌∷◌, ◌≡◌, refl, ◌==◌, count_where, sum_where, map, All, ltb, ◌+◌,
  codes, Text, arith,
}
use kw_awards_voting_platfom.Exceptions.{ok}
use kw_awards_voting_platfom.Models.Events.{voting_is_open}
use kw_awards_voting_platfom.Models.Voting.{Vote, vote_checks}
use kw_awards_voting_platfom.Models.State.{World, Request}
use kw_awards_voting_platfom.Audit.{entry_row, add_entry}
use kw_awards_voting_platfom.Voting.Table.{put_votes, find_vote}
use kw_awards_voting_platfom.Voting.Table.Sound.{IsSound, in_slot}
use kw_awards_voting_platfom.Voting.Table.History.{Grown}
use kw_awards_voting_platfom.Voting.Services.{find_votable, cast_free_vote, void_vote}
use kw_awards_voting_platfom.Voting.Services.FreeVote.{IsFreeVote}
use kw_awards_voting_platfom.Voting.Services.Casting.{Found, cast_row, cast_free_vote_succeeds}
use kw_awards_voting_platfom.Voting.Services.Reach.{
  VoteStep, Reach, one_vote-Reach, append_only-Reach,
}
use kw_awards_voting_platfom.Voting.Services.Voiding.{void_row, void_vote_succeeds}
use kw_awards_voting_platfom.Voting.Results.{Entry, rank, rank_le, get_total, totals_by_nomination}
use kw_awards_voting_platfom.Voting.Results.Ranking.{unranked, rank_lem}
use kw_awards_voting_platfom.Voting.Results.Tallies.{counts_for, get_total-totals_by_nomination}
use kw_awards_voting_platfom.Prelude.Sorting.{IsSorted}
use mathlib.Core.List.{Perm}
use kw_awards_voting_platfom.Events.{find_award, find_category, find_event}
use kw_awards_voting_platfom.Nominations.{event_of_award}
use kw_awards_voting_platfom.Voting.Results.{event_results}
use kw_awards_voting_platfom.Voting.Results.Reference.{
  IsKeyed, IsCarried, tallies_of_event, event_results-award_tally,
}
use kw_awards_voting_platfom.Examples.Data.{
  env, gala, best_song, nomination, old_vote, world, request_at,
}

abbrev song : Found
song = (nomination 1, best_song, gala)

votable : find_votable 1 world.db ≡ some song
unfolding find_votable kw_awards_voting_platfom.Nominations.is_shown
    kw_awards_voting_platfom.Nominations.award_and_event kw_awards_voting_platfom.Events.find_award
    kw_awards_voting_platfom.Nominations.event_of_award
    kw_awards_voting_platfom.Events.find_category kw_awards_voting_platfom.Events.find_event
votable = refl

sound : IsSound world.db.votes
unfolding vote_checks
sound = record { checked = (refl, tt); apart = (refl, tt) }

abbrev after_cast : World
after_cast = (cast_free_vote env (request_at 100 31) 7 1 world).1

one_cast : Reach world after_cast
one_cast = Reach.then Reach.here (VoteStep.cast env (request_at 100 31) 7 1 world)

one_vote-Reach_example :
    IsSound after_cast.db.votes × (count_where (in_slot 7 1) after_cast.db.votes ≤ 1)
one_vote-Reach_example = one_vote-Reach 7 1 sound one_cast

append_only-Reach_example : Grown world.db.votes after_cast.db.votes
append_only-Reach_example = append_only-Reach sound one_cast

abbrev at_noon : Request
at_noon = request_at 100 31

abbrev too_late : Request
too_late = request_at 2000000000 31

is_open : voting_is_open gala 100 ≡ true
unfolding voting_is_open
is_open = refl

cast_free_vote_succeeds_example :
    (v : Vote) × (cast_free_vote env at_noon 7 1 world ≡ (
      ok v,
      add_entry
          (entry_row env 100 (some at_noon) (cast_row env at_noon 7 song))
          (put_votes (v ∷ old_vote ∷ []) world),
    ))
    × IsFreeVote at_noon 7 1 world.db song v
cast_free_vote_succeeds_example =
    cast_free_vote_succeeds env at_noon 7 1 world song votable is_open refl refl

one_there : 1 ≤ count_where (in_slot 8 1) world.db.votes
one_there = omega arith

found_old : find_vote 21 world.db ≡ some old_vote
unfolding find_vote
found_old = refl

abbrev fraud : Vote
fraud = record old_vote { voided_at = some 200; voided_by = some 1; void_reason = codes "fraud" }

void_vote_succeeds_example : void_vote env 200 (some at_noon) 21 1 (codes "fraud") world ≡ (
  ok fraud,
  add_entry
      (entry_row env 200 (some at_noon) (void_row 1 (codes "fraud") old_vote))
      (put_votes (fraud ∷ []) world),
)
void_vote_succeeds_example =
    void_vote_succeeds env 200 (some at_noon) 21 1 (codes "fraud") world old_vote found_old refl
      refl sound

get_total-totals_by_nomination_example :
    get_total 2 (totals_by_nomination (λ v. v.award == 1) world.db.votes)
    ≡ sum_where (counts_for (λ v. v.award == 1) 2) (λ v. v.quantity) world.db.votes
get_total-totals_by_nomination_example =
    get_total-totals_by_nomination (λ v. v.award == 1) 2 world.db.votes

abbrev listed : Text → ℕ → ℕ → Entry
listed name id votes = record {
  nomination_id = id;
  nominee_id = id;
  name = name;
  votes = votes;
  rank = 0;
}

abbrev entries : List Entry
entries = listed (codes "Ann") 2 3 ∷ listed (codes "Bob") 1 5 ∷ listed (codes "Cid") 4 3 ∷ []

rank_lem_example :
    IsSorted (rank_le (λ t. t)) (rank (λ t. t) entries)
    × Perm (map unranked (rank (λ t. t) entries)) (map unranked entries)
    × All
        (λ e. e.rank ≡ 1 + count_where (λ (other : Entry). ltb e.votes other.votes) entries)
        (rank (λ t. t) entries)
rank_lem_example = rank_lem (λ t. t) entries

found_gala : find_event 1 world.db ≡ some gala
unfolding find_event
found_gala = refl

keyed : IsKeyed world.db
unfolding find_category find_award
keyed = record { categories = (refl, tt); awards = (refl, tt) }

carried : IsCarried world.db gala
carried = record {
  award =
      (((λ h. ((λ k. refl), tt)), ((λ h. ((λ k. refl), tt)), ((λ h. ((λ k. refl), tt)), tt))), tt);
  event = ((λ there. ((λ h. refl), tt)), tt);
}

event_results-award_tally_example : event_results env world.db 1 ≡ tallies_of_event env world.db 1
event_results-award_tally_example =
    event_results-award_tally env world.db gala found_gala keyed carried
