-- ===== src/Examples/Boxes.antt =====
-- Sequences of votes against the ballot box, and an event on its way to publication.
use kw_awards_voting_platfom.Prelude.{true, none, some, List, [], ◌∷◌, ◌≡◌, refl, codes}
use kw_awards_voting_platfom.Models.Events.{draft, results_published, event_checks}
use kw_awards_voting_platfom.Models.Voting.{vote_checks}
use kw_awards_voting_platfom.Models.State.{World}
use kw_awards_voting_platfom.Events.{find_event}
use kw_awards_voting_platfom.Events.Transitions.{IsConsistent}
use kw_awards_voting_platfom.Events.Transitions.Publishing.{
  remaining, make_moves, StandsAt, make_moves-remaining,
}
use kw_awards_voting_platfom.Voting.Table.Sound.{IsSound}
use kw_awards_voting_platfom.Voting.Services.Ballot.{box_of, offer}
use kw_awards_voting_platfom.Voting.Services.Ballot.Refinement.{Call, cast, void}
use kw_awards_voting_platfom.Voting.Services.Ballot.Runs.{Refines, run-spec_run}
use kw_awards_voting_platfom.Examples.Data.{env, gala, world, request_at}

sound : IsSound world.db.votes
unfolding vote_checks
sound = record { checked = (refl, tt); apart = (refl, tt) }

-- A vote, the same voter again, the void of an older vote, and a vote that is too late.
abbrev calls : List Call
calls =
    cast env (request_at 100 31) 7 1
    ∷ cast env (request_at 101 33) 7 2
    ∷ void env 102 none 21 1 (codes "fraud")
    ∷ cast env (request_at 2000000000 35) 8 1
    ∷ []

run-spec_run_example : Refines calls world (λ r n. offer r n world.db) (box_of world.db.votes)
run-spec_run_example =
    run-spec_run calls world sound (refl, (refl, (refl, tt))) (refl, (refl, (refl, tt))) (refl, tt)

abbrev planned : World
planned = record world { db = record world.db { events = record gala { status = draft } ∷ [] } }

consistent : IsConsistent (record gala { status = draft })
unfolding event_checks
consistent = record { checks = refl; published = refl }

planned_event : find_event 1 planned.db ≡ some (record gala { status = draft })
unfolding find_event
planned_event = refl

make_moves-remaining_example :
    ((make_moves env 50 none 1 (remaining draft) planned).0 ≡ true)
    × StandsAt env 50 none 1 results_published
        (make_moves env 50 none 1 (remaining draft) planned).1
make_moves-remaining_example =
    make_moves-remaining env 50 none 1 (record gala { status = draft }) planned planned_event
      (consistent, tt) ((refl, refl), (refl, refl))
