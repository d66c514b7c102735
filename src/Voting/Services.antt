-- ===== src/Voting/Services.antt =====
-- voting/services.py: casting a free vote and voiding a vote.
pub mod FreeVote
pub mod Casting
pub mod Voiding
pub mod Reach
pub mod Ballot
use kw_awards_voting_platfom.Prelude.{
  ℕ, Bool, true, false, ◌&&◌, not, Option, none, some, List, [], ◌∷◌, String, ◌==◌, find?, take,
  is_some, Text, if◌then◌else◌,
}
use kw_awards_voting_platfom.Exceptions.{
  Exc, ok, err, api, already_voted, voting_closed, already_voided, not_found, integrity, unique,
}
use kw_awards_voting_platfom.Exec.{
  ⊤, Action, pure, raise, or_raise, atomic, catch, ◌>>=◌, ◌>>◌, raise_if,
}
use kw_awards_voting_platfom.Models.Events.{Event, Award, voting_is_open}
use kw_awards_voting_platfom.Models.Nominations.{Nomination}
use kw_awards_voting_platfom.Models.Voting.{Vote, VoteSource}
use kw_awards_voting_platfom.Models.Audit.{AuditAction, Json, Metadata}
use kw_awards_voting_platfom.Models.State.{Db, World, Env, Request}
use kw_awards_voting_platfom.Audit.{log}
use kw_awards_voting_platfom.Ip.{get_client_ip}
use kw_awards_voting_platfom.Nominations.{is_shown, award_and_event}
use kw_awards_voting_platfom.Voting.Table.{find_vote, insert_vote, VoteField, save_vote}

joined : Nomination → Option (Award × Event) → Option (Nomination × Award × Event)
joined n none = none
joined n (some (a, e)) = some (n, a, e)

with_joins : Db → Option Nomination → Option (Nomination × Award × Event)
unfolding joined
with_joins db none = none
with_joins db (some n) = joined n (award_and_event db n)

-- The nomination that the queryset of `cast_free_vote` gets, with its award and event.
unfoldable pub find_votable : ℕ → Db → Option (Nomination × Award × Event)
unfolding with_joins
find_votable pk db =
    with_joins db (find? (λ (n : Nomination). is_shown db n && n.id == pk) db.nominations)

-- The row that `cast_free_vote` creates. Event and award come from the nomination.
unfoldable pub new_vote : Env → Request → ℕ → Nomination × Award × Event → Vote
new_vote env r voter (n, a, e) = record {
  id = r.uuid;
  event = e.id;
  award = a.id;
  nomination = n.id;
  voter = voter;
  source = VoteSource.free;
  quantity = 1;
  payment = none;
  ip_address = get_client_ip env r;
  user_agent = take 300 r.http_user_agent;
  voided_at = none;
  voided_by = none;
  void_reason = [];
  created_at = r.now;
}

abbrev cast_metadata : Nomination × Award × Event → Metadata
cast_metadata (n, a, e) = ("award_id", Json.num a.id) ∷ ("nomination_id", Json.num n.id) ∷ []

-- The body of the transaction: the vote and its audit entry.
pub record_vote : Env → Request → ℕ → Nomination × Award × Event → Action Vote
unfolding new_vote
record_vote env r voter found = do
  vote ← insert_vote (new_vote env r voter found)
  log env r.now (some r) (record {
    action = AuditAction.vote_cast;
    actor_user = none;
    actor_voter = some voter;
    target = some ("voting.vote", vote.id);
    metadata = cast_metadata found;
  })
  pure vote

-- `except IntegrityError`: only a unique violation is a duplicate vote.
on_violation : Env → Request → ℕ → Nomination × Award × Event → Exc → Action Vote
on_violation env r voter found (integrity unique) = do
  log env r.now (some r) (record {
    action = AuditAction.vote_duplicate;
    actor_user = none;
    actor_voter = some voter;
    target = none;
    metadata = cast_metadata found;
  })
  raise (api already_voted)
on_violation env r voter found e = raise e

unfoldable pub cast_free_vote : Env → Request → ℕ → ℕ → Action Vote
unfolding record_vote on_violation
cast_free_vote env r voter nomination_id = do
  found ← (λ w. or_raise not_found (find_votable nomination_id w.db) w)
  raise_if (not (voting_is_open found.2 r.now)) (api voting_closed)
  catch (atomic (record_vote env r voter found)) (on_violation env r voter found)

-- `Vote.void`: the columns that it names in its save.
abbrev pub void_fields : List VoteField
void_fields =
    VoteField.voided_at ∷ VoteField.voided_by ∷ VoteField.void_reason ∷ VoteField.updated_at ∷ []

abbrev pub voided : ℕ → ℕ → Text → Vote → Vote
voided now by reason v = record v {
  voided_at = some now;
  voided_by = some by;
  void_reason = reason;
}

unfoldable pub void_vote : Env → ℕ → Option Request → ℕ → ℕ → Text → Action Vote
void_vote env now req vote_id by reason = atomic do
  vote ← (λ w. or_raise not_found (find_vote vote_id w.db) w)
  raise_if (is_some vote.voided_at) (api already_voided)
  save_vote void_fields (voided now by reason vote)
  log env now req (record {
    action = AuditAction.vote_voided;
    actor_user = some by;
    actor_voter = none;
    target = some ("voting.vote", vote.id);
    metadata =
        ("reason", Json.str reason)
        ∷ ("award_id", Json.num vote.award)
        ∷ ("nomination_id", Json.num vote.nomination)
        ∷ [];
  })
  pure (voided now by reason vote)
