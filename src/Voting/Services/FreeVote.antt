-- ===== src/Voting/Services/FreeVote.antt =====
-- The row that `cast_free_vote` creates, and the joins that it is filled from.
use kw_awards_voting_platfom.Prelude.{
  ℕ, none, some, ◌≡◌, refl, inl, inr, ◌==◌, find?, find?-sound, ==_iff, ◌&&◌, arith, Option-cases,
}
use mathlib.Core.Path.{subst}
use mathlib.Core.Option.{some-injective}
use kw_awards_voting_platfom.Models.Events.{Event, Award}
use kw_awards_voting_platfom.Models.Nominations.{Nomination}
use kw_awards_voting_platfom.Models.Voting.{Vote, VoteSource}
use kw_awards_voting_platfom.Models.State.{Db, Env, Request}
use kw_awards_voting_platfom.Events.{find_award}
use kw_awards_voting_platfom.Nominations.{is_shown, award_and_event, event_of_award}
use kw_awards_voting_platfom.Voting.Services.{find_votable, new_vote}

-- A nomination with its award and event.
abbrev pub Joined : Type 0
Joined = Nomination × Award × Event

-- An active free vote of the voter for the nomination that was asked for, with the award and the event
-- that the nomination belongs to.
pub record IsFreeVote (r : Request) (voter nomination_id : ℕ) (db : Db) (f : Joined) (v : Vote)
    : Type 0 where
  pub identifier : v.id ≡ r.uuid
  pub for_voter : v.voter ≡ voter
  pub for_nomination : v.nomination ≡ nomination_id
  pub for_award : v.award ≡ f.0.award
  pub for_event : (event_of_award db f.1 ≡ some f.2) × (v.event ≡ f.2.id)
  pub is_free : v.source ≡ VoteSource.free
  pub counts_once : v.quantity ≡ 1
  pub unpaid : v.payment ≡ none
  pub active : (v.voided_at ≡ none) × (v.voided_by ≡ none)
  pub cast_at : v.created_at ≡ r.now

pub new_vote-IsFreeVote :
    (env : Env) (r : Request) (voter nomination_id : ℕ) (db : Db) (f : Joined)
    → f.0.id ≡ nomination_id
    → f.1.id ≡ f.0.award
    → event_of_award db f.1 ≡ some f.2
    → IsFreeVote r voter nomination_id db f (new_vote env r voter f)
unfolding new_vote
new_vote-IsFreeVote env r voter nomination_id db f asked_for own_award own_event = record {
  identifier = refl;
  for_voter = refl;
  for_nomination = asked_for;
  for_award = own_award;
  for_event = (own_event, refl);
  is_free = refl;
  counts_once = refl;
  unpaid = refl;
  active = (refl, refl);
  cast_at = refl;
}

-- The join from a nomination up.
award_and_event-joins :
    (db : Db) (n : Nomination) (a : Award) (e : Event)
    → award_and_event db n ≡ some (a, e)
    → (find_award n.award db ≡ some a) × (event_of_award db a ≡ some e)
unfolding award_and_event
award_and_event-joins db n a e h = elim (Option-cases (find_award n.award db)) [
  | inl absent ↦ absurd (ground arith)
  | inr (b, found) ↦ elim (Option-cases (event_of_award db b)) [
    | inl none_there ↦ absurd (ground arith)
    | inr (x, there) ↦ ground arith
  ]
]

find_award-id : (id : ℕ) (db : Db) (a : Award) → find_award id db ≡ some a → a.id ≡ id
unfolding find_award
find_award-id id db a h = (==_iff a.id id).0 (find?-sound (λ (x : Award). x.id == id) db.awards a h)

pub found_joins :
    (nomination_id : ℕ) (db : Db) (f : Joined)
    → find_votable nomination_id db ≡ some f
    → (f.0.id ≡ nomination_id) × (f.1.id ≡ f.0.award) × (event_of_award db f.1 ≡ some f.2)
unfolding find_votable
found_joins nomination_id db f found =
    let test = λ (n : Nomination). is_shown db n && n.id == nomination_id in
    elim (Option-cases (find? test db.nominations)) [
      | inl absent ↦ absurd (ground arith)
      | inr (n, there) ↦ elim (Option-cases (award_and_event db n)) [
        | inl alone ↦ absurd (ground arith)
        | inr ((a, e), joins) ↦
            let same : (n, a, e) ≡ f = some-injective (n, a, e) f (rw (there, joins) at found) in
            let asked_for : n.id ≡ nomination_id =
              ground (arith, find?-sound test db.nominations n there) in
            let (award_found, event_found) = award_and_event-joins db n a e joins in
            subst
              (λ (x : Joined).
                (x.0.id ≡ nomination_id)
                × (x.1.id ≡ x.0.award)
                × (event_of_award db x.1 ≡ some x.2))
              same (asked_for, find_award-id n.award db a award_found, event_found)
      ]
    ]
