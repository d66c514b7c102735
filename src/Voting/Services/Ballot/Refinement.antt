-- ===== src/Voting/Services/Ballot/Refinement.antt =====
-- The calls of voting/services.py against the ballot box: each does to the table what the specification
-- does to the box, one by one and in sequences.
use kw_awards_voting_platfom.Prelude.{
  ℕ, Bool, true, false, Option, some, List, [], ◌∷◌, ◌≡◌, refl, sym, inl, inr, ◌==◌, any, find?,
  update_where, count_where, arith, Bool-cases, Option-cases, is_some, is_empty, Text, find?-sound,
  ==_iff, All,
}
use mathlib.Core.Path.{subst}
use kw_awards_voting_platfom.Exceptions.{Result, ok, err, api, already_voted}
use kw_awards_voting_platfom.Models.Events.{voting_is_open}
use kw_awards_voting_platfom.Models.Voting.{Vote}
use kw_awards_voting_platfom.Models.State.{World, Env, Request}
use kw_awards_voting_platfom.Audit.{add_entry}
use kw_awards_voting_platfom.Voting.Table.{find_vote, put_votes}
use kw_awards_voting_platfom.Voting.Table.Sound.{IsSound, in_slot, replaced, NoClash}
use kw_awards_voting_platfom.Voting.Services.{find_votable, cast_free_vote, void_vote, voided}
use kw_awards_voting_platfom.Voting.Services.Casting.{
  Found, cast_free_vote_refuses, cast_free_vote-recorded, cast_free_vote_duplicate,
}
use kw_awards_voting_platfom.Voting.Services.Voiding.{void_vote_refuses, void_vote_succeeds}
use kw_awards_voting_platfom.Voting.Services.Ballot.{
  Box, SameBox, Answer, accepted, refused, taken, spec_cast, spec_void, box_of, offer, unless_vote,
  box-count, box-new_vote, box-replaced, unless_absent, unless_done,
}

-- What the result of a cast says to the voter.
abbrev pub answer_of : Result Vote → Answer
answer_of (ok v) = accepted
answer_of (err (api already_voted)) = taken
answer_of (err e) = refused

abbrev pub is_known : ℕ → World → Bool
is_known id w = any (λ (v : Vote). id == v.id) w.db.votes

module _ (env : Env) (r : Request) (voter nomination_id : ℕ) (w : World) where
  abbrev casted : Result Vote × World
  casted = cast_free_vote env r voter nomination_id w

  abbrev CastRefines : Type 0
  CastRefines =
      let (answer, box) = spec_cast (offer r nomination_id w.db) voter r.uuid (box_of w.db.votes) in
      (answer_of casted.0 ≡ answer) × SameBox (box_of casted.1.db.votes) box

  -- The votable nomination with its window open.
  refines_open :
      (f : Found)
      → find_votable nomination_id w.db ≡ some f
      → voting_is_open f.2 r.now ≡ true
      → is_known r.uuid w ≡ false
      → CastRefines
  unfolding spec_cast offer add_entry put_votes
  refines_open f found is_open fresh =
      elim (Bool-cases (count_where (in_slot voter f.1.id) w.db.votes == 0)) [
        | inl free ↦
            rw
              (
                cast_free_vote-recorded env r voter nomination_id w f found is_open fresh
                    (ground arith),
                found,
                is_open,
                box-count voter f.1.id w.db.votes,
                free,
              )
              (refl, box-new_vote env r voter f w.db.votes)
        | inr full ↦
            rw
              (
                cast_free_vote_duplicate env r voter nomination_id w f found is_open (ground arith),
                found,
                is_open,
                box-count voter f.1.id w.db.votes,
                full,
              )
              (refl, λ v a. refl)
      ]

  -- With an identifier that no stored vote has, a cast answers what the specification answers, and
  -- leaves a table that holds the box that the specification leaves: the vote is accepted exactly if
  -- the nomination is offered and the voter's place in the award is empty.
  pub cast_free_vote-spec_cast : is_known r.uuid w ≡ false → CastRefines
  unfolding spec_cast offer
  cast_free_vote-spec_cast fresh =
      let refuses = cast_free_vote_refuses env r voter nomination_id w in
      elim (Option-cases (find_votable nomination_id w.db)) [
        | inl absent ↦ rw (refuses.0 absent, absent) (refl, λ v a. refl)
        | inr (f, found) ↦ elim (Bool-cases (voting_is_open f.2 r.now)) [
          | inl is_open ↦ unfold spec_cast offer in refines_open f found is_open fresh
          | inr shut ↦ rw (refuses.1 f found shut, found, shut) (refl, λ v a. refl)
        ]
      ]

-- The row of a void, in the table: the box loses the vote.
box-voided :
    (now id by : ℕ) (reason : Text) (x : Vote) (votes : List Vote) (v a : ℕ)
    → find? (λ (y : Vote). y.id == id) votes ≡ some x
    → NoClash votes
    → box_of (update_where (λ (y : Vote). y.id == id) (λ _. voided now by reason x) votes) v a
      ≡ unless_vote id (box_of votes v a)
unfolding replaced
box-voided now id by reason x votes v a found apart =
    subst
      (λ i.
        box_of (update_where (λ (y : Vote). y.id == i) (λ _. voided now by reason x) votes) v a
        ≡ unless_vote i (box_of votes v a))
      ((==_iff x.id id).0 (find?-sound (λ (y : Vote). y.id == id) votes x found))
      (box-replaced (voided now by reason x) votes v a (ground arith) apart)

module _ (env : Env) (now : ℕ) (req : Option Request) (id by : ℕ) (reason : Text) (w : World) where
  abbrev voids : World
  voids = (void_vote env now req id by reason w).1

  -- From a sound table, with a reason, a void leaves a table that holds the box without the vote: also
  -- where the vote is not there, or already voided, and the box stays as it was.
  pub void_vote-spec_void :
      IsSound w.db.votes
      → is_empty reason ≡ false
      → SameBox (box_of voids.db.votes) (spec_void id (box_of w.db.votes))
  unfolding spec_void add_entry put_votes find_vote
  void_vote-spec_void sound reasoned =
      let refuses = void_vote_refuses env now req id by reason w in
      elim (Option-cases (find_vote id w.db)) [
        | inl absent ↦
            rw (voids, refuses.0 absent) (λ v a. sym (unless_absent id w.db.votes v a absent))
        | inr (x, found) ↦ elim (Bool-cases (is_some x.voided_at)) [
          | inl done ↦
              rw (voids, refuses.1 x found done)
                (λ v a. sym (unless_done x id w.db.votes v a found done sound.apart))
          | inr active ↦
              rw
                (voids, void_vote_succeeds env now req id by reason w x found active reasoned sound)
                (λ v a. box-voided now id by reason x w.db.votes v a found sound.apart)
        ]
      ]

-- A call: a cast by a voter, or a void by a staff user, which may come without a request.
pub data Call : Type 0 where
  cast : Env → Request → ℕ → ℕ → Call
  void : Env → ℕ → Option Request → ℕ → ℕ → Text → Call

-- The calls in their order, on the world, with what the casts answer.
abbrev pub run : List Call → World → List Answer × World
run [] w = ([], w)
run (cast env r voter nomination_id ∷ calls) w =
    let (result, w1) = cast_free_vote env r voter nomination_id w in
    let (answers, w2) = run calls w1 in (answer_of result ∷ answers, w2)
run (void env now req id by reason ∷ calls) w = run calls (void_vote env now req id by reason w).1

-- The same calls on the box, where `offers` says what can be voted for.
abbrev pub spec_run : (Request → ℕ → Option (ℕ × ℕ)) → List Call → Box → List Answer × Box
spec_run offers [] box = ([], box)
spec_run offers (cast env r voter nomination_id ∷ calls) box =
    let (answer, box1) = spec_cast (offers r nomination_id) voter r.uuid box in
    let (answers, box2) = spec_run offers calls box1 in (answer ∷ answers, box2)
spec_run offers (void env now req id by reason ∷ calls) box =
    spec_run offers calls (spec_void id box)

-- The identifiers that the casts draw are new, and each void has a reason.
abbrev pub new_ids : List Call → List ℕ
new_ids [] = []
new_ids (cast env r voter nomination_id ∷ calls) = r.uuid ∷ new_ids calls
new_ids (void env now req id by reason ∷ calls) = new_ids calls

abbrev pub HaveReasons : List Call → Type 0
HaveReasons [] = Unit
HaveReasons (cast env r voter nomination_id ∷ calls) = HaveReasons calls
HaveReasons (void env now req id by reason ∷ calls) = (is_empty reason ≡ false) × HaveReasons calls

abbrev pub AllNew : List ℕ → World → Type 0
AllNew ids w = All (λ id. is_known id w ≡ false) ids
