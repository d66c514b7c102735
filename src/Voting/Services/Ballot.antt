-- ===== src/Voting/Services/Ballot.antt =====
-- The ballot box: what voting/services.py promises, with the table of votes forgotten. A box says, for
-- a voter and an award, which nomination the voter's one vote is for and the identifier of that vote.
pub mod Refinement
pub mod Runs
use kw_awards_voting_platfom.Prelude.{
  ℕ, ◌≤◌, Bool, true, false, ◌&&◌, not, Option, none, some, List, [], ◌∷◌, ◌≡◌, refl, sym, ◌∙◌, ap,
  inl, inr, ◌==◌, ==_iff, any, find?, update_where, count_where, arith, if◌then◌else◌, Bool-cases,
  Option-cases, is_some, is_empty, Text, String,
}
use kw_awards_voting_platfom.Exceptions.{Result, ok, err}
use kw_awards_voting_platfom.Models.Events.{voting_is_open}
use kw_awards_voting_platfom.Models.Voting.{Vote, vote_clash}
use kw_awards_voting_platfom.Models.State.{Db, World, Env, Request}
use kw_awards_voting_platfom.Audit.{add_entry}
use kw_awards_voting_platfom.Voting.Table.{find_vote, put_votes}
use kw_awards_voting_platfom.Voting.Table.Sound.{IsSound, NoClash, in_slot, replaced, replaced_same}
use kw_awards_voting_platfom.Voting.Services.{
  find_votable, new_vote, cast_free_vote, void_vote, voided,
}
use kw_awards_voting_platfom.Voting.Services.Casting.{
  Found, cast_free_vote_refuses, cast_free_vote-recorded, cast_free_vote_duplicate,
}
use kw_awards_voting_platfom.Voting.Services.Voiding.{void_vote_refuses, void_vote_succeeds}

-- The vote's identifier and its nomination.
pub record Ballot : Type 0 where
  pub vote : ℕ
  pub nomination : ℕ

abbrev pub Box : Type 0
Box = ℕ → ℕ → Option Ballot

-- Two boxes that hold the same.
abbrev pub SameBox : Box → Box → Type 0
SameBox a b = (voter award : ℕ) → a voter award ≡ b voter award

-- What a call answers, as far as the box is concerned.
pub data Answer : Type 0 where
  accepted refused taken : Answer

-- A cast in the specification. `offer` is the award and the nomination, where it can be voted for.
abbrev place : ℕ → ℕ → Ballot → Box → Box
place voter award b box = λ v a. if v == voter && a == award then some b else box v a

unfoldable pub spec_cast : Option (ℕ × ℕ) → ℕ → ℕ → Box → Answer × Box
spec_cast none voter vote box = (refused, box)
spec_cast (some (award, nomination)) voter vote box =
    if is_some (box voter award)
    then (taken, box)
    else (accepted, place voter award (record { vote = vote; nomination = nomination }) box)

abbrev unless_vote : ℕ → Option Ballot → Option Ballot
unless_vote vote none = none
unless_vote vote (some b) = if b.vote == vote then none else some b

-- A void in the specification: the vote leaves the box, if it is there.
unfoldable pub spec_void : ℕ → Box → Box
spec_void vote box = λ v a. unless_vote vote (box v a)

-- The box that a table of votes holds.
abbrev ballot_of : Option Vote → Option Ballot
ballot_of none = none
ballot_of (some v) = some (record { vote = v.id; nomination = v.nomination })

unfoldable pub box_of : List Vote → Box
box_of votes = λ voter award. ballot_of (find? (in_slot voter award) votes)

-- What the tables of events and nominations offer at a time.
abbrev offered : Request → Option Found → Option (ℕ × ℕ)
offered r none = none
offered r (some f) = if voting_is_open f.2 r.now then some (f.1.id, f.0.id) else none

unfoldable pub offer : Request → ℕ → Db → Option (ℕ × ℕ)
offer r nomination_id db = offered r (find_votable nomination_id db)

count-find? :
    {A : Type 0} (p : A → Bool) (xs : List A) → is_some (find? p xs) ≡ not (count_where p xs == 0)
count-find? p [] = ground arith
count-find? p (x ∷ xs) = ground (arith, count-find? p xs)

box-count :
    (voter award : ℕ) (votes : List Vote)
    → is_some (box_of votes voter award) ≡ not (count_where (in_slot voter award) votes == 0)
unfolding box_of
box-count voter award votes = let found = count-find? (in_slot voter award) votes in ground arith

-- The new vote, in front of the table, is found for its voter and award, and nowhere else.
box-new_vote :
    (env : Env) (r : Request) (voter : ℕ) (f : Found) (votes : List Vote)
    → SameBox
        (box_of (new_vote env r voter f ∷ votes))
        (place voter f.1.id (record { vote = r.uuid; nomination = f.0.id }) (box_of votes))
unfolding box_of new_vote
box-new_vote env r voter f votes v a = ground arith

-- Behind a row, no other has its identifier, so taking the identifier out of the box is no change.
unless_behind :
    (vote : ℕ) (x : Vote) (votes : List Vote) (v a : ℕ)
    → (x.id == vote) ≡ true
    → any (vote_clash x) votes ≡ false
    → unless_vote vote (box_of votes v a) ≡ box_of votes v a
unfolding box_of
unless_behind vote x [] v a e c = refl
unless_behind vote x (y ∷ votes) v a e c = ground (arith, unless_behind vote x votes v a)

-- Behind a row of a slot, the slot has no other.
empty_behind :
    (x : Vote) (votes : List Vote) (v a : ℕ)
    → in_slot v a x ≡ true
    → any (vote_clash x) votes ≡ false
    → box_of votes v a ≡ none
unfolding box_of
empty_behind x [] v a h c = refl
empty_behind x (y ∷ votes) v a h c = ground (arith, empty_behind x votes v a)

-- A row that is replaced by one outside the slot leaves the box, and the other rows stay.
box-replaced :
    (new : Vote) (votes : List Vote) (v a : ℕ)
    → in_slot v a new ≡ false
    → NoClash votes
    → box_of (replaced new votes) v a ≡ unless_vote new.id (box_of votes v a)
unfolding box_of replaced
box-replaced new [] v a h n = refl
box-replaced new (x ∷ votes) v a h n = elim (Bool-cases (x.id == new.id)) [
  | inr other ↦ ground (arith, box-replaced new votes v a h n.1)
  | inl ours ↦ elim (Bool-cases (in_slot v a x)) [
    | inl slot ↦
        ground (arith, replaced_same new x votes ours n.0, empty_behind x votes v a slot n.0)
    | inr off ↦
        ground
          (arith, replaced_same new x votes ours n.0, unless_behind new.id x votes v a ours n.0)
  ]
]

-- No vote of the box has an identifier that the table does not have as an active vote.
unless_absent :
    (vote : ℕ) (votes : List Vote) (v a : ℕ)
    → find? (λ (x : Vote). x.id == vote) votes ≡ none
    → unless_vote vote (box_of votes v a) ≡ box_of votes v a
unfolding box_of
unless_absent vote [] v a h = refl
unless_absent vote (x ∷ votes) v a h = ground (arith, unless_absent vote votes v a)

unless_done :
    (x : Vote) (vote : ℕ) (votes : List Vote) (v a : ℕ)
    → find? (λ (y : Vote). y.id == vote) votes ≡ some x
    → is_some x.voided_at ≡ true
    → NoClash votes
    → unless_vote vote (box_of votes v a) ≡ box_of votes v a
unfolding box_of
unless_done x vote [] v a h d n = refl
unless_done x vote (y ∷ votes) v a h d n = elim (Bool-cases (y.id == vote)) [
  | inr other ↦ ground (arith, unless_done x vote votes v a)
  | inl ours ↦ ground (arith, unless_behind vote y votes v a ours n.0)
]
