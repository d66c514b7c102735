-- ===== src/Voting/Services/Ballot/Runs.antt =====
-- Sequences of calls against the ballot box.
use kw_awards_voting_platfom.Prelude.{
  ℕ, false, Option, List, [], ◌∷◌, ◌≡◌, refl, ◌∙◌, inl, inr, ◌==◌, any, update_where, count_where,
  arith, Bool-cases, Option-cases, is_some, is_empty, Text, All, any-eq-false, ap, ==_iff,
  find?-sound,
}
use mathlib.Core.Path.{subst}
use kw_awards_voting_platfom.Prelude.Sorting.{Distinct}
use kw_awards_voting_platfom.Models.Events.{voting_is_open}
use kw_awards_voting_platfom.Models.Voting.{Vote}
use kw_awards_voting_platfom.Models.Audit.{AuditLog}
use kw_awards_voting_platfom.Models.State.{World, Env, Request}
use kw_awards_voting_platfom.Audit.{add_entry}
use kw_awards_voting_platfom.Voting.Table.{find_vote, put_votes}
use kw_awards_voting_platfom.Voting.Table.Sound.{IsSound, in_slot}
use kw_awards_voting_platfom.Voting.Services.{
  find_votable, new_vote, cast_free_vote, void_vote, voided,
}
use kw_awards_voting_platfom.Voting.Services.Casting.{
  cast_free_vote_refuses, cast_free_vote-recorded, cast_free_vote_duplicate,
}
use kw_awards_voting_platfom.Voting.Services.Voiding.{void_vote_refuses, void_vote_succeeds}
use kw_awards_voting_platfom.Voting.Services.Reach.{VoteStep, Reach, one_vote-Reach}
use kw_awards_voting_platfom.Voting.Services.Ballot.{Box, SameBox, box_of, offer}
use kw_awards_voting_platfom.Voting.Services.Ballot.Refinement.{
  is_known, Call, cast, void, run, spec_run, new_ids, HaveReasons, AllNew, cast_free_vote-spec_cast,
  void_vote-spec_void,
}

-- What a call leaves of the world, apart from votes and audit log: the world before.
abbrev only_votes : List Vote → List AuditLog → World → World
only_votes votes log w = record w { db = record w.db { votes = votes; audit_log = log } }

-- What can be voted for does not depend on the votes.
offer-only_votes :
    (r : Request) (nomination_id : ℕ) (votes : List Vote) (log : List AuditLog) (w : World)
    → offer r nomination_id (only_votes votes log w).db ≡ offer r nomination_id w.db
unfolding offer find_votable kw_awards_voting_platfom.Nominations.is_shown
    kw_awards_voting_platfom.Nominations.award_and_event kw_awards_voting_platfom.Events.find_award
    kw_awards_voting_platfom.Nominations.event_of_award
    kw_awards_voting_platfom.Events.find_category kw_awards_voting_platfom.Events.find_event
offer-only_votes r nomination_id votes log w = refl

-- What a call does to the world `w`: only votes and audit log change, and the votes with the
-- identifiers `P` are neither more nor fewer.
abbrev Left : (ℕ → Type 0) → World → World → Type 0
Left P w x =
    (votes : List Vote) × (log : List AuditLog) × (x ≡ only_votes votes log w)
    × ((j : ℕ) → P j → any (λ (v : Vote). j == v.id) votes ≡ is_known j w)

same-Left : (P : ℕ → Type 0) (w x : World) → x ≡ w → Left P w x
same-Left P w x e = (w.db.votes, w.db.audit_log, e, λ j p. refl)

abbrev OtherThan : ℕ → ℕ → Type 0
OtherThan id j = (id == j) ≡ false

cast-Left :
    (env : Env) (r : Request) (voter nomination_id : ℕ) (w : World)
    → is_known r.uuid w ≡ false
    → Left (OtherThan r.uuid) w (cast_free_vote env r voter nomination_id w).1
unfolding add_entry put_votes
cast-Left env r voter nomination_id w fresh =
    let refuses = cast_free_vote_refuses env r voter nomination_id w in
    elim (Option-cases (find_votable nomination_id w.db)) [
      | inl absent ↦ same-Left _ w _ (ap (λ x. x.1) (refuses.0 absent))
      | inr (f, found) ↦ elim (Bool-cases (voting_is_open f.2 r.now)) [
        | inr shut ↦ same-Left _ w _ (ap (λ x. x.1) (refuses.1 f found shut))
        | inl is_open ↦ elim (Bool-cases (count_where (in_slot voter f.1.id) w.db.votes == 0)) [
          | inl free ↦ (
            new_vote env r voter f ∷ w.db.votes,
            _,
            ap (λ x. x.1)
                (cast_free_vote-recorded env r voter nomination_id w f found is_open fresh
                  (ground arith)),
            λ j other. unfold new_vote in ground arith,
          )
          | inr full ↦ (
            w.db.votes,
            _,
            ap (λ x. x.1)
                (cast_free_vote_duplicate env r voter nomination_id w f found is_open
                  (ground arith)),
            λ j other. refl,
          )
        ]
      ]
    ]

known-update_where :
    (j id : ℕ) (new : Vote) (votes : List Vote)
    → new.id ≡ id
    → any (λ (v : Vote). j == v.id) (update_where (λ (v : Vote). v.id == id) (λ _. new) votes)
      ≡ any (λ (v : Vote). j == v.id) votes
known-update_where j id new [] e = refl
known-update_where j id new (x ∷ votes) e = ground (arith, known-update_where j id new votes e)

void-Left :
    (env : Env) (now : ℕ) (req : Option Request) (id by : ℕ) (reason : Text) (w : World)
    → IsSound w.db.votes
    → is_empty reason ≡ false
    → Left (λ j. Unit {0}) w (void_vote env now req id by reason w).1
unfolding add_entry put_votes find_vote
void-Left env now req id by reason w sound reasoned =
    let refuses = void_vote_refuses env now req id by reason w in
    elim (Option-cases (find_vote id w.db)) [
      | inl absent ↦ same-Left _ w _ (ap (λ x. x.1) (refuses.0 absent))
      | inr (v, found) ↦ elim (Bool-cases (is_some v.voided_at)) [
        | inl done ↦ same-Left _ w _ (ap (λ x. x.1) (refuses.1 v found done))
        | inr active ↦ (
          _,
          _,
          ap (λ x. x.1)
              (void_vote_succeeds env now req id by reason w v found active reasoned sound),
          λ j _.
              known-update_where j id (voided now by reason v) w.db.votes
                ((==_iff v.id id).0 (find?-sound (λ (x : Vote). x.id == id) w.db.votes v found)),
        )
      ]
    ]

still_new :
    (P : ℕ → Type 0) (w x : World) (ids : List ℕ)
    → Left P w x
    → All P ids
    → AllNew ids w
    → AllNew ids x
still_new P w x [] left p new = tt
still_new P w x (j ∷ ids) left p new =
    (rw left.2 (left.3 j p.0 ∙ new.0), still_new P w x ids left p.1 new.1)

all_units : (ids : List ℕ) → All (λ j. Unit {0}) ids
all_units [] = tt
all_units (j ∷ ids) = (tt, all_units ids)

abbrev Offers : Type 0
Offers = Request → ℕ → Option (ℕ × ℕ)

abbrev offers_of : World → Offers
offers_of w = λ r nomination_id. offer r nomination_id w.db

offers-Left : (P : ℕ → Type 0) (w x : World) → Left P w x → offers_of x ≡ offers_of w
offers-Left P w x left =
    rw left.2 (λ i r nomination_id. offer-only_votes r nomination_id left.0 left.1 w i)

abbrev pub Refines : List Call → World → Offers → Box → Type 0
Refines calls w offers box =
    let (answers, w') = run calls w in
    let (spec_answers, box') = spec_run offers calls box in
    (answers ≡ spec_answers) × SameBox (box_of w'.db.votes) box'

-- What refines in the world that a call leaves refines from the box that its specification leaves.
carry :
    (calls : List Call) (P : ℕ → Type 0) (w x : World) (box : Box)
    → Left P w x
    → SameBox (box_of x.db.votes) box
    → Refines calls x (offers_of x) (box_of x.db.votes)
    → Refines calls x (offers_of w) box
carry calls P w x box left same h =
    subst (λ offers. Refines calls x offers box) (offers-Left P w x left)
      (subst (Refines calls x (offers_of x)) (λ i v a. same v a i) h)

-- From a sound table, a sequence of casts and voids answers its casts as the specification does, and
-- leaves a table that holds the box that the specification leaves, where the casts draw distinct new
-- identifiers and the voids have reasons. What can be voted for is read once, at the start.
pub run-spec_run :
    (calls : List Call) (w : World)
    → IsSound w.db.votes
    → Distinct (new_ids calls)
    → AllNew (new_ids calls) w
    → HaveReasons calls
    → Refines calls w (offers_of w) (box_of w.db.votes)
run-spec_run [] w sound apart new reasons = (refl, λ v a. refl)
run-spec_run (cast env r voter nomination_id ∷ calls) w sound apart new reasons =
    let x = (cast_free_vote env r voter nomination_id w).1 in
    let left = cast-Left env r voter nomination_id w new.0 in
    let (answers, same) = cast_free_vote-spec_cast env r voter nomination_id w new.0 in
    let reached =
      one_vote-Reach 0 0 sound
        (Reach.then Reach.here (VoteStep.cast env r voter nomination_id w)) in
    let others = any-eq-false (λ j. r.uuid == j) (new_ids calls) apart.0 in
    let (later, box) = carry calls (OtherThan r.uuid) w x _ left same (
      run-spec_run calls x reached.0 apart.1 (still_new _ w x (new_ids calls) left others new.1)
        reasons) in
    (λ i. answers i ∷ later i, box)
run-spec_run (void env now req id by reason ∷ calls) w sound apart new reasons =
    let x = (void_vote env now req id by reason w).1 in
    let left = void-Left env now req id by reason w sound reasons.0 in
    let same = void_vote-spec_void env now req id by reason w sound reasons.0 in
    let reached =
      one_vote-Reach 0 0 sound (Reach.then Reach.here (VoteStep.void env now req id by reason w)) in
    carry calls (λ j. Unit {0}) w x _ left same
      (run-spec_run calls x reached.0 apart
        (still_new _ w x (new_ids calls) left (all_units (new_ids calls)) new) reasons.1)
