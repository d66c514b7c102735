-- ===== src/Voting/Services/Reach.antt =====
-- Requests that touch the votes, in any order and interleaving.
use kw_awards_voting_platfom.Prelude.{ℕ, ◌≤◌, Option, List, ◌≡◌, inl, inr, Text, count_where}
use kw_awards_voting_platfom.Exec.{settle}
use kw_awards_voting_platfom.Models.Voting.{Vote}
use kw_awards_voting_platfom.Models.State.{World, Env, Request}
use kw_awards_voting_platfom.Voting.Table.{insert_vote, save_vote}
use kw_awards_voting_platfom.Voting.Table.Sound.{
  IsSound, in_slot, one_vote, insert_vote-IsSound, save_vote-IsSound,
}
use kw_awards_voting_platfom.Voting.Table.History.{
  Grown, Grown-refl, Grown-trans, insert_vote-Grown, save_vote-Grown,
}
use kw_awards_voting_platfom.Voting.Services.{
  new_vote, record_vote, cast_free_vote, void_vote, void_fields,
}
use kw_awards_voting_platfom.Voting.Services.Casting.{
  Found, record_vote-votes, cast_free_vote-votes,
}
use kw_awards_voting_platfom.Voting.Services.Voiding.{void_vote-votes}

-- One step of the world. `late` is the transaction of a cast whose nomination was read, and whose
-- window was tested, at any earlier time: what two requests that race run through. `elsewhere` is a
-- step of any code that leaves the votes alone.
pub data VoteStep : World → World → Type 0 where
  cast :
      (env : Env) (r : Request) (voter nomination_id : ℕ) (w : World)
      → VoteStep w (cast_free_vote env r voter nomination_id w).1
  late :
      (env : Env) (r : Request) (voter : ℕ) (f : Found) (w : World)
      → VoteStep w (settle w.db (record_vote env r voter f w)).1
  void :
      (env : Env) (now : ℕ) (req : Option Request) (id by : ℕ) (reason : Text) (w : World)
      → VoteStep w (void_vote env now req id by reason w).1
  elsewhere : (w w' : World) → w'.db.votes ≡ w.db.votes → VoteStep w w'

pub data Reach (w : World) : World → Type 0 where
  here : Reach w w
  then : {a b : World} → Reach w a → VoteStep a b → Reach w b

abbrev Kept : List Vote → List Vote → Type 0
Kept a b = IsSound b × Grown a b

same-Kept : (a b : List Vote) → b ≡ a → IsSound a → Kept a b
same-Kept a b e h = rw e (h, Grown-refl a)

insert-Kept :
    (w : World) (v : Vote) (b : List Vote)
    → b ≡ (insert_vote v w).1.db.votes
    → IsSound w.db.votes
    → Kept w.db.votes b
insert-Kept w v b e h = rw e (insert_vote-IsSound v w h, insert_vote-Grown v w)

save-Kept :
    (w : World) (v : Vote) (b : List Vote)
    → b ≡ (save_vote void_fields v w).1.db.votes
    → IsSound w.db.votes
    → Kept w.db.votes b
save-Kept w v b e h =
    rw e (save_vote-IsSound void_fields v w h, save_vote-Grown void_fields v w h.apart)

step-Kept : {a b : World} → VoteStep a b → IsSound a.db.votes → Kept a.db.votes b.db.votes
step-Kept (cast env r voter nomination_id w) h =
    elim (cast_free_vote-votes env r voter nomination_id w) [
      | inl same ↦
          same-Kept w.db.votes (cast_free_vote env r voter nomination_id w).1.db.votes same h
      | inr (v, e) ↦ insert-Kept w v (cast_free_vote env r voter nomination_id w).1.db.votes e h
    ]
step-Kept (late env r voter f w) h =
    let b = (settle w.db (record_vote env r voter f w)).1.db.votes in
    elim (record_vote-votes env r voter f w) [
      | inl same ↦ same-Kept w.db.votes b same h
      | inr e ↦ insert-Kept w (new_vote env r voter f) b e h
    ]
step-Kept (void env now req id by reason w) h =
    let b = (void_vote env now req id by reason w).1.db.votes in
    elim (void_vote-votes env now req id by reason w) [
      | inl same ↦ same-Kept w.db.votes b same h
      | inr (v, e) ↦ save-Kept w v b e h
    ]
step-Kept (elsewhere w w' e) h = same-Kept w.db.votes w'.db.votes e h

Reach-Kept : {a b : World} → IsSound a.db.votes → Reach a b → Kept a.db.votes b.db.votes
Reach-Kept {a} h here = (h, Grown-refl a.db.votes)
Reach-Kept h (then r s) =
    let (sound, grown) = Reach-Kept h r in
    let (sound', grown') = step-Kept s sound in (sound', Grown-trans grown grown')

-- From a sound table, whatever requests come and however they interleave, a voter never has more
-- than one active free vote in an award, and every vote passes the check constraints.
pub one_vote-Reach :
    {a b : World} (voter award : ℕ)
    → IsSound a.db.votes
    → Reach a b
    → IsSound b.db.votes × (count_where (in_slot voter award) b.db.votes ≤ 1)
one_vote-Reach {b = b} voter award h r =
    let (sound, _) = Reach-Kept h r in (sound, one_vote voter award b.db.votes sound.apart)

-- From a sound table, no request, in any order and interleaving, removes a vote, changes it apart
-- from voiding it, or changes a voided vote.
pub append_only-Reach : {a b : World} → IsSound a.db.votes → Reach a b → Grown a.db.votes b.db.votes
append_only-Reach h r = (Reach-Kept h r).1
