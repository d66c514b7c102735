-- ===== src/Voting/Services/Casting.antt =====
-- What `cast_free_vote` answers, on each of its branches.
use kw_awards_voting_platfom.Prelude.{
  ℕ, ◌≤◌, true, false, none, some, List, [], ◌∷◌, ◌≡◌, refl, ◌⊎◌, inl, inr, ◌==◌, any, count_where,
  arith, Bool-cases, Option-cases,
}
use kw_awards_voting_platfom.Exceptions.{
  Result, ok, err, api, already_voted, voting_closed, not_found,
}
use kw_awards_voting_platfom.Exec.{settle, handled}
use kw_awards_voting_platfom.Models.Events.{Event, Award, voting_is_open}
use kw_awards_voting_platfom.Models.Nominations.{Nomination}
use kw_awards_voting_platfom.Models.Voting.{Vote, vote_checks, vote_clash}
use kw_awards_voting_platfom.Models.Audit.{AuditAction}
use kw_awards_voting_platfom.Models.State.{World, Env, Request}
use kw_awards_voting_platfom.Audit.{has_forbidden, is_forbidden, Entry, entry_row, add_entry, log}
use kw_awards_voting_platfom.Audit.Laws.{log_clean}
use kw_awards_voting_platfom.Voting.Table.{insert_vote, put_votes}
use kw_awards_voting_platfom.Voting.Table.Sound.{in_slot}
use kw_awards_voting_platfom.Voting.Services.{
  find_votable, new_vote, cast_metadata, record_vote, on_violation, cast_free_vote,
}
use kw_awards_voting_platfom.Voting.Services.FreeVote.{IsFreeVote, new_vote-IsFreeVote, found_joins}

abbrev pub Found : Type 0
Found = Nomination × Award × Event

cast_metadata_clean : (f : Found) → has_forbidden (cast_metadata f) ≡ false
unfolding has_forbidden is_forbidden
cast_metadata_clean f = refl

-- The row of the audit log for a vote that is cast, and for a duplicate.
pub cast_row : Env → Request → ℕ → Found → Entry
cast_row env r voter f = record {
  action = AuditAction.vote_cast;
  actor_user = none;
  actor_voter = some voter;
  target = some ("voting.vote", r.uuid);
  metadata = cast_metadata f;
}

pub duplicate_row : ℕ → Found → Entry
duplicate_row voter f = record {
  action = AuditAction.vote_duplicate;
  actor_user = none;
  actor_voter = some voter;
  target = none;
  metadata = cast_metadata f;
}

new_vote_checks :
    (env : Env) (r : Request) (voter : ℕ) (f : Found) → vote_checks (new_vote env r voter f) ≡ true
unfolding vote_checks new_vote
new_vote_checks env r voter f = refl

-- A new vote clashes with nothing if its identifier is new and its slot is empty.
no_clash :
    (env : Env) (r : Request) (voter : ℕ) (f : Found) (rows : List Vote)
    → any (λ (v : Vote). r.uuid == v.id) rows ≡ false
    → count_where (in_slot voter f.1.id) rows ≡ 0
    → any (vote_clash (new_vote env r voter f)) rows ≡ false
unfolding new_vote
no_clash env r voter f [] n c = refl
no_clash env r voter f (x ∷ rows) n c = ground (arith, no_clash env r voter f rows)

clash :
    (env : Env) (r : Request) (voter : ℕ) (f : Found) (rows : List Vote)
    → 1 ≤ count_where (in_slot voter f.1.id) rows
    → any (vote_clash (new_vote env r voter f)) rows ≡ true
unfolding new_vote
clash env r voter f [] c = absurd (omega arith)
clash env r voter f (x ∷ rows) c = ground (arith, clash env r voter f rows)

module _ (env : Env) (r : Request) (voter nomination_id : ℕ) (w : World) where
  -- A nomination that is not public, or not there, is "not found", and nothing changes. Outside the
  -- voting window the vote is refused, and nothing changes.
  pub cast_free_vote_refuses :
      ((find_votable nomination_id w.db ≡ none)
        → cast_free_vote env r voter nomination_id w ≡ (err not_found, w))
      × ((f : Found)
          → find_votable nomination_id w.db ≡ some f
          → voting_is_open f.2 r.now ≡ false
          → cast_free_vote env r voter nomination_id w ≡ (err (api voting_closed), w))
  unfolding cast_free_vote
  cast_free_vote_refuses = ((λ h. ground arith), (λ f h c. ground arith))

module _ (env : Env) (r : Request) (voter nomination_id : ℕ) (w : World) (f : Found)
    (found : find_votable nomination_id w.db ≡ some f)
    (is_open : voting_is_open f.2 r.now ≡ true) where
  pub cast_free_vote-recorded :
      any (λ (v : Vote). r.uuid == v.id) w.db.votes ≡ false
      → count_where (in_slot voter f.1.id) w.db.votes ≡ 0
      → cast_free_vote env r voter nomination_id w ≡ (
        ok (new_vote env r voter f),
        add_entry
            (entry_row env r.now (some r) (cast_row env r voter f))
            (put_votes (new_vote env r voter f ∷ w.db.votes) w),
      )
  unfolding cast_free_vote insert_vote cast_row
  cast_free_vote-recorded n c =
      let logs =
        log_clean env r.now (some r) (cast_row env r voter f)
          (put_votes (new_vote env r voter f ∷ w.db.votes) w) (cast_metadata_clean f) in
      ground (
        arith,
        found,
        is_open,
        new_vote_checks env r voter f,
        no_clash env r voter f w.db.votes n c,
      )

  -- While voting is open for a votable nomination, with a new identifier and no active free vote of the
  -- voter in the award: the answer is the new vote, which stands in front of the others, and the audit log
  -- has one entry more, for it. The vote is an active free one of the voter, of quantity 1 and without a
  -- payment; its nomination is the one that was asked for, and its award and event are those that the
  -- nomination belongs to.
  pub cast_free_vote_succeeds :
      any (λ (v : Vote). r.uuid == v.id) w.db.votes ≡ false
      → count_where (in_slot voter f.1.id) w.db.votes ≡ 0
      → (v : Vote) × (cast_free_vote env r voter nomination_id w ≡ (
        ok v,
        add_entry
            (entry_row env r.now (some r) (cast_row env r voter f))
            (put_votes (v ∷ w.db.votes) w),
      ))
        × IsFreeVote r voter nomination_id w.db f v
  cast_free_vote_succeeds n c =
      let (asked_for, own_award, own_event) = found_joins nomination_id w.db f found in
      (
        new_vote env r voter f,
        cast_free_vote-recorded n c,
        new_vote-IsFreeVote env r voter nomination_id w.db f asked_for own_award own_event,
      )

  -- While voting is open for a votable nomination: if the voter already has an active free vote in
  -- the award, the answer is 409 "already voted"; the votes are left alone, and the audit log has
  -- one entry more, for the duplicate.
  pub cast_free_vote_duplicate :
      1 ≤ count_where (in_slot voter f.1.id) w.db.votes
      → cast_free_vote env r voter nomination_id w ≡ (
        err (api already_voted),
        add_entry (entry_row env r.now (some r) (duplicate_row voter f)) w,
      )
  unfolding cast_free_vote insert_vote duplicate_row
  cast_free_vote_duplicate c =
      let logs = log_clean env r.now (some r) (duplicate_row voter f) w (cast_metadata_clean f) in
      ground
        (arith, found, is_open, new_vote_checks env r voter f, clash env r voter f w.db.votes c)

-- The votes after the transaction of a cast: those before, or those after the INSERT.
pub record_vote-votes :
    (env : Env) (r : Request) (voter : ℕ) (f : Found) (w : World)
    → let w' = (settle w.db (record_vote env r voter f w)).1 in
      (w'.db.votes ≡ w.db.votes)
      ⊎ (w'.db.votes ≡ (insert_vote (new_vote env r voter f) w).1.db.votes)
unfolding record_vote insert_vote log add_entry put_votes
record_vote-votes env r voter f w = ground arith

handler-votes :
    (env : Env) (r : Request) (voter : ℕ) (f : Found) (before : List Vote) (x : Result Vote × World)
    → x.1.db.votes ≡ before
    → (handled (on_violation env r voter f) x).1.db.votes ≡ before
unfolding on_violation log add_entry
handler-votes env r voter f before (ok v, w) h = h
handler-votes env r voter f before (err e, w) h = ground arith

pub cast_free_vote-votes :
    (env : Env) (r : Request) (voter nomination_id : ℕ) (w : World)
    → let w' = (cast_free_vote env r voter nomination_id w).1 in
      (w'.db.votes ≡ w.db.votes) ⊎ ((v : Vote) × (w'.db.votes ≡ (insert_vote v w).1.db.votes))
unfolding cast_free_vote
cast_free_vote-votes env r voter nomination_id w =
    elim (Option-cases (find_votable nomination_id w.db)) [
      | inl absent ↦ inl (ground arith)
      | inr (f, found) ↦ elim (Bool-cases (voting_is_open f.2 r.now)) [
        | inr shut ↦ inl (ground arith)
        | inl open_now ↦ elim (record_vote-votes env r voter f w) [
          | inl same ↦ inl (
              ground (
                arith,
                handler-votes env r voter f w.db.votes (settle w.db (record_vote env r voter f w))
                    same,
              ))
          | inr more ↦ inr (
            new_vote env r voter f,
            ground (
              arith,
              handler-votes env r voter f (insert_vote (new_vote env r voter f) w).1.db.votes
                  (settle w.db (record_vote env r voter f w)) more,
            ),
          )
        ]
      ]
    ]
