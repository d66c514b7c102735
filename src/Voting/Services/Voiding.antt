-- ===== src/Voting/Services/Voiding.antt =====
-- What `void_vote` answers, and what it changes.
use kw_awards_voting_platfom.Prelude.{
  ℕ, true, false, Option, none, some, List, [], ◌∷◌, ◌≡◌, refl, ◌⊎◌, inl, inr, ◌==◌, ==_iff, any,
  update_where, find?-sound, find?-All, arith, Bool-cases, Option-cases, is_some, is_empty, Text,
  text_eq_refl,
}
use kw_awards_voting_platfom.Exceptions.{Result, ok, err, api, already_voided, not_found}
use kw_awards_voting_platfom.Models.Voting.{Vote, VoteSource, vote_checks}
use kw_awards_voting_platfom.Models.Audit.{AuditAction, Json}
use kw_awards_voting_platfom.Models.State.{World, Env, Request}
use kw_awards_voting_platfom.Audit.{has_forbidden, is_forbidden, Entry, entry_row, add_entry}
use kw_awards_voting_platfom.Audit.Laws.{log_clean}
use kw_awards_voting_platfom.Voting.Table.{
  find_vote, put_votes, save_vote, write_columns, trigger_allows, clashes_with_other, same_num,
  same_text, same_source,
}
use kw_awards_voting_platfom.Voting.Table.Sound.{IsSound}
use kw_awards_voting_platfom.Voting.Services.{void_fields, voided, void_vote}

void_metadata_clean :
    (a b c : Json)
    → has_forbidden (("reason", a) ∷ ("award_id", b) ∷ ("nomination_id", c) ∷ []) ≡ false
unfolding has_forbidden is_forbidden
void_metadata_clean a b c = refl

pub void_row : ℕ → Text → Vote → Entry
void_row by reason v = record {
  action = AuditAction.vote_voided;
  actor_user = some by;
  actor_voter = none;
  target = some ("voting.vote", v.id);
  metadata =
      ("reason", Json.str reason)
      ∷ ("award_id", Json.num v.award)
      ∷ ("nomination_id", Json.num v.nomination)
      ∷ [];
}

-- The votes after a void: those before, or those after the save of some vote.
pub void_vote-votes :
    (env : Env) (now : ℕ) (req : Option Request) (id by : ℕ) (reason : Text) (w : World)
    → let w' = (void_vote env now req id by reason w).1 in
      (w'.db.votes ≡ w.db.votes)
      ⊎ ((v : Vote) × (w'.db.votes ≡ (save_vote void_fields v w).1.db.votes))
unfolding void_vote add_entry void_row
void_vote-votes env now req id by reason w = elim (Option-cases (find_vote id w.db)) [
  | inl absent ↦ inl (ground arith)
  | inr (v, found) ↦ elim (Bool-cases (is_some v.voided_at)) [
    | inl done ↦ inl (ground arith)
    | inr active ↦ after v found active (save_vote void_fields (voided now by reason v) w) refl
  ]
]
  where
    after :
        (v : Vote)
        → find_vote id w.db ≡ some v
        → is_some v.voided_at ≡ false
        → (x : Result (Unit {0}) × World) → save_vote void_fields (voided now by reason v) w ≡ x
        → let w' = (void_vote env now req id by reason w).1 in
          (w'.db.votes ≡ w.db.votes)
          ⊎ ((v : Vote) × (w'.db.votes ≡ (save_vote void_fields v w).1.db.votes))
    after v found active (ok u, w1) e =
        let logs =
          log_clean env now req (void_row by reason v) w1
            (unfold void_row in void_metadata_clean _ _ _) in
        inr (voided now by reason v, ground arith)
    after v found active (err x, w1) e = inl (ground arith)

same_num_refl : (o : Option ℕ) → same_num o o ≡ true
same_num_refl o = ground arith

same_text_refl : (o : Option Text) → same_text o o ≡ true
same_text_refl none = refl
same_text_refl (some t) = text_eq_refl t

same_source_refl : (o : VoteSource) → same_source o o ≡ true
same_source_refl o = ground arith

trigger_self :
    (v : Vote) (now by : ℕ) (reason : Text)
    → is_some v.voided_at ≡ false
    → trigger_allows v (voided now by reason v) ≡ true
unfolding trigger_allows
trigger_self v now by reason h = ground (
  arith,
  same_num_refl v.payment,
  same_text_refl v.ip_address,
  same_source_refl v.source,
  text_eq_refl v.user_agent,
)

voided_checks :
    (v : Vote) (now by : ℕ) (reason : Text)
    → vote_checks v ≡ true
    → is_empty reason ≡ false
    → vote_checks (voided now by reason v) ≡ true
unfolding vote_checks
voided_checks v now by reason h n = ground arith

voided_apart :
    (v : Vote) (now by : ℕ) (reason : Text) (rows : List Vote)
    → any (clashes_with_other (voided now by reason v)) rows ≡ false
voided_apart v now by reason [] = refl
voided_apart v now by reason (x ∷ rows) = ground (arith, voided_apart v now by reason rows)

module _ (env : Env) (now : ℕ) (req : Option Request) (id by : ℕ) (reason : Text) (w : World) where
  -- A vote that is not there, or already voided, is refused, and nothing changes.
  pub void_vote_refuses :
      (find_vote id w.db ≡ none → void_vote env now req id by reason w ≡ (err not_found, w))
      × ((v : Vote)
          → find_vote id w.db ≡ some v
          → is_some v.voided_at ≡ true
          → void_vote env now req id by reason w ≡ (err (api already_voided), w))
  unfolding void_vote
  void_vote_refuses = ((λ h. ground arith), (λ v f h. ground arith))

  -- An active vote of a sound table is voided, with a reason: its row gets the time, the user who voids
  -- it and the reason, and is otherwise as it was; the answer is that row, the other rows are untouched,
  -- and the audit log has one entry more.
  pub void_vote_succeeds :
      (v : Vote)
      → find_vote id w.db ≡ some v
      → is_some v.voided_at ≡ false
      → is_empty reason ≡ false
      → IsSound w.db.votes
      → let v' = record v { voided_at = some now; voided_by = some by; void_reason = reason } in
        void_vote env now req id by reason w ≡ (
          ok v',
          add_entry
              (entry_row env now req (void_row by reason v))
              (put_votes (update_where (λ (x : Vote). x.id == id) (λ _. v') w.db.votes) w),
        )
  unfolding void_vote save_vote void_row write_columns find_vote
  void_vote_succeeds v found active reasoned sound =
      let id_eq = (==_iff v.id id).0 (find?-sound (λ (x : Vote). x.id == id) w.db.votes v found) in
      let good =
        find?-All (λ x. vote_checks x ≡ true) (λ (x : Vote). x.id == id) w.db.votes v sound.checked
          found in
      let logs =
        log_clean env now req (void_row by reason v)
          (put_votes
            (update_where (λ (x : Vote). x.id == v.id) (λ _. voided now by reason v) w.db.votes) w)
          (void_metadata_clean _ _ _) in
      ground (
        arith,
        found,
        trigger_self v now by reason active,
        voided_checks v now by reason good reasoned,
        voided_apart v now by reason w.db.votes,
      )
