-- ===== src/Voting/Otp/Once.antt =====
-- A code logs its voter in once.
use kw_awards_voting_platfom.Prelude.{
  ℕ, suc, ◌≤◌, none, some, List, [], ◌∷◌, Text, text_eq, text_eq_refl, ◌≡◌, refl, ◌∙◌, ap, inl, inr,
  find?, count_where, arith, Bool-cases,
}
use kw_awards_voting_platfom.Exceptions.{ok, err, api, invalid_otp}
use kw_awards_voting_platfom.Models.Voting.{Voter, Challenge}
use kw_awards_voting_platfom.Models.State.{World, Env, Request}
use kw_awards_voting_platfom.Audit.{add_entry}
use kw_awards_voting_platfom.Voting.Otp.{find_voter, is_live_for}
use kw_awards_voting_platfom.Voting.Otp.Live.{count_attempt-count}
use kw_awards_voting_platfom.Voting.Otp.Verify.{
  live_challenge, as_verified, save_verified, count_attempt, consume, verify_otp,
}
use kw_awards_voting_platfom.Voting.Otp.Verify.Attempts.{
  accepted, verify_otp_refuses, verify_otp_accepts,
}
use kw_awards_voting_platfom.Voting.Otp.Verify.Guessing.{verify_otp_sound}
use kw_awards_voting_platfom.Voting.Otp.Reach.{IsTidy}

counted_live :
    (id now : ℕ) (rows : List Challenge) (c : Challenge)
    → find? (is_live_for id now) rows ≡ some c
    → find? (is_live_for id now) (count_attempt c.id rows)
      ≡ some (record c { attempts = suc c.attempts })
unfolding count_attempt
counted_live id now [] c h = absurd (ground arith)
counted_live id now (x ∷ rows) c h = ground (arith, counted_live id now rows c)

fewer_later :
    (id now t k at : ℕ) (rows : List Challenge)
    → now ≤ t
    → count_where (is_live_for id now) rows ≡ 0
    → count_where (is_live_for id t) (consume k at rows) ≡ 0
unfolding consume
fewer_later id now t k at [] h z = refl
fewer_later id now t k at (x ∷ rows) h z = ground (arith, fewer_later id now t k at rows)

-- Consuming the one live challenge of a voter leaves none, from then on.
consumed :
    (id now t at : ℕ) (rows : List Challenge) (c : Challenge)
    → find? (is_live_for id now) rows ≡ some c
    → count_where (is_live_for id now) rows ≤ 1
    → now ≤ t
    → count_where (is_live_for id t) (consume c.id at rows) ≡ 0
unfolding consume
consumed id now t at [] c f one h = refl
consumed id now t at (x ∷ rows) c f one h = elim (Bool-cases (is_live_for id now x)) [
  | inl this ↦ ground (arith, fewer_later id now t c.id at rows)
  | inr other ↦ ground (arith, consumed id now t at rows c)
]

none_live :
    (id t : ℕ) (rows : List Challenge)
    → count_where (is_live_for id t) rows ≡ 0
    → find? (is_live_for id t) rows ≡ none
none_live id t [] z = refl
none_live id t (x ∷ rows) z = ground (arith, none_live id t rows)

found_verified :
    (phone : Text) (now : ℕ) (rows : List Voter) (v : Voter)
    → find? (λ (x : Voter). text_eq x.phone_e164 phone) rows ≡ some v
    → find? (λ (x : Voter). text_eq x.phone_e164 phone) (save_verified now v rows)
      ≡ some (as_verified now v)
unfolding save_verified
found_verified phone now [] v h = absurd (ground arith)
found_verified phone now (x ∷ rows) v h = ground (arith, found_verified phone now rows v)

verified_id : (now : ℕ) (v : Voter) → (as_verified now v).id ≡ v.id
verified_id now v = ground arith

verified_blocked : (now : ℕ) (v : Voter) → (as_verified now v).is_blocked ≡ v.is_blocked
verified_blocked now v = ground arith

-- In a tidy table of challenges, after a code has let its voter in, the next code that is sent in
-- for the number, at that time or later, is refused, the same one too.
pub verify_otp_once :
    (env : Env) (before : ℕ) (r s : Request) (phone code again : Text) (w : World) (x : Voter)
    → IsTidy env.otp_max_attempts before w.db.challenges
    → before ≤ r.now
    → (verify_otp env r phone code w).0 ≡ ok x
    → r.now ≤ s.now
    → (verify_otp env s phone again (verify_otp env r phone code w).1).0 ≡ err (api invalid_otp)
unfolding live_challenge accepted find_voter add_entry
verify_otp_once env before r s phone code again w x tidy later success after =
    let (v, c, found, passes, live, left, right, _) =
      verify_otp_sound env r phone code w x success in
    let e =
      verify_otp_accepts env r phone code w v found passes c live left
        (ground (arith, right, text_eq_refl c.code_hash)) in
    let w' = accepted env r v phone c w in
    let one = tidy.one_live v.id r.now later in
    let rows = count_attempt c.id w.db.challenges in
    let dead = none_live v.id s.now (consume c.id r.now rows) (
      consumed v.id r.now s.now r.now rows (record c { attempts = suc c.attempts })
        (counted_live v.id r.now w.db.challenges c live)
        (rw (count_attempt-count c.id v.id r.now w.db.challenges) one) after) in
    rw (ap (λ y. y.1) e) (
      ap (λ y. y.0)
        ((verify_otp_refuses env s phone again w' (as_verified r.now v)
            (found_verified phone r.now w.db.voters v found) (verified_blocked r.now v ∙ passes)).0
          (rw (verified_id r.now v) dead)))
