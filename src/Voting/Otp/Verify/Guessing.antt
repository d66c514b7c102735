-- ===== src/Voting/Otp/Verify/Guessing.antt =====
-- What a code is good for: who is let in, and how many guesses a challenge stands.
use kw_awards_voting_platfom.Prelude.{
  ℕ, suc, ◌+◌, ◌≤◌, ◌<◌, false, Option, none, some, List, [], ◌∷◌, Text, text_eq, text_eq→eq, ◌==◌,
  ◌≡◌, refl, inl, inr, length, find?, All, if◌then◌else◌, arith, Bool-cases, Option-cases, leb,
}
use kw_awards_voting_platfom.Exceptions.{ok, err, api, invalid_otp}
use kw_awards_voting_platfom.Models.Voting.{Voter, Challenge}
use kw_awards_voting_platfom.Models.State.{World, Env, Request}
use kw_awards_voting_platfom.Audit.{add_entry}
use kw_awards_voting_platfom.Voting.Otp.{find_voter, hash_code, is_live_for}
use kw_awards_voting_platfom.Voting.Otp.Verify.{
  live_challenge, count_attempt, as_verified, verify_otp,
}
use kw_awards_voting_platfom.Voting.Otp.Verify.Attempts.{
  failed, counted, verify_otp_unknown, verify_otp_refuses, verify_otp_accepts,
}

-- Whoever is let in has a voter row that is not blocked, and its newest live challenge had attempts
-- left and holds the keyed hash of the code that was sent in.
pub verify_otp_sound :
    (env : Env) (r : Request) (phone code : Text) (w : World) (x : Voter)
    → (verify_otp env r phone code w).0 ≡ ok x
    → (v : Voter) × (c : Challenge) × (find_voter phone w.db ≡ some v)
      × (v.is_blocked ≡ false)
      × (live_challenge v.id r.now w.db ≡ some c)
      × (c.attempts < env.otp_max_attempts)
      × (c.code_hash ≡ hash_code env c.id code)
      × (x ≡ as_verified r.now v)
verify_otp_sound env r phone code w x h = elim (Option-cases (find_voter phone w.db)) [
  | inl absent ↦ absurd (ground (arith, (verify_otp_unknown env r phone code w).0 absent))
  | inr (v, found) ↦ elim (Bool-cases v.is_blocked) [
    | inl blocked ↦
        absurd (ground (arith, (verify_otp_unknown env r phone code w).1 v found blocked))
    | inr passes ↦ elim (Option-cases (live_challenge v.id r.now w.db)) [
      | inl dead ↦
          absurd (ground (arith, (verify_otp_refuses env r phone code w v found passes).0 dead))
      | inr (c, live) ↦ elim (Bool-cases (leb env.otp_max_attempts c.attempts)) [
        | inl spent ↦ absurd (
            ground (
              arith,
              (verify_otp_refuses env r phone code w v found passes).1 c live (ground arith),
            ))
        | inr left ↦ elim (Bool-cases (text_eq c.code_hash (hash_code env c.id code))) [
          | inr wrong ↦ absurd (
              ground (
                arith,
                (verify_otp_refuses env r phone code w v found passes).2 c live (ground arith)
                    wrong,
              ))
          | inl right ↦ (
            v,
            c,
            found,
            passes,
            live,
            ground arith,
            text_eq→eq c.code_hash (hash_code env c.id code) right,
            ground (
              arith,
              verify_otp_accepts env r phone code w v found passes c live (ground arith) right,
            ),
          )
        ]
      ]
    ]
  ]
]

-- A voter's newest challenge.
abbrev pub newest : ℕ → List Challenge → Option Challenge
newest voter_id rows = find? (λ (c : Challenge). c.voter == voter_id) rows

newest-live :
    (id now : ℕ) (rows : List Challenge) (c : Challenge)
    → newest id rows ≡ some c
    → c.consumed_at ≡ none
    → now < c.expires_at
    → find? (is_live_for id now) rows ≡ some c
newest-live id now [] c h e t = absurd (ground arith)
newest-live id now (x ∷ rows) c h e t = ground (arith, newest-live id now rows c)

newest-count_attempt :
    (id : ℕ) (rows : List Challenge) (c : Challenge)
    → newest id rows ≡ some c
    → newest id (count_attempt c.id rows) ≡ some (record c { attempts = suc c.attempts })
unfolding count_attempt
newest-count_attempt id [] c h = absurd (ground arith)
newest-count_attempt id (x ∷ rows) c h = ground (arith, newest-count_attempt id rows c)

-- The world after a sequence of attempts.
pub tries : Env → Text → List (Request × Text) → World → World
tries env phone [] w = w
tries env phone ((r, code) ∷ rest) w = tries env phone rest (verify_otp env r phone code w).1

-- A wrong code, or an exhausted challenge: what one attempt leaves.
refused :
    (env : Env) (r : Request) (phone code : Text) (w : World) (v : Voter) (c : Challenge)
    → find_voter phone w.db ≡ some v
    → v.is_blocked ≡ false
    → newest v.id w.db.challenges ≡ some c
    → c.consumed_at ≡ none
    → r.now < c.expires_at
    → text_eq c.code_hash (hash_code env c.id code) ≡ false
    → let w' = (verify_otp env r phone code w).1 in
      (find_voter phone w'.db ≡ some v)
      × (newest v.id w'.db.challenges
          ≡ some (
              if leb env.otp_max_attempts c.attempts
              then c
              else record c { attempts = suc c.attempts }))
unfolding failed counted add_entry find_voter live_challenge
refused env r phone code w v c found passes new e t wrong =
    elim (Bool-cases (leb env.otp_max_attempts c.attempts)) [
      | inl spent ↦
          rw
            ((verify_otp_refuses env r phone code w v found passes).1 c
              (newest-live v.id r.now w.db.challenges c new e t) (ground arith))
            (rw spent (found, new))
      | inr left ↦
          rw
            ((verify_otp_refuses env r phone code w v found passes).2 c
              (newest-live v.id r.now w.db.challenges c new e t) (ground arith) wrong)
            (rw left (found, newest-count_attempt v.id w.db.challenges c new))
    ]

-- The newest challenge of a voter who is not blocked, not consumed and tried before it expires,
-- stands at most `OTP_MAX_ATTEMPTS` attempts: after as many wrong codes as it has attempts left,
-- every code is refused, the right one too.
pub guess_limit :
    (env : Env) (phone : Text) (v : Voter) (guesses : List (Request × Text)) (w : World)
    (c : Challenge) (r : Request) (code : Text)
    → find_voter phone w.db ≡ some v
    → v.is_blocked ≡ false
    → newest v.id w.db.challenges ≡ some c
    → c.consumed_at ≡ none
    → All
        (λ g. (g.0.now < c.expires_at) × (text_eq c.code_hash (hash_code env c.id g.1) ≡ false))
        guesses
    → r.now < c.expires_at
    → env.otp_max_attempts ≤ c.attempts + length guesses
    → (verify_otp env r phone code (tries env phone guesses w)).0 ≡ err (api invalid_otp)
unfolding tries live_challenge
guess_limit env phone v [] w c r code found passes new e all t m =
    rw
      ((verify_otp_refuses env r phone code w v found passes).1 c
        (newest-live v.id r.now w.db.challenges c new e t) (ground arith))
      refl
guess_limit env phone v ((s, guess) ∷ guesses) w c r code found passes new e all t m =
    let (found', new') = refused env s phone guess w v c found passes new e all.0.0 all.0.1 in
    elim (Bool-cases (leb env.otp_max_attempts c.attempts)) [
      | inl spent ↦
          guess_limit env phone v guesses (verify_otp env s phone guess w).1 c r code found' passes
            (rw spent at new') e all.1 t (ground arith)
      | inr left ↦
          guess_limit env phone v guesses (verify_otp env s phone guess w).1
            (record c { attempts = suc c.attempts }) r code found' passes (rw left at new') e all.1
            t (ground arith)
    ]
