-- ===== src/Voting/Otp/Steps.antt =====
-- Requests and verifications in any order: what they do to the challenges.
use kw_awards_voting_platfom.Prelude.{
  ℕ, ◌<◌, false, Option, none, some, ◌∷◌, String, Text, ◌≡◌, refl, ◌⊎◌, inl, inr, any, arith,
  Bool-cases, Option-cases, leb, text_eq,
}
use kw_awards_voting_platfom.Exceptions.{Result, Exc, ok, err}
use kw_awards_voting_platfom.Exec.{settle}
use kw_awards_voting_platfom.Models.Voting.{Voter, Challenge}
use kw_awards_voting_platfom.Models.Audit.{AuditAction, Metadata}
use kw_awards_voting_platfom.Models.State.{World, Env, Request}
use kw_awards_voting_platfom.Audit.{log, log_voter_event, add_entry, Entry}
use kw_awards_voting_platfom.SmsBudget.{reserve, settle_budget}
use kw_awards_voting_platfom.Voting.Otp.{
  find_voter, expire_live, new_challenge, issue_challenge, get_or_create_voter, request_otp,
  send_code, blocked_metadata, hash_code, create_voter, send_quietly,
}
use kw_awards_voting_platfom.Voting.Otp.Live.{has_id}
use kw_awards_voting_platfom.Voting.Otp.Verify.{count_attempt, consume, verify_otp, live_challenge}
use kw_awards_voting_platfom.Voting.Otp.Verify.Attempts.{
  failed, counted, accepted, verify_otp_unknown, verify_otp_refuses, verify_otp_accepts,
}

result-cases : {A : Type 0} (x : Result A) → ((a : A) × (x ≡ ok a)) ⊎ ((e : Exc) × (x ≡ err e))
result-cases (ok a) = inl (a, refl)
result-cases (err e) = inr (e, refl)

log-challenges :
    (env : Env) (now : ℕ) (req : Option Request) (e : Entry) (w : World)
    → (log env now req e w).1.db.challenges ≡ w.db.challenges
unfolding log add_entry
log-challenges env now req e w = ground arith

log_voter_event-challenges :
    (env : Env) (now : ℕ) (req : Option Request) (action : AuditAction) (v : Option Voter)
    (phone : Text) (target : Option (String × ℕ)) (m : Metadata) (w : World)
    → (log_voter_event env now req action v phone target m w).1.db.challenges ≡ w.db.challenges
unfolding log_voter_event
log_voter_event-challenges env now req action v phone target m w = log-challenges env now req _ w

reserve-challenges :
    (env : Env) (r : Request) (v : Option Voter) (phone : Text) (w : World)
    → (reserve env r v phone w).1.db.challenges ≡ w.db.challenges
unfolding reserve settle_budget log_voter_event log add_entry
reserve-challenges env r v phone w = ground arith

issue_challenge-challenges :
    (env : Env) (r : Request) (v : Voter) (phone : Text) (w : World)
    → let rows = (settle w.db (issue_challenge env r v phone w)).1.db.challenges in
      (rows ≡ w.db.challenges)
      ⊎ ((rows ≡ new_challenge env r v ∷ expire_live v.id r.now w.db.challenges)
          × (any (has_id (new_challenge env r v).id) (expire_live v.id r.now w.db.challenges)
              ≡ false))
unfolding issue_challenge log_voter_event log add_entry
issue_challenge-challenges env r v phone w = ground arith

get_or_create_voter-challenges :
    (r : Request) (phone : Text) (w : World)
    → (get_or_create_voter r phone w).1.db.challenges ≡ w.db.challenges
unfolding get_or_create_voter create_voter
get_or_create_voter-challenges r phone w = ground arith

send_code-challenges :
    (env : Env) (r : Request) (phone : Text) (v : Voter) (w : World)
    → let rows = (send_code env r phone v w).1.db.challenges in
      (rows ≡ w.db.challenges)
      ⊎ ((rows ≡ new_challenge env r v ∷ expire_live v.id r.now w.db.challenges)
          × (any (has_id (new_challenge env r v).id) (expire_live v.id r.now w.db.challenges)
              ≡ false))
unfolding send_code send_quietly
send_code-challenges env r phone v w =
    let w' = (reserve env r (some v) phone w).1 in
    ground (
      arith,
      reserve-challenges env r (some v) phone w,
      issue_challenge-challenges env r v phone w',
    )

-- The challenges after `request_otp`: those before, or a new one with the older ones expired.
pub request_otp-challenges :
    (env : Env) (r : Request) (phone : Text) (w : World)
    → let rows = (request_otp env r phone w).1.db.challenges in
      (rows ≡ w.db.challenges)
      ⊎ ((c : Challenge) × (rows ≡ c ∷ expire_live c.voter r.now w.db.challenges)
          × (any (has_id c.id) (expire_live c.voter r.now w.db.challenges) ≡ false)
          × (c.attempts ≡ 0))
unfolding request_otp new_challenge
request_otp-challenges env r phone w =
    let w' = (get_or_create_voter r phone w).1 in
    elim (result-cases (get_or_create_voter r phone w).0) [
      | inr (e, refused) ↦ inl (rw refused (get_or_create_voter-challenges r phone w))
      | inl (v, got) ↦ elim (Bool-cases v.is_blocked) [
        | inl blocked ↦ inl (
            ground (
              arith,
              get_or_create_voter-challenges r phone w,
              log_voter_event-challenges env r.now (some r) AuditAction.otp_requested (some v) phone
                  none blocked_metadata w',
            ))
        | inr passes ↦ elim (send_code-challenges env r phone v w') [
          | inl same ↦ inl (ground (arith, get_or_create_voter-challenges r phone w))
          | inr more ↦ inr (
            new_challenge env r v,
            ground (arith, get_or_create_voter-challenges r phone w),
            ground (arith, get_or_create_voter-challenges r phone w),
            refl,
          )
        ]
      ]
    ]

-- The challenges after `verify_otp`: those before, or with one attempt counted on a live challenge that
-- had attempts left, which is then consumed if the code was right.
pub verify_otp-challenges :
    (env : Env) (r : Request) (phone code : Text) (w : World)
    → let rows = (verify_otp env r phone code w).1.db.challenges in
      (rows ≡ w.db.challenges)
      ⊎ ((v : Voter) × (c : Challenge) × (live_challenge v.id r.now w.db ≡ some c)
          × (c.attempts < env.otp_max_attempts)
          × ((rows ≡ count_attempt c.id w.db.challenges)
              ⊎ (rows ≡ consume c.id r.now (count_attempt c.id w.db.challenges))))
unfolding failed counted accepted add_entry
verify_otp-challenges env r phone code w = elim (Option-cases (find_voter phone w.db)) [
  | inl absent ↦ inl (rw ((verify_otp_unknown env r phone code w).0 absent) refl)
  | inr (v, found) ↦ elim (Bool-cases v.is_blocked) [
    | inl blocked ↦ inl (rw ((verify_otp_unknown env r phone code w).1 v found blocked) refl)
    | inr passes ↦ elim (Option-cases (live_challenge v.id r.now w.db)) [
      | inl dead ↦ inl (rw ((verify_otp_refuses env r phone code w v found passes).0 dead) refl)
      | inr (c, live) ↦ elim (Bool-cases (leb env.otp_max_attempts c.attempts)) [
        | inl spent ↦ inl (
            rw ((verify_otp_refuses env r phone code w v found passes).1 c live (ground arith))
              refl)
        | inr left ↦ inr (
          v,
          c,
          live,
          ground arith,
          elim (Bool-cases (text_eq c.code_hash (hash_code env c.id code))) [
            | inr wrong ↦ inl (
                rw
                  ((verify_otp_refuses env r phone code w v found passes).2 c live (ground arith)
                    wrong)
                  refl)
            | inl right ↦ inr (
                rw
                  (verify_otp_accepts env r phone code w v found passes c live (ground arith) right)
                  refl)
          ],
        )
      ]
    ]
  ]
]
