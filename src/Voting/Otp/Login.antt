-- ===== src/Voting/Otp/Login.antt =====
-- A code that is requested logs its voter in.
use kw_awards_voting_platfom.Prelude.{
  ℕ, ◌+◌, ◌*◌, ◌≤◌, ◌<◌, true, false, Option, some, List, [], ◌∷◌, Text, text_eq, text_eq_refl, ◌≡◌,
  refl, ◌∙◌, ap, ==_iff, any, arith, if◌then◌else◌,
}
use kw_awards_voting_platfom.Exceptions.{ok}
use kw_awards_voting_platfom.Exec.{settle}
use kw_awards_voting_platfom.Models.Voting.{Voter, Challenge}
use kw_awards_voting_platfom.Models.Audit.{AuditAction, Json, AuditLog}
use kw_awards_voting_platfom.Models.State.{Db, World, Env, Request}
use kw_awards_voting_platfom.Audit.{entry_row, voter_entry, add_entry, has_forbidden, is_forbidden}
use kw_awards_voting_platfom.Audit.Laws.{log_voter_event_clean}
use kw_awards_voting_platfom.Cache.{second}
use kw_awards_voting_platfom.SmsBudget.{reserve, settle_budget}
use kw_awards_voting_platfom.Voting.Otp.{
  create_voter, insert_challenge, send_code, send_quietly, put_challenges, find_voter, hash_code,
  generate_code, expire_live, new_challenge, issue_challenge, get_or_create_voter, request_otp,
  sms_text,
}
use kw_awards_voting_platfom.Voting.Otp.Live.{has_id, any-expire_live}
use kw_awards_voting_platfom.Voting.Otp.Verify.{live_challenge, as_verified, verify_otp}
use kw_awards_voting_platfom.Voting.Otp.Verify.Attempts.{verify_otp_accepts}

-- A voter who is got or created is the one that the number finds.
found_after :
    (r : Request) (phone : Text) (w w' : World) (v : Voter)
    → get_or_create_voter r phone w ≡ (ok v, w')
    → find_voter phone w'.db ≡ some v
unfolding get_or_create_voter create_voter find_voter
found_after r phone w w' v h = ground (arith, text_eq_refl phone)

same_challenges :
    (r : Request) (phone : Text) (w w' : World) (v : Voter)
    → get_or_create_voter r phone w ≡ (ok v, w')
    → w'.db.challenges ≡ w.db.challenges
unfolding get_or_create_voter create_voter find_voter
same_challenges r phone w w' v h = ground arith

-- A reservation that goes through leaves the database and the outbox alone.
reserved :
    (env : Env) (r : Request) (v : Option Voter) (phone : Text) (w w' : World)
    → reserve env r v phone w ≡ (ok tt, w')
    → (w'.db ≡ w.db) × (w'.outbox ≡ w.outbox)
unfolding reserve settle_budget
reserved env r v phone w w' h = ground arith

sent_clean : has_forbidden (("sent", Json.flag true) ∷ []) ≡ false
unfolding has_forbidden is_forbidden
sent_clean = refl

inserted :
    (env : Env) (r : Request) (v : Voter) (w : World)
    → any (has_id r.second_uuid) w.db.challenges ≡ false
    → insert_challenge
        (new_challenge env r v)
        (record w { db = put_challenges (expire_live v.id r.now w.db.challenges) w.db })
      ≡ (
        ok tt,
        record w {
          db = put_challenges (new_challenge env r v ∷ expire_live v.id r.now w.db.challenges) w.db;
        },
      )
unfolding insert_challenge new_challenge
inserted env r v w fresh =
    rw (any-expire_live v.id r.now r.second_uuid w.db.challenges ∙ fresh) refl

-- The transaction of a request, where the identifier of the challenge is new.
pub issued :
    (env : Env) (r : Request) (v : Voter) (phone : Text) (w : World)
    → any (has_id r.second_uuid) w.db.challenges ≡ false
    → (row : AuditLog) × (settle w.db (issue_challenge env r v phone w) ≡ (
      ok tt,
      add_entry row (record w {
        db = put_challenges (new_challenge env r v ∷ expire_live v.id r.now w.db.challenges) w.db;
      }),
    ))
unfolding issue_challenge
issued env r v phone w fresh =
    let w' = record w {
      db = put_challenges (new_challenge env r v ∷ expire_live v.id r.now w.db.challenges) w.db;
    } in
    let target = some ("voting.otpchallenge", r.second_uuid) in
    let metadata = ("sent", Json.flag true) ∷ [] in
    let logs =
      log_voter_event_clean env r.now (some r) AuditAction.otp_requested (some v) phone target
        metadata w' sent_clean in
    (
      entry_row env r.now (some r)
          (voter_entry env AuditAction.otp_requested (some v) phone target metadata),
      rw (inserted env r v w fresh) (rw logs refl),
    )

-- What a request sends: nothing if the provider fails.
abbrev pub deliver : Env → Text → Text → List (Text × Text) → List (Text × Text)
deliver env phone text sent = if env.sms_delivers phone text then (phone, text) ∷ sent else sent

-- A request for a voter who is not blocked, within the budget and with a new identifier for the
-- challenge: the answer is a success whether or not the provider delivers the message. The older
-- live challenges of the voter are expired and one with the keyed hash of the code is added; the
-- message with that code is what is sent.
pub request_otp_sends :
    (env : Env) (r : Request) (phone : Text) (w w' w'' : World) (v : Voter)
    → get_or_create_voter r phone w ≡ (ok v, w')
    → v.is_blocked ≡ false
    → reserve env r (some v) phone w' ≡ (ok tt, w'')
    → any (has_id r.second_uuid) w.db.challenges ≡ false
    → let (x, after) = request_otp env r phone w in
      (x ≡ ok tt)
      × (find_voter phone after.db ≡ some v)
      × (after.db.challenges ≡ new_challenge env r v ∷ expire_live v.id r.now w.db.challenges)
      × (after.outbox ≡ deliver env phone (sms_text env r) w'.outbox)
unfolding request_otp send_code send_quietly add_entry find_voter
request_otp_sends env r phone w w' w'' v got passes budget fresh =
    let (row, e) = issued env r v phone w'' (
      ground
        (arith, same_challenges r phone w w' v got, reserved env r (some v) phone w' w'' budget)) in
    ground (
      arith,
      same_challenges r phone w w' v got,
      found_after r phone w w' v got,
      reserved env r (some v) phone w' w'' budget,
    )

new_is_live :
    (env : Env) (r : Request) (v : Voter) (now : ℕ) (db : Db) (rest : List Challenge)
    → db.challenges ≡ new_challenge env r v ∷ rest
    → now < r.now + env.otp_ttl_seconds * second
    → live_challenge v.id now db ≡ some (new_challenge env r v)
unfolding live_challenge new_challenge
new_is_live env r v now db rest h t = rw h (ground (arith, ==_iff v.id v.id))

new_hash :
    (env : Env) (r : Request) (v : Voter)
    → text_eq
        (new_challenge env r v).code_hash
        (hash_code env (new_challenge env r v).id (generate_code env r))
      ≡ true
unfolding new_challenge
new_hash env r v = text_eq_refl (hash_code env r.second_uuid (generate_code env r))

new_attempts : (env : Env) (r : Request) (v : Voter) → (new_challenge env r v).attempts ≡ 0
unfolding new_challenge
new_attempts env r v = refl

-- A code that was requested for a voter who is not blocked, within the budget, with a new
-- identifier for the challenge and with at least one attempt allowed, lets the voter in if it is
-- the next thing that is sent in, before it expires.
pub verify_otp-request_otp :
    (env : Env) (r s : Request) (phone : Text) (w w' w'' : World) (v : Voter)
    → get_or_create_voter r phone w ≡ (ok v, w')
    → v.is_blocked ≡ false
    → reserve env r (some v) phone w' ≡ (ok tt, w'')
    → any (has_id r.second_uuid) w.db.challenges ≡ false
    → s.now < r.now + env.otp_ttl_seconds * second
    → 1 ≤ env.otp_max_attempts
    → (verify_otp env s phone (generate_code env r) (request_otp env r phone w).1).0
      ≡ ok (as_verified s.now v)
verify_otp-request_otp env r s phone w w' w'' v got passes budget fresh in_time some_attempts =
    let (done, known, rows, sent) =
      request_otp_sends env r phone w w' w'' v got passes budget fresh in
    let after = (request_otp env r phone w).1 in
    let live =
      new_is_live env r v s.now after.db (expire_live v.id r.now w.db.challenges) rows in_time in
    ap (λ x. x.0)
      (verify_otp_accepts env s phone (generate_code env r) after v known passes
        (new_challenge env r v) live (ground (arith, new_attempts env r v)) (new_hash env r v))
