-- ===== src/Voting/Endpoints/Journey.antt =====
-- The way of a voter through the endpoints: the token that a verified code earns is good for a vote.
use kw_awards_voting_platfom.Prelude.{
  ℕ, Bool, true, false, some, List, [], ◌∷◌, Text, codes, ◌≡◌, refl, sym, ◌∙◌, ap, inl, inr, ◌==◌,
  find?, update_where, is_some, text_eq, text_eq_refl, arith, Bool-cases, Option-cases,
}
use kw_awards_voting_platfom.Exceptions.{Result, ok, err}
use kw_awards_voting_platfom.Exec.{pure, continue}
use kw_awards_voting_platfom.Models.Voting.{Voter}
use kw_awards_voting_platfom.Models.State.{Db, World, Env, Request, voter}
use kw_awards_voting_platfom.Phone.{PhoneNumbers, normalize_phone, default_region}
use kw_awards_voting_platfom.Access.{
  Claims, Jwt, authenticate_voter, authenticate_either, is_scope, voter_of,
}
use kw_awards_voting_platfom.Audit.{add_entry, lower_code}
use kw_awards_voting_platfom.Voting.Voters.{Apart, find?-id}
use kw_awards_voting_platfom.Voting.Otp.{find_voter, hash_code}
use kw_awards_voting_platfom.Voting.Otp.Verify.{as_verified, save_verified, verify_otp}
use kw_awards_voting_platfom.Voting.Otp.Verify.Attempts.{accepted, verify_otp_accepts}
use kw_awards_voting_platfom.Voting.Otp.Verify.Guessing.{verify_otp_sound}
use kw_awards_voting_platfom.Voting.Endpoints.{
  voter_claims, issue_voter_token, is_valid_code, post_otp_verify,
}

-- A voter who is found by identifier is found, and verified, after the verification.
find-update_where :
    (id now : ℕ) (rows : List Voter) (v : Voter)
    → find? (λ (x : Voter). x.id == id) rows ≡ some v
    → find?
        (λ (x : Voter). x.id == id)
        (update_where (λ (x : Voter). x.id == id) (λ x. record x { verified_at = some now }) rows)
      ≡ some (record v { verified_at = some now })
find-update_where id now [] v h = absurd (ground arith)
find-update_where id now (x ∷ rows) v h = ground (arith, find-update_where id now rows v)

find-save_verified :
    (now : ℕ) (rows : List Voter) (v : Voter)
    → find? (λ (x : Voter). x.id == v.id) rows ≡ some v
    → find? (λ (x : Voter). x.id == v.id) (save_verified now v rows) ≡ some (as_verified now v)
unfolding save_verified
find-save_verified now rows v h = ground (arith, find-update_where v.id now rows v)

as_verified-keeps :
    (now : ℕ) (v : Voter)
    → ((as_verified now v).id ≡ v.id)
      × ((as_verified now v).is_blocked ≡ v.is_blocked)
      × (is_some (as_verified now v).verified_at ≡ true)
as_verified-keeps now v = ground arith

module _ (jwt : Jwt) (encode : Claims → Text)
    (signed : (id : ℕ) → jwt.voter_token (encode (voter_claims id)) ≡ some (voter_claims id)) where
  -- The words of an Authorization header with a token.
  abbrev pub bearer : Text → List Text
  bearer token = codes "Bearer" ∷ token ∷ []

  token-authenticates :
      (db : Db) (v : Voter) (id : ℕ)
      → v.id ≡ id
      → voter_of db (some id) ≡ some v
      → v.is_blocked ≡ false
      → is_some v.verified_at ≡ true
      → authenticate_either jwt db (bearer (issue_voter_token encode v)) ≡ ok (some (voter id))
  unfolding authenticate_either authenticate_voter issue_voter_token is_scope text_eq lower_code
  token-authenticates db v id same there passes verified =
      rw (signed v.id, same, there, passes) (ground arith)

  -- The voter of a verification stands, verified, in the table that the verification leaves.
  verified-authenticates :
      (env : Env) (r : Request) (phone code : Text) (w w' : World) (x : Voter)
      → Apart w.db.voters
      → verify_otp env r phone code w ≡ (ok x, w')
      → (v : Voter) × (find_voter phone w.db ≡ some v)
        × (authenticate_either jwt w'.db (bearer (issue_voter_token encode x))
            ≡ ok (some (voter v.id)))
  unfolding accepted add_entry voter_of find_voter
  verified-authenticates env r phone code w w' x apart h =
      let (v, c, found, passes, live, left, hash, same) =
        verify_otp_sound env r phone code w x (ap (λ a. a.0) h) in
      let steps =
        verify_otp_accepts env r phone code w v found passes c live left
          (rw hash (text_eq_refl (hash_code env c.id code))) in
      let there = find-save_verified r.now w.db.voters v (find?-id _ w.db.voters v apart found) in
      (
        v,
        found,
        rw (same, ap (λ a. a.1) (sym h ∙ steps))
            (token-authenticates (accepted env r v phone c w).db (as_verified r.now v) v.id
              (as_verified-keeps r.now v).0 there ((as_verified-keeps r.now v).1 ∙ passes)
              (as_verified-keeps r.now v).2),
      )

  verified-cases :
      (env : Env) (r : Request) (phone code : Text) (w w' : World) (token : Text)
      (x : Result Voter × World)
      → Apart w.db.voters
      → verify_otp env r phone code w ≡ x
      → continue (λ v. pure (issue_voter_token encode v)) x ≡ (ok token, w')
      → (v : Voter) × (find_voter phone w.db ≡ some v)
        × (authenticate_either jwt w'.db (bearer token) ≡ ok (some (voter v.id)))
  verified-cases env r phone code w w' token (err e, w1) apart h done = absurd (ground arith)
  verified-cases env r phone code w w' token (ok x, w1) apart h done =
      let (v, found, admitted) = verified-authenticates env r phone code w w1 x apart h in
      (v, found, ground (arith, admitted))

  -- Where a token that is issued to a voter is read back with its claims, and no two voters have the same
  -- identifier: if the verification endpoint gives out a token for a
  -- number and a code, the number is valid and has a voter, and the token, sent back as a bearer token,
  -- authenticates that voter on the voting endpoints.
  pub post_otp_verify-authenticate_either :
      (lib : PhoneNumbers) (is_decimal : ℕ → Bool) (env : Env) (r : Request) (raw code : Text)
      (w w' : World) (token : Text)
      → Apart w.db.voters
      → post_otp_verify lib is_decimal encode env r raw code w ≡ (ok token, w')
      → (phone : Text) × (v : Voter) × (normalize_phone lib raw default_region ≡ some phone)
        × (find_voter phone w.db ≡ some v)
        × (authenticate_either jwt w'.db (bearer token) ≡ ok (some (voter v.id)))
  unfolding post_otp_verify
  post_otp_verify-authenticate_either lib is_decimal env r raw code w w' token apart done =
      elim (Option-cases (normalize_phone lib raw default_region)) [
        | inl invalid ↦ absurd (ground arith)
        | inr (phone, valid) ↦ elim (Bool-cases (is_valid_code is_decimal env code)) [
          | inr bad ↦ absurd (ground arith)
          | inl good ↦
              let (v, found, admitted) =
                verified-cases env r phone code w w' token (verify_otp env r phone code w) apart
                  refl (rw (valid, good) at done) in
              (phone, v, valid, found, admitted)
        ]
      ]
