-- ===== src/Access/Tokens.antt =====
-- Voter tokens and staff tokens do not stand in for each other.
use kw_awards_voting_platfom.Prelude.{
  true, false, Option, none, some, List, [], ◌∷◌, Text, ◌≡◌, refl, inl, inr, arith, is_some, ap,
  codes, text_eq, map, Bool-cases,
}
use kw_awards_voting_platfom.Exceptions.{Result, ok, err, authentication_failed}
use kw_awards_voting_platfom.Models.Accounts.{User}
use kw_awards_voting_platfom.Models.Voting.{Voter}
use kw_awards_voting_platfom.Models.State.{Db, Principal, anonymous, staff, voter}
use mathlib.Core.Path.{subst}
use kw_awards_voting_platfom.Audit.{lower_code}
use kw_awards_voting_platfom.Access.{
  Claims, Jwt, may_vote, is_scope, voter_of, voter_of_claims, bearer_token, authenticate_voter,
  staff_only, user_of_claims, authenticate_raw, authenticate_staff, authenticate_public,
  carries_voter_token, or_staff, authenticate_either,
}

-- What a principal stands for: a voter row that is verified and not blocked, named by a valid voter
-- token; or a staff user, named by a valid access token.
pub data Vouched (jwt : Jwt) (db : Db) : Principal → Type 0 where
  by_voter_token :
      (raw : Text) (c : Claims) (v : Voter)
      → jwt.voter_token raw ≡ some c
      → is_scope c.scope ≡ true
      → voter_of db c.voter_id ≡ some v
      → v.is_blocked ≡ false
      → is_some v.verified_at ≡ true
      → Vouched jwt db (voter v.id)
  by_access_token :
      (raw : Text) (c : Claims) (u : User)
      → jwt.access_token raw ≡ some c
      → jwt.get_user db.users c ≡ some u
      → u.is_staff ≡ true
      → Vouched jwt db (staff u.id)

-- The principal of an answer.
principal_of : Result (Option Principal) → Principal
principal_of (ok (some p)) = p
principal_of _ = anonymous

same_principal :
    {a b : Principal} → Path (Result (Option Principal)) (ok (some a)) (ok (some b)) → a ≡ b
unfolding principal_of
same_principal e = ap principal_of e

module _ (jwt : Jwt) (db : Db) (p : Principal) where
  passed :
      (v : Voter)
      → v.is_blocked ≡ false
      → is_some v.verified_at ≡ true
      → may_vote (some v) ≡ ok (some p)
      → Path (Result (Option Principal)) (ok (some (voter v.id))) (ok (some p))
  unfolding may_vote
  passed v b k h = ground arith

  vouch_voter :
      (raw : Text) (c : Claims) (o : Option Voter)
      → jwt.voter_token raw ≡ some c
      → is_scope c.scope ≡ true
      → voter_of db c.voter_id ≡ o
      → may_vote o ≡ ok (some p)
      → Vouched jwt db p
  unfolding may_vote
  vouch_voter raw c none t s f h = absurd (ground arith)
  vouch_voter raw c (some v) t s f h = elim (Bool-cases v.is_blocked) [
    | inl blocked ↦ absurd (ground arith)
    | inr passes ↦ elim (Bool-cases (is_some v.verified_at)) [
      | inr unverified ↦ absurd (ground arith)
      | inl verified ↦
          subst (Vouched jwt db) (same_principal (passed v passes verified h))
            (by_voter_token raw c v t s f passes verified)
    ]
  ]

  vouch_claims :
      (raw : Text) (o : Option Claims)
      → jwt.voter_token raw ≡ o
      → voter_of_claims db o ≡ ok (some p)
      → Vouched jwt db p
  unfolding voter_of_claims
  vouch_claims raw none t h = absurd (ground arith)
  vouch_claims raw (some c) t h = elim (Bool-cases (is_scope c.scope)) [
    | inl s ↦ vouch_voter raw c (voter_of db c.voter_id) t s refl (rw s at h)
    | inr s ↦ absurd (ground arith)
  ]

  vouch_bearer : (words : List Text) → bearer_token jwt db words ≡ ok (some p) → Vouched jwt db p
  unfolding bearer_token
  vouch_bearer [] h = absurd (ground arith)
  vouch_bearer (raw ∷ []) h = vouch_claims raw (jwt.voter_token raw) refl h
  vouch_bearer (raw ∷ more ∷ rest) h = absurd (ground arith)

  authenticate_voter-Vouched :
      (words : List Text) → authenticate_voter jwt db words ≡ ok (some p) → Vouched jwt db p
  unfolding authenticate_voter
  authenticate_voter-Vouched [] h = absurd (ground arith)
  authenticate_voter-Vouched (word ∷ rest) h =
      elim (Bool-cases (text_eq (map lower_code word) (codes "bearer"))) [
        | inl e ↦ vouch_bearer rest (rw e at h)
        | inr e ↦ absurd (ground arith)
      ]

  vouch_staff :
      (raw : Text) (c : Claims) (o : Option User)
      → jwt.access_token raw ≡ some c
      → jwt.get_user db.users c ≡ o
      → staff_only o ≡ ok (some p)
      → Vouched jwt db p
  unfolding staff_only
  vouch_staff raw c none t f h = absurd (ground arith)
  vouch_staff raw c (some u) t f h = elim (Bool-cases u.is_staff) [
    | inl s ↦ subst (Vouched jwt db) (same_principal (rw s at h)) (by_access_token raw c u t f s)
    | inr s ↦ absurd (ground arith)
  ]

  vouch_user :
      (raw : Text) (o : Option Claims)
      → jwt.access_token raw ≡ o
      → user_of_claims jwt db o ≡ ok (some p)
      → Vouched jwt db p
  unfolding user_of_claims
  vouch_user raw none t h = absurd (ground arith)
  vouch_user raw (some c) t h = vouch_staff raw c (jwt.get_user db.users c) t refl h

  vouch_raw :
      (o : Result (Option Text)) → authenticate_raw jwt db o ≡ ok (some p) → Vouched jwt db p
  unfolding authenticate_raw
  vouch_raw (err e) h = absurd (ground arith)
  vouch_raw (ok none) h = absurd (ground arith)
  vouch_raw (ok (some raw)) h = vouch_user raw (jwt.access_token raw) refl h

  authenticate_staff-Vouched :
      (words : List Text) → authenticate_staff jwt db words ≡ ok (some p) → Vouched jwt db p
  unfolding authenticate_staff
  authenticate_staff-Vouched words h = vouch_raw (jwt.raw_token words) h

  vouch_or_staff :
      (words : List Text) (x : Result (Option Principal))
      → (x ≡ ok (some p) → Vouched jwt db p)
      → or_staff jwt db words x ≡ ok (some p)
      → Vouched jwt db p
  unfolding or_staff
  vouch_or_staff words (ok q) known h = known h
  vouch_or_staff words (err authentication_failed) known h = authenticate_staff-Vouched words h
  vouch_or_staff words (err e) known h = absurd (ground arith)

  -- Whoever is authenticated on the voting endpoints, which take both kinds of token, is a voter who is
  -- verified and not blocked, named by a voter token with the scope for voting, or a staff user named by
  -- an access token.
  pub authenticate_either-Vouched :
      (words : List Text) → authenticate_either jwt db words ≡ ok (some p) → Vouched jwt db p
  unfolding authenticate_either
  authenticate_either-Vouched [] h = absurd (ground arith)
  authenticate_either-Vouched (word ∷ rest) h =
      vouch_or_staff (word ∷ rest) (authenticate_voter jwt db (word ∷ rest))
        (authenticate_voter-Vouched (word ∷ rest)) h

-- On the endpoints for staff and the public a voter token never makes a user: the request is anonymous.
-- Without one, whoever is authenticated is a staff user named by an access token.
pub authenticate_public_lem :
    (jwt : Jwt) (db : Db) (words : List Text) (raw : Text)
    → jwt.raw_token words ≡ ok (some raw)
    → (is_some (jwt.voter_token raw) ≡ true → authenticate_public jwt db words ≡ ok none)
      × (is_some (jwt.voter_token raw) ≡ false
          → (p : Principal) → authenticate_public jwt db words ≡ ok (some p)
          → Vouched jwt db p)
unfolding authenticate_public carries_voter_token
authenticate_public_lem jwt db words raw t =
    ((λ v. rw t (rw v refl)), (λ v p h. authenticate_staff-Vouched jwt db p words (ground arith)))
