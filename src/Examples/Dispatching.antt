-- ===== src/Examples/Dispatching.antt =====
-- A dispatcher of djangorestframework, and a vote and a review that go through it.
use kw_awards_voting_platfom.Prelude.{
  ℕ, Bool, true, false, some, List, [], ◌∷◌, Text, codes, text_eq, ◌≡◌, ◌⊎◌, refl, sym, inl, inr,
}
use mathlib.Core.Path.{subst}
use kw_awards_voting_platfom.Exceptions.{Result, Exc, ok, err, not_found}
use kw_awards_voting_platfom.Exec.{Action}
use kw_awards_voting_platfom.Models.Accounts.{User}
use kw_awards_voting_platfom.Models.Voting.{Vote}
use kw_awards_voting_platfom.Models.State.{World, Request, staff, voter}
use kw_awards_voting_platfom.Access.{Claims, Jwt, authenticate_either}
use kw_awards_voting_platfom.Access.Tokens.{Vouched}
use kw_awards_voting_platfom.Throttles.{Verdict, allowed, refused}
use kw_awards_voting_platfom.Voting.Services.{cast_free_vote}
use kw_awards_voting_platfom.Voting.Endpoints.Guarded.{post_vote, post_vote-cases}
use kw_awards_voting_platfom.Dispatch.{
  Passed, none_left, passed, Asked, stopped, asked, Dispatch, RunsOrStops,
}
use kw_awards_voting_platfom.Examples.Data.{env, amina, world, request_at}
use kw_awards_voting_platfom.Models.Accounts.{User, Role}
use kw_awards_voting_platfom.Nominations.Views.Queue.{
  Decision, rejected, Reviewed, post_review, post_review-Reviewed,
}
use kw_awards_voting_platfom.Examples.Entrances.{jwt}

-- A dispatcher that asks the permission, then the throttles in their order.
abbrev heard : {A : Type 0} → Action A → Result Verdict × World → Result A × World
heard rest (ok allowed, w) = rest w
heard rest (ok (refused n), w) = (err not_found, w)
heard rest (err e, w) = (err e, w)

abbrev ask : {A : Type 0} → List (Action Verdict) → Action A → Action A
ask [] body w = body w
ask (t ∷ throttles) body w = heard (ask throttles body) (t w)

abbrev permitted : {A : Type 0} → Action A → Result Bool × World → Result A × World
permitted rest (ok true, w) = rest w
permitted rest (ok false, w) = (err not_found, w)
permitted rest (err e, w) = (err e, w)

abbrev pub dispatch : {A : Type 0} → Dispatch A
dispatch check throttles body w = permitted (ask throttles body) (check w)

-- It runs the body behind all throttles, or stops at one of them.
abbrev AskOutcome :
    {A : Type 0} → List (Action Verdict) → Action A → World → Result A × World → Type 0
AskOutcome throttles body w x =
    ((w2 : World) × Passed throttles w w2 × (x ≡ body w2))
    ⊎ ((e : Exc) × (w2 : World) × Asked throttles w w2 × (x ≡ (err e, w2)))

ask-outcome :
    {A : Type 0} (throttles : List (Action Verdict)) (body : Action A) (w : World)
    → AskOutcome throttles body w (ask throttles body w)
ask-outcome [] body w = inl (w, none_left w, refl)
ask-outcome {A} (t ∷ throttles) body w = by (ask-outcome throttles body) (t w) refl
  where
    by :
        ((w1 : World) → AskOutcome throttles body w1 (ask throttles body w1))
        → (x : Result Verdict × World) → t w ≡ x
        → AskOutcome (t ∷ throttles) body w (ask (t ∷ throttles) body w)
    by rest (ok allowed, w1) e = elim (rest w1) [
      | inl (w2, passes, same) ↦ inl (w2, passed t throttles w w1 w2 e passes, rw e same)
      | inr (x, w2, asks, same) ↦ inr (
        x,
        w2,
        asked t throttles w w2 (subst (λ y. Asked throttles y.1 w2) (sym e) asks),
        rw e same,
      )
    ]
    by rest (ok (refused n), w1) e = inr (
      not_found,
      w1,
      asked t throttles w w1 (subst (λ y. Asked throttles y.1 w1) (sym e) (stopped throttles w1)),
      rw e refl,
    )
    by rest (err x, w1) e = inr (
      x,
      w1,
      asked t throttles w w1 (subst (λ y. Asked throttles y.1 w1) (sym e) (stopped throttles w1)),
      rw e refl,
    )

pub runs_or_stops : {A : Type 0} → RunsOrStops {A = A} dispatch
runs_or_stops {A} check throttles body w = by (check w) refl
  where
    by :
        (x : Result Bool × World)
        → check w ≡ x
        → ((w1 : World) × (w2 : World) × (check w ≡ (ok true, w1))
            × Passed throttles w1 w2
            × (dispatch check throttles body w ≡ body w2))
          ⊎ ((e : Exc) × (w2 : World) × Asked throttles (check w).1 w2
              × (dispatch check throttles body w ≡ (err e, w2)))
    by (ok true, w1) e = elim (ask-outcome throttles body w1) [
      | inl (w2, passes, same) ↦ inl (w1, w2, e, passes, rw e same)
      | inr (x, w2, asks, same) ↦
          inr (x, w2, subst (λ y. Asked throttles y.1 w2) (sym e) asks, rw e same)
    ]
    by (ok false, w1) e = inr (not_found, w1, rw e (stopped throttles w1), rw e refl)
    by (err x, w1) e = inr (x, w1, rw e (stopped throttles w1), rw e refl)

-- Amina, verified, with her token.
abbrev verified_world : World
verified_world = record world {
  db = record world.db { voters = record amina { verified_at = some 50 } ∷ [] };
}

abbrev by_amina : Request
by_amina = record (request_at 100 31) { user = voter 7 }

abbrev header : List Text
header = codes "Bearer" ∷ (118 ∷ 7 ∷ []) ∷ []

is_amina : authenticate_either jwt verified_world.db header ≡ ok (some (voter 7))
unfolding authenticate_either kw_awards_voting_platfom.Access.authenticate_voter text_eq
    kw_awards_voting_platfom.Audit.lower_code
is_amina = refl

abbrev posted : Result Vote × World
posted =
    post_vote dispatch runs_or_stops jwt env by_amina header (codes "/votes/") (codes "POST") 1
      verified_world

post_vote-cases_example :
    ((e : Exc) × (posted.0 ≡ err e) × (posted.1.db ≡ verified_world.db))
    ⊎ ((v : ℕ) × (w2 : World) × (by_amina.user ≡ voter v)
        × Vouched jwt verified_world.db (voter v)
        × (w2.db ≡ verified_world.db)
        × (posted ≡ cast_free_vote env by_amina v 1 w2))
post_vote-cases_example =
    post_vote-cases dispatch runs_or_stops jwt env by_amina header (codes "/votes/") (codes "POST")
      1 verified_world is_amina

-- A moderator, who rejects the nomination that waits.
abbrev moderator : User
moderator = record {
  id = 4;
  email = codes "m@kw.org";
  is_active = true;
  is_staff = true;
  is_superuser = false;
  groups = Role.moderator ∷ [];
}

abbrev staffed_world : World
staffed_world = record world { db = record world.db { users = moderator ∷ [] } }

abbrev by_moderator : Request
by_moderator = record (request_at 100 31) { user = staff 4 }

abbrev unclear : Decision
unclear = rejected (codes "Too vague")

post_review-Reviewed_example : Reviewed env by_moderator 3 unclear staffed_world (
    post_review env by_moderator
      (codes "/reject/")
      (codes "POST")
      staffed_world
      dispatch
      runs_or_stops
      3
      unclear)
post_review-Reviewed_example =
    post_review-Reviewed env by_moderator (codes "/reject/") (codes "POST") staffed_world dispatch
      runs_or_stops 3 unclear
