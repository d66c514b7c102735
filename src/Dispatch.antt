-- ===== src/Dispatch.antt =====
-- `APIView.dispatch` of the package djangorestframework, which runs the permission, the throttles and
-- the body of every view.
use kw_awards_voting_platfom.Prelude.{Bool, true, List, [], ◌∷◌, ◌≡◌, refl, sym, ap, ◌∙◌, ◌⊎◌, All}
use kw_awards_voting_platfom.Exceptions.{Exc, ok, err}
use kw_awards_voting_platfom.Exec.{Action}
use kw_awards_voting_platfom.Models.State.{World}
use kw_awards_voting_platfom.Throttles.{Verdict, allowed}

-- The throttles let the request through, one after the other.
pub data Passed : List (Action Verdict) → World → World → Type 0 where
  none_left : (w : World) → Passed [] w w
  passed :
      (t : Action Verdict) (throttles : List (Action Verdict)) (w w1 w2 : World)
      → t w ≡ (ok allowed, w1)
      → Passed throttles w1 w2
      → Passed (t ∷ throttles) w w2

-- Some of the throttles, from the first on, have been asked.
pub data Asked : List (Action Verdict) → World → World → Type 0 where
  stopped : (throttles : List (Action Verdict)) (w : World) → Asked throttles w w
  asked :
      (t : Action Verdict) (throttles : List (Action Verdict)) (w w2 : World)
      → Asked throttles (t w).1 w2
      → Asked (t ∷ throttles) w w2

-- `APIView.dispatch` of djangorestframework: a permission, the throttles and the body of a view.
abbrev pub Dispatch : Type 0 → Type 0
Dispatch A = Action Bool → List (Action Verdict) → Action A → Action A

-- What its documentation says: the body runs if the permission and then every throttle pass, and it does
-- not run, but an exception is raised, if one of them does not.
abbrev pub RunsOrStops : {A : Type 0} → Dispatch A → Type 0
RunsOrStops {A} dispatch =
    (check : Action Bool) (throttles : List (Action Verdict)) (body : Action A) (w : World)
    → ((w1 : World) × (w2 : World) × (check w ≡ (ok true, w1))
        × Passed throttles w1 w2
        × (dispatch check throttles body w ≡ body w2))
      ⊎ ((e : Exc) × (w2 : World) × Asked throttles (check w).1 w2
          × (dispatch check throttles body w ≡ (err e, w2)))

-- Throttles that leave the database alone.
abbrev pub KeepDb : List (Action Verdict) → Type 0
KeepDb throttles = All (λ t. (w : World) → (t w).1.db ≡ w.db) throttles

pub Passed-db :
    {throttles : List (Action Verdict)} {w w2 : World}
    → Passed throttles w w2
    → KeepDb throttles
    → w2.db ≡ w.db
Passed-db (none_left w) keep = refl
Passed-db (passed t throttles w w1 w2 e rest) keep =
    Passed-db rest keep.1 ∙ sym (ap (λ x. x.1.db) e) ∙ keep.0 w

pub Asked-db :
    {throttles : List (Action Verdict)} {w w2 : World}
    → Asked throttles w w2
    → KeepDb throttles
    → w2.db ≡ w.db
Asked-db (stopped throttles w) keep = refl
Asked-db (asked t throttles w w2 rest) keep = Asked-db rest keep.1 ∙ keep.0 w
