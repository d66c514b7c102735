-- ===== src/Nominations/Views/Queue.antt =====
-- The endpoints of the review behind their permission.
use kw_awards_voting_platfom.Prelude.{
  ℕ, Bool, true, false, some, [], Text, ◌≡◌, refl, sym, ap, ◌∙◌, inl, inr, ◌⊎◌, arith, is_empty,
  find?, ◌==◌, find?-sound, Bool-cases, Option-cases,
}
use mathlib.Core.Path.{subst}
use kw_awards_voting_platfom.Exceptions.{Result, Exc, ok, err, validation_error, not_found}
use kw_awards_voting_platfom.Exec.{Action}
use kw_awards_voting_platfom.CleanText.{clean_text}
use kw_awards_voting_platfom.Models.Accounts.{Role}
use kw_awards_voting_platfom.Models.Nominations.{Nomination}
use kw_awards_voting_platfom.Models.State.{World, Env, Request, Principal, anonymous, staff, voter}
use kw_awards_voting_platfom.Access.{principal_has_role, has_permission}
use kw_awards_voting_platfom.Access.Roles.{has_permission_lem}
use kw_awards_voting_platfom.Audit.{add_entry}
use kw_awards_voting_platfom.Dispatch.{Dispatch, RunsOrStops, Passed, none_left, Asked, stopped}
use kw_awards_voting_platfom.Nominations.{review_nomination}
use kw_awards_voting_platfom.Nominations.Views.{
  NominationAction, nomination_permission, is_moderator, nomination_queryset, get_nomination,
  review_object, post_approve, post_reject,
}

-- What the caller asks for: an approval, or a rejection with a reason.
pub data Decision : Type 0 where
  approved : Decision
  rejected : Text → Decision

abbrev action_of : Decision → NominationAction
action_of approved = NominationAction.approve
action_of (rejected raw) = NominationAction.reject

abbrev body_of : Env → Request → ℕ → Decision → Action Nomination
body_of env r pk approved = post_approve env r pk
body_of env r pk (rejected raw) = post_reject env r pk raw

abbrev pub approves : Decision → Bool
approves approved = true
approves (rejected raw) = false

abbrev pub reason_of : Env → Decision → Text
reason_of env approved = []
reason_of env (rejected raw) = clean_text env false raw

-- A refusal that leaves the nominations alone, or the review by a staff user who is a moderator.
abbrev pub Reviewed : Env → Request → ℕ → Decision → World → Result Nomination × World → Type 0
Reviewed env r pk d w x =
    ((e : Exc) × (x.0 ≡ err e) × (x.1.db.nominations ≡ w.db.nominations))
    ⊎ ((u : ℕ) × (r.user ≡ staff u)
        × (principal_has_role w.db Role.moderator (staff u) ≡ true)
        × (x ≡ review_nomination env r.now (some r) pk (approves d) u (reason_of env d) w))

staff-cases :
    (env : Env) (w : World) (p : Principal) → is_moderator w.db p ≡ true → (u : ℕ) × (p ≡ staff u)
unfolding is_moderator principal_has_role
staff-cases env w anonymous h = absurd (ground arith)
staff-cases env w (staff u) h = (u, refl)
staff-cases env w (voter v) h = absurd (ground arith)

module _ (env : Env) (r : Request) (pk : ℕ) (w : World)
    (moderates : is_moderator w.db r.user ≡ true) where
  object-Reviewed :
      (d : Decision)
      → Reviewed env r pk d w (review_object env r pk (approves d) (reason_of env d) w)
  unfolding review_object get_nomination nomination_queryset is_moderator
  object-Reviewed d =
      let (u, is_u) = staff-cases env w r.user moderates in
      elim (Option-cases (find? (λ (n : Nomination). n.id == pk) w.db.nominations)) [
        | inl absent ↦ rw (moderates, absent) (inl (not_found, refl, refl))
        | inr (n, found) ↦
            let same : n.id ≡ pk =
              ground
                (arith, find?-sound (λ (n : Nomination). n.id == pk) w.db.nominations n found) in
            inr (u, is_u, rw is_u at moderates, rw (moderates, found, is_u, same) refl)
      ]

  body-Reviewed : (d : Decision) → Reviewed env r pk d w (body_of env r pk d w)
  unfolding post_approve post_reject
  body-Reviewed approved = object-Reviewed approved
  body-Reviewed (rejected raw) = elim (Bool-cases (is_empty (clean_text env false raw))) [
    | inl blank ↦ rw blank (inl (validation_error, refl, refl))
    | inr filled ↦ rw filled (object-Reviewed (rejected raw))
  ]

module _ (env : Env) (r : Request) (path method : Text) (w : World) where
  -- What the permission answers, and that it leaves the nominations alone.
  abbrev asked_permission : Action Bool
  asked_permission = has_permission env r Role.moderator path method

  permission-nominations : (asked_permission w).1.db.nominations ≡ w.db.nominations
  unfolding add_entry
  permission-nominations =
      let answer = has_permission_lem env r Role.moderator path method w in ground (arith, answer)

  permission-granted :
      (w1 : World)
      → asked_permission w ≡ (ok true, w1)
      → (is_moderator w.db r.user ≡ true) × (w1 ≡ w)
  unfolding is_moderator
  permission-granted w1 h =
      let answer = sym (has_permission_lem env r Role.moderator path method w) ∙ h in
      elim (Bool-cases (principal_has_role w.db Role.moderator r.user)) [
        | inl may ↦ (may, sym (ap (λ x. x.1) (rw may at answer)))
        | inr may_not ↦ absurd (ground arith)
      ]

  asks_moderator :
      (d : Decision) → nomination_permission env r path method (action_of d) w ≡ asked_permission w
  unfolding nomination_permission
  asks_moderator approved = refl
  asks_moderator (rejected raw) = refl

  no_throttles_heard : (w1 w2 : World) → Asked [] w1 w2 → w2 ≡ w1
  no_throttles_heard w1 w2 (stopped throttles w) = refl

  no_throttles_left : (w1 w2 : World) → Passed [] w1 w2 → w2 ≡ w1
  no_throttles_left w1 w2 (none_left w) = refl

  module _ (dispatch : Dispatch Nomination) (runs_or_stops : RunsOrStops dispatch) (pk : ℕ)
      (d : Decision) where
    through :
        (check : Action Bool)
        → check w ≡ asked_permission w
        → Reviewed env r pk d w (dispatch check [] (body_of env r pk d) w)
    through check same = elim (runs_or_stops check [] (body_of env r pk d) w) [
      | inr (e, w2, asks, stops) ↦ inl (
        e,
        ap (λ x. x.0) stops,
        ap (λ x. x.1.db.nominations) stops
            ∙ ap (λ (x : World). x.db.nominations) (no_throttles_heard (check w).1 w2 asks)
            ∙ ap (λ x. x.1.db.nominations) same
            ∙ permission-nominations,
      )
      | inl (w1, w2, granted, passes, runs) ↦
          let (may, unchanged) = permission-granted w1 (sym same ∙ granted) in
          let whole : dispatch check [] (body_of env r pk d) w ≡ body_of env r pk d w =
            runs ∙ ap (body_of env r pk d) (no_throttles_left w1 w2 passes ∙ unchanged) in
          subst (Reviewed env r pk d w) (sym whole) (body-Reviewed env r pk w may d)
    ]

    -- The answer to `POST /nominations/<pk>/approve/` or `.../reject/`, with the world that it leaves.
    pub post_review : Result Nomination × World
    post_review =
        dispatch (nomination_permission env r path method (action_of d)) [] (body_of env r pk d) w

    -- The review of a nomination through its endpoint: either the request is refused, and every
    -- nomination stays as it is; or the caller is a staff user who is a moderator, and the answer is that
    -- of `review_nomination` for that user, with the reason cleaned.
    pub post_review-Reviewed : Reviewed env r pk d w post_review
    unfolding post_review
    post_review-Reviewed =
        through (nomination_permission env r path method (action_of d)) (asks_moderator d)
