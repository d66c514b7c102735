-- ===== src/Voting/Endpoints/Guarded.antt =====
-- `POST /votes/` behind its authentication, permission and throttles, which the package
-- djangorestframework runs.
use kw_awards_voting_platfom.Prelude.{
  ℕ, true, some, List, Text, ◌≡◌, refl, sym, ap, ◌∙◌, inl, inr, ◌⊎◌, arith,
}
use mathlib.Core.Path.{subst}
use kw_awards_voting_platfom.Exceptions.{Result, Exc, ok, err}
use kw_awards_voting_platfom.Models.Voting.{Vote}
use kw_awards_voting_platfom.Models.State.{World, Env, Request, Principal, anonymous, staff, voter}
use kw_awards_voting_platfom.Access.{Jwt, authenticate_either, is_voter}
use kw_awards_voting_platfom.Access.Tokens.{Vouched, authenticate_either-Vouched}
use kw_awards_voting_platfom.Voting.Services.{cast_free_vote}
use kw_awards_voting_platfom.Voting.Endpoints.{
  VoteAction, throttled, vote_permission, vote_throttles, create_vote,
}
use kw_awards_voting_platfom.Dispatch.{Dispatch, RunsOrStops, KeepDb, Passed-db, Asked-db}

create-KeepDb : (env : Env) (r : Request) → KeepDb (vote_throttles env r VoteAction.create)
unfolding vote_throttles throttled
create-KeepDb env r = ((λ w. refl), ((λ w. refl), tt))

voter-cases : (p : Principal) → is_voter p ≡ true → (v : ℕ) × (p ≡ voter v)
voter-cases anonymous h = absurd (ground arith)
voter-cases (staff u) h = absurd (ground arith)
voter-cases (voter v) h = (v, refl)

module _ (dispatch : Dispatch Vote) (runs_or_stops : RunsOrStops dispatch) (jwt : Jwt) (env : Env)
    (r : Request) (words : List Text) (path method : Text) (nomination_id : ℕ) (w : World) where
  -- The answer to `POST /votes/`, with the world that it leaves.
  pub post_vote : Result Vote × World
  post_vote =
      dispatch (vote_permission env r path method VoteAction.create)
        (vote_throttles env r VoteAction.create) (create_vote env r nomination_id) w

  -- `POST /votes/` of a request that the voting endpoints authenticate: either the request is refused and
  -- the database stays as it is; or the caller is a voter, verified and not blocked, whose voter token
  -- vouches for it, and the answer is that of `cast_free_vote` for that voter on the same database.
  pub post_vote-cases :
      authenticate_either jwt w.db words ≡ ok (some r.user)
      → ((e : Exc) × (post_vote.0 ≡ err e) × (post_vote.1.db ≡ w.db))
        ⊎ ((v : ℕ) × (w2 : World) × (r.user ≡ voter v)
            × Vouched jwt w.db (voter v)
            × (w2.db ≡ w.db)
            × (post_vote ≡ cast_free_vote env r v nomination_id w2))
  unfolding post_vote vote_permission create_vote
  post_vote-cases known =
      elim (runs_or_stops (vote_permission env r path method VoteAction.create)
        (vote_throttles env r VoteAction.create) (create_vote env r nomination_id) w) [
          | inr (e, w2, asks, stops) ↦
              inl (
                e,
                ap (λ x. x.0) stops,
                ap (λ x. x.1.db) stops ∙ Asked-db asks (create-KeepDb env r),
              )
          | inl (w1, w2, check, passes, runs) ↦
              let (v, is_v) = voter-cases r.user (ground arith) in
              inr (
                v,
                w2,
                is_v,
                subst (Vouched jwt w.db) is_v
                    (authenticate_either-Vouched jwt w.db r.user words known),
                Passed-db passes (create-KeepDb env r) ∙ ap (λ x. x.1.db) (sym check),
                runs ∙ rw is_v refl,
              )
        ]
