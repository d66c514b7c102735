-- ===== src/Events/Deletion/Outcomes.antt =====
-- The two outcomes of `perform_destroy`, for an event, a category or an award.
use kw_awards_voting_platfom.Prelude.{
  ℕ, Bool, true, false, ◌||◌, ◌≡◌, refl, sym, inl, inr, any, arith, Bool-cases,
}
use mathlib.Core.Path.{subst}
use kw_awards_voting_platfom.Exceptions.{ok, err, api, conflict}
use kw_awards_voting_platfom.Models.State.{Db, World}
use kw_awards_voting_platfom.Events.Deletion.{
  Collected, collect_award, collect_category, collect_event, vote_refers, payment_refers,
  delete_collected, perform_destroy,
}
use kw_awards_voting_platfom.Events.Deletion.Links.{IsLinked}
use kw_awards_voting_platfom.Events.Deletion.Integrity.{
  IsClosed, collect_award-IsClosed, collect_category-IsClosed, collect_event-IsClosed,
  deleted-IsLinked,
}

-- What a request can delete.
pub data Target : Type 0 where
  event category award : ℕ → Target

abbrev pub collect_of : Target → Db → Collected
collect_of (event id) db = collect_event db id
collect_of (category id) db = collect_category db id
collect_of (award id) db = collect_award db id

collect_of-IsClosed : (t : Target) (db : Db) → IsClosed db (collect_of t db)
collect_of-IsClosed (event id) db = collect_event-IsClosed db id
collect_of-IsClosed (category id) db = collect_category-IsClosed db id
collect_of-IsClosed (award id) db = collect_award-IsClosed db id

-- Whether a vote or a payment refers to what the deletion would take along.
abbrev pub is_referred : Target → Db → Bool
is_referred t db =
    any (vote_refers (collect_of t db)) db.votes
    || any (payment_refers (collect_of t db)) db.payments

module _ (t : Target) (w : World) where
  abbrev pub destroyed : World
  destroyed = (perform_destroy (collect_of t) w).1

  -- A deletion is refused with 409, and changes nothing, exactly if a vote or a payment refers to a row
  -- that it would take along: to the event, to an award of it, or to a nomination in one of those.
  pub perform_destroy_refuses :
      (is_referred t w.db ≡ true → perform_destroy (collect_of t) w ≡ (err (api conflict), w))
      × (is_referred t w.db ≡ false → (perform_destroy (collect_of t) w).0 ≡ ok tt)
  unfolding perform_destroy delete_collected
  perform_destroy_refuses = ((λ h. rw h refl), (λ h. rw h refl))

  -- A deletion that goes through leaves what the deletion of the collected rows leaves.
  passes :
      is_referred t w.db ≡ false
      → (destroyed ≡ (delete_collected (collect_of t w.db) w).1)
        × (destroyed.db.votes ≡ w.db.votes)
        × (destroyed.db.payments ≡ w.db.payments)
        × (destroyed.db.audit_log ≡ w.db.audit_log)
        × (destroyed.db.users ≡ w.db.users)
        × (destroyed.db.nominees ≡ w.db.nominees)
        × (destroyed.db.voters ≡ w.db.voters)
        × (destroyed.db.challenges ≡ w.db.challenges)
  unfolding perform_destroy delete_collected
  passes h = rw (destroyed, h) (refl, refl, refl, refl, refl, refl, refl, refl)

  -- No deletion of an event, a category or an award touches a user, a nominee, a voter, a challenge, a
  -- vote, a payment or an entry of the audit log; and if every foreign key of the database has its row
  -- before, every foreign key has its row afterwards.
  pub perform_destroy-IsLinked :
      IsLinked w.db
      → IsLinked destroyed.db
        × (destroyed.db.votes ≡ w.db.votes)
        × (destroyed.db.payments ≡ w.db.payments)
        × (destroyed.db.audit_log ≡ w.db.audit_log)
        × (destroyed.db.users ≡ w.db.users)
        × (destroyed.db.nominees ≡ w.db.nominees)
        × (destroyed.db.voters ≡ w.db.voters)
        × (destroyed.db.challenges ≡ w.db.challenges)
  perform_destroy-IsLinked linked = elim (Bool-cases (is_referred t w.db)) [
    | inl refers ↦
        rw (destroyed, perform_destroy_refuses.0 refers)
          (linked, refl, refl, refl, refl, refl, refl, refl)
    | inr free ↦
        let c = collect_of t w.db in
        let votes : any (vote_refers c) w.db.votes ≡ false = ground arith in
        let payments : any (payment_refers c) w.db.payments ≡ false = ground arith in
        let (
          same, votes_same, payments_same, log_same, users_same, nominees_same, voters_same,
          codes_same,
        ) =
          passes free in
        (
          subst (λ (x : World). IsLinked x.db) (sym same)
              (deleted-IsLinked c w votes payments (collect_of-IsClosed t w.db) linked),
          votes_same,
          payments_same,
          log_same,
          users_same,
          nominees_same,
          voters_same,
          codes_same,
        )
  ]
