-- ===== src/Voting/Results/Agreement.antt =====
-- The entries of an award, from the totals of its event and from its own.
use kw_awards_voting_platfom.Prelude.{
  ℕ, true, ◌&&◌, some, List, [], ◌∷◌, ◌≡◌, refl, ap, ◌∙◌, sym, inl, inr, ◌==◌, ==_iff, map, filter,
  sum_where, All, arith, Bool-cases,
}
use kw_awards_voting_platfom.Models.Events.{Event, Award}
use kw_awards_voting_platfom.Models.Nominations.{Nomination, approved, nstatus_eq}
use kw_awards_voting_platfom.Models.Voting.{Vote}
use kw_awards_voting_platfom.Models.State.{Db, Env}
use kw_awards_voting_platfom.Events.{find_award}
use kw_awards_voting_platfom.Nominations.{award_and_event, event_of_award}
use kw_awards_voting_platfom.Voting.Results.{
  Totals, totals_by_nomination, get_total, rank, entry, award_nominations, award_tally,
  event_nominations, by_award, in_event,
}
use kw_awards_voting_platfom.Voting.Results.Tallies.{counts_for, get_total-totals_by_nomination}

-- A vote for a nomination of the award carries the award and its event, and a vote with the award
-- carries its event.
abbrev pub Carries : ℕ → ℕ → List Vote → Type 0
Carries award event votes =
    All (λ (v : Vote). (v.award == award) ≡ true → (v.event == event) ≡ true) votes

-- The votes for a nomination of the award carry the award.
abbrev pub Follows : ℕ → List Nomination → List Vote → Type 0
Follows award nominations votes =
    All
      (λ (n : Nomination).
        (n.award == award) ≡ true
        → All (λ (v : Vote). (v.nomination == n.id) ≡ true → (v.award == award) ≡ true) votes)
      nominations

same_sums :
    (award event k : ℕ) (votes : List Vote)
    → Carries award event votes
    → All (λ (v : Vote). (v.nomination == k) ≡ true → (v.award == award) ≡ true) votes
    → sum_where (counts_for (λ v. v.event == event) k) (λ v. v.quantity) votes
      ≡ sum_where (counts_for (λ v. v.award == award) k) (λ v. v.quantity) votes
same_sums award event k [] c f = refl
same_sums award event k (v ∷ votes) c f =
    let rest = same_sums award event k votes c.1 f.1 in
    elim (Bool-cases (v.nomination == k)) [
      | inl ours ↦ rw ours (rw (f.0 ours) (rw (c.0 (f.0 ours)) (ground (arith, rest))))
      | inr other ↦ rw other (ground (arith, rest))
    ]

same_entry :
    (db : Db) (t u : Totals) (n : Nomination)
    → get_total n.id t ≡ get_total n.id u
    → entry db t n ≡ entry db u n
unfolding entry
same_entry db t u n h = rw h refl

in_its_event :
    (db : Db) (a : Award) (e : Event) (n : Nomination)
    → find_award a.id db ≡ some a
    → event_of_award db a ≡ some e
    → (n.award == a.id) ≡ true
    → in_event e.id (award_and_event db n) ≡ true
unfolding in_event award_and_event
in_its_event db a e n found event_found same =
    rw ((==_iff n.award a.id).0 same) (rw found (rw event_found (ground arith)))

module _ (db : Db) (a : Award) (e : Event) (found : find_award a.id db ≡ some a)
    (event_found : event_of_award db a ≡ some e) (carries : Carries a.id e.id db.votes) where
  same_total :
      (n : Nomination)
      → All (λ (v : Vote). (v.nomination == n.id) ≡ true → (v.award == a.id) ≡ true) db.votes
      → get_total n.id (totals_by_nomination (λ v. v.event == e.id) db.votes)
        ≡ get_total n.id (totals_by_nomination (λ v. v.award == a.id) db.votes)
  same_total n follows =
      get_total-totals_by_nomination (λ v. v.event == e.id) n.id db.votes
      ∙ same_sums a.id e.id n.id db.votes carries follows
      ∙ sym (get_total-totals_by_nomination (λ v. v.award == a.id) n.id db.votes)

  same_rows :
      (rows : List Nomination)
      → Follows a.id rows db.votes
      → map (entry db (totals_by_nomination (λ v. v.event == e.id) db.votes)) (
          filter
            (λ (n : Nomination). n.award == a.id)
            (filter
              (λ (n : Nomination).
                in_event e.id (award_and_event db n) && nstatus_eq n.status approved)
              rows))
        ≡ map
            (entry db (totals_by_nomination (λ v. v.award == a.id) db.votes))
            (filter (λ (n : Nomination). n.award == a.id && nstatus_eq n.status approved) rows)
  same_rows [] f = refl
  same_rows (n ∷ rows) f =
      let rest = same_rows rows f.1 in
      elim (Bool-cases (n.award == a.id)) [
        | inl ours ↦
            let there = in_its_event db a e n found event_found ours in
            elim (Bool-cases (nstatus_eq n.status approved)) [
              | inl shown ↦
                  let t = totals_by_nomination (λ v. v.event == e.id) db.votes in
                  let u = totals_by_nomination (λ v. v.award == a.id) db.votes in
                  rw there (
                    rw shown (
                      rw ours (
                        rw (same_entry db t u n (same_total n (f.0 ours)))
                          (ap (◌∷◌ (entry db u n)) rest))))
              | inr waits ↦ rw there (rw waits (rw ours rest))
            ]
        | inr other ↦
            elim (Bool-cases
              (in_event e.id (award_and_event db n) && nstatus_eq n.status approved)) [
                | inl kept ↦ rw kept (rw other rest)
                | inr left ↦ rw left (rw other rest)
              ]
      ]

  -- The ranking of the award among the results of the event is the tally of the award.
  pub by_award-award_tally :
      (env : Env)
      → Follows a.id db.nominations db.votes
      → rank env.lower (
          by_award db
            (totals_by_nomination (λ v. v.event == e.id) db.votes)
            (event_nominations db e.id)
            a.id)
        ≡ award_tally env db a.id
  unfolding award_tally by_award event_nominations award_nominations
  by_award-award_tally env follows = ap (rank env.lower) (same_rows db.nominations follows)
