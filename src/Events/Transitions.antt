-- ===== src/Events/Transitions.antt =====
-- `change_status` as a state machine: which moves are made, and what holds of events afterwards.
pub mod Publishing
use kw_awards_voting_platfom.Prelude.{
  ℕ, Bool, true, false, ◌&&◌, not, Option, none, some, List, [], ◌∷◌, ◌≡◌, refl, ◌==◌, ◌⊎◌, inl,
  inr, any, All, update_where, is_some, arith, Bool-cases, Option-cases, find?-All,
  All-update_where, All-map, codes,
}
use kw_awards_voting_platfom.Exceptions.{
  Result, Exc, ok, err, api, invalid_transition, window_required, does_not_exist,
}
use kw_awards_voting_platfom.Models.Events.{
  Event, EventStatus, draft, nominations_open, voting_open, closed, results_published, status_eq,
  status_transitions, event_checks,
}
use kw_awards_voting_platfom.Models.Audit.{AuditAction, Json}
use kw_awards_voting_platfom.Models.State.{World, Env, Request}
use kw_awards_voting_platfom.Audit.{has_forbidden, is_forbidden, Entry, entry_row, add_entry}
use kw_awards_voting_platfom.Audit.Laws.{log_clean}
use kw_awards_voting_platfom.Events.{
  status_value, find_event, write_status, save_status, with_status, is_allowed, lacks_window,
  change_status,
}

-- The life of an event: the seven moves of the diagram.
infix 40 ◌⟶◌
pub data ◌⟶◌ : EventStatus → EventStatus → Type 0 where
  open_nominations : draft ⟶ nominations_open
  withdraw : nominations_open ⟶ draft
  open_voting : nominations_open ⟶ voting_open
  close_voting : voting_open ⟶ closed
  reopen_voting : closed ⟶ voting_open
  publish : closed ⟶ results_published
  unpublish : results_published ⟶ closed

ruleset edges =
    (open_nominations, withdraw, open_voting, close_voting, reopen_voting, publish, unpublish)

-- The window that the new status needs is set.
abbrev pub HasWindow : Event → EventStatus → Type 0
HasWindow e nominations_open =
    (is_some e.nominations_open_at ≡ true) × (is_some e.nominations_close_at ≡ true)
HasWindow e voting_open = (is_some e.voting_opens_at ≡ true) × (is_some e.voting_closes_at ≡ true)
HasWindow e _ = Unit

abbrev pub CanMove : Event → EventStatus → Type 0
CanMove e s = (e.status ⟶ s) × HasWindow e s

-- What holds of the row of an event: the constraints of the table, and a publication time exactly
-- while the results are published.
pub record IsConsistent (e : Event) : Type 0 where
  pub checks : event_checks e ≡ true
  pub published : is_some e.results_published_at ≡ status_eq e.status results_published

edge_of_list : (a b : EventStatus) → any (status_eq b) (status_transitions a) ≡ true → a ⟶ b
unfolding status_transitions
edge_of_list a b h = grind (arith, edges)

list_of_edge : {a b : EventStatus} → a ⟶ b → any (status_eq b) (status_transitions a) ≡ true
unfolding status_transitions
list_of_edge open_nominations = refl
list_of_edge withdraw = refl
list_of_edge open_voting = refl
list_of_edge close_voting = refl
list_of_edge reopen_voting = refl
list_of_edge publish = refl
list_of_edge unpublish = refl

-- The table `STATUS_TRANSITIONS` is the diagram.
module _ (e : Event) (s : EventStatus) where
  allowed-⟶ : is_allowed e s ≡ true → e.status ⟶ s
  unfolding is_allowed
  allowed-⟶ h = edge_of_list e.status s h

  ⟶-allowed : e.status ⟶ s → is_allowed e s ≡ true
  unfolding is_allowed
  ⟶-allowed h = list_of_edge h

  -- The two tests for a missing window.
  lacks_nominations : Bool
  lacks_nominations = lacks_window nominations_open s e.nominations_open_at e.nominations_close_at

  lacks_voting : Bool
  lacks_voting = lacks_window voting_open s e.voting_opens_at e.voting_closes_at

  has_window : HasWindow e s → (lacks_nominations ≡ false) × (lacks_voting ≡ false)
  unfolding lacks_nominations lacks_voting
  has_window h = ground arith

  HasWindow-cases : HasWindow e s ⊎ ((lacks_nominations ≡ true) ⊎ (lacks_voting ≡ true))
  unfolding lacks_nominations lacks_voting
  HasWindow-cases = ground arith

  CanMove-cases : CanMove e s ⊎ (¬ CanMove e s)
  CanMove-cases = elim (Bool-cases (is_allowed e s)) [
    | inr off ↦ inr (λ can. cc (off, ⟶-allowed can.0))
    | inl on ↦ elim HasWindow-cases [
      | inl has ↦ inl (allowed-⟶ on, has)
      | inr lacks ↦ inr (λ can. ground (arith, has_window can.1))
    ]
  ]

-- Writing the new status keeps a row consistent, also a row other than the one that was read.
write_status-IsConsistent :
    (now : ℕ) (e row : Event) (s : EventStatus)
    → IsConsistent e
    → IsConsistent row
    → is_allowed e s ≡ true
    → IsConsistent (write_status (with_status now e s) row)
unfolding with_status event_checks is_allowed status_transitions
write_status-IsConsistent now e row s he hr a = record {
  checks = ground arith;
  published = ground arith;
}

status_metadata : (a b : Json) → has_forbidden (("from", a) ∷ ("to", b) ∷ []) ≡ false
unfolding has_forbidden is_forbidden
status_metadata a b = refl

-- No row fails its constraints under the write, so the write goes through.
writes_pass :
    (id : ℕ) (f : Event → Event) (rows : List Event)
    → All (λ e. event_checks (f e) ≡ true) rows
    → any (λ (row : Event). row.id == id && not (event_checks (f row))) rows ≡ false
writes_pass id f [] h = refl
writes_pass id f (x ∷ rows) h = ground (arith, writes_pass id f rows h.1)

saved : Event → World → World
saved e w = record w {
  db = record w.db {
    events = update_where (λ (row : Event). row.id == e.id) (write_status e) w.db.events;
  };
}

save_status_passes :
    (now : ℕ) (e : Event) (s : EventStatus) (w : World)
    → IsConsistent e
    → All IsConsistent w.db.events
    → is_allowed e s ≡ true
    → save_status (with_status now e s) w ≡ (ok tt, saved (with_status now e s) w)
unfolding save_status saved
save_status_passes now e s w he hs a =
    let rows =
      All-map IsConsistent (λ row. event_checks (write_status (with_status now e s) row) ≡ true)
        w.db.events (λ row h. (write_status-IsConsistent now e row s he h a).checks) hs in
    rw (writes_pass (with_status now e s).id (write_status (with_status now e s)) w.db.events rows)

-- The entry that an accepted move adds to the audit log, and the world that it leaves.
move_entry : Event → EventStatus → Entry
move_entry e s = record {
  action = AuditAction.event_status_changed;
  actor_user = none;
  actor_voter = none;
  target = some ("events.event", e.id);
  metadata =
      ("from", Json.str (codes (status_value e.status)))
      ∷ ("to", Json.str (codes (status_value s)))
      ∷ [];
}

pub moved : Env → ℕ → Option Request → Event → EventStatus → World → World
unfolding move_entry saved
moved env now req e s w =
    add_entry (entry_row env now req (move_entry e s)) (saved (with_status now e s) w)

module _ (env : Env) (now : ℕ) (req : Option Request) (pk : ℕ) {e : Event} (s : EventStatus)
    (w : World) (found : find_event pk w.db ≡ some e) (valid : All IsConsistent w.db.events) where
  found-IsConsistent : IsConsistent e
  unfolding find_event
  found-IsConsistent = find?-All IsConsistent (λ (x : Event). x.id == pk) w.db.events e valid found

  -- Where all events are consistent, a move of the diagram, with its window set, is made: the row
  -- has the new status and publication time, and the audit log has one more entry.
  pub change_status_moves :
      CanMove e s
      → change_status env now req pk s w ≡ (ok (with_status now e s), moved env now req e s w)
  unfolding change_status moved lacks_nominations lacks_voting
  change_status_moves h =
      let allowed = ⟶-allowed e s h.0 in
      let windows = has_window e s h.1 in
      let saves = save_status_passes now e s w found-IsConsistent valid allowed in
      let logs =
        log_clean env now req (move_entry e s) (saved (with_status now e s) w)
          (unfold move_entry in status_metadata _ _) in
      ground (arith, found)

  -- Where all events are consistent, a move of an event that is there which the diagram or the
  -- windows do not allow is refused with the error for it, and changes nothing.
  pub change_status_refuses :
      ¬ CanMove e s
      → ((¬ (e.status ⟶ s))
          × (change_status env now req pk s w ≡ (err (api invalid_transition), w)))
        ⊎ ((e.status ⟶ s) × (change_status env now req pk s w ≡ (err (api window_required), w)))
  unfolding change_status lacks_nominations lacks_voting
  change_status_refuses no_move = elim (Bool-cases (is_allowed e s)) [
    | inr off ↦ inl ((λ edge. cc (off, ⟶-allowed e s edge)), ground (arith, found))
    | inl on ↦ elim (HasWindow-cases e s) [
      | inl has ↦ absurd (no_move (allowed-⟶ e s on, has))
      | inr lacks ↦ inr (allowed-⟶ e s on, ground (arith, found))
    ]
  ]

module _ (env : Env) (now : ℕ) (req : Option Request) (pk : ℕ) (s : EventStatus) (w : World) where
  missing : find_event pk w.db ≡ none → change_status env now req pk s w ≡ (err does_not_exist, w)
  unfolding change_status
  missing absent = ground (arith, absent)

  moved-IsConsistent :
      (e : Event)
      → All IsConsistent w.db.events
      → IsConsistent e
      → is_allowed e s ≡ true
      → All IsConsistent (moved env now req e s w).db.events
  unfolding moved add_entry
  moved-IsConsistent e valid he allowed =
      All-update_where IsConsistent _ (write_status (with_status now e s)) w.db.events
        (λ row h _. write_status-IsConsistent now e row s he h allowed) valid

  refused-IsConsistent :
      {x : Result Event × World} (e : Exc)
      → All IsConsistent w.db.events
      → x ≡ (err e, w)
      → All IsConsistent x.1.db.events
  refused-IsConsistent e valid same = rw same valid

  -- Where all events are consistent, they are so after `change_status`, whatever is asked of it:
  -- the constraints of the table hold, and a publication time is there exactly while the results
  -- are published.
  pub change_status-IsConsistent :
      All IsConsistent w.db.events → All IsConsistent (change_status env now req pk s w).1.db.events
  change_status-IsConsistent valid = elim (Option-cases (find_event pk w.db)) [
    | inl absent ↦ refused-IsConsistent does_not_exist valid (missing absent)
    | inr (e, found) ↦ elim (CanMove-cases e s) [
      | inl can ↦ rw (change_status_moves env now req pk s w found valid can) (
          moved-IsConsistent e valid (found-IsConsistent env now req pk s w found valid)
            (⟶-allowed e s can.0))
      | inr cannot ↦ elim (change_status_refuses env now req pk s w found valid cannot) [
        | inl (no_edge, same) ↦ refused-IsConsistent (api invalid_transition) valid same
        | inr (edge, same) ↦ refused-IsConsistent (api window_required) valid same
      ]
    ]
  ]
