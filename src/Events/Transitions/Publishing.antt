-- ===== src/Events/Transitions/Publishing.antt =====
-- Every event whose windows are set can be taken to the publication of its results.
use kw_awards_voting_platfom.Prelude.{
  ℕ, Bool, true, false, Option, some, List, [], ◌∷◌, ◌≡◌, refl, sym, ◌==◌, ==_iff, All, find?,
  find?-sound, update_where, arith,
}
use mathlib.Core.Path.{subst}
use kw_awards_voting_platfom.Exceptions.{Result, ok, err}
use kw_awards_voting_platfom.Models.Events.{
  Event, EventStatus, draft, nominations_open, voting_open, closed, results_published,
}
use kw_awards_voting_platfom.Models.State.{World, Env, Request}
use kw_awards_voting_platfom.Audit.{add_entry}
use kw_awards_voting_platfom.Events.{find_event, write_status, with_status, change_status}
use kw_awards_voting_platfom.Events.Transitions.{
  ◌⟶◌, open_nominations, open_voting, close_voting, publish, HasWindow, CanMove, IsConsistent,
  moved, saved, change_status_moves, change_status-IsConsistent,
}

-- Both windows of an event are set.
abbrev pub HasWindows : Event → Type 0
HasWindows e = HasWindow e nominations_open × HasWindow e voting_open

-- The moves that are left until publication.
abbrev pub remaining : EventStatus → List EventStatus
remaining draft = nominations_open ∷ voting_open ∷ closed ∷ results_published ∷ []
remaining nominations_open = voting_open ∷ closed ∷ results_published ∷ []
remaining voting_open = closed ∷ results_published ∷ []
remaining closed = results_published ∷ []
remaining results_published = []

-- Moves of the diagram that lead from a status to publication.
data Chain : EventStatus → List EventStatus → Type 0 where
  done : Chain results_published []
  next :
      {a s : EventStatus} {moves : List EventStatus} → a ⟶ s → Chain s moves → Chain a (s ∷ moves)

remaining-Chain : (s : EventStatus) → Chain s (remaining s)
remaining-Chain draft =
    next open_nominations (next open_voting (next close_voting (next publish done)))
remaining-Chain nominations_open = next open_voting (next close_voting (next publish done))
remaining-Chain voting_open = next close_voting (next publish done)
remaining-Chain closed = next publish done
remaining-Chain results_published = done

needs : (e : Event) (s : EventStatus) → HasWindows e → HasWindow e s
needs e s h = ground arith

module _ (env : Env) (now : ℕ) (req : Option Request) (pk : ℕ) where
  -- Calls of `change_status`, one after the other, as long as they are accepted.
  abbrev pub all_ok : Result Event × World → (World → Bool × World) → Bool × World
  all_ok (ok e, w) rest = rest w
  all_ok (err x, w) rest = (false, w)

  abbrev pub make_moves : List EventStatus → World → Bool × World
  make_moves [] w = (true, w)
  make_moves (s ∷ moves) w = all_ok (change_status env now req pk s w) (make_moves moves)

  find-update_where :
      (f : Event → Event) (rows : List Event) (e : Event)
      → ((x : Event) → (f x).id ≡ x.id)
      → find? (λ (x : Event). x.id == pk) rows ≡ some e
      → find? (λ (x : Event). x.id == pk) (update_where (λ (x : Event). x.id == pk) f rows)
        ≡ some (f e)
  find-update_where f [] e keep h = absurd (ground arith)
  find-update_where f (x ∷ rows) e keep h = ground (arith, find-update_where f rows e keep, keep x)

  -- After an accepted move the event stands with its new status and the windows that it had.
  find_event-moved :
      (e : Event) (s : EventStatus) (w : World)
      → find_event pk w.db ≡ some e
      → find_event pk (moved env now req e s w).db ≡ some (with_status now e s)
  unfolding find_event moved add_entry saved with_status
  find_event-moved e s w found =
      let id_eq =
        (==_iff e.id pk).0 (find?-sound (λ (x : Event). x.id == pk) w.db.events e found) in
      subst
        (λ i.
          find? (λ (x : Event). x.id == pk)
            (update_where (λ (x : Event). x.id == i) (write_status (with_status now e s))
              w.db.events)
          ≡ some (with_status now e s))
        (sym id_eq)
        (find-update_where (write_status (with_status now e s)) w.db.events e (λ x. refl) found)

  -- The event of the given identifier stands in the world with this status.
  abbrev pub StandsAt : EventStatus → World → Type 0
  StandsAt s w = (e : Event) × (find_event pk w.db ≡ some e) × (e.status ≡ s)

  make_moves_lem :
      {a : EventStatus} (moves : List EventStatus)
      → Chain a moves
      → (e : Event) (w : World) → find_event pk w.db ≡ some e
      → e.status ≡ a
      → All IsConsistent w.db.events
      → HasWindows e
      → let (made, w') = make_moves moves w in (made ≡ true) × StandsAt results_published w'
  make_moves_lem [] done e w found at valid windows = (refl, (e, found, at))
  make_moves_lem (s ∷ moves) (next edge chain) e w found at valid windows =
      let can : CanMove e s = (subst (λ b. b ⟶ s) (sym at) edge, needs e s windows) in
      let kept = change_status-IsConsistent env now req pk s w valid in
      let moves_on = change_status_moves env now req pk s w found valid can in
      rw moves_on (
        make_moves_lem moves chain (with_status now e s) (moved env now req e s w)
          (find_event-moved e s w found) (unfold with_status in refl) (rw moves_on at kept)
          (unfold with_status in windows))

  -- Where all events are consistent, an event whose two windows are set can always be taken to the
  -- publication of its results: from every status the moves that `remaining` lists are all accepted, one
  -- after the other, and leave the event published.
  pub make_moves-remaining :
      (e : Event) (w : World)
      → find_event pk w.db ≡ some e
      → All IsConsistent w.db.events
      → HasWindows e
      → let (made, w') = make_moves (remaining e.status) w in
        (made ≡ true) × StandsAt results_published w'
  make_moves-remaining e w found valid windows =
      make_moves_lem (remaining e.status) (remaining-Chain e.status) e w found refl valid windows
