-- ===== src/Events.antt =====
-- events/services.py, events/selectors.py and the joins from an award up to its event.
pub mod Transitions
pub mod Views
pub mod Deletion
use kw_awards_voting_platfom.Prelude.{
  ℕ, Bool, true, false, ◌&&◌, not, Option, none, some, List, [], ◌∷◌, String, ◌==◌, find?, any,
  update_where, is_some, codes, Text, if◌then◌else◌,
}
use kw_awards_voting_platfom.Exceptions.{
  ok, err, api, invalid_transition, window_required, does_not_exist, integrity, check,
}
use kw_awards_voting_platfom.Exec.{
  ⊤, Action, pure, gets, or_raise, atomic, ◌>>=◌, ◌>>◌, raise_if, modify,
}
use kw_awards_voting_platfom.Models.Events.{
  Event, Category, Award, EventStatus, draft, nominations_open, voting_open, closed,
  results_published, status_eq, status_transitions, event_checks,
}
use kw_awards_voting_platfom.Models.Audit.{AuditAction, Json}
use kw_awards_voting_platfom.Models.State.{Db, World, Env, Request}
use kw_awards_voting_platfom.Audit.{log}

-- `objects.get(pk=...)`, as an option
unfoldable pub find_event : ℕ → Db → Option Event
find_event pk db = find? (λ (e : Event). e.id == pk) db.events

unfoldable pub find_award : ℕ → Db → Option Award
find_award pk db = find? (λ (a : Award). a.id == pk) db.awards

unfoldable pub find_category : ℕ → Db → Option Category
find_category pk db = find? (λ (c : Category). c.id == pk) db.categories

-- The stored values of `EventStatus`.
abbrev pub status_value : EventStatus → String
status_value draft = "draft"
status_value nominations_open = "nominations_open"
status_value voting_open = "voting_open"
status_value closed = "closed"
status_value results_published = "results_published"

-- `save(update_fields=["status", "results_published_at", ...])`: the columns that are written.
abbrev write_status : Event → Event → Event
write_status e row = record row { status = e.status; results_published_at = e.results_published_at }

pub save_status : Event → Action ⊤
save_status e w =
    if any (λ (row : Event). row.id == e.id && not (event_checks (write_status e row))) w.db.events
    then (err (integrity check), w)
    else (
      ok tt,
      record w {
        db = record w.db {
          events = update_where (λ (row : Event). row.id == e.id) (write_status e) w.db.events;
        };
      },
    )

-- `locked` with its new status and publication time.
unfoldable pub with_status : ℕ → Event → EventStatus → Event
with_status now e new_status = record e {
  status = new_status;
  results_published_at =
      if status_eq new_status results_published
      then some now
      else if status_eq e.status results_published
      then none
      else e.results_published_at;
}

unfoldable pub is_allowed : Event → EventStatus → Bool
is_allowed e new_status = any (status_eq new_status) (status_transitions e.status)

-- The tests for the windows that the new status needs.
abbrev lacks_window : EventStatus → EventStatus → Option ℕ → Option ℕ → Bool
lacks_window wanted new_status opens closes =
    status_eq new_status wanted && not (is_some opens && is_some closes)

-- The body of the transaction of `change_status`, on the locked row.
move : Env → ℕ → Option Request → Event → EventStatus → Action Event
unfolding with_status
move env now req locked new_status = do
  raise_if (not (is_allowed locked new_status)) (api invalid_transition)
  raise_if
      (lacks_window nominations_open new_status locked.nominations_open_at
        locked.nominations_close_at)
      (api window_required)
  raise_if (lacks_window voting_open new_status locked.voting_opens_at locked.voting_closes_at)
      (api window_required)
  save_status (with_status now locked new_status)
  log env now req (record {
    action = AuditAction.event_status_changed;
    actor_user = none;
    actor_voter = none;
    target = some ("events.event", locked.id);
    metadata =
        ("from", Json.str (codes (status_value locked.status)))
        ∷ ("to", Json.str (codes (status_value new_status)))
        ∷ [];
  })
  pure (with_status now locked new_status)

unfoldable pub change_status : Env → ℕ → Option Request → ℕ → EventStatus → Action Event
unfolding move
change_status env now req pk new_status = atomic do
  locked ← (λ w. or_raise does_not_exist (find_event pk w.db) w)
  move env now req locked new_status
