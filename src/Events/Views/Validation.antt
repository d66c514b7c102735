-- ===== src/Events/Views/Validation.antt =====
-- The windows that the serializer takes are those that the table takes.
use kw_awards_voting_platfom.Prelude.{
  ℕ, Bool, true, false, ◌&&◌, not, Option, [], ◌≡◌, inl, inr, ◌⊎◌, arith,
}
use kw_awards_voting_platfom.Exceptions.{ok, err, validation_error}
use kw_awards_voting_platfom.Models.Events.{Event, event_checks, null_or_lt, null_or_le}
use kw_awards_voting_platfom.Events.Transitions.{IsConsistent}
use kw_awards_voting_platfom.Events.Views.{
  Windows, WindowError, GivenWindows, merge_windows, not_before, after, add_error, window_errors,
  if_none, validate,
}

-- The windows of an event, and the event with other windows.
abbrev pub windows_of : Event → Windows
windows_of e = record {
  nominations_open_at = e.nominations_open_at;
  nominations_close_at = e.nominations_close_at;
  voting_opens_at = e.voting_opens_at;
  voting_closes_at = e.voting_closes_at;
}

abbrev pub with_windows : Windows → Event → Event
with_windows w e = record e {
  nominations_open_at = w.nominations_open_at;
  nominations_close_at = w.nominations_close_at;
  voting_opens_at = w.voting_opens_at;
  voting_closes_at = w.voting_closes_at;
}

-- The three constraints of the table that are about windows.
abbrev windows_checks : Windows → Bool
windows_checks w =
    null_or_lt w.nominations_open_at w.nominations_close_at
    && (null_or_lt w.voting_opens_at w.voting_closes_at
        && null_or_le w.nominations_close_at w.voting_opens_at)

-- A test of the serializer is the negation of a constraint.
not_before-null_or_lt : (a b : Option ℕ) → not_before a b ≡ not (null_or_lt a b)
not_before-null_or_lt a b = ground arith

after-null_or_le : (a b : Option ℕ) → after a b ≡ not (null_or_le a b)
after-null_or_le a b = ground arith

-- The answer for the errors that fail three tests.
if_none-cases :
    (x y z : Bool) (w : Windows)
    → let answer =
        if_none
          (add_error (not x) WindowError.nominations_close_at (
            add_error
              (not y)
              WindowError.voting_closes_at
              (add_error (not z) WindowError.voting_opens_at [])))
          w in
      (((x && (y && z)) ≡ true) × (answer ≡ ok w))
      ⊎ (((x && (y && z)) ≡ false) × (answer ≡ err validation_error))
unfolding add_error
if_none-cases x y z w = ground arith

validate-cases :
    (given : GivenWindows) (stored : Windows)
    → let w = merge_windows given stored in
      ((windows_checks w ≡ true) × (validate given stored ≡ ok w))
      ⊎ ((windows_checks w ≡ false) × (validate given stored ≡ err validation_error))
unfolding validate window_errors
validate-cases given stored =
    let w = merge_windows given stored in
    let a = not_before-null_or_lt w.nominations_open_at w.nominations_close_at in
    let b = not_before-null_or_lt w.voting_opens_at w.voting_closes_at in
    let c = after-null_or_le w.nominations_close_at w.voting_opens_at in
    rw (a, b, c)
      (if_none-cases (null_or_lt w.nominations_open_at w.nominations_close_at)
        (null_or_lt w.voting_opens_at w.voting_closes_at)
        (null_or_le w.nominations_close_at w.voting_opens_at) w)

-- For a consistent event the serializer takes the windows of a request, merged with the stored ones,
-- exactly if the table takes the event with them: then the answer is the merged windows, and the event
-- with them is consistent; otherwise the answer is a validation error, and the table's constraints would
-- fail.
pub validate-event_checks :
    (given : GivenWindows) (e : Event)
    → IsConsistent e
    → let w = merge_windows given (windows_of e) in
      ((validate given (windows_of e) ≡ ok w) × IsConsistent (with_windows w e))
      ⊎ ((validate given (windows_of e) ≡ err validation_error)
          × (event_checks (with_windows w e) ≡ false))
unfolding event_checks
validate-event_checks given e consistent =
    let w = merge_windows given (windows_of e) in
    let checks = consistent.checks in
    elim (validate-cases given (windows_of e)) [
      | inl (pass, accepts) ↦
          inl (accepts, record { checks = ground arith; published = consistent.published })
      | inr (fail, refuses) ↦ inr (refuses, ground arith)
    ]
