-- ===== src/Models/Events.antt =====
-- events/models.py: events with their status and windows, categories and awards.
use kw_awards_voting_platfom.Prelude.{
  ℕ, Bool, true, false, ◌&&◌, ◌||◌, not, Option, some, List, [], ◌∷◌, Text, ltb, leb, is_some,
}

pub data EventStatus : Type 0 where
  draft nominations_open voting_open closed results_published : EventStatus

abbrev pub status_eq : EventStatus → EventStatus → Bool
status_eq draft draft = true
status_eq nominations_open nominations_open = true
status_eq voting_open voting_open = true
status_eq closed closed = true
status_eq results_published results_published = true
status_eq _ _ = false

-- `STATUS_TRANSITIONS`
unfoldable pub status_transitions : EventStatus → List EventStatus
status_transitions draft = nominations_open ∷ []
status_transitions nominations_open = voting_open ∷ draft ∷ []
status_transitions voting_open = closed ∷ []
status_transitions closed = results_published ∷ voting_open ∷ []
status_transitions results_published = closed ∷ []

pub record Event : Type 0 where
  pub id : ℕ
  pub name : Text
  pub slug : Text
  pub year : ℕ
  pub status : EventStatus
  pub nominations_open_at : Option ℕ
  pub nominations_close_at : Option ℕ
  pub voting_opens_at : Option ℕ
  pub voting_closes_at : Option ℕ
  pub results_published_at : Option ℕ

-- `a IS NULL OR b IS NULL OR a < b`
abbrev pub null_or_lt : Option ℕ → Option ℕ → Bool
null_or_lt (some a) (some b) = ltb a b
null_or_lt _ _ = true

abbrev pub null_or_le : Option ℕ → Option ℕ → Bool
null_or_le (some a) (some b) = leb a b
null_or_le _ _ = true

-- The four check constraints of `Event.Meta`.
unfoldable pub event_checks : Event → Bool
event_checks e =
    null_or_lt e.nominations_open_at e.nominations_close_at
    && (null_or_lt e.voting_opens_at e.voting_closes_at
        && (null_or_le e.nominations_close_at e.voting_opens_at
            && (not (status_eq e.status results_published) || is_some e.results_published_at)))

-- `Event.is_public`
abbrev pub is_public : Event → Bool
is_public e = not (status_eq e.status draft)

-- `opens and closes and opens <= at < closes`. A Python datetime is always true.
abbrev within : Option ℕ → Option ℕ → ℕ → Bool
within (some opens) (some closes) at = leb opens at && ltb at closes
within _ _ at = false

unfoldable pub nominations_are_open : Event → ℕ → Bool
nominations_are_open e at =
    status_eq e.status nominations_open && within e.nominations_open_at e.nominations_close_at at

unfoldable pub voting_is_open : Event → ℕ → Bool
voting_is_open e at =
    status_eq e.status voting_open && within e.voting_opens_at e.voting_closes_at at

pub record Category : Type 0 where
  pub id : ℕ
  pub event : ℕ
  pub name : Text
  pub slug : Text
  pub display_order : ℕ

pub record Award : Type 0 where
  pub id : ℕ
  pub category : ℕ
  pub name : Text
  pub slug : Text
  pub display_order : ℕ
  pub is_active : Bool
