-- ===== src/Nominations.antt =====
-- nominations/views.py and nominations/services.py: which nominations are public, and their review.
pub mod Review
pub mod Submission
pub mod Images
pub mod Views
pub mod Serializers
use kw_awards_voting_platfom.Prelude.{
  ℕ, Bool, true, false, ◌&&◌, not, Option, none, some, List, [], ◌∷◌, String, ◌==◌, find?, any,
  filter, update_where, Text, if◌then◌else◌,
}
use kw_awards_voting_platfom.Exceptions.{
  ok, err, api, already_reviewed, does_not_exist, integrity, check,
}
use kw_awards_voting_platfom.Exec.{⊤, Action, pure, or_raise, atomic, ◌>>=◌, ◌>>◌, raise_if}
use kw_awards_voting_platfom.Models.Events.{Event, Award, Category, is_public}
use kw_awards_voting_platfom.Models.Nominations.{
  Nomination, NominationStatus, approved, rejected, pending, nstatus_eq, nomination_checks,
}
use kw_awards_voting_platfom.Models.Audit.{AuditAction, Json, Metadata}
use kw_awards_voting_platfom.Models.State.{Db, World, Env, Request}
use kw_awards_voting_platfom.Audit.{Entry, log}
use kw_awards_voting_platfom.Events.{find_award, find_category, find_event}

unfoldable pub find_nomination : ℕ → Db → Option Nomination
find_nomination pk db = find? (λ (n : Nomination). n.id == pk) db.nominations

event_of_category : Db → Option Category → Option Event
event_of_category db none = none
event_of_category db (some c) = find_event c.event db

-- The join `award__category__event`, from the award's category up.
unfoldable pub event_of_award : Db → Award → Option Event
unfolding event_of_category
event_of_award db a = event_of_category db (find_category a.category db)

pair_award : Award → Option Event → Option (Award × Event)
pair_award a none = none
pair_award a (some e) = some (a, e)

award_event_of : Db → Option Award → Option (Award × Event)
unfolding pair_award
award_event_of db none = none
award_event_of db (some a) = pair_award a (event_of_award db a)

-- The join `award__category__event`, from a nomination up: its award with the award's event.
unfoldable pub award_and_event : Db → Nomination → Option (Award × Event)
unfolding award_event_of
award_and_event db n = award_event_of db (find_award n.award db)

shown_in : Option (Award × Event) → Bool
shown_in none = false
shown_in (some (a, e)) = a.is_active && is_public e

-- `filter(status=APPROVED, award__is_active=True).exclude(award__category__event__status=DRAFT)`
unfoldable pub is_shown : Db → Nomination → Bool
unfolding shown_in
is_shown db n = nstatus_eq n.status approved && shown_in (award_and_event db n)

-- `public_nominations`, before its ordering by name.
unfoldable pub public_nominations : Db → List Nomination
public_nominations db = filter (is_shown db) db.nominations

-- `locked` after the review.
unfoldable pub reviewed : Bool → ℕ → ℕ → Text → Nomination → Nomination
reviewed approve now reviewer reason n = record n {
  status = if approve then approved else rejected;
  reviewed_by = some reviewer;
  reviewed_at = some now;
  rejection_reason = if approve then [] else reason;
}

-- `save(update_fields=["status", "reviewed_by", "reviewed_at", "rejection_reason", ...])`
unfoldable pub save_review : Nomination → Action ⊤
save_review n w = if not (nomination_checks n) then (err (integrity check), w) else (
  ok tt,
  record w {
    db = record w.db {
      nominations = update_where (λ (x : Nomination). x.id == n.id) (λ _. n) w.db.nominations;
    };
  },
)

abbrev pub review_metadata : Bool → Text → Nomination → Metadata
review_metadata approve reason n =
    ("award_id", Json.num n.award)
    ∷ ("nominee_id", Json.num n.nominee)
    ∷ (if approve then [] else ("reason", Json.str reason) ∷ [])

unfoldable pub review_entry : Bool → ℕ → Text → Nomination → Entry
review_entry approve reviewer reason n = record {
  action = if approve then AuditAction.nomination_approved else AuditAction.nomination_rejected;
  actor_user = some reviewer;
  actor_voter = none;
  target = some ("nominations.nomination", n.id);
  metadata = review_metadata approve reason n;
}

unfoldable pub review_nomination :
    Env → ℕ → Option Request → ℕ → Bool → ℕ → Text → Action Nomination
review_nomination env now req pk approve reviewer reason = atomic do
  locked ← (λ w. or_raise does_not_exist (find_nomination pk w.db) w)
  raise_if (not (nstatus_eq locked.status pending)) (api already_reviewed)
  save_review (reviewed approve now reviewer reason locked)
  log env now req (review_entry approve reviewer reason locked)
  pure (reviewed approve now reviewer reason locked)
