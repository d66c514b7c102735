-- ===== src/Examples/Rest.antt =====
-- Events, the audit log, phone numbers and addresses at the gala.
use kw_awards_voting_platfom.Prelude.{
  ℕ, ◌+◌, ◌-◌, ◌≤◌, Bool, true, false, ◌||◌, not, Option, none, some, List, [], ◌∷◌, ◌++◌, Text,
  ◌≡◌, refl, codes, text_eq, arith, length, take, drop, All, if◌then◌else◌, strip,
}
use kw_awards_voting_platfom.Exceptions.{err, api, already_reviewed}
use kw_awards_voting_platfom.Models.Events.{voting_open, draft, closed, event_checks}
use kw_awards_voting_platfom.Models.Audit.{AuditAction, Json}
use kw_awards_voting_platfom.Models.State.{World, Request}
use kw_awards_voting_platfom.Audit.{entry_row, voter_entry, find_key, hash_phone}
use kw_awards_voting_platfom.Audit.Laws.{log_voter_event_private}
use kw_awards_voting_platfom.Events.{find_event, change_status}
use kw_awards_voting_platfom.Events.Transitions.{
  ◌⟶◌, CanMove, IsConsistent, change_status-IsConsistent,
}
use kw_awards_voting_platfom.Phone.{mask_phone, normalize_phone_strict, default_region}
use kw_awards_voting_platfom.Nominations.{find_nomination, review_nomination}
use kw_awards_voting_platfom.Nominations.Review.{review_nomination_once}
use kw_awards_voting_platfom.Examples.Data.{
  numbers, nomination, waiting, env, gala, amina, phone, world, request_at,
}

abbrev req : Request
req = request_at 100 31

found_gala : find_event 1 world.db ≡ some gala
unfolding find_event
found_gala = refl

consistent : All IsConsistent world.db.events
unfolding event_checks
consistent = (record { checks = refl; published = refl }, tt)

no_edge : ¬ (voting_open ⟶ draft)
no_edge h = elim h [ ]

not_draft : ¬ CanMove gala draft
not_draft h = no_edge h.0

change_status-IsConsistent_example :
    All IsConsistent (change_status env 100 (some req) 1 closed world).1.db.events
change_status-IsConsistent_example =
    change_status-IsConsistent env 100 (some req) 1 closed world consistent

log_voter_event_private_example :
    let row =
      entry_row env 100
        (some req)
        (voter_entry env AuditAction.otp_failed (some amina) phone none []) in
    (row.actor_user ≡ none)
    × (row.actor_voter ≡ none)
    × (find_key "phone_masked" row.metadata ≡ some (Json.str (mask_phone phone)))
    × (find_key "phone_hash" row.metadata ≡ some (Json.str (hash_phone env phone)))
log_voter_event_private_example =
    log_voter_event_private env 100 req AuditAction.otp_failed (some amina) phone none [] refl

strict_accepts :
    normalize_phone_strict numbers phone (default_region ∷ []) default_region ≡ some phone
unfolding normalize_phone_strict strip kw_awards_voting_platfom.Prelude.lstrip
    kw_awards_voting_platfom.Prelude.is_space text_eq
strict_accepts = refl

found_waiting : find_nomination 3 world.db ≡ some waiting
unfolding find_nomination
found_waiting = refl

found_first : find_nomination 1 world.db ≡ some (nomination 1)
unfolding find_nomination
found_first = refl

abbrev decided : World
decided = (review_nomination env 100 (some req) 3 true 1 [] world).1

review_nomination_once_example :
    review_nomination env 200 none 3 false 2 (codes "spam") decided
    ≡ (err (api already_reviewed), decided)
review_nomination_once_example =
    review_nomination_once env 100 200 (some req) none 3 true false 1 2 [] (codes "spam") world
      waiting found_waiting refl refl
