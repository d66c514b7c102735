-- ===== src/Audit/Search.antt =====
-- audit/views.py: how staff search the audit log by phone number, and what they see of an entry.
use kw_awards_voting_platfom.Prelude.{
  ℕ, Bool, true, false, ◌&&◌, ◌||◌, Option, none, some, List, [], ◌∷◌, String, Text, text_eq,
  str_eq, any, filter, ◌==◌, ◌≡◌, if◌then◌else◌,
}
use mathlib.Core.Option
use kw_awards_voting_platfom.Exceptions.{Result, ok, err, validation_error}
use kw_awards_voting_platfom.Models.Voting.{Voter}
use kw_awards_voting_platfom.Models.Audit.{Json, Metadata, AuditLog}
use kw_awards_voting_platfom.Models.State.{Db, Env}
use kw_awards_voting_platfom.Phone.{PhoneNumbers, normalize_phone, default_region}
use kw_awards_voting_platfom.Audit.{find_key, hash_phone}

-- `metadata__phone_hash=...`
abbrev hash_is : Text → Option Json → Bool
hash_is h (some (Json.str t)) = text_eq t h
hash_is h _ = false

-- `actor_voter__phone_e164=...`
abbrev actor_has_phone : Db → Text → Option ℕ → Bool
actor_has_phone db phone none = false
actor_has_phone db phone (some id) =
    any (λ (v : Voter). v.id == id && text_eq v.phone_e164 phone) db.voters

unfoldable pub matches_phone : Env → Db → Text → AuditLog → Bool
matches_phone env db phone row =
    hash_is (hash_phone env phone) (find_key "phone_hash" row.metadata)
    || actor_has_phone db phone row.actor_voter

searched : Env → Db → List AuditLog → Option Text → Result (List AuditLog)
searched env db rows none = err validation_error
searched env db rows (some phone) = ok (filter (matches_phone env db phone) rows)

-- `AuditLogFilter.filter_phone`
unfoldable pub filter_phone :
    PhoneNumbers → Env → Db → Text → List AuditLog → Result (List AuditLog)
unfolding searched
filter_phone lib env db value rows = searched env db rows (normalize_phone lib value default_region)

-- `metadata.pop(key, None)` on a copy.
unfoldable pub pop_key : String → Metadata → Metadata
pop_key key [] = []
pop_key key ((k, v) ∷ rest) =
    let popped = pop_key key rest in if str_eq k key then popped else (k, v) ∷ popped

-- `AuditLogSerializer.get_metadata`
unfoldable pub get_metadata : AuditLog → Metadata
unfolding pop_key
get_metadata row = pop_key "phone_hash" row.metadata

-- The voter that an event is about, if there is one, stands in the table with the number.
abbrev pub HasNumber : Db → Text → Option Voter → Type 0
HasNumber db phone none = Unit
HasNumber db phone (some v) =
    any (λ (x : Voter). x.id == v.id && text_eq x.phone_e164 phone) db.voters ≡ true
