-- ===== src/Audit.antt =====
-- audit/services.py: the write path of the audit log.
pub mod Laws
pub mod Search
use kw_awards_voting_platfom.Prelude.{
  ℕ, ◌+◌, Bool, true, false, ◌&&◌, ◌||◌, Option, none, some, List, [], ◌∷◌, String, Text, codes,
  text_eq, leb, map, take, any, is_some, str_eq, if◌then◌else◌,
}
use kw_awards_voting_platfom.Exceptions.{ok, err, value_error}
use kw_awards_voting_platfom.Exec.{⊤, Action}
use kw_awards_voting_platfom.Models.Voting.{Voter}
use kw_awards_voting_platfom.Models.Audit.{AuditAction, Json, Metadata, AuditLog}
use kw_awards_voting_platfom.Models.State.{
  Db, World, Env, Request, Principal, anonymous, staff, voter,
}
use kw_awards_voting_platfom.Phone.{mask_phone}
use kw_awards_voting_platfom.Ip.{get_client_ip}

-- `str.lower`, on the ASCII letters that the names of metadata keys are made of.
unfoldable pub lower_code : ℕ → ℕ
lower_code c = if leb 65 c && leb c 90 then c + 32 else c

-- `_FORBIDDEN_METADATA_KEYS`
abbrev forbidden_metadata_keys : List String
forbidden_metadata_keys =
    "code" ∷ "otp" ∷ "password" ∷ "phone" ∷ "phone_e164" ∷ "token" ∷ "secret" ∷ []

unfoldable pub is_forbidden : String → Bool
unfolding lower_code text_eq
is_forbidden key =
    any (λ bad. text_eq (map lower_code (codes key)) (codes bad)) forbidden_metadata_keys

-- The test of `_clean_metadata`, which raises `ValueError` when it holds.
unfoldable pub has_forbidden : Metadata → Bool
has_forbidden metadata = any (λ item. is_forbidden item.0) metadata

-- The arguments of `log` that its callers pass, beside the request.
pub record Entry : Type 0 where
  pub action : AuditAction
  pub actor_user : Option ℕ
  pub actor_voter : Option ℕ
  pub target : Option (String × ℕ)
  pub metadata : Metadata

-- The acting staff user or voter, taken from the request unless one is given.
actors : Option ℕ → Option ℕ → Principal → Option ℕ × Option ℕ
actors none none (staff u) = (some u, none)
actors none none (voter v) = (none, some v)
actors u v p = (u, v)

-- The row that `log` writes. A call without a request has no address and no user agent.
unfoldable pub entry_row : Env → ℕ → Option Request → Entry → AuditLog
unfolding actors
entry_row env now none e = record {
  actor_user = e.actor_user;
  actor_voter = e.actor_voter;
  action = e.action;
  target = e.target;
  metadata = e.metadata;
  ip_address = none;
  user_agent = [];
  created_at = now;
}
entry_row env now (some r) e = record {
  actor_user = (actors e.actor_user e.actor_voter r.user).0;
  actor_voter = (actors e.actor_user e.actor_voter r.user).1;
  action = e.action;
  target = e.target;
  metadata = e.metadata;
  ip_address = get_client_ip env r;
  user_agent = take 300 r.http_user_agent;
  created_at = now;
}

unfoldable pub add_entry : AuditLog → World → World
add_entry row w = record w { db = record w.db { audit_log = row ∷ w.db.audit_log } }

unfoldable pub log : Env → ℕ → Option Request → Entry → Action ⊤
log env now req e w =
    if has_forbidden e.metadata
    then (err value_error, w)
    else (ok tt, add_entry (entry_row env now req e) w)

unfoldable pub hash_phone : Env → Text → Text
hash_phone env phone_e164 = env.hmac_sha256 env.audit_phone_hash_key phone_e164

-- `metadata[key] = value`
unfoldable pub set_key : String → Json → Metadata → Metadata
set_key key value [] = (key, value) ∷ []
set_key key value ((k, v) ∷ rest) =
    if str_eq k key then (k, value) ∷ rest else (k, v) ∷ set_key key value rest

-- `metadata.get(key)`
unfoldable pub find_key : String → Metadata → Option Json
find_key key [] = none
find_key key ((k, v) ∷ rest) = if str_eq k key then some v else find_key key rest

-- `voter is not None and voter.verified_at is not None`
abbrev pub is_verified : Option Voter → Bool
is_verified none = false
is_verified (some v) = is_some v.verified_at

abbrev actor_of : Bool → Option Voter → Option ℕ
actor_of true (some v) = some v.id
actor_of _ _ = none

unfoldable pub voter_metadata : Env → Option Voter → Text → Metadata → Metadata
voter_metadata env v phone_e164 metadata =
    let masked = set_key "phone_masked" (Json.str (mask_phone phone_e164)) metadata in
    if is_verified v
    then masked
    else set_key "phone_hash" (Json.str (hash_phone env phone_e164)) masked

unfoldable pub voter_entry :
    Env → AuditAction → Option Voter → Text → Option (String × ℕ) → Metadata → Entry
voter_entry env action v phone_e164 target metadata = record {
  action = action;
  actor_user = none;
  actor_voter = actor_of (is_verified v) v;
  target = target;
  metadata = voter_metadata env v phone_e164 metadata;
}

unfoldable pub log_voter_event :
    Env
    → ℕ
    → Option Request
    → AuditAction
    → Option Voter
    → Text
    → Option (String × ℕ)
    → Metadata
    → Action ⊤
log_voter_event env now req action v phone_e164 target metadata =
    log env now req (voter_entry env action v phone_e164 target metadata)
