-- ===== src/Audit/Laws.antt =====
-- What the audit log holds: no sensitive key, and no reference to an unverified voter.
use kw_awards_voting_platfom.Prelude.{
  ◌≡◌, refl, ◌∙◌, str_eq, if◌then◌else◌, false, none, some, [], ◌∷◌, String, Text, ℕ, arith,
  Bool-cases, inl, inr, Option,
}
use mathlib.Core.Option
use text.Mathlib.TextEquality.{eq_iff}
use kw_awards_voting_platfom.Phone.{mask_phone}
use kw_awards_voting_platfom.Exceptions.{ok}
use kw_awards_voting_platfom.Models.Voting.{Voter}
use kw_awards_voting_platfom.Models.Audit.{AuditAction, Metadata, Json}
use kw_awards_voting_platfom.Models.State.{World, Env, Request, anonymous}
use kw_awards_voting_platfom.Audit.{
  has_forbidden, is_forbidden, find_key, hash_phone, log, Entry, entry_row, add_entry, set_key,
  voter_metadata, voter_entry, is_verified, log_voter_event,
}

-- Without a forbidden key the entry is written.
pub log_clean :
    (env : Env) (now : ℕ) (req : Option Request) (e : Entry) (w : World)
    → has_forbidden e.metadata ≡ false
    → log env now req e w ≡ (ok tt, add_entry (entry_row env now req e) w)
unfolding log
log_clean env now req e w h = ground arith

has_forbidden-set_key :
    (k : String) (v : Json) (m : Metadata)
    → is_forbidden k ≡ false
    → has_forbidden (set_key k v m) ≡ has_forbidden m
unfolding has_forbidden set_key
has_forbidden-set_key k v [] h = ground arith
has_forbidden-set_key k v ((j, x) ∷ m) h = ground (arith, has_forbidden-set_key k v m h)

masked_allowed : is_forbidden "phone_masked" ≡ false
unfolding is_forbidden
masked_allowed = refl

hash_allowed : is_forbidden "phone_hash" ≡ false
unfolding is_forbidden
hash_allowed = refl

pub has_forbidden-voter_metadata :
    (env : Env) (v : Option Voter) (phone : Text) (m : Metadata)
    → has_forbidden (voter_metadata env v phone m) ≡ has_forbidden m
unfolding voter_metadata
has_forbidden-voter_metadata env v phone m = elim (Bool-cases (is_verified v)) [
  | inl known ↦ rw known (has_forbidden-set_key "phone_masked" _ m masked_allowed)
  | inr unknown ↦ rw unknown (
      has_forbidden-set_key "phone_hash" _ _ hash_allowed
      ∙ has_forbidden-set_key "phone_masked" _ m masked_allowed)
]

-- So does `log_voter_event`.
pub log_voter_event_clean :
    (env : Env) (now : ℕ) (req : Option Request) (action : AuditAction) (v : Option Voter)
    (phone : Text) (target : Option (String × ℕ)) (m : Metadata) (w : World)
    → has_forbidden m ≡ false
    → log_voter_event env now req action v phone target m w
      ≡ (ok tt, add_entry (entry_row env now req (voter_entry env action v phone target m)) w)
unfolding log_voter_event voter_entry
log_voter_event_clean env now req action v phone target m w h =
    log_clean env now req _ w (has_forbidden-voter_metadata env v phone m ∙ h)

find_key-set_key :
    (k j : String) (v : Json) (m : Metadata)
    → find_key j (set_key k v m) ≡ (if str_eq k j then some v else find_key j m)
unfolding find_key set_key
find_key-set_key k j v [] = refl
find_key-set_key k j v ((i, x) ∷ m) =
    ground (arith, eq_iff k j, eq_iff i k, eq_iff i j, find_key-set_key k j v m)

-- The row of the entry that `log_voter_event` writes when the request has no principal of its own,
-- as at the two OTP endpoints. The entry names the voter exactly when the voter is verified; the
-- metadata always shows the masked phone, and carries the keyed hash of the phone when the voter is
-- unknown or unverified.
pub log_voter_event_private :
    (env : Env) (now : ℕ) (r : Request) (action : AuditAction) (v : Option Voter) (phone : Text)
    (target : Option (String × ℕ)) (m : Metadata)
    → r.user ≡ anonymous
    → let row = entry_row env now (some r) (voter_entry env action v phone target m) in
      (row.actor_user ≡ none)
      × (row.actor_voter ≡ (if is_verified v then Option.map (λ (x : Voter). x.id) v else none))
      × (find_key "phone_masked" row.metadata ≡ some (Json.str (mask_phone phone)))
      × (find_key "phone_hash" row.metadata ≡ (
          if is_verified v
          then find_key "phone_hash" m
          else some (Json.str (hash_phone env phone))))
unfolding entry_row voter_entry voter_metadata
log_voter_event_private env now r action none phone target m h =
    (ground arith, ground arith, simp find_key-set_key, simp find_key-set_key)
log_voter_event_private env now r action (some x) phone target m h =
    elim (Bool-cases (is_verified (some x))) [
      | inl known ↦
          rw known (ground arith, ground arith, simp find_key-set_key, simp find_key-set_key)
      | inr unknown ↦
          rw unknown (ground arith, ground arith, simp find_key-set_key, simp find_key-set_key)
    ]
