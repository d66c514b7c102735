-- ===== src/Accounts/Login.antt =====
-- accounts/serializers.py: the staff login and its entries in the audit log.
use kw_awards_voting_platfom.Prelude.{
  true, false, not, none, some, [], ◌∷◌, ◌≡◌, refl, Text, codes, take, inl, inr, Bool-cases, ap,
  if◌then◌else◌,
}
use kw_awards_voting_platfom.Exceptions.{Exc, Result, ok, err, authentication_failed}
use kw_awards_voting_platfom.Exec.{Action, pure, raise, catch, handled, continue, ◌>>=◌, ◌>>◌}
use kw_awards_voting_platfom.Models.Accounts.{User}
use kw_awards_voting_platfom.Models.Audit.{AuditAction, AuditLog, Json}
use kw_awards_voting_platfom.Models.State.{World, Env, Request}
use kw_awards_voting_platfom.Audit.{Entry, log, entry_row, add_entry, has_forbidden, is_forbidden}
use kw_awards_voting_platfom.Audit.Laws.{log_clean}

-- `TokenObtainPairSerializer.validate` of djangorestframework-simplejwt, on an e-mail address and a
-- password: the user, with the refresh and the access token; or it raises. It writes what it writes, the
-- time of the last login and the row of the outstanding token.
pub record Obtain : Type 0 where
  pub validate : Text → Text → Action (User × (Text × Text))

pub failed_entry : Text → Entry
failed_entry email = record {
  action = AuditAction.staff_login_failed;
  actor_user = none;
  actor_voter = none;
  target = none;
  metadata = ("email", Json.str (take 254 email)) ∷ [];
}

pub not_staff_entry : User → Entry
not_staff_entry u = record {
  action = AuditAction.staff_login_failed;
  actor_user = some u.id;
  actor_voter = none;
  target = none;
  metadata = ("reason", Json.str (codes "not_staff")) ∷ [];
}

pub login_entry : User → Entry
login_entry u = record {
  action = AuditAction.staff_login;
  actor_user = some u.id;
  actor_voter = none;
  target = none;
  metadata = [];
}

-- `except AuthenticationFailed`
on_refusal : Env → Request → Text → Exc → Action (User × (Text × Text))
unfolding failed_entry
on_refusal env r email authentication_failed =
    log env r.now (some r) (failed_entry email) >> raise authentication_failed
on_refusal env r email e = raise e

require_staff : Env → Request → User × (Text × Text) → Action (Text × Text)
unfolding not_staff_entry login_entry
require_staff env r (u, tokens) w =
    if not u.is_staff
    then (log env r.now (some r) (not_staff_entry u) >> raise authentication_failed) w
    else (log env r.now (some r) (login_entry u) >> pure tokens) w

-- `StaffTokenObtainPairSerializer.validate`
unfoldable pub validate_login : Env → Obtain → Request → Text → Text → Action (Text × Text)
unfolding on_refusal require_staff
validate_login env lib r email password = do
  found ← catch (lib.validate email password) (on_refusal env r email)
  require_staff env r found

failed_clean : (email : Text) → has_forbidden (failed_entry email).metadata ≡ false
unfolding has_forbidden is_forbidden failed_entry
failed_clean email = refl

not_staff_clean : (u : User) → has_forbidden (not_staff_entry u).metadata ≡ false
unfolding has_forbidden is_forbidden not_staff_entry
not_staff_clean u = refl

login_clean : (u : User) → has_forbidden (login_entry u).metadata ≡ false
unfolding has_forbidden login_entry
login_clean u = refl

module _ (env : Env) (lib : Obtain) (r : Request) (email password : Text) where
  -- The audit log has one entry more, with the action.
  abbrev pub HasNewEntry : AuditAction → World → World → Type 0
  HasNewEntry action w w' =
      (row : AuditLog) × (row.action ≡ action) × (w'.db.audit_log ≡ row ∷ w.db.audit_log)

  new_entry :
      (e : Entry) (action : AuditAction) (w w1 : World)
      → e.action ≡ action
      → w1.db.audit_log ≡ w.db.audit_log
      → HasNewEntry action w (add_entry (entry_row env r.now (some r) e) w1)
  unfolding add_entry entry_row
  new_entry e action w w1 named kept = (
    entry_row env r.now (some r) e,
    named,
    ap (λ rows. entry_row env r.now (some r) e ∷ rows) kept,
  )

  -- How an attempt that starts in `w` may end.
  abbrev pub IsAudited : World → Result (Text × Text) × World → Type 0
  IsAudited w (ok tokens, w') =
      ((u : User) × ((lib.validate email password w).0 ≡ ok (u, tokens)) × (u.is_staff ≡ true))
      × HasNewEntry AuditAction.staff_login w w'
  IsAudited w (err authentication_failed, w') = HasNewEntry AuditAction.staff_login_failed w w'
  IsAudited w (err e, w') = w'.db.audit_log ≡ w.db.audit_log

  outcome-IsAudited :
      (w : World) (x : Result (User × (Text × Text)) × World)
      → lib.validate email password w ≡ x
      → x.1.db.audit_log ≡ w.db.audit_log
      → IsAudited w (continue (require_staff env r) (handled (on_refusal env r email) x))
  unfolding on_refusal require_staff login_entry not_staff_entry failed_entry
  outcome-IsAudited w (ok (u, tokens), w1) answer kept = elim (Bool-cases u.is_staff) [
    | inl is_staff ↦
        let logs = log_clean env r.now (some r) (login_entry u) w1 (login_clean u) in
        rw (is_staff, logs)
          (
            (u, ap (λ y. y.0) answer, is_staff),
            new_entry (login_entry u) AuditAction.staff_login w w1 refl kept,
          )
    | inr outsider ↦
        let logs = log_clean env r.now (some r) (not_staff_entry u) w1 (not_staff_clean u) in
        rw (outsider, logs)
          (new_entry (not_staff_entry u) AuditAction.staff_login_failed w w1 refl kept)
  ]
  outcome-IsAudited w (err authentication_failed, w1) answer kept =
      let logs = log_clean env r.now (some r) (failed_entry email) w1 (failed_clean email) in
      rw logs (new_entry (failed_entry email) AuditAction.staff_login_failed w w1 refl kept)
  outcome-IsAudited w (err e, w1) answer kept = kept

  -- Where the library's login does not touch the audit log, every attempt that is answered adds exactly one
  -- entry to it, for a login or for a failed one, and an attempt that ends with another exception adds
  -- none. Tokens are given only to a user whom the library lets in and who is staff.
  pub validate_login-IsAudited :
      (w : World)
      → (lib.validate email password w).1.db.audit_log ≡ w.db.audit_log
      → IsAudited w (validate_login env lib r email password w)
  unfolding validate_login
  validate_login-IsAudited w kept = outcome-IsAudited w (lib.validate email password w) refl kept
