-- ===== src/Models/Audit.antt =====
-- audit/models.py: the actions and the entries of the append-only audit log.
use kw_awards_voting_platfom.Prelude.{ℕ, Bool, Option, List, String, Text}

pub data AuditAction : Type 0 where
  nomination_submitted nomination_approved nomination_rejected : AuditAction
  vote_cast vote_duplicate vote_voided : AuditAction
  otp_requested otp_verified otp_failed : AuditAction
  event_status_changed : AuditAction
  staff_login staff_login_failed : AuditAction
  permission_denied : AuditAction
  sms_budget_exhausted : AuditAction

-- A value of the JSON metadata.
pub data Json : Type 0 where
  str : Text → Json
  num : ℕ → Json
  flag : Bool → Json

abbrev pub Metadata : Type 0
Metadata = List (String × Json)

-- `target` is `target_type` and `target_id`.
pub record AuditLog : Type 0 where
  pub actor_user : Option ℕ
  pub actor_voter : Option ℕ
  pub action : AuditAction
  pub target : Option (String × ℕ)
  pub metadata : Metadata
  pub ip_address : Option Text
  pub user_agent : Text
  pub created_at : ℕ
