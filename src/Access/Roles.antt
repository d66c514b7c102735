-- ===== src/Access/Roles.antt =====
-- Roles: who passes, and what a refusal leaves in the audit log.
use kw_awards_voting_platfom.Prelude.{false, ◌&&◌, not, Text, ◌≡◌, refl, some, arith, if◌then◌else◌}
use kw_awards_voting_platfom.Exceptions.{ok}
use kw_awards_voting_platfom.Models.Accounts.{Role}
use kw_awards_voting_platfom.Models.State.{World, Env, Request}
use kw_awards_voting_platfom.Audit.{has_forbidden, is_forbidden, entry_row, add_entry}
use kw_awards_voting_platfom.Audit.Laws.{log_clean}
use kw_awards_voting_platfom.Access.{principal_has_role, has_permission, denied_entry, is_user}

denied_clean :
    (role : Role) (path method : Text)
    → has_forbidden (denied_entry role path method).metadata ≡ false
unfolding has_forbidden is_forbidden
denied_clean Role.moderator path method = refl
denied_clean Role.event_admin path method = refl

-- The answer is whether the principal has the role. A refusal of a user, not of an anonymous request or
-- of a voter, adds one entry to the audit log, and nothing else changes.
pub has_permission_lem :
    (env : Env) (r : Request) (role : Role) (path method : Text) (w : World)
    → has_permission env r role path method w ≡ (
      ok (principal_has_role w.db role r.user),
      (if not (principal_has_role w.db role r.user) && is_user r.user
          then add_entry (entry_row env r.now (some r) (denied_entry role path method)) w
          else w),
    )
unfolding has_permission
has_permission_lem env r role path method w =
    let logs =
      log_clean env r.now (some r) (denied_entry role path method) w
        (denied_clean role path method) in
    ground arith
