-- ===== src/Models/Accounts.antt =====
-- accounts/models.py and the names of accounts/roles.py: staff users and their groups.
use Prim.Native.Nat.{ℕ}
use mathlib.Core.Bool.{Bool, true, false}
use mathlib.Core.List.{List}
use kw_awards_voting_platfom.Prelude.Texts.{Text}

-- The two groups that `ensure_roles` creates, `MODERATOR` and `EVENT_ADMIN`.
pub data Role : Type 0 where
  moderator event_admin : Role

abbrev pub role_eq : Role → Role → Bool
role_eq Role.moderator Role.moderator = true
role_eq Role.event_admin Role.event_admin = true
role_eq _ _ = false

pub record User : Type 0 where
  pub id : ℕ
  pub email : Text
  pub is_active : Bool
  pub is_staff : Bool
  pub is_superuser : Bool
  pub groups : List Role
