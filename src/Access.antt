-- ===== src/Access.antt =====
-- Who may do what: accounts/roles.py, accounts/permissions.py, accounts/authentication.py and
-- voting/authentication.py.
pub mod Tokens
pub mod Roles
use kw_awards_voting_platfom.Prelude.{
  ℕ, Bool, true, false, ◌&&◌, ◌||◌, not, Option, none, some, List, [], ◌∷◌, String, Text, codes,
  text_eq, str_eq, map, ◌==◌, any, find?, is_some, is_none, if◌then◌else◌,
}
use kw_awards_voting_platfom.Exceptions.{Result, ok, err, authentication_failed}
use kw_awards_voting_platfom.Exec.{⊤, Action, pure, ◌>>◌, ◌>>=◌}
use kw_awards_voting_platfom.Models.Accounts.{User, Role, role_eq}
use kw_awards_voting_platfom.Models.Voting.{Voter}
use kw_awards_voting_platfom.Models.Audit.{AuditAction, Json, Metadata}
use kw_awards_voting_platfom.Models.State.{
  Db, World, Env, Request, Principal, anonymous, staff, voter,
}
use kw_awards_voting_platfom.Audit.{Entry, log, lower_code}

-- The claims of a token that the program reads.
pub record Claims : Type 0 where
  pub scope : Option String
  pub voter_id : Option ℕ

-- The package djangorestframework-simplejwt. `voter_token` and `access_token` check signature, expiry
-- and token type, as `VoterToken(raw)` and the access token class do; `raw_token` finds the token in the
-- words of the header; `get_user` is the active user of an access token.
pub record Jwt : Type 0 where
  pub voter_token : Text → Option Claims
  pub access_token : Text → Option Claims
  pub raw_token : List Text → Result (Option Text)
  pub get_user : List User → Claims → Option User

-- `user_has_role`
unfoldable pub user_has_role : Role → User → Bool
user_has_role role u =
    (u.is_active && u.is_staff) && (u.is_superuser || any (role_eq role) u.groups)

find_user : ℕ → Db → Option User
find_user id db = find? (λ (u : User). u.id == id) db.users

role_of_found : Role → Option User → Bool
role_of_found role none = false
role_of_found role (some u) = user_has_role role u

-- `user_has_role` on `request.user`; an anonymous user and a voter are not staff.
unfoldable pub principal_has_role : Db → Role → Principal → Bool
unfolding role_of_found find_user
principal_has_role db role anonymous = false
principal_has_role db role (voter v) = false
principal_has_role db role (staff u) = role_of_found role (find_user u db)

abbrev role_name : Role → Text
role_name Role.moderator = codes "Moderator"
role_name Role.event_admin = codes "EventAdmin"

abbrev pub denied_entry : Role → Text → Text → Entry
denied_entry role path method = record {
  action = AuditAction.permission_denied;
  actor_user = none;
  actor_voter = none;
  target = none;
  metadata =
      ("path", Json.str path)
      ∷ ("method", Json.str method)
      ∷ ("required_role", Json.str (role_name role))
      ∷ [];
}

abbrev pub is_user : Principal → Bool
is_user (staff u) = true
is_user _ = false

-- `RolePermission.has_permission`
unfoldable pub has_permission : Env → Request → Role → Text → Text → Action Bool
has_permission env r role path method w =
    let allowed = principal_has_role w.db role r.user in
    if not allowed && is_user r.user
    then (log env r.now (some r) (denied_entry role path method) >> pure allowed) w
    else (ok allowed, w)

-- `IsEventAdminOrReadOnly.has_permission`; `safe` is `request.method in SAFE_METHODS`.
unfoldable pub admin_or_read_only : Env → Request → Bool → Text → Text → Action Bool
admin_or_read_only env r safe path method w =
    if safe then (ok true, w) else has_permission env r Role.event_admin path method w

-- `IsVoter.has_permission`
abbrev pub is_voter : Principal → Bool
is_voter (voter v) = true
is_voter _ = false

may_vote : Option Voter → Result (Option Principal)
may_vote none = err authentication_failed
may_vote (some v) =
    if v.is_blocked || is_none v.verified_at
    then err authentication_failed
    else ok (some (voter v.id))

unfoldable pub is_scope : Option String → Bool
is_scope none = false
is_scope (some s) = str_eq s "vote"

unfoldable pub voter_of : Db → Option ℕ → Option Voter
voter_of db none = none
voter_of db (some id) = find? (λ (v : Voter). v.id == id) db.voters

voter_of_claims : Db → Option Claims → Result (Option Principal)
unfolding may_vote is_scope voter_of
voter_of_claims db none = err authentication_failed
voter_of_claims db (some c) =
    if is_scope c.scope then may_vote (voter_of db c.voter_id) else err authentication_failed

bearer_token : Jwt → Db → List Text → Result (Option Principal)
unfolding voter_of_claims
bearer_token jwt db [] = err authentication_failed
bearer_token jwt db (raw ∷ []) = voter_of_claims db (jwt.voter_token raw)
bearer_token jwt db (raw ∷ more ∷ rest) = err authentication_failed

-- `VoterTokenAuthentication.authenticate`, on the words of the Authorization header. `ok none` leaves
-- the request anonymous.
unfoldable pub authenticate_voter : Jwt → Db → List Text → Result (Option Principal)
unfolding bearer_token
authenticate_voter jwt db [] = ok none
authenticate_voter jwt db (word ∷ rest) =
    if text_eq (map lower_code word) (codes "bearer") then bearer_token jwt db rest else ok none

staff_only : Option User → Result (Option Principal)
staff_only none = err authentication_failed
staff_only (some u) = if u.is_staff then ok (some (staff u.id)) else err authentication_failed

user_of_claims : Jwt → Db → Option Claims → Result (Option Principal)
unfolding staff_only
user_of_claims jwt db none = err authentication_failed
user_of_claims jwt db (some c) = staff_only (jwt.get_user db.users c)

authenticate_raw : Jwt → Db → Result (Option Text) → Result (Option Principal)
unfolding user_of_claims
authenticate_raw jwt db (err e) = err e
authenticate_raw jwt db (ok none) = ok none
authenticate_raw jwt db (ok (some raw)) = user_of_claims jwt db (jwt.access_token raw)

-- `StaffJWTAuthentication.authenticate`
unfoldable pub authenticate_staff : Jwt → Db → List Text → Result (Option Principal)
unfolding authenticate_raw
authenticate_staff jwt db words = authenticate_raw jwt db (jwt.raw_token words)

carries_voter_token : Jwt → Result (Option Text) → Bool
carries_voter_token jwt (ok (some raw)) = is_some (jwt.voter_token raw)
carries_voter_token jwt _ = false

-- `PublicOrStaffAuthentication.authenticate`
unfoldable pub authenticate_public : Jwt → Db → List Text → Result (Option Principal)
unfolding carries_voter_token
authenticate_public jwt db words =
    if carries_voter_token jwt (jwt.raw_token words)
    then ok none
    else authenticate_staff jwt db words

or_staff : Jwt → Db → List Text → Result (Option Principal) → Result (Option Principal)
or_staff jwt db words (ok p) = ok p
or_staff jwt db words (err authentication_failed) = authenticate_staff jwt db words
or_staff jwt db words (err e) = err e

-- `VoterOrStaffAuthentication.authenticate`
unfoldable pub authenticate_either : Jwt → Db → List Text → Result (Option Principal)
unfolding or_staff
authenticate_either jwt db [] = ok none
authenticate_either jwt db (word ∷ rest) =
    or_staff jwt db (word ∷ rest) (authenticate_voter jwt db (word ∷ rest))
