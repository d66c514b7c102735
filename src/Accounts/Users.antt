-- ===== src/Accounts/Users.antt =====
-- accounts/models.py (`UserManager`) and `MeSerializer`: how staff users are created and shown.
-- Passwords are not modelled.
use kw_awards_voting_platfom.Prelude.{
  ℕ, Bool, true, false, ◌&&◌, ◌||◌, not, Option, none, some, List, [], ◌∷◌, map, Text, codes,
  text_eq, is_empty, find?, any, ◌==◌, ◌≡◌, sym, ap, inl, inr, Bool-cases, arith, if◌then◌else◌,
}
use kw_awards_voting_platfom.Prelude.Sorting.{sort_by}
use kw_awards_voting_platfom.Exceptions.{ok, err, value_error, integrity, unique}
use kw_awards_voting_platfom.Exec.{Action}
use kw_awards_voting_platfom.Models.Accounts.{User, Role}
use kw_awards_voting_platfom.Models.State.{Db, World, Env}
use kw_awards_voting_platfom.Access.{user_has_role}

-- `get_by_natural_key`; `iexact` compares in upper case.
unfoldable pub get_by_natural_key : Env → Db → Text → Option User
get_by_natural_key env db username =
    find? (λ (u : User). text_eq (env.upper u.email) (env.upper username)) db.users

-- `user.save()` on a new row: the primary key, and the address in lower case is unique.
insert_user : Env → User → Action User
insert_user env u w =
    if any (λ (x : User). x.id == u.id || text_eq (env.lower x.email) (env.lower u.email))
      w.db.users
    then (err (integrity unique), w)
    else (ok u, record w { db = record w.db { users = u ∷ w.db.users } })

-- `_create_user`; `normalize_email` is Django's, and the row has the identifier `id` and no groups.
create_row : Env → (Text → Text) → ℕ → Text → Bool → Bool → Action User
unfolding insert_user
create_row env normalize_email id email is_staff is_superuser w =
    if is_empty email
    then (err value_error, w)
    else insert_user env
        (record {
          id = id;
          email = env.lower (normalize_email email);
          is_active = true;
          is_staff = is_staff;
          is_superuser = is_superuser;
          groups = [];
        })
        w

abbrev or_default : Option Bool → Bool → Bool
or_default none default = default
or_default (some given) default = given

-- `create_user` and `create_superuser`, with the two flags where they are given.
unfoldable pub create_user :
    Env → (Text → Text) → ℕ → Text → Option Bool → Option Bool → Action User
unfolding create_row
create_user env normalize_email id email is_staff is_superuser w =
    create_row env normalize_email id email (or_default is_staff true)
      (or_default is_superuser false) w

unfoldable pub create_superuser :
    Env → (Text → Text) → ℕ → Text → Option Bool → Option Bool → Action User
unfolding create_row
create_superuser env normalize_email id email is_staff is_superuser w =
    let staff_flag = or_default is_staff true in
    let superuser_flag = or_default is_superuser true in
    if not staff_flag || not superuser_flag
    then (err value_error, w)
    else create_row env normalize_email id email staff_flag superuser_flag w

-- The names of the groups, in their order.
abbrev group_name : Role → Text
group_name Role.moderator = codes "Moderator"
group_name Role.event_admin = codes "EventAdmin"

-- `MeSerializer.get_roles`
unfoldable pub get_roles : Env → User → List Text
get_roles env u =
    let roles = sort_by env.collate (map group_name u.groups) in
    if u.is_superuser then codes "superuser" ∷ roles else roles

inserted :
    (env : Env) (new u : User) (w w' : World)
    → insert_user env new w ≡ (ok u, w')
    → (new ≡ u) × (w'.db.users ≡ u ∷ w.db.users)
unfolding insert_user
inserted env new u w w' h = ground arith

created :
    (env : Env) (normalize_email : Text → Text) (id : ℕ) (email : Text)
    (is_staff is_superuser : Bool) (w w' : World) (u : User)
    → create_row env normalize_email id email is_staff is_superuser w ≡ (ok u, w')
    → (u.is_active ≡ true)
      × (u.is_staff ≡ is_staff)
      × (u.is_superuser ≡ is_superuser)
      × (u.groups ≡ [])
      × (w'.db.users ≡ u ∷ w.db.users)
unfolding create_row
created env normalize_email id email is_staff is_superuser w w' u h =
    elim (Bool-cases (is_empty email)) [
      | inl e ↦ absurd (ground arith)
      | inr e ↦
          let (same, rows) = inserted env _ u w w' (rw e at h) in
          (
            sym (ap (λ (x : User). x.is_active) same),
            sym (ap (λ (x : User). x.is_staff) same),
            sym (ap (λ (x : User). x.is_superuser) same),
            sym (ap (λ (x : User). x.groups) same),
            rows,
          )
    ]

-- A superuser that is created has every role and is the first row of the table; no other row changes.
-- One that is asked for without one of the two flags is refused. A plain user that is created has no
-- role, unless the flag for superusers is given.
pub create_superuser_lem :
    (env : Env) (normalize_email : Text → Text) (id : ℕ) (email : Text) (a b : Option Bool)
    (w w' : World) (u : User) (role : Role)
    → (create_superuser env normalize_email id email a b w ≡ (ok u, w')
        → (user_has_role role u ≡ true) × (w'.db.users ≡ u ∷ w.db.users))
      × (create_user env normalize_email id email a none w ≡ (ok u, w')
          → (user_has_role role u ≡ false) × (w'.db.users ≡ u ∷ w.db.users))
unfolding create_superuser create_user user_has_role
create_superuser_lem env normalize_email id email a b w w' u role = (
  (λ h. elim (Bool-cases (or_default a true && or_default b true)) [
    | inr refused ↦ absurd (ground arith)
    | inl both ↦
        let (active, is_staff, is_superuser, groups, rows) =
          created env normalize_email id email (or_default a true) (or_default b true) w w' u
            (ground arith) in
        (ground arith, rows)
  ]),
  (λ h.
      let (active, is_staff, is_superuser, groups, rows) =
        created env normalize_email id email (or_default a true) false w w' u h in
      (rw (active, is_staff, is_superuser, groups) (ground arith), rows)),
)
