-- ===== src/Auth/Manage.antt =====
-- `register`, `updateAdmin`, `assertNotLastOwner`, `deleteAdmin` and `adminHasActivity` of
-- apps/api/src/modules/auth/auth.service.ts. An operation that throws leaves the tables as they are.
use certiva.Prelude.{
  ℕ, ◌+◌, Bool, true, false, not, ◌&&◌, ◌||◌, String, Option, none, some, List, [], ◌∷◌, ◌++◌,
  ◌===◌, ◌==◌, Result, ok, err, ◌>>=◌, ◌>>◌, guard, if◌then◌else◌, find_first, filter_by, length,
  eq_some, or_else, ltb, truthy, any_of,
}
use certiva.Assets.{◌<>◌}
use certiva.Registry.{Issuer}
use certiva.Auth.{
  AdminRole, owner, admin, is_owner, is_super_admin, same_role, Admin, JwtPayload, Accounts,
  Services, AuthResponse, log, has_id, build_auth_response, normalize, get_institution,
}

pub record RegisterDto : Type 0 where
  pub username : String
  pub password : String
  pub role : Option AdminRole

pub record UpdateAdminDto : Type 0 where
  pub role : Option AdminRole
  pub active : Option Bool

-- What an update or a listing shows of an account.
pub record AdminView : Type 0 where
  pub id : String
  pub username : Option String
  pub email : String
  pub role : AdminRole
  pub active : Bool

unfoldable pub view : Admin → AdminView
view a = record {
  id = a.id;
  username = a.username;
  email = a.email;
  role = a.role;
  active = a.active;
}

-- The roles that only an OWNER gives.
abbrev pub is_privileged : AdminRole → Bool
is_privileged r = is_owner r || is_super_admin r

abbrev pub may_assign : JwtPayload → Option AdminRole → Bool
may_assign actor none = true
may_assign actor (some r) = not (is_privileged r && not (is_owner actor.role))

-- `register` without an actor is the bootstrap of the first account.
abbrev pub may_register : Option JwtPayload → AdminRole → Bool
may_register none r = true
may_register (some actor) r = may_assign actor (some r)

abbrev pub sub_of : Option JwtPayload → Option String
sub_of none = none
sub_of (some actor) = some actor.sub

abbrev pub new_admin : Services → String → String → RegisterDto → Issuer → Admin
new_admin v id username dto institution = record {
  id = id;
  username = some username;
  email = username <> "@certiva.local";
  password = v.hash dto.password;
  role = or_else dto.role admin;
  active = true;
  token_version = 0;
  issuer_id = some institution.id;
}

unfoldable pub create : Admin → Option JwtPayload → Accounts → Accounts
unfolding log
create a actor s =
    log (record { action = "ADMIN_CREATED"; actor_admin_id = sub_of actor; target_id = some a.id })
      (record s { admins = s.admins ++ a ∷ [] })

unfoldable pub register :
    Services
    → String
    → Option JwtPayload
    → RegisterDto
    → Accounts
    → Result (AuthResponse × Accounts)
unfolding create
register v new_id actor dto s = do
  guard (may_register actor (or_else dto.role admin))
      "Only an OWNER can create OWNER or SUPER_ADMIN accounts"
  guard (not (any_of (λ a. eq_some a.username (normalize dto.username)) s.admins))
      "Admin with this username already exists"
  institution ← get_institution s.issuers
  ok (
    build_auth_response v.sign (new_admin v new_id (normalize dto.username) dto institution),
    create (new_admin v new_id (normalize dto.username) dto institution) actor s,
  )

abbrev pub required_admin : Option Admin → Result Admin
required_admin none = err "Admin not found"
required_admin (some a) = ok a

-- `typeof dto.active === 'boolean' && !dto.active`
abbrev pub is_disabling : UpdateAdminDto → Bool
is_disabling dto = elim dto.active [ none ↦ false | some b ↦ not b ]

-- `dto.role && dto.role !== role`
abbrev pub is_role_change : AdminRole → UpdateAdminDto → Bool
is_role_change role dto = elim dto.role [ none ↦ false | some r ↦ not (same_role r role) ]

-- The active OWNER accounts other than this one, as `assertNotLastOwner` counts them.
abbrev pub is_other_owner : String → Admin → Bool
is_other_owner id a = (is_owner a.role && a.active) && not (has_id id a)

unfoldable pub not_last_owner : String → List Admin → Bool
not_last_owner id admins = not (length (filter_by (is_other_owner id) admins) == 0)

-- `isDisabling || isRoleChange`: the sessions of the account end.
abbrev pub ends_sessions : Admin → UpdateAdminDto → Bool
ends_sessions a dto = (is_disabling dto && a.active) || is_role_change a.role dto

unfoldable pub updated : UpdateAdminDto → Admin → Admin
updated dto a = record a {
  role = or_else dto.role a.role;
  active = or_else dto.active a.active;
  token_version = if ends_sessions a dto then a.token_version + 1 else a.token_version;
}

-- `update` and `delete` by the primary key: at most one row has it.
abbrev pub update_row : (Admin → Bool) → (Admin → Admin) → List Admin → List Admin
update_row p f [] = []
update_row p f (a ∷ rest) = if p a then f a ∷ rest else a ∷ update_row p f rest

abbrev pub delete_row : (Admin → Bool) → List Admin → List Admin
delete_row p [] = []
delete_row p (a ∷ rest) = if p a then rest else a ∷ delete_row p rest

-- The guards of `updateAdmin` after the account has been found.
unfoldable pub may_update :
    JwtPayload → Admin → String → UpdateAdminDto → List Admin → Result (Unit {0})
unfolding not_last_owner
may_update actor existing id dto admins = do
  guard (not (is_owner existing.role && not (is_owner actor.role))) "Cannot modify an OWNER account"
  guard (not (is_owner existing.role && is_role_change owner dto) || not_last_owner id admins)
      "Cannot remove or demote the last active OWNER account"
  guard (not (is_owner existing.role && is_disabling dto) || not_last_owner id admins)
      "Cannot remove or demote the last active OWNER account"
  guard (may_assign actor dto.role) "Only an OWNER can assign the OWNER or SUPER_ADMIN role"

abbrev pub audit_action : Admin → UpdateAdminDto → String
audit_action a dto =
    if is_disabling dto && a.active
    then "ADMIN_DISABLED"
    else if is_role_change a.role dto
    then "ADMIN_ROLE_CHANGED"
    else "ADMIN_UPDATED"

unfoldable pub commit_update : JwtPayload → Admin → String → UpdateAdminDto → Accounts → Accounts
unfolding log updated
commit_update actor existing id dto s =
    log
      (record {
        action = audit_action existing dto;
        actor_admin_id = some actor.sub;
        target_id = some id;
      })
      (record s { admins = update_row (has_id id) (updated dto) s.admins })

unfoldable pub update_admin :
    JwtPayload → String → UpdateAdminDto → Accounts → Result (AdminView × Accounts)
unfolding may_update commit_update view
update_admin actor id dto s = do
  guard (not (actor.sub === id && is_disabling dto)) "Cannot disable your own admin account"
  existing ← required_admin (find_first (has_id id) s.admins)
  may_update actor existing id dto s.admins
  ok (view (updated dto existing), commit_update actor existing id dto s)

-- The identifiers of admins in the tables that `adminHasActivity` counts.
pub record Activity : Type 0 where
  pub uploaded_batches : List (Option String)
  pub revoked_credentials : List (Option String)
  pub registered_proofs : List (Option String)
  pub created_proofs : List (Option String)
  pub revoked_proofs : List (Option String)

-- `count({ where: { column: { in: values } } })`; an empty identifier is not a value.
count_in : Option String → Option String → List (Option String) → ℕ
count_in email username column = length (
    filter_by
      (λ cell.
        (truthy email && elim email [ none ↦ false | some e ↦ eq_some cell e ])
        || (truthy username && elim username [ none ↦ false | some u ↦ eq_some cell u ]))
      column)

unfoldable pub admin_has_activity : Activity → Admin → Bool
unfolding count_in
admin_has_activity t a = ltb 0 (
    count_in (some a.email) a.username t.uploaded_batches
    + count_in (some a.email) a.username t.revoked_credentials
    + count_in (some a.email) a.username t.registered_proofs
    + count_in (some a.email) a.username t.created_proofs
    + count_in (some a.email) a.username t.revoked_proofs)

unfoldable pub commit_delete : JwtPayload → String → Accounts → Accounts
unfolding log
commit_delete actor id s =
    log (record { action = "ADMIN_DELETED"; actor_admin_id = some actor.sub; target_id = some id })
      (record s { admins = delete_row (has_id id) s.admins })

unfoldable pub delete_admin : Activity → JwtPayload → String → Accounts → Result (String × Accounts)
unfolding commit_delete admin_has_activity
delete_admin t actor id s = do
  guard (not (actor.sub === id)) "Cannot delete your own admin account"
  existing ← required_admin (find_first (has_id id) s.admins)
  guard (not (is_owner existing.role && not (is_owner actor.role))) "Cannot delete an OWNER account"
  guard (not existing.active) "Deactivate account before deleting"
  guard (not (admin_has_activity t existing)) "Cannot delete account with existing activity"
  ok (id, commit_delete actor id s)
