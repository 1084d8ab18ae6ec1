-- ===== src/Access/Authorization.antt =====
-- `AuthorizationService` of users_teams_org/authorization.py.
pub mod Granted
pub mod Laws
pub mod Readers
use syntrix_dr.Prelude.{
  ℕ, Bool, true, false, not, ◌&&◌, ◌||◌, Option, none, some, List, [], ◌∷◌, ◌==◌, opt_eq, any,
  select, first, if◌then◌else◌,
}
use syntrix_dr.Db.{
  Session, RoleKey, manager, RoleAssignment, ScopeType, global_scope, event_scope, stream_scope,
  application_scope, IdentityType, local_identity, entra_identity, get_row,
}
use syntrix_dr.Access.Grants.{
  Capability, Marker, granted, in_scope, own_team, absent, grants, is_read_only,
}
use syntrix_dr.Access.Roles.{list_active_roles, is_global_admin_key, is_global_readonly_key}

pub record Scope : Type 0 where
  pub scope_type : Option ScopeType
  pub scope_id : Option ℕ
  pub owning_team_id : Option ℕ

-- `Scope()`
abbrev pub no_scope : Scope
no_scope = record { scope_type = none; scope_id = none; owning_team_id = none }

abbrev pub team_scope : ℕ → Scope
team_scope t = record { scope_type = none; scope_id = none; owning_team_id = some t }

abbrev pub typed_scope : ScopeType → Option ℕ → Scope
typed_scope k i = record { scope_type = some k; scope_id = i; owning_team_id = none }

abbrev pub scope_type_eq : ScopeType → ScopeType → Bool
scope_type_eq global_scope global_scope = true
scope_type_eq event_scope event_scope = true
scope_type_eq stream_scope stream_scope = true
scope_type_eq application_scope application_scope = true
scope_type_eq _ _ = false

abbrev pub is_local : IdentityType → Bool
is_local local_identity = true
is_local entra_identity = false

-- `_global_admin_role_is_effective`: a LOCAL user with a credential needs TOTP.
unfoldable pub global_admin_role_is_effective : Session → ℕ → Bool
unfolding get_row
global_admin_role_is_effective s actor_id = elim (get_row (λ u. u.id) actor_id s.directory.users) [
  | none ↦ true
  | some user ↦
      if is_local user.identity_type
      then elim (get_row (λ c. c.user_id) actor_id s.directory.local_credentials) [
        | none ↦ true
        | some credential ↦ credential.totp_enabled
      ]
      else true
]

unfoldable pub is_global_admin : Session → ℕ → Bool
is_global_admin s actor_id =
    any (λ r. is_global_admin_key r.role_key) (list_active_roles s actor_id)
    && global_admin_role_is_effective s actor_id

unfoldable pub is_global_readonly : Session → ℕ → Bool
is_global_readonly s actor_id =
    any (λ r. is_global_readonly_key r.role_key) (list_active_roles s actor_id)

-- `scope.scope_type is not None and role.scope_type == scope.scope_type and ...`
unfoldable pub scope_matches : RoleAssignment → Scope → Bool
scope_matches role scope = elim scope.scope_type [
  | none ↦ false
  | some k ↦ scope_type_eq role.scope_type k && opt_eq role.scope_id scope.scope_id
]

-- `team_result is not None and team_result.manager_user_id == actor_id`
unfoldable pub manages_team : Session → ℕ → Option ℕ → Bool
unfolding get_row
manages_team s actor_id none = false
manages_team s actor_id (some team_id) = elim (get_row (λ t. t.id) team_id s.directory.teams) [
  | none ↦ false
  | some team ↦ opt_eq team.manager_user_id (some actor_id)
]

abbrev pub is_manager_key : RoleKey → Bool
is_manager_key manager = true
is_manager_key _ = false

-- One round of the loop over the roles: whether it returns True.
unfoldable pub role_grants : Session → ℕ → Capability → Scope → RoleAssignment → Bool
unfolding scope_matches manages_team grants
role_grants s actor_id capability scope role = elim (grants capability role.role_key) [
  | granted ↦ true
  | in_scope ↦ scope_matches role scope
  | own_team ↦ is_manager_key role.role_key && manages_team s actor_id scope.owning_team_id
  | absent ↦ false
]

abbrev pub without_admin : List RoleAssignment → List RoleAssignment
without_admin = select (λ r. not (is_global_admin_key r.role_key))

-- The rest of `can`, on the roles that count.
unfoldable pub can_with_roles : Session → ℕ → Capability → Scope → List RoleAssignment → Bool
unfolding role_grants
can_with_roles s actor_id capability scope roles =
    if is_read_only capability && any (λ r. is_global_readonly_key r.role_key) roles
    then true
    else any (role_grants s actor_id capability scope) roles

unfoldable pub can : Session → ℕ → Capability → Scope → Bool
unfolding list_active_roles global_admin_role_is_effective can_with_roles
can s actor_id capability scope =
    let roles = list_active_roles s actor_id in
    if any (λ r. is_global_admin_key r.role_key) roles
    then if global_admin_role_is_effective s actor_id
      then true
      else can_with_roles s actor_id capability scope (without_admin roles)
    else can_with_roles s actor_id capability scope roles
