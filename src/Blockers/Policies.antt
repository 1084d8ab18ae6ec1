-- ===== src/Blockers/Policies.antt =====
-- Who may act on a Blocker (blockers/policies.py).
use syntrix_dr.Prelude.{
  ℕ, Bool, false, ◌&&◌, ◌||◌, Option, none, some, List, [], ◌∷◌, ◌==◌, opt_eq, is_none, any,
  if◌then◌else◌,
}
use syntrix_dr.Db.{Session, Read, Task, Blocker, Team, get_row}
use syntrix_dr.Db.Reading.{asks, or_read, and_read}
use syntrix_dr.Access.Grants.{Capability, blocker_create_resolve_verify, blocker_start_claim}
use syntrix_dr.Access.Roles.{
  has_active_role, is_executor_key, is_active_team_member, is_system_application_owner,
}
use syntrix_dr.Access.Authorization.{no_scope, can, is_manager_key}
use syntrix_dr.Tasks.Policies.{application_id_of, task_scopes, can_in_any_scope}

-- `get_team`: the live row.
unfoldable pub get_team : Session → ℕ → Option Team
unfolding get_row
get_team s team_id = elim (get_row (λ t. t.id) team_id s.directory.teams) [
  | none ↦ none
  | some t ↦ if is_none t.deleted_at then some t else none
]

unfoldable pub manages : Session → ℕ → Option ℕ → Bool
unfolding get_team
manages s actor_id none = false
manages s actor_id (some team_id) = elim (get_team s team_id) [
  | none ↦ false
  | some t ↦ opt_eq t.manager_user_id (some actor_id)
]

unfoldable pub is_manager_of : ℕ → List (Option ℕ) → Read Bool
unfolding manages
is_manager_of actor_id team_ids =
    and_read (has_active_role actor_id is_manager_key) (asks λ s. any (manages s actor_id) team_ids)

abbrev pub is_member : Session → (actor_id at : ℕ) → Option ℕ → Bool
is_member s actor_id at none = false
is_member s actor_id at (some team_id) = is_active_team_member s team_id actor_id at

unfoldable pub member_of : Session → (actor_id at : ℕ) → List (Option ℕ) → Bool
member_of s actor_id at team_ids = any (is_member s actor_id at) team_ids

unfoldable pub executor_eligible : ℕ → Task → Blocker → ℕ → Read Bool
unfolding member_of
executor_eligible actor_id task blocker at = and_read (has_active_role actor_id is_executor_key) (
    asks λ s.
      opt_eq (some actor_id) blocker.blocker_owner_user_id
      || opt_eq (some actor_id) task.current_assignee_user_id
      || member_of s actor_id at (some task.owning_team_id ∷ blocker.blocker_team_id ∷ []))

unfoldable pub is_application_owner : Session → ℕ → Task → Bool
unfolding application_id_of
is_application_owner s actor_id task = elim (application_id_of s task.dr_application_id) [
  | none ↦ false
  | some application_id ↦ is_system_application_owner s application_id actor_id
]

unfoldable pub role_half : ℕ → Task → Capability → Read Bool
unfolding task_scopes can_in_any_scope is_application_owner
role_half actor_id task capability = asks λ s.
    can s actor_id capability no_scope
    || can_in_any_scope s actor_id capability (task_scopes s task)
    || is_application_owner s actor_id task

unfoldable pub actor_may_route_blocker :
    ℕ → Task → Blocker → (team_id assignee_user_id : Option ℕ) (at : ℕ) → Read Bool
unfolding role_half is_manager_of executor_eligible member_of
actor_may_route_blocker actor_id task blocker team_id assignee_user_id at =
    or_read (role_half actor_id task blocker_create_resolve_verify) (
      or_read
        (is_manager_of actor_id (some task.owning_team_id ∷ blocker.blocker_team_id ∷ team_id ∷ []))
        (and_read (executor_eligible actor_id task blocker at) (
          asks λ s.
            opt_eq assignee_user_id (some actor_id)
            && (is_none team_id || member_of s actor_id at (team_id ∷ [])))))

-- The Executor half of `start`: the assigned resolver, or a claim from a queue.
abbrev pub may_claim : Session → ℕ → Task → Blocker → ℕ → Bool
may_claim s actor_id task blocker at = elim blocker.blocker_owner_user_id [
  | some owner ↦ owner == actor_id
  | none ↦ member_of s actor_id at (blocker.blocker_team_id ∷ some task.owning_team_id ∷ [])
]

unfoldable pub actor_may_start_blocker : ℕ → Task → Blocker → ℕ → Read Bool
unfolding role_half is_manager_of member_of
actor_may_start_blocker actor_id task blocker at =
    or_read (role_half actor_id task blocker_start_claim) (
      or_read (is_manager_of actor_id (some task.owning_team_id ∷ blocker.blocker_team_id ∷ [])) (
        and_read (has_active_role actor_id is_executor_key)
          (asks λ s. may_claim s actor_id task blocker at)))

-- The Executor half of `resolve`: the resolver's side.
abbrev pub may_resolve : Session → ℕ → Task → Blocker → ℕ → Bool
may_resolve s actor_id task blocker at =
    opt_eq blocker.blocker_owner_user_id (some actor_id) || elim blocker.blocker_team_id [
      | some team_id ↦ member_of s actor_id at (some team_id ∷ [])
      | none ↦
          opt_eq task.current_assignee_user_id (some actor_id)
          || member_of s actor_id at (some task.owning_team_id ∷ [])
    ]

unfoldable pub actor_may_resolve_blocker : ℕ → Task → Blocker → ℕ → Read Bool
unfolding role_half is_manager_of member_of
actor_may_resolve_blocker actor_id task blocker at =
    or_read (role_half actor_id task blocker_create_resolve_verify) (
      or_read (is_manager_of actor_id (some task.owning_team_id ∷ blocker.blocker_team_id ∷ [])) (
        and_read (has_active_role actor_id is_executor_key)
          (asks λ s. may_resolve s actor_id task blocker at)))

unfoldable pub actor_may_verify_blocker : ℕ → Task → Blocker → ℕ → Read Bool
unfolding role_half is_manager_of member_of
actor_may_verify_blocker actor_id task blocker at =
    or_read (role_half actor_id task blocker_create_resolve_verify) (
      or_read (is_manager_of actor_id (some task.owning_team_id ∷ [])) (
        and_read (has_active_role actor_id is_executor_key) (
          asks λ s.
            opt_eq task.current_assignee_user_id (some actor_id)
            || member_of s actor_id at (some task.owning_team_id ∷ []))))
