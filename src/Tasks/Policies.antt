-- ===== src/Tasks/Policies.antt =====
-- Who may act on a Task (tasks_dependencies/policies.py).
use text.Mathlib.Text.{◌==◌ as str_eq}
use syntrix_dr.Prelude.{
  ℕ, Bool, true, false, ◌&&◌, ◌||◌, Option, none, some, List, [], ◌∷◌, ◌++◌, ◌==◌, opt_eq, any,
  if◌then◌else◌,
}
use syntrix_dr.Db.{
  Session, Read, ok, Task, PolicyJson, policy_text, get_row, stream_scope, application_scope,
  work_stream_lead, ScopeType,
}
use syntrix_dr.Db.Reading.{asks, or_read, and_read}
use syntrix_dr.Access.Grants.{
  Capability, execute_task, change_task_metadata, validate_task_standard,
  override_cross_work_stream_guard, override_within_work_stream, change_dependencies, granted,
  in_scope, own_team, absent, grants,
}
use syntrix_dr.Access.Roles.{
  has_active_role, is_executor_key, is_active_team_member, is_work_stream_lead,
  is_system_application_owner,
}
use syntrix_dr.Access.Authorization.{Scope, no_scope, team_scope, typed_scope, can}
use syntrix_dr.Access.Policies.{resolve}

unfoldable pub application_id_of : Session → Option ℕ → Option ℕ
unfolding get_row
application_id_of s none = none
application_id_of s (some dr_application_id) =
    elim (get_row (λ a. a.id) dr_application_id s.applications) [
      | none ↦ none
      | some dr_application ↦ some dr_application.application_id
    ]

abbrev pub scope_of : ScopeType → Option ℕ → List Scope
scope_of k none = []
scope_of k (some i) = typed_scope k (some i) ∷ []

unfoldable pub task_scopes : Session → Task → List Scope
unfolding application_id_of
task_scopes s task =
    team_scope task.owning_team_id
    ∷ (scope_of stream_scope task.work_stream_id
        ++ scope_of application_scope (application_id_of s task.dr_application_id))

-- `GRANTS.get(capability, {}).get("WORK_STREAM_LEAD") in (True, "SCOPE")`
unfoldable pub grants_work_stream_lead : Capability → Bool
unfolding grants
grants_work_stream_lead capability = elim (grants capability work_stream_lead) [
  | granted ↦ true
  | in_scope ↦ true
  | own_team ↦ false
  | absent ↦ false
]

abbrev pub is_stream_scope : Option ScopeType → Bool
is_stream_scope none = false
is_stream_scope (some stream_scope) = true
is_stream_scope (some _) = false

-- The designated Lead of the stream that the scope names.
unfoldable pub leads_scope : Session → ℕ → Scope → Bool
leads_scope s actor_id scope = elim scope.scope_id [
  | none ↦ false
  | some i ↦ is_stream_scope scope.scope_type && is_work_stream_lead s i actor_id
]

unfoldable pub can_in_any_scope : Session → ℕ → Capability → List Scope → Bool
unfolding grants_work_stream_lead leads_scope
can_in_any_scope s actor_id capability scopes =
    any
      (λ scope.
        can s actor_id capability scope
        || (grants_work_stream_lead capability && leads_scope s actor_id scope))
      scopes

-- "own/Team work": the EXECUTOR role, and the assignee or an active member of the Owning Team.
unfoldable pub executes_own_work : ℕ → Task → ℕ → Read Bool
executes_own_work actor_id task at = and_read (has_active_role actor_id is_executor_key) (
    asks λ s.
      opt_eq task.current_assignee_user_id (some actor_id)
      || is_active_team_member s task.owning_team_id actor_id at)

unfoldable pub actor_may_execute_task : ℕ → Task → ℕ → Read Bool
unfolding executes_own_work task_scopes can_in_any_scope
actor_may_execute_task actor_id task at =
    or_read (asks λ s. can_in_any_scope s actor_id execute_task (task_scopes s task))
      (executes_own_work actor_id task at)

unfoldable pub actor_may_change_task : ℕ → Task → Read Bool
unfolding task_scopes can_in_any_scope
actor_may_change_task actor_id task =
    asks λ s. can_in_any_scope s actor_id change_task_metadata (task_scopes s task)

unfoldable pub actor_may_validate_task : ℕ → Task → Read Bool
unfolding application_id_of can_in_any_scope
actor_may_validate_task actor_id task = asks λ s.
    elim (application_id_of s task.dr_application_id) [
      | some application_id ↦
          can s actor_id validate_task_standard
            (typed_scope application_scope (some application_id))
          || is_system_application_owner s application_id actor_id
      | none ↦
          can_in_any_scope s actor_id validate_task_standard
            (typed_scope stream_scope task.work_stream_id ∷ [])
    ]

-- `actor_id in (task.current_assignee_user_id, submitted_by_user_id)`
unfoldable pub is_self_validation : ℕ → Task → ℕ → Bool
is_self_validation actor_id task submitted_by_user_id =
    opt_eq task.current_assignee_user_id (some actor_id) || (submitted_by_user_id == actor_id)

abbrev pub override_scope : Option ℕ → Scope
override_scope none = no_scope
override_scope (some i) = typed_scope stream_scope (some i)

unfoldable pub actor_may_override : ℕ → Task → Bool → Read Bool
unfolding can_in_any_scope
actor_may_override actor_id task cross_stream = asks λ s.
    if cross_stream
    then can s actor_id override_cross_work_stream_guard no_scope
    else can_in_any_scope s actor_id override_within_work_stream
        (override_scope task.work_stream_id ∷ [])

-- `mode == "SCOPED_ROLE"`
abbrev pub is_scoped_role : PolicyJson → Bool
is_scoped_role (policy_text t) = str_eq t "SCOPED_ROLE"
is_scoped_role _ = false

unfoldable pub actor_may_change_dependency : ℕ → Task → ℕ → Read Bool
unfolding application_id_of task_scopes can_in_any_scope
actor_may_change_dependency actor_id successor at s =
    let mode =
      resolve s "dependency.edit_requires" (some successor.dr_event_id) successor.work_stream_id
        (application_id_of s successor.dr_application_id) in
    if is_scoped_role mode
    then or_read
        (asks λ s'. can_in_any_scope s' actor_id change_dependencies (task_scopes s' successor))
        (and_read (has_active_role actor_id is_executor_key)
          (asks λ s'. is_active_team_member s' successor.owning_team_id actor_id at))
        s
    else ok (can s actor_id change_dependencies no_scope)
