-- ===== src/Tests/Runs.antt =====
-- Commands run on the sample Event.
use syntrix_dr.Prelude.{◌≡◌, refl, true, none, some}
use syntrix_dr.Prelude.Text.{clean}
use syntrix_dr.Db.{Session, Task, TaskStatus, TaskDependency, hard}
use syntrix_dr.Db.Writing.{
  choose, ◌>>=◌, query, guard, expect, when, now, new_uuid, write_audit, write_outbox,
}
use syntrix_dr.Db.Writing.Steps.{done}
use syntrix_dr.Access.Roles.{list_active_roles}
use syntrix_dr.Access.Authorization.{can, global_admin_role_is_effective}
use syntrix_dr.Access.Visibility.{user_can_see_event}
use syntrix_dr.Tasks.Policies.{
  actor_may_execute_task, actor_may_validate_task, actor_may_change_dependency, is_self_validation,
}
use syntrix_dr.Tasks.Readiness.{readiness, ids}
use syntrix_dr.Tasks.Loads.{live_task, load_visible, save_task}
use syntrix_dr.Tasks.Dependencies.{add_task_dependency, dependency_exists}
use syntrix_dr.Tasks.LiveGraph.{find_cycle_path}
use syntrix_dr.Milestones.Transitions.{on_task_changed}
use syntrix_dr.Blockers.{create_blocker_for_task}
use syntrix_dr.Validations.{get_pending_task_validation, close_task_validation}
use syntrix_dr.Tasks.Guards.{
  check_version, assert_legal, finish_task, load_for_execution, legal_from,
}
use syntrix_dr.Tasks.Lifecycle.{start_task, block_task, validate_task, judged}
use syntrix_dr.Tests.Samples.{with_milestone, initial, task, value_of, state_of, sample_edge}

abbrev pub started_task : Task
started_task = value_of (start_task 1 10 1 none initial) (task 10 TaskStatus.not_started)

abbrev pub after_start : Session
after_start = state_of (start_task 1 10 1 none initial)

-- Task 10 is started.
pub start-runs : start_task 1 10 1 none initial ≡ done started_task after_start
unfolding start_task load_for_execution finish_task check_version assert_legal legal_from
    load_visible actor_may_execute_task readiness ids when query guard expect now write_audit
    write_outbox on_task_changed save_task ◌>>=◌ user_can_see_event list_active_roles
    global_admin_role_is_effective can
start-runs = refl

abbrev pub blocked_task : Task
blocked_task =
    value_of (block_task 1 11 1 (some "no power") initial) (task 11 TaskStatus.in_progress)

abbrev pub after_block : Session
after_block = state_of (block_task 1 11 1 (some "no power") initial)

-- Task 11 is blocked.
pub block-runs : block_task 1 11 1 (some "no power") initial ≡ done blocked_task after_block
unfolding block_task actor_may_execute_task create_blocker_for_task new_uuid clean
    load_for_execution finish_task check_version assert_legal legal_from load_visible when query
    guard expect now write_audit write_outbox on_task_changed save_task ◌>>=◌ user_can_see_event
    list_active_roles global_admin_role_is_effective can
block-runs = refl

abbrev pub approved_task : Task
approved_task =
    value_of (validate_task 1 12 1 true none initial) (task 12 TaskStatus.ready_for_validation)

abbrev pub after_approval : Session
after_approval = state_of (validate_task 1 12 1 true none initial)

-- User 1 approves Task 12, which user 2 works on and submitted.
pub validate-runs : validate_task 1 12 1 true none initial ≡ done approved_task after_approval
unfolding validate_task actor_may_validate_task is_self_validation judged
    get_pending_task_validation close_task_validation clean load_for_execution finish_task
    check_version assert_legal legal_from load_visible when query guard expect now write_audit
    write_outbox on_task_changed save_task ◌>>=◌ user_can_see_event list_active_roles
    global_admin_role_is_effective can
validate-runs = refl

abbrev pub new_edge : TaskDependency
new_edge = value_of (add_task_dependency 1 10 11 hard initial) sample_edge

abbrev pub after_edge : Session
after_edge = state_of (add_task_dependency 1 10 11 hard initial)

-- Task 11 is made to wait for Task 10.
pub dependency-runs : add_task_dependency 1 10 11 hard initial ≡ done new_edge after_edge
unfolding add_task_dependency actor_may_change_dependency dependency_exists find_cycle_path new_uuid
    load_for_execution finish_task check_version assert_legal legal_from load_visible when query
    guard expect now write_audit write_outbox on_task_changed save_task ◌>>=◌ user_can_see_event
    list_active_roles global_admin_role_is_effective can
dependency-runs = refl

-- What the approval leaves.
pub approval-row : live_task after_approval 12 ≡ some approved_task
unfolding validate_task actor_may_validate_task is_self_validation judged
    get_pending_task_validation close_task_validation clean load_for_execution finish_task
    check_version assert_legal legal_from load_visible when query guard expect now write_audit
    write_outbox on_task_changed save_task ◌>>=◌ user_can_see_event list_active_roles
    global_admin_role_is_effective can live_task
approval-row = refl

pub approval-status : approved_task.status ≡ TaskStatus.completed
unfolding validate_task actor_may_validate_task is_self_validation judged
    get_pending_task_validation close_task_validation clean load_for_execution finish_task
    check_version assert_legal legal_from load_visible when query guard expect now write_audit
    write_outbox on_task_changed save_task ◌>>=◌ user_can_see_event list_active_roles
    global_admin_role_is_effective can
approval-status = refl

abbrev pub after_change : Session
after_change = state_of (on_task_changed 13 1 with_milestone)

-- The Milestone of Task 13 is re-derived.
pub change-runs : on_task_changed 13 1 with_milestone ≡ done tt after_change
unfolding on_task_changed choose query guard expect now write_audit write_outbox ◌>>=◌
change-runs = refl
