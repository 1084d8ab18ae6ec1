-- ===== src/Tests/Witnesses.antt =====
-- The theorems at concrete inputs.
use syntrix_dr.Db.Writing.Steps.{done}
use syntrix_dr.Prelude.{
  ap, String, ℕ, ◌≡◌, refl, ◌↔◌, Bool, true, false, Option, none, some, [], ◌∷◌, Memᴰ, arith,
}
use syntrix_dr.Prelude.Memᴰ
use syntrix_dr.Prelude.Text.{clean}
use syntrix_dr.Db.{Session, RoleAssignment, Milestone, UniqueIds, get_row, Task, TaskStatus, hard}
use syntrix_dr.Graph.{cycle, cycle_path}
use syntrix_dr.Graph.Correct.{IsAnswer, cycle_path-IsAnswer}
use syntrix_dr.Access.Grants.{execute_task}
use syntrix_dr.Access.Authorization.{can, no_scope}
use syntrix_dr.Access.Authorization.Granted.{Granted}
use syntrix_dr.Access.Authorization.Laws.{can-Granted}
use syntrix_dr.Tasks.Readiness.{ready, readiness}
use syntrix_dr.Tasks.Readiness.Rows.{Free, readiness-Free}
use syntrix_dr.Tasks.Loads.{live_task}
use syntrix_dr.Tasks.LiveGraph.{live_graph_edges}
use syntrix_dr.Tasks.LiveGraph.Acyclic.{EventsAcyclic}
use syntrix_dr.Tasks.Dependencies.Acyclic.{
  dependency_added, none_yet, then_step, GraphSteps-EventsAcyclic,
}
use syntrix_dr.Tasks.Lifecycle.{validate_task}
use syntrix_dr.Tasks.Lifecycle.Machine.{
  started, validated, blocked_by, ServiceSteps, Follows, ServiceStep-Follows, ServiceSteps-terminal,
}
use syntrix_dr.Tasks.Lifecycle.Start.{start_task-ready}
use syntrix_dr.Tasks.Lifecycle.Blocked.{BlockedHaveBlockers, ServiceSteps-BlockedHaveBlockers}
use syntrix_dr.Tasks.Lifecycle.Completion.{JudgedByAnother, ServiceStep-completed}
use syntrix_dr.Tasks.Lifecycle.Submissions.{SubmissionsFit, ServiceSteps-SubmissionsFit}
use syntrix_dr.Milestones.Transitions.Machine.{Onward, Settled, on_task_changed-Onward}
use syntrix_dr.Access.Roles.{list_active_roles, is_global_readonly_key}
use syntrix_dr.Access.Authorization.Readers.{can-reader}
use syntrix_dr.Tests.Samples.{
  with_reader, with_milestone, milestone, initial, task, finished, sample_edge,
}
use syntrix_dr.Tests.Runs.{
  after_change, change-runs, started_task, after_start, start-runs, blocked_task, after_block,
  block-runs, approved_task, after_approval, validate-runs, approval-row, approval-status, new_edge,
  after_edge, dependency-runs,
}

initial-EventsAcyclic : EventsAcyclic initial
unfolding live_graph_edges
initial-EventsAcyclic ev u v e = absurd (Memᴰ.not-nil e)

GraphSteps-EventsAcyclic_example : EventsAcyclic after_edge
GraphSteps-EventsAcyclic_example =
    GraphSteps-EventsAcyclic initial after_edge
      (then_step none_yet (dependency_added 1 10 11 hard new_edge dependency-runs))
      initial-EventsAcyclic

cycle_path-IsAnswer_example : IsAnswer ((1, 2) ∷ (2, 3) ∷ []) 3 1 (cycle (3 ∷ 1 ∷ 2 ∷ 3 ∷ []))
unfolding cycle_path
cycle_path-IsAnswer_example = cycle_path-IsAnswer ((1, 2) ∷ (2, 3) ∷ []) 3 1

ServiceStep-Follows_example :
    (t' : Task) × (live_task after_start 10 ≡ some t') × Follows (task 10 TaskStatus.not_started) t'
unfolding live_task
ServiceStep-Follows_example =
    ServiceStep-Follows initial after_start (started 1 10 1 none started_task start-runs) 10
      (task 10 TaskStatus.not_started) refl

ServiceSteps-terminal_example : live_task after_start 13 ≡ some finished
unfolding live_task
ServiceSteps-terminal_example =
    ServiceSteps-terminal initial after_start
      (ServiceSteps.then_step ServiceSteps.none_yet (started 1 10 1 none started_task start-runs))
      13 finished refl refl

initial-BlockedHaveBlockers : BlockedHaveBlockers initial
unfolding live_task
initial-BlockedHaveBlockers id t e on = ground (arith, e, on)

ServiceSteps-BlockedHaveBlockers_example : BlockedHaveBlockers after_block
ServiceSteps-BlockedHaveBlockers_example =
    ServiceSteps-BlockedHaveBlockers initial after_block
      (ServiceSteps.then_step ServiceSteps.none_yet
        (blocked_by 1 11 1 (some "no power") blocked_task block-runs))
      initial-BlockedHaveBlockers

ServiceStep-completed_example :
    (actor_id expected_version : ℕ) × (approve : Bool) × (note : Option String) × (validate_task
        actor_id 12 expected_version approve note initial
      ≡ done approved_task after_approval)
    × JudgedByAnother actor_id initial (task 12 TaskStatus.ready_for_validation)
unfolding live_task
ServiceStep-completed_example =
    ServiceStep-completed initial after_approval
      (validated 1 12 1 true none approved_task validate-runs) 12
      (task 12 TaskStatus.ready_for_validation) approved_task refl (λ e. grind (arith, e))
      approval-row approval-status

can-Granted_example :
    (can initial 1 execute_task no_scope ≡ true) ↔ Granted initial 1 execute_task no_scope
can-Granted_example = can-Granted initial 1 execute_task no_scope

-- Task 13 is COMPLETED, Task 10 is not.
abbrev waiting_on : (predecessor : ℕ) → Session
waiting_on predecessor = record initial {
  task_dependencies =
      record sample_edge { predecessor_task_id = predecessor; successor_task_id = 10 } ∷ [];
}

-- Task 10 waits on Task 13.
readiness-Free_example :
    (ready (readiness (waiting_on 13) (task 10 TaskStatus.not_started)) ≡ true)
    ↔ Free (waiting_on 13) (task 10 TaskStatus.not_started)
readiness-Free_example = readiness-Free (waiting_on 13) (task 10 TaskStatus.not_started)

completed_predecessor : ready (readiness (waiting_on 13) (task 10 TaskStatus.not_started)) ≡ true
unfolding ready readiness get_row
completed_predecessor = refl

unfinished_predecessor : ready (readiness (waiting_on 11) (task 10 TaskStatus.not_started)) ≡ false
unfolding ready readiness get_row
unfinished_predecessor = refl

start_task-ready_example :
    (t : Task) × (live_task initial 10 ≡ some t) × (ready (readiness initial t) ≡ true)
unfolding clean
start_task-ready_example =
    start_task-ready 1 10 1 none initial refl started_task after_start start-runs

initial-SubmissionsFit : SubmissionsFit initial
unfolding live_task UniqueIds get_row
initial-SubmissionsFit = ((refl, tt), λ id t e. ground (arith, e))

ServiceSteps-SubmissionsFit_example : SubmissionsFit after_approval
ServiceSteps-SubmissionsFit_example =
    ServiceSteps-SubmissionsFit initial after_approval
      (ServiceSteps.then_step ServiceSteps.none_yet
        (validated 1 12 1 true none approved_task validate-runs))
      initial-SubmissionsFit

on_task_changed-Onward_example :
    (m' : Milestone) × (get_row (λ r. r.id) 50 after_change.milestones ≡ some m')
    × Onward milestone m'
    × Settled milestone m'
unfolding get_row
on_task_changed-Onward_example =
    on_task_changed-Onward 13 1 with_milestone after_change change-runs 50 milestone refl

reader_roles :
    (role : RoleAssignment)
    → Memᴰ role (list_active_roles with_reader 3)
    → is_global_readonly_key role.role_key ≡ true
unfolding list_active_roles
reader_roles role m = ap (λ r. is_global_readonly_key r.role_key) (Memᴰ.eq_of_singleton m)

can-reader_example : can with_reader 3 execute_task no_scope ≡ false
can-reader_example = can-reader with_reader 3 execute_task no_scope reader_roles refl
