-- ===== src/Tasks/Lifecycle.antt =====
-- `TaskTransitionService` (tasks_dependencies/transition_service.py): the six commands on a Task, and
-- the resumption that the last Blocker's verification brings.
pub mod Changes
pub mod Moves
pub mod Machine
pub mod Start
pub mod Submissions
pub mod Blocked
pub mod Completion
use syntrix_dr.Prelude.{
  is_nil, ℕ, String, Bool, true, false, not, ◌&&◌, Option, some, [], ◌∷◌, ◌==◌, opt_eq, any, ltb,
  is_none, if◌then◌else◌,
}
use syntrix_dr.Prelude.Text.{clean}
use syntrix_dr.Db.{
  Command, ok, start, block, resume, submit_validation, validate, cancel, task_not_found,
  authorization_required, invalid_task_transition, dependency_not_satisfied,
  override_reason_required, evidence_missing, verification_note_missing, self_validation_forbidden,
  Task, TaskStatus, bool, number, string, uuid, uuids,
}
use syntrix_dr.Db.Writing.{◌>>=◌, ◌>>◌, pure, query, guard, when, choose, expect, now}
use syntrix_dr.Tasks.Policies.{
  actor_may_change_task, actor_may_validate_task, actor_may_override, is_self_validation,
}
use syntrix_dr.Tasks.Readiness.{Readiness, GateRef, task_gate, milestone_gate, ids, readiness}
use syntrix_dr.Tasks.Loads.{live_task, load_visible}
use syntrix_dr.Blockers.{count_active_blockers, create_blocker_for_task}
use syntrix_dr.Validations.{
  get_pending_task_validation, open_task_validation, close_task_validation,
  close_validation_for_cancelled_task, count_acceptable_for_task,
}
use syntrix_dr.Tasks.Guards.{
  check_version, assert_legal, task_snapshot, record_task_override, finish_task, load_for_execution,
}

abbrev pub is_cross_stream : Task → GateRef → Bool
is_cross_stream task g = not (opt_eq g.work_stream_id task.work_stream_id)

-- The override that a start over unmet HARD gates needs.
unfoldable pub override_dependencies :
    (task : Task) (r : Readiness) (actor_id : ℕ) (override_reason : Option String)
    → Command (Unit {0})
override_dependencies task r actor_id override_reason = do
  let blocking_tasks = ids task_gate r.blocking
  let blocking_milestones = ids milestone_gate r.blocking
  reason ←
      expect (clean override_reason) (dependency_not_satisfied blocking_tasks blocking_milestones)
  let cross_stream = any (is_cross_stream task) r.blocking
  allowed ← query (actor_may_override actor_id task cross_stream)
  guard allowed authorization_required
  record_task_override task actor_id "DEPENDENCY_OVERRIDE" "DEPENDENCY_OVERRIDE_RECORDED" reason (
      ("blocking_task_ids", uuids blocking_tasks)
      ∷ ("blocking_milestone_ids", uuids blocking_milestones)
      ∷ ("cross_stream", bool cross_stream)
      ∷ [])

unfoldable pub start_task :
    (actor_id task_id expected_version : ℕ) (override_reason : Option String) → Command Task
start_task actor_id task_id expected_version override_reason = do
  task ← load_for_execution start actor_id task_id expected_version
  r ← query (λ s. ok (readiness s task))
  when (not (is_nil r.blocking)) (override_dependencies task r actor_id override_reason)
  started_at ← now
  finish_task (record task { status = TaskStatus.in_progress; started_at = some started_at })
      actor_id (task_snapshot task) "TASK_STARTED"
      (("advisory_pending_task_ids", uuids (ids task_gate r.advisory_pending))
        ∷ ("advisory_pending_milestone_ids", uuids (ids milestone_gate r.advisory_pending))
        ∷ [])

unfoldable pub block_task :
    (actor_id task_id expected_version : ℕ) (reason : Option String) → Command Task
block_task actor_id task_id expected_version reason = do
  task ← load_for_execution block actor_id task_id expected_version
  clean_reason ← expect (clean reason) (override_reason_required "Blocking a Task")
  blocker ← create_blocker_for_task task.id task.dr_event_id clean_reason actor_id
  finish_task (record task { status = TaskStatus.blocked }) actor_id (task_snapshot task)
      "TASK_BLOCKED" (("blocker_id", uuid blocker.id) ∷ [])

-- The override that a manual resume over an active Blocker needs.
unfoldable pub override_blockers :
    (task : Task) (active_blockers actor_id : ℕ) (override_reason : Option String)
    → Command (Unit {0})
override_blockers task active_blockers actor_id override_reason = do
  reason ←
      expect (clean override_reason)
        (override_reason_required "Resuming a Task that still has an active Blocker")
  allowed ← query (actor_may_override actor_id task false)
  guard allowed authorization_required
  record_task_override task actor_id "BLOCKER_ACTIVE_RESUME_OVERRIDE"
      "BLOCKER_ACTIVE_RESUME_OVERRIDE_RECORDED" reason
      (("active_blocker_count", number active_blockers) ∷ [])

unfoldable pub resume_task :
    (actor_id task_id expected_version : ℕ) (override_reason : Option String) → Command Task
resume_task actor_id task_id expected_version override_reason = do
  task ← load_for_execution resume actor_id task_id expected_version
  active_blockers ← query (λ s. ok (count_active_blockers s task.id))
  when (not (active_blockers == 0))
      (override_blockers task active_blockers actor_id override_reason)
  finish_task (record task { status = TaskStatus.in_progress }) actor_id (task_snapshot task)
      "TASK_RESUMED" []

abbrev pub is_blocked : TaskStatus → Bool
is_blocked TaskStatus.blocked = true
is_blocked _ = false

unfoldable pub resume_after_last_blocker : (task_id actor_id blocker_id : ℕ) → Command Task
resume_after_last_blocker task_id actor_id blocker_id = do
  found ← query (λ s. ok (live_task s task_id))
  task ← expect found task_not_found
  active_blockers ← query (λ s. ok (count_active_blockers s task.id))
  choose (is_blocked task.status && (active_blockers == 0))
      (finish_task (record task { status = TaskStatus.in_progress }) actor_id (task_snapshot task)
        "TASK_RESUMED" (("blocker_id", uuid blocker_id) ∷ ("automatic", bool true) ∷ []))
      (pure task)

-- D-226: enough acceptable Evidence Items, if the Task requires evidence.
unfoldable pub check_evidence : Task → Command (Unit {0})
check_evidence task = do
  found ← query (λ s. ok (count_acceptable_for_task s task.id))
  guard (not (task.evidence_required && ltb found task.evidence_min_count))
      (evidence_missing task.evidence_min_count found)

unfoldable pub submit_task_validation :
    (actor_id task_id expected_version : ℕ) (verification_note : Option String) → Command Task
submit_task_validation actor_id task_id expected_version verification_note = do
  task ← load_for_execution submit_validation actor_id task_id expected_version
  check_evidence task
  let note = clean verification_note
  guard (not (task.verification_note_required && is_none note)) verification_note_missing
  validation ← open_task_validation task.id task.dr_event_id note actor_id
  finish_task (record task { status = TaskStatus.ready_for_validation }) actor_id
      (task_snapshot task) "TASK_SUBMITTED" (("validation_id", uuid validation.id) ∷ [])

-- The Task's row as the verdict leaves it.
unfoldable pub judged : Bool → Task → Command Task
judged true task = do
  at ← now
  pure (record task { status = TaskStatus.completed; completed_at = some at })
judged false task = pure (record task { status = TaskStatus.in_progress })

unfoldable pub validate_task :
    (actor_id task_id expected_version : ℕ) (approve : Bool) (note : Option String) → Command Task
validate_task actor_id task_id expected_version approve note = do
  task ← load_visible task_id actor_id
  allowed ← query (actor_may_validate_task actor_id task)
  guard allowed authorization_required
  check_version task expected_version
  assert_legal validate task
  submission ← query (get_pending_task_validation task.id)
  validation ← expect submission (invalid_task_transition validate task.status)
  guard (not (is_self_validation actor_id task validation.created_by_user_id))
      self_validation_forbidden
  verdict ← judged approve task
  close_task_validation validation approve actor_id (clean note) task.dr_event_id
  finish_task verdict actor_id (task_snapshot task)
      (if approve then "TASK_VALIDATED" else "TASK_VALIDATION_REJECTED")
      (("validation_id", uuid validation.id) ∷ [])

abbrev pub is_submitted : TaskStatus → Bool
is_submitted TaskStatus.ready_for_validation = true
is_submitted _ = false

unfoldable pub cancel_task :
    (actor_id task_id expected_version : ℕ) (reason : Option String) → Command Task
cancel_task actor_id task_id expected_version reason = do
  task ← load_visible task_id actor_id
  allowed ← query (actor_may_change_task actor_id task)
  guard allowed authorization_required
  check_version task expected_version
  assert_legal cancel task
  clean_reason ← expect (clean reason) (override_reason_required "Cancelling a Task")
  when (is_submitted task.status) (
      close_validation_for_cancelled_task task.id actor_id clean_reason task.dr_event_id
      >>= (λ _. pure tt))
  finish_task (record task { status = TaskStatus.cancelled }) actor_id (task_snapshot task)
      "TASK_CANCELLED" (("reason", string clean_reason) ∷ [])
