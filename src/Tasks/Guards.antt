-- ===== src/Tasks/Guards.antt =====
-- What the Task commands share (tasks_dependencies/transition_service.py): the legal states, the version
-- check, the record of an override, the head of an executor's command, and the tail of every command.
pub mod Steps
use syntrix_dr.Prelude.{ℕ, String, Bool, true, false, none, some, [], ◌∷◌, ◌++◌, ◌+◌, ◌==◌}
use syntrix_dr.Db.{
  Command, TaskCommand, start, block, resume, submit_validation, validate, cancel,
  authorization_required, concurrency_conflict, invalid_task_transition, Task, TaskStatus,
  task_target, task_changed, user_actor, Payload, number, string,
}
use syntrix_dr.Db.Writing.{
  ◌>>=◌, ◌>>◌, pure, query, guard, now, write_audit, write_outbox, record_override,
}
use syntrix_dr.Tasks.Policies.{actor_may_execute_task}
use syntrix_dr.Tasks.Loads.{load_visible, save_task}
use syntrix_dr.Milestones.Transitions.{on_task_changed}

-- `_LEGAL_FROM`
unfoldable pub legal_from : TaskCommand → TaskStatus → Bool
legal_from start TaskStatus.not_started = true
legal_from block TaskStatus.in_progress = true
legal_from resume TaskStatus.blocked = true
legal_from submit_validation TaskStatus.in_progress = true
legal_from validate TaskStatus.ready_for_validation = true
legal_from cancel TaskStatus.not_started = true
legal_from cancel TaskStatus.in_progress = true
legal_from cancel TaskStatus.blocked = true
legal_from cancel TaskStatus.ready_for_validation = true
legal_from _ _ = false

abbrev pub task_status_name : TaskStatus → String
task_status_name TaskStatus.not_started = "NOT_STARTED"
task_status_name TaskStatus.in_progress = "IN_PROGRESS"
task_status_name TaskStatus.blocked = "BLOCKED"
task_status_name TaskStatus.ready_for_validation = "READY_FOR_VALIDATION"
task_status_name TaskStatus.completed = "COMPLETED"
task_status_name TaskStatus.cancelled = "CANCELLED"

unfoldable pub check_version : Task → ℕ → Command (Unit {0})
check_version task expected_version = guard (task.version == expected_version) concurrency_conflict

unfoldable pub assert_legal : TaskCommand → Task → Command (Unit {0})
assert_legal command task =
    guard (legal_from command task.status) (invalid_task_transition command task.status)

-- `_snapshot`
abbrev pub task_snapshot : Task → Payload
task_snapshot task =
    ("status", string (task_status_name task.status)) ∷ ("version", number task.version) ∷ []

unfoldable pub record_task_override :
    (task : Task) (actor_id : ℕ) (override_type action reason : String) (metadata : Payload)
    → Command (Unit {0})
record_task_override task actor_id override_type action reason metadata = do
  record_override record {
    dr_event_id = task.dr_event_id;
    target_type = task_target;
    target_id = task.id;
    override_type = override_type;
    policy_key = none;
    reason = reason;
    performed_by_user_id = actor_id;
    details = metadata;
  }
  write_audit record {
    dr_event_id = some task.dr_event_id;
    actor_user_id = some actor_id;
    actor_type = user_actor;
    entity_type = task_target;
    entity_id = task.id;
    action = action;
    before_data = none;
    after_data = some (("reason", string reason) ∷ metadata);
    metadata = [];
  }

-- `_finish`: the version, the row, the audit row, the outbox row, and the Milestones.
unfoldable pub finish_task :
    (task : Task) (actor_id : ℕ) (before : Payload) (action : String) (extra : Payload)
    → Command Task
finish_task task actor_id before action extra = do
  at ← now
  let moved : Task = record task { version = task.version + 1; updated_at = at }
  save_task moved
  write_audit record {
    dr_event_id = some moved.dr_event_id;
    actor_user_id = some actor_id;
    actor_type = user_actor;
    entity_type = task_target;
    entity_id = moved.id;
    action = action;
    before_data = some before;
    after_data = some (task_snapshot moved ++ extra);
    metadata = [];
  }
  write_outbox task_target moved.id task_changed (task_snapshot moved ++ extra)
      (some moved.dr_event_id)
  on_task_changed moved.id actor_id
  pure moved

-- The head of the commands of a Task's executor: the row, the right to act, the version, the state.
unfoldable pub load_for_execution :
    (command : TaskCommand) (actor_id task_id expected_version : ℕ) → Command Task
load_for_execution command actor_id task_id expected_version = do
  task ← load_visible task_id actor_id
  at ← now
  allowed ← query (actor_may_execute_task actor_id task at)
  guard allowed authorization_required
  check_version task expected_version
  assert_legal command task
  pure task
