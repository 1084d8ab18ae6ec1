-- ===== src/Tests/Samples.antt =====
-- A small Event: a Global Admin (user 1), an executor (user 2), and three Tasks.
use syntrix_dr.Prelude.{true, ℕ, ◌+◌, false, none, some, [], ◌∷◌}
use syntrix_dr.Db.{
  RoleAssignment, Session, Directory, global_admin, global_readonly, global_scope, Task, TaskStatus,
  TaskPhase, Validation, pending, task_target, Result, ok, err, TaskDependency, hard, Milestone,
  MilestoneStatus, manual,
}

abbrev pub directory : Directory
directory = record {
  users = [];
  local_credentials = [];
  role_assignments =
      record {
        user_id = 1;
        role_key = global_admin;
        scope_type = global_scope;
        scope_id = none;
        revoked_at = none;
      }
      ∷ [];
  teams = [];
  team_memberships = [];
  work_streams = [];
  tiers = record { id = 60; default_sla_minutes = 240 } ∷ [];
  catalog = record { id = 30; tier_id = 60 } ∷ [];
  application_owners = [];
  policy_definitions = [];
  policy_values = [];
  evidence_items = [];
}

-- A Task of Event 5, worked on by user 2.
abbrev pub task : ℕ → TaskStatus → Task
task id status = record {
  id = id;
  dr_event_id = 5;
  dr_application_id = none;
  work_stream_id = none;
  phase = TaskPhase.failover;
  status = status;
  owning_team_id = 7;
  current_assignee_user_id = some 2;
  started_at = none;
  completed_at = none;
  evidence_required = false;
  evidence_min_count = 0;
  verification_note_required = false;
  version = 1;
  updated_at = 0;
  deleted_at = none;
}

abbrev pub submission : Validation
submission = record {
  id = 900;
  target_type = task_target;
  target_id = 12;
  status = pending;
  verification_note = none;
  validator_user_id = none;
  submitted_at = 0;
  reviewed_at = none;
  approved_at = none;
  note = none;
  business_confirmed = false;
  business_confirmation_note = none;
  created_by_user_id = 2;
  version = 1;
  updated_at = 0;
  deleted_at = none;
}

abbrev pub finished : Task
finished = task 13 TaskStatus.completed

-- Task 10 is new, 11 is in progress, 12 awaits its verdict, 13 is done.
abbrev pub initial : Session
initial = record {
  directory = directory;
  participants = [];
  events = [];
  applications = [];
  tasks =
      task 10 TaskStatus.not_started
      ∷ task 11 TaskStatus.in_progress
      ∷ task 12 TaskStatus.ready_for_validation
      ∷ finished
      ∷ [];
  task_dependencies = [];
  milestones = [];
  milestone_dependencies = [];
  milestone_tasks = [];
  blockers = [];
  validations = submission ∷ [];
  issues = [];
  alerts = [];
  plans = [];
  plan_versions = [];
  plan_version_tasks = [];
  plan_version_task_dependencies = [];
  plan_version_milestones = [];
  overrides = [];
  audit = [];
  outbox = [];
  clock_readings = λ n. n;
  uuid_supply = λ n. n + 1000;
  draws = 0;
}

-- What a run returned and left, with a default for a run that raised.
abbrev pub value_of : {A : Type 0} → Result (A × Session) → A → A
value_of (ok (a, s)) d = a
value_of (err e) d = d

abbrev pub state_of : {A : Type 0} → Result (A × Session) → Session
state_of (ok (a, s)) = s
state_of (err e) = initial

abbrev pub sample_edge : TaskDependency
sample_edge = record {
  id = 700;
  dr_event_id = 5;
  predecessor_task_id = 10;
  successor_task_id = 11;
  strength = hard;
  created_by_user_id = 1;
  created_at = 0;
  deleted_at = none;
}

-- A Milestone that Task 13 alone contributes to.
abbrev pub milestone : Milestone
milestone = record {
  id = 50;
  dr_event_id = 5;
  work_stream_id = none;
  dr_application_id = none;
  status = MilestoneStatus.not_started;
  confirmation_mode = manual;
  ready_for_confirmation_at = none;
  achieved_at = none;
  target_at = none;
  owner_user_id = none;
  version = 1;
  updated_at = 0;
  deleted_at = none;
}

abbrev pub with_milestone : Session
with_milestone = record initial {
  milestones = milestone ∷ [];
  milestone_tasks = record { milestone_id = 50; task_id = 13; is_required = true } ∷ [];
}

abbrev pub reader_role : RoleAssignment
reader_role = record {
  user_id = 3;
  role_key = global_readonly;
  scope_type = global_scope;
  scope_id = none;
  revoked_at = none;
}

-- The Event with an auditor, user 3.
abbrev pub with_reader : Session
with_reader = record initial {
  directory = record directory { role_assignments = reader_role ∷ directory.role_assignments };
}
