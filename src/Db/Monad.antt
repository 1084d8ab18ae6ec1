-- ===== src/Db/Monad.antt =====
-- Errors, reads and commands. A command that raises leaves nothing behind: its transaction is rolled
-- back (core/uow.py and the routes commit only after the command returned), so an error carries no session.
use syntrix_dr.Prelude.{ℕ, String, List}
use syntrix_dr.Db.Rows.{
  TaskStatus, TaskPhase, ValidationStatus, MilestoneStatus, EventStatus, ApplicationStatus,
  BlockerStatus, IssueStatus,
}
use syntrix_dr.Db.Store.{Session}

pub data TaskCommand : Type 0 where
  start block resume submit_validation validate cancel : TaskCommand

-- The subclasses of `AppError` that the modelled code raises, and what SQLAlchemy and `assert` raise.
pub data Error : Type 0 where
  task_not_found milestone_not_found milestone_gate_not_found task_dependency_not_found : Error
  authorization_required concurrency_conflict self_validation_forbidden : Error
  override_reason_required : String → Error
  invalid_task_transition : TaskCommand → TaskStatus → Error
  dependency_not_satisfied : List ℕ → List ℕ → Error
  evidence_missing : ℕ → ℕ → Error
  verification_note_missing : Error
  invalid_validation_transition : ValidationStatus → Error
  invalid_milestone_transition : String → MilestoneStatus → Error
  self_dependency cross_event_dependency dependency_exists_error : Error
  dependency_cycle : List ℕ → Error
  dr_event_not_found dr_application_not_found blocker_not_found team_not_found : Error
  user_not_found plan_not_found plan_version_not_found plan_version_baseline_not_allowed : Error
  invalid_event_transition : EventStatus → EventStatus → Error
  readiness_hard_stop : List String → Error
  network_cut_at_out_of_bounds cancel_reason_required rejection_note_required : Error
  closure_blocked_by_child failback_required_before_close : Error
  monitoring_closure_warning : List ℕ → Error
  invalid_application_transition : String → ApplicationStatus → Error
  application_tasks_unfinished : TaskPhase → List ℕ → Error
  invalid_blocker_transition : String → BlockerStatus → Error
  blocker_routing_required blocker_routing_mismatch : Error
  application_not_found tier_not_found plan_version_required : Error
  issue_not_found : Error
  invalid_issue_transition : String → IssueStatus → Error
  resolution_note_required cross_event_reference : String → Error
  integrity_error multiple_results_found assertion_failed : Error

pub data Result {ℓ} (A : Type ℓ) : Type ℓ where
  ok : A → Result A
  err : Error → Result A

-- A read: it may raise, and it changes nothing.
abbrev pub Read : Type 0 → Type 0
Read A = Session → Result A

-- A command, or a part of one.
abbrev pub Command : Type 0 → Type 0
Command A = Session → Result (A × Session)
