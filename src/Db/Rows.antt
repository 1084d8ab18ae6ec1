-- ===== src/Db/Rows.antt =====
-- Rows of Events, Applications, Tasks, dependencies, Milestones, Blockers, Validations, overrides, the
-- audit log and the outbox (the models.py of dr_events, tasks_dependencies, milestones, blockers,
-- validation_evidence and core), with the columns that the modelled code reads or writes.
use syntrix_dr.Prelude.{ℕ, String, Bool, Option, List}

pub data EventStatus : Type 0 where
  planned active failover_in_progress failed_over failback_in_progress closed cancelled :
      EventStatus

pub record DrEvent : Type 0 where
  pub id : ℕ
  pub status : EventStatus
  pub parent_dr_event_id : Option ℕ
  pub event_timezone : String
  pub coordinator_user_id : Option ℕ
  pub network_cut_at : Option ℕ
  pub baseline_plan_version_id : Option ℕ
  pub failback_started_at : Option ℕ
  pub completed_at : Option ℕ
  pub cancelled_at : Option ℕ
  pub cancel_reason : Option String
  pub version : ℕ
  pub updated_at : ℕ
  pub deleted_at : Option ℕ

pub data ApplicationStatus : Type 0 where
  not_started recovering technical_validation failed_over failback_in_progress completed :
      ApplicationStatus

pub record DrApplication : Type 0 where
  pub id : ℕ
  pub dr_event_id : ℕ
  pub application_id : ℕ
  pub effective_tier_id : ℕ
  pub effective_sla_minutes : ℕ
  pub rto_target_minutes : ℕ
  pub status : ApplicationStatus
  pub rpo_target_minutes : Option ℕ
  pub rpo_not_applicable : Bool
  pub failback_required : Bool
  pub sla_start_at : Option ℕ
  pub technical_validated_at : Option ℕ
  pub version : ℕ
  pub updated_at : ℕ
  pub deleted_at : Option ℕ

pub data TaskPhase : Type 0 where
  pre_dr failover validation failback post_dr : TaskPhase

pub data TaskStatus : Type 0 where
  not_started in_progress blocked ready_for_validation completed cancelled : TaskStatus

pub record Task : Type 0 where
  pub id : ℕ
  pub dr_event_id : ℕ
  pub dr_application_id : Option ℕ
  pub work_stream_id : Option ℕ
  pub phase : TaskPhase
  pub status : TaskStatus
  pub owning_team_id : ℕ
  pub current_assignee_user_id : Option ℕ
  pub started_at : Option ℕ
  pub completed_at : Option ℕ
  pub evidence_required : Bool
  pub evidence_min_count : ℕ
  pub verification_note_required : Bool
  pub version : ℕ
  pub updated_at : ℕ
  pub deleted_at : Option ℕ

pub data Strength : Type 0 where
  hard advisory : Strength

-- `dependency_type` has the one value FINISH_TO_START.
pub record TaskDependency : Type 0 where
  pub id : ℕ
  pub dr_event_id : ℕ
  pub predecessor_task_id : ℕ
  pub successor_task_id : ℕ
  pub strength : Strength
  pub created_by_user_id : ℕ
  pub created_at : ℕ
  pub deleted_at : Option ℕ

pub record MilestoneDependency : Type 0 where
  pub id : ℕ
  pub milestone_id : ℕ
  pub successor_task_id : ℕ
  pub strength : Strength
  pub created_by_user_id : ℕ
  pub created_at : ℕ
  pub deleted_at : Option ℕ

pub data MilestoneStatus : Type 0 where
  not_started in_progress at_risk ready_for_confirmation achieved missed : MilestoneStatus

pub data ConfirmationMode : Type 0 where
  manual automatic : ConfirmationMode

pub record Milestone : Type 0 where
  pub id : ℕ
  pub dr_event_id : ℕ
  pub work_stream_id : Option ℕ
  pub dr_application_id : Option ℕ
  pub status : MilestoneStatus
  pub confirmation_mode : ConfirmationMode
  pub ready_for_confirmation_at : Option ℕ
  pub achieved_at : Option ℕ
  pub target_at : Option ℕ
  pub owner_user_id : Option ℕ
  pub version : ℕ
  pub updated_at : ℕ
  pub deleted_at : Option ℕ

pub record MilestoneTask : Type 0 where
  pub milestone_id : ℕ
  pub task_id : ℕ
  pub is_required : Bool

pub data BlockerStatus : Type 0 where
  open_blocker assigned in_progress resolved verified closed : BlockerStatus

pub record Blocker : Type 0 where
  pub id : ℕ
  pub task_id : ℕ
  pub reason : String
  pub status : BlockerStatus
  pub created_by_user_id : ℕ
  pub blocker_team_id : Option ℕ
  pub blocker_owner_user_id : Option ℕ
  pub blocked_at : ℕ
  pub claimed_at : Option ℕ
  pub resolved_at : Option ℕ
  pub verified_at : Option ℕ
  pub closed_at : Option ℕ
  pub resolution_note : Option String
  pub version : ℕ
  pub updated_at : ℕ
  pub deleted_at : Option ℕ

-- The canonical target types (core/target_types.py), as far as the modelled code names them.
pub data TargetType : Type 0 where
  dr_event_target dr_application_target task_target task_dependency_target : TargetType
  milestone_target blocker_target validation_target issue_target plan_target plan_version_target :
      TargetType

pub data ValidationStatus : Type 0 where
  pending in_review approved rejected remediation : ValidationStatus

pub record Validation : Type 0 where
  pub id : ℕ
  pub target_type : TargetType
  pub target_id : ℕ
  pub status : ValidationStatus
  pub verification_note : Option String
  pub validator_user_id : Option ℕ
  pub submitted_at : ℕ
  pub reviewed_at : Option ℕ
  pub approved_at : Option ℕ
  pub note : Option String
  pub business_confirmed : Bool
  pub business_confirmation_note : Option String
  pub created_by_user_id : ℕ
  pub version : ℕ
  pub updated_at : ℕ
  pub deleted_at : Option ℕ

pub data EvidenceType : Type 0 where
  text log external_link file screenshot : EvidenceType

pub data ScanStatus : Type 0 where
  scan_pending clean infected : ScanStatus

pub record EvidenceItem : Type 0 where
  pub target_type : TargetType
  pub target_id : ℕ
  pub evidence_type : EvidenceType
  pub malware_scan_status : Option ScanStatus
  pub deleted_at : Option ℕ

-- The JSON values of payloads.
pub data Json : Type 0 where
  null : Json
  bool : Bool → Json
  number : ℕ → Json
  string : String → Json
  uuid : ℕ → Json
  uuids : List ℕ → Json
  time : ℕ → Json
  strings : List String → Json

abbrev pub Payload : Type 0
Payload = List (String × Json)

pub record Override : Type 0 where
  pub dr_event_id : ℕ
  pub target_type : TargetType
  pub target_id : ℕ
  pub override_type : String
  pub policy_key : Option String
  pub reason : String
  pub performed_by_user_id : ℕ
  pub details : Payload

pub data ActorType : Type 0 where
  user_actor system_actor : ActorType

pub record AuditEvent : Type 0 where
  pub dr_event_id : Option ℕ
  pub actor_user_id : Option ℕ
  pub actor_type : ActorType
  pub entity_type : TargetType
  pub entity_id : ℕ
  pub action : String
  pub before_data : Option Payload
  pub after_data : Option Payload
  pub metadata : Payload

pub data OutboxEventType : Type 0 where
  task_changed blocker_changed milestone_changed event_state_changed : OutboxEventType
  application_health_changed issue_changed : OutboxEventType

pub record OutboxEvent : Type 0 where
  pub aggregate_type : TargetType
  pub aggregate_id : ℕ
  pub dr_event_id : Option ℕ
  pub event_type : OutboxEventType
  pub payload : Payload
  pub occurred_at : ℕ

pub data IssueStatus : Type 0 where
  issue_open issue_in_review issue_resolved issue_dismissed : IssueStatus

pub record IssueFinding : Type 0 where
  pub id : ℕ
  pub dr_event_id : ℕ
  pub dr_application_id : Option ℕ
  pub work_stream_id : Option ℕ
  pub task_id : Option ℕ
  pub item_type : String
  pub status : IssueStatus
  pub title : String
  pub description : String
  pub priority : Option String
  pub owner_user_id : Option ℕ
  pub resolution_note : Option String
  pub version : ℕ
  pub created_by_user_id : ℕ
  pub created_at : ℕ
  pub updated_at : ℕ
  pub resolved_at : Option ℕ
  pub deleted_at : Option ℕ

-- The alert types that the modelled code names.
pub data AlertType : Type 0 where
  blocker_escalated other_alert : AlertType

pub record Alert : Type 0 where
  pub alert_type : AlertType
  pub target_type : Option TargetType
  pub target_id : Option ℕ
  pub resolved_at : Option ℕ

pub data PlanType : Type 0 where
  failover_plan failback_plan general_plan : PlanType

pub record Plan : Type 0 where
  pub id : ℕ
  pub name : String
  pub description : Option String
  pub plan_type : PlanType
  pub application_id : Option ℕ
  pub created_by_user_id : ℕ

pub data PlanVersionType : Type 0 where
  draft baseline execution final : PlanVersionType

pub record PlanVersion : Type 0 where
  pub id : ℕ
  pub plan_id : Option ℕ
  pub dr_event_id : Option ℕ
  pub version_number : ℕ
  pub version_type : PlanVersionType
  pub created_by_user_id : ℕ
  pub created_at : ℕ

-- One row of plan_version_tasks, plan_version_task_dependencies or plan_version_milestones: the three
-- tables have the same columns up to their names.
pub record SnapshotRow : Type 0 where
  pub plan_version_id : ℕ
  pub source_id : Option ℕ
  pub snapshot_data : Payload
