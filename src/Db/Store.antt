-- ===== src/Db/Store.antt =====
-- The database that a session sees, the readings of its clock, and its supply of new UUIDs.
use syntrix_dr.Prelude.{ℕ, List}
use syntrix_dr.Db.People.{
  User, LocalCredential, RoleAssignment, Team, TeamMembership, DrEventParticipant, WorkStream, Tier,
  Application, ApplicationOwner, PolicyDefinition, PolicyValue,
}
use syntrix_dr.Db.Rows.{
  DrEvent, DrApplication, Task, TaskDependency, Milestone, MilestoneDependency, MilestoneTask,
  Blocker, Validation, IssueFinding, EvidenceItem, Override, AuditEvent, OutboxEvent, Alert, Plan,
  PlanVersion, SnapshotRow,
}

-- The tables that no modelled command writes.
pub record Directory : Type 0 where
  pub users : List User
  pub local_credentials : List LocalCredential
  pub role_assignments : List RoleAssignment
  pub teams : List Team
  pub team_memberships : List TeamMembership
  pub work_streams : List WorkStream
  pub tiers : List Tier
  pub catalog : List Application
  pub application_owners : List ApplicationOwner
  pub policy_definitions : List PolicyDefinition
  pub policy_values : List PolicyValue
  pub evidence_items : List EvidenceItem

-- `clock_readings n` and `uuid_supply n` are what the n-th call of `clock.now()` and of `uuid4()` returns.
pub record Session : Type 0 where
  pub directory : Directory
  pub participants : List DrEventParticipant
  pub events : List DrEvent
  pub applications : List DrApplication
  pub tasks : List Task
  pub task_dependencies : List TaskDependency
  pub milestones : List Milestone
  pub milestone_dependencies : List MilestoneDependency
  pub milestone_tasks : List MilestoneTask
  pub blockers : List Blocker
  pub validations : List Validation
  pub issues : List IssueFinding
  pub alerts : List Alert
  pub plans : List Plan
  pub plan_versions : List PlanVersion
  pub plan_version_tasks : List SnapshotRow
  pub plan_version_task_dependencies : List SnapshotRow
  pub plan_version_milestones : List SnapshotRow
  pub overrides : List Override
  pub audit : List AuditEvent
  pub outbox : List OutboxEvent
  pub clock_readings : ℕ → ℕ
  pub uuid_supply : ℕ → ℕ
  pub draws : ℕ
