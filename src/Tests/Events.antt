-- ===== src/Tests/Events.antt =====
-- A sample DR Event with one Application, and the commands of its services run on it.
use syntrix_dr.Prelude.{◌≡◌, refl, true, false, none, some, [], ◌∷◌}
use syntrix_dr.Prelude.Text.{clean}
use syntrix_dr.Db.{
  Session, DrEvent, EventStatus, planned, active, failover_in_progress, closed, DrApplication,
  ApplicationStatus, technical_validation, Validation, pending, dr_application_target, Blocker,
  resolved, TaskStatus,
}
use syntrix_dr.Db.Writing.{
  choose, ◌>>=◌, query, guard, expect, when, now, write_audit, write_outbox,
}
use syntrix_dr.Db.Writing.Steps.{done}
use syntrix_dr.Graph.Kahn.{has_cycle}
use syntrix_dr.Access.Roles.{list_active_roles}
use syntrix_dr.Access.Authorization.{can, global_admin_role_is_effective}
use syntrix_dr.Access.Visibility.{user_can_see_event}
use syntrix_dr.Validations.{close_task_validation}
use syntrix_dr.Validations.Applications.{
  get_pending_application_validation, close_application_validation,
}
use syntrix_dr.Events.Lifecycle.{activate, start_failover, close}
use syntrix_dr.Events.Applications.{validate}
use syntrix_dr.Blockers.Lifecycle.{verify}
use syntrix_dr.Tasks.Guards.{finish_task}
use syntrix_dr.Tasks.Loads.{save_task}
use syntrix_dr.Milestones.Transitions.{on_task_changed}
use syntrix_dr.Tests.Samples.{initial, task, value_of, state_of}

abbrev pub event : EventStatus → DrEvent
event status = record {
  id = 5;
  status = status;
  parent_dr_event_id = none;
  event_timezone = "UTC";
  coordinator_user_id = none;
  network_cut_at = none;
  baseline_plan_version_id = none;
  failback_started_at = none;
  completed_at = none;
  cancelled_at = none;
  cancel_reason = none;
  version = 1;
  updated_at = 0;
  deleted_at = none;
}

abbrev pub application : ApplicationStatus → DrApplication
application status = record {
  id = 20;
  dr_event_id = 5;
  application_id = 30;
  effective_tier_id = 60;
  effective_sla_minutes = 240;
  rto_target_minutes = 240;
  status = status;
  rpo_target_minutes = none;
  rpo_not_applicable = true;
  failback_required = true;
  sla_start_at = none;
  technical_validated_at = none;
  version = 1;
  updated_at = 0;
  deleted_at = none;
}

abbrev pub with_event : EventStatus → ApplicationStatus → Session
with_event e a = record initial {
  events = event e ∷ [];
  applications = application a ∷ [];
  validations = [];
}

abbrev pub before_activation : Session
before_activation = with_event planned ApplicationStatus.not_started

abbrev pub active_event : DrEvent
active_event = value_of (activate 1 5 1 none before_activation) (event planned)

abbrev pub after_activation : Session
after_activation = state_of (activate 1 5 1 none before_activation)

pub activation-runs : activate 1 5 1 none before_activation ≡ done active_event after_activation
unfolding activate has_cycle choose query guard expect when now write_audit write_outbox ◌>>=◌
    list_active_roles global_admin_role_is_effective can clean
activation-runs = refl

abbrev pub before_failover : Session
before_failover = with_event active ApplicationStatus.not_started

abbrev pub cut_event : DrEvent
cut_event = value_of (start_failover 1 5 1 none before_failover) (event active)

abbrev pub after_failover : Session
after_failover = state_of (start_failover 1 5 1 none before_failover)

pub failover-runs : start_failover 1 5 1 none before_failover ≡ done cut_event after_failover
unfolding start_failover choose query guard expect when now write_audit write_outbox ◌>>=◌
    list_active_roles global_admin_role_is_effective can
failover-runs = refl

abbrev pub before_close : Session
before_close = with_event EventStatus.failback_in_progress ApplicationStatus.completed

abbrev pub closed_event : DrEvent
closed_event = value_of (close 1 5 1 none before_close) (event active)

abbrev pub after_close : Session
after_close = state_of (close 1 5 1 none before_close)

pub close-runs : close 1 5 1 none before_close ≡ done closed_event after_close
unfolding close choose query guard expect when now write_audit write_outbox ◌>>=◌ list_active_roles
    global_admin_role_is_effective can clean
close-runs = refl

-- User 2 asked for the technical validation.
abbrev pub request : Validation
request = record {
  id = 901;
  target_type = dr_application_target;
  target_id = 20;
  status = pending;
  verification_note = some "phase:FAILOVER";
  validator_user_id = none;
  submitted_at = 0;
  reviewed_at = none;
  approved_at = none;
  note = none;
  business_confirmed = false;
  business_confirmation_note = none;
  created_by_user_id = 2;
  version = 1;
  updated_at = 0;
  deleted_at = none;
}

abbrev pub before_verdict : Session
before_verdict = record (with_event failover_in_progress technical_validation) {
  validations = request ∷ [];
}

abbrev pub approved_application : DrApplication
approved_application =
    value_of (validate 1 20 1 true none false none before_verdict)
      (application technical_validation)

abbrev pub after_verdict : Session
after_verdict = state_of (validate 1 20 1 true none false none before_verdict)

pub verdict-runs :
    validate 1 20 1 true none false none before_verdict ≡ done approved_application after_verdict
unfolding validate get_pending_application_validation close_application_validation
    close_task_validation choose query guard expect when now write_audit write_outbox ◌>>=◌
    user_can_see_event list_active_roles global_admin_role_is_effective can clean
verdict-runs = refl

-- The one Blocker of Task 11, fixed and waiting to be verified.
abbrev pub fixed_blocker : Blocker
fixed_blocker = record {
  id = 40;
  task_id = 11;
  reason = "no power";
  status = resolved;
  created_by_user_id = 2;
  blocker_team_id = none;
  blocker_owner_user_id = some 2;
  blocked_at = 0;
  claimed_at = some 0;
  resolved_at = some 0;
  verified_at = none;
  closed_at = none;
  resolution_note = none;
  version = 4;
  updated_at = 0;
  deleted_at = none;
}

abbrev pub before_verify : Session
before_verify = record initial {
  tasks = task 11 TaskStatus.blocked ∷ [];
  blockers = fixed_blocker ∷ [];
}

abbrev pub verified_blocker : Blocker
verified_blocker = value_of (verify 1 40 4 before_verify) fixed_blocker

abbrev pub after_verify : Session
after_verify = state_of (verify 1 40 4 before_verify)

pub verify-runs : verify 1 40 4 before_verify ≡ done verified_blocker after_verify
unfolding verify choose query guard expect when now write_audit write_outbox ◌>>=◌
    user_can_see_event list_active_roles global_admin_role_is_effective can finish_task save_task
    on_task_changed
verify-runs = refl

-- Another Event, which is closed.
abbrev pub other_event : DrEvent
other_event = record (event closed) { id = 6 }

abbrev pub with_other : Session
with_other = record before_activation { events = event planned ∷ other_event ∷ [] }

abbrev pub beside_other : DrEvent
beside_other = value_of (activate 1 5 1 none with_other) (event planned)

abbrev pub after_beside : Session
after_beside = state_of (activate 1 5 1 none with_other)

pub beside-runs : activate 1 5 1 none with_other ≡ done beside_other after_beside
unfolding activate has_cycle choose query guard expect when now write_audit write_outbox ◌>>=◌
    list_active_roles global_admin_role_is_effective can clean
beside-runs = refl
