-- ===== src/Events/Applications.antt =====
-- `DrApplicationTransitionService` of dr_events/transition_service.py, and who may call it
-- (dr_events/policies.py).
pub mod Moves
use syntrix_dr.Prelude.{
  ℕ, ◌+◌, String, Bool, true, false, not, ◌&&◌, ◌||◌, Option, none, some, List, [], ◌∷◌, ◌++◌, ◌==◌,
  is_none, is_some, is_nil, if◌then◌else◌,
}
use syntrix_dr.Prelude.Text.{clean}
use syntrix_dr.Db.{
  Session, Command, ok, authorization_required, concurrency_conflict, dr_application_not_found,
  invalid_application_transition, application_tasks_unfinished, rejection_note_required,
  self_validation_forbidden, DrApplication, ApplicationStatus, not_started, recovering,
  technical_validation, completed, TaskPhase, failover, failback, Payload, Validation, get_row,
  dr_application_target, application_health_changed, user_actor, application_scope, string, number,
  uuid, uuids, bool,
}
use syntrix_dr.Db.Writing.{
  ◌>>=◌, ◌>>◌, pure, query, guard, choose, when, expect, now, write_audit, write_outbox,
  record_override,
}
use syntrix_dr.Access.Grants.{validate_application_work}
use syntrix_dr.Access.Roles.{is_system_application_owner}
use syntrix_dr.Access.Authorization.{can, no_scope, typed_scope}
use syntrix_dr.Access.Visibility.{user_can_see_event}
use syntrix_dr.Validations.Applications.{
  get_pending_application_validation, phase_name, open_application_validation,
  close_application_validation, stripped_if_given,
}
use syntrix_dr.Events.Queries.{is_terminal_event, unfinished_phase_task_ids}
use syntrix_dr.Events.Lifecycle.{save_application, application_status_name}

unfoldable pub actor_may_validate_application : Session → ℕ → DrApplication → Bool
unfolding can is_system_application_owner
actor_may_validate_application s actor_id dr_application =
    can s actor_id validate_application_work no_scope
    || can s actor_id validate_application_work
        (typed_scope application_scope (some dr_application.application_id))
    || is_system_application_owner s dr_application.application_id actor_id

-- The live row, if its Event is visible.
unfoldable pub visible_application : Session → ℕ → ℕ → Option DrApplication
unfolding get_row user_can_see_event
visible_application s actor_id dr_application_id =
    elim (get_row (λ a. a.id) dr_application_id s.applications) [
      | none ↦ none
      | some a ↦
          if is_none a.deleted_at && user_can_see_event s actor_id a.dr_event_id
          then some a
          else none
    ]

-- `event is None or event.status in _TERMINAL_STATES`
unfoldable pub event_is_over : Session → ℕ → Bool
unfolding get_row
event_is_over s dr_event_id = elim (get_row (λ e. e.id) dr_event_id s.events) [
  | none ↦ true
  | some event ↦ is_terminal_event event.status
]

-- `_load_visible_application`
unfoldable pub load_visible_application : (actor_id dr_application_id : ℕ) → Command DrApplication
unfolding visible_application event_is_over
load_visible_application actor_id dr_application_id = do
  found ← query (λ s. ok (visible_application s actor_id dr_application_id))
  dr_application ← expect found dr_application_not_found
  over ← query (λ s. ok (event_is_over s dr_application.dr_event_id))
  guard (not over) (invalid_application_transition "act on" dr_application.status)
  pure dr_application

-- The opening of both commands: visibility, authorization, the version.
unfoldable pub begin_validation :
    (actor_id dr_application_id expected_version : ℕ) → Command DrApplication
unfolding load_visible_application actor_may_validate_application
begin_validation actor_id dr_application_id expected_version = do
  dr_application ← load_visible_application actor_id dr_application_id
  allowed ← query (λ s. ok (actor_may_validate_application s actor_id dr_application))
  guard allowed authorization_required
  guard (dr_application.version == expected_version) concurrency_conflict
  pure dr_application

-- `_app_snapshot`
abbrev pub application_snapshot : DrApplication → Payload
application_snapshot a =
    ("status", string (application_status_name a.status)) ∷ ("version", number a.version) ∷ []

-- `_finish_application`
unfoldable pub finish_application :
    (dr_application : DrApplication) (actor_id : ℕ) (before : Payload) (action : String)
    (extra : Payload) (emit_health : Bool)
    → Command DrApplication
unfolding save_application
finish_application dr_application actor_id before action extra emit_health = do
  at ← now
  let moved : DrApplication = record dr_application {
    version = dr_application.version + 1;
    updated_at = at;
  }
  save_application moved
  write_audit record {
    dr_event_id = some moved.dr_event_id;
    actor_user_id = some actor_id;
    actor_type = user_actor;
    entity_type = dr_application_target;
    entity_id = moved.id;
    action = action;
    before_data = some before;
    after_data = some (application_snapshot moved ++ extra);
    metadata = [];
  }
  when emit_health (
      write_outbox dr_application_target moved.id application_health_changed
        (("change", string action) ∷ (application_snapshot moved ++ extra))
        (some moved.dr_event_id))
  pure moved

-- `_PHASE_FOR_SUBMIT.get(status)`
abbrev pub phase_for_submit : ApplicationStatus → Option TaskPhase
phase_for_submit recovering = some failover
phase_for_submit ApplicationStatus.failback_in_progress = some failback
phase_for_submit _ = none

-- RECOVERING → TECHNICAL_VALIDATION; a failback request leaves the status alone.
abbrev pub submitted_status : ApplicationStatus → ApplicationStatus
submitted_status recovering = technical_validation
submitted_status x = x

-- An audited override of the Tasks that are still under way.
unfoldable pub override_unfinished :
    (actor_id : ℕ) (dr_application : DrApplication) (phase : TaskPhase) (unfinished : List ℕ)
    (reason : String)
    → Command (Unit {0})
override_unfinished actor_id dr_application phase unfinished reason = do
  record_override record {
    dr_event_id = dr_application.dr_event_id;
    target_type = dr_application_target;
    target_id = dr_application.id;
    override_type = "APPLICATION_VALIDATION_OVERRIDE";
    policy_key = none;
    reason = reason;
    performed_by_user_id = actor_id;
    details = ("phase", string (phase_name phase)) ∷ ("unfinished_task_ids", uuids unfinished) ∷ [];
  }
  write_audit record {
    dr_event_id = some dr_application.dr_event_id;
    actor_user_id = some actor_id;
    actor_type = user_actor;
    entity_type = dr_application_target;
    entity_id = dr_application.id;
    action = "APPLICATION_VALIDATION_OVERRIDE_RECORDED";
    before_data = none;
    after_data = some (
        ("reason", string reason)
        ∷ ("phase", string (phase_name phase))
        ∷ ("unfinished_task_ids", uuids unfinished)
        ∷ []);
    metadata = [];
  }

-- The guard of `submit_validation` on the phase's Tasks.
unfoldable pub pass_unfinished :
    (actor_id : ℕ) (dr_application : DrApplication) (phase : TaskPhase) (unfinished : List ℕ)
    (reason : Option String)
    → Command (Unit {0})
unfolding override_unfinished
pass_unfinished actor_id dr_application phase unfinished reason =
    choose (is_nil unfinished) (pure tt) (do
      text ← expect reason (application_tasks_unfinished phase unfinished)
      override_unfinished actor_id dr_application phase unfinished text)

unfoldable pub submit_validation :
    (actor_id dr_application_id expected_version : ℕ) (override_reason : Option String)
    → Command DrApplication
unfolding begin_validation get_pending_application_validation unfinished_phase_task_ids
    pass_unfinished open_application_validation finish_application clean
submit_validation actor_id dr_application_id expected_version override_reason = do
  dr_application ← begin_validation actor_id dr_application_id expected_version
  phase ←
      expect (phase_for_submit dr_application.status)
        (invalid_application_transition "submit_validation" dr_application.status)
  already ← query (get_pending_application_validation dr_application.id)
  guard (is_none already) (invalid_application_transition "submit_validation" dr_application.status)
  unfinished ← query (λ s. ok (unfinished_phase_task_ids s dr_application.id phase))
  pass_unfinished actor_id dr_application phase unfinished (clean override_reason)
  opened ← open_application_validation dr_application.id dr_application.dr_event_id phase actor_id
  finish_application (record dr_application { status = submitted_status dr_application.status })
      actor_id (application_snapshot dr_application) "DR_APPLICATION_SUBMITTED"
      (("phase", string (phase_name phase))
        ∷ ("validation_id", uuid opened.id)
        ∷ ("override", bool (is_some (clean override_reason)))
        ∷ [])
      true

-- `status in _VALIDATABLE`
abbrev pub is_validatable : ApplicationStatus → Bool
is_validatable technical_validation = true
is_validatable ApplicationStatus.failback_in_progress = true
is_validatable _ = false

abbrev pub is_failing_back : ApplicationStatus → Bool
is_failing_back ApplicationStatus.failback_in_progress = true
is_failing_back _ = false

-- The status after a verdict.
abbrev pub verdict_status :
    (approve failback_required : Bool) → ApplicationStatus → ApplicationStatus
verdict_status true failback_required ApplicationStatus.failback_in_progress = completed
verdict_status true true _ = ApplicationStatus.failed_over
verdict_status true false _ = completed
verdict_status false failback_required ApplicationStatus.failback_in_progress =
    ApplicationStatus.failback_in_progress
verdict_status false failback_required _ = recovering

-- An approval outside of failback stops the RTO clock (D-257). `NoRecoveryMetricsYet`, the one
-- `RecoveryMetrics` of the program, writes nothing.
abbrev pub judged_application : DrApplication → (approve : Bool) (at : ℕ) → DrApplication
judged_application a approve at = record a {
  status = verdict_status approve a.failback_required a.status;
  technical_validated_at =
      if approve && not (is_failing_back a.status) then some at else a.technical_validated_at;
}

unfoldable pub validate :
    (actor_id dr_application_id expected_version : ℕ) (approve : Bool) (note : Option String)
    (business_confirmed : Bool) (business_confirmation_note : Option String)
    → Command DrApplication
unfolding begin_validation get_pending_application_validation close_application_validation
    finish_application clean
validate actor_id dr_application_id expected_version approve remark business_confirmed
      business_confirmation_note =
    do
      at ← now
      dr_application ← begin_validation actor_id dr_application_id expected_version
      guard (is_validatable dr_application.status)
          (invalid_application_transition "validate" dr_application.status)
      found ← query (get_pending_application_validation dr_application.id)
      pending_row ← expect found (invalid_application_transition "validate" dr_application.status)
      guard (not (pending_row.created_by_user_id == actor_id)) self_validation_forbidden
      guard (approve || is_some (clean remark)) rejection_note_required
      close_application_validation pending_row approve actor_id (clean remark) business_confirmed
          (stripped_if_given business_confirmation_note) dr_application.dr_event_id
      finish_application (judged_application dr_application approve at) actor_id
          (application_snapshot dr_application)
          (if approve then "DR_APPLICATION_VALIDATED" else "DR_APPLICATION_VALIDATION_REJECTED")
          (("validation_id", uuid pending_row.id)
            ∷ ("failback_phase", bool (is_failing_back dr_application.status))
            ∷ [])
          true
