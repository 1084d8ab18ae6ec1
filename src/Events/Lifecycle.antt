-- ===== src/Events/Lifecycle.antt =====
-- `DrEventTransitionService` of dr_events/transition_service.py.
pub mod Steps
pub mod Moves
use syntrix_dr.Prelude.{
  ℕ, ◌+◌, String, Bool, true, false, not, ◌&&◌, ◌||◌, Option, none, some, List, [], ◌∷◌, ◌++◌, map,
  ◌==◌, leb, is_none, select, if◌then◌else◌, is_nil,
}
use syntrix_dr.Prelude.Text.{clean}
use syntrix_dr.Db.{
  Session, Command, ok, Error, authorization_required, concurrency_conflict, dr_event_not_found,
  invalid_event_transition, readiness_hard_stop, network_cut_at_out_of_bounds,
  cancel_reason_required, closure_blocked_by_child, failback_required_before_close,
  monitoring_closure_warning, override_reason_required, DrEvent, EventStatus, planned, active,
  failover_in_progress, failed_over, failback_in_progress, closed, cancelled, DrApplication,
  ApplicationStatus, PlanVersion, Override, Payload, get_row, put_row, dr_event_target,
  dr_application_target, event_state_changed, user_actor, string, number, uuids, strings, time,
}
use syntrix_dr.Db.Writing.{
  ◌>>=◌, ◌>>◌, pure, query, modify, guard, choose, expect, now, write_audit, write_outbox,
  record_override,
}
use syntrix_dr.Access.Grants.{event_lifecycle_command, closure_exception_override}
use syntrix_dr.Access.Authorization.{can, no_scope}
use syntrix_dr.Plans.{capture_baseline_snapshot}
use syntrix_dr.Events.Queries.{
  is_terminal_event, has_non_terminal_children, in_event, failback_pending,
  unfinished_monitoring_task_ids,
}
use syntrix_dr.Events.Readiness.{
  ReadinessResult, key_name, is_non_overridable, evaluate_readiness, has_severity,
}

-- `_LEGAL_TRANSITIONS`
unfoldable pub legal_event_move : EventStatus → EventStatus → Bool
legal_event_move planned active = true
legal_event_move active failover_in_progress = true
legal_event_move failover_in_progress EventStatus.failed_over = true
legal_event_move EventStatus.failed_over EventStatus.failback_in_progress = true
legal_event_move EventStatus.failed_over closed = true
legal_event_move EventStatus.failback_in_progress closed = true
legal_event_move _ _ = false

abbrev pub event_status_name : EventStatus → String
event_status_name planned = "PLANNED"
event_status_name active = "ACTIVE"
event_status_name failover_in_progress = "FAILOVER_IN_PROGRESS"
event_status_name EventStatus.failed_over = "FAILED_OVER"
event_status_name EventStatus.failback_in_progress = "FAILBACK_IN_PROGRESS"
event_status_name closed = "CLOSED"
event_status_name cancelled = "CANCELLED"

abbrev pub is_failed_over_event : EventStatus → Bool
is_failed_over_event EventStatus.failed_over = true
is_failed_over_event _ = false

-- `AuthorizationService.require(session, actor_id, Capability.EVENT_LIFECYCLE_COMMAND)`
unfoldable pub require_lifecycle : (actor_id : ℕ) → Command (Unit {0})
unfolding can
require_lifecycle actor_id = do
  allowed ← query (λ s. ok (can s actor_id event_lifecycle_command no_scope))
  guard allowed authorization_required

-- `_load_for_update` and the version check.
unfoldable pub load_event : (event_id expected_version : ℕ) → Command DrEvent
unfolding get_row
load_event event_id expected_version = do
  found ← query (λ s. ok (get_row (λ e. e.id) event_id s.events))
  event ← expect found dr_event_not_found
  guard (event.version == expected_version) concurrency_conflict
  pure event

-- The opening that five of the commands share: authorization before existence, then the version, then
-- `_assert_legal`.
unfoldable pub begin_transition :
    (actor_id event_id expected_version : ℕ) (target : EventStatus) → Command DrEvent
unfolding require_lifecycle load_event legal_event_move
begin_transition actor_id event_id expected_version target = do
  require_lifecycle actor_id
  event ← load_event event_id expected_version
  guard (legal_event_move event.status target) (invalid_event_transition event.status target)
  pure event

unfoldable pub save_event : DrEvent → Command (Unit {0})
unfolding put_row
save_event e = modify (λ s. record s { events = put_row (λ r. r.id) e s.events })

abbrev pub event_snapshot : DrEvent → Payload
event_snapshot e =
    ("status", string (event_status_name e.status)) ∷ ("version", number e.version) ∷ []

-- `_mutate_and_finish`: the version, the row, the audit row and the outbox row.
unfoldable pub finish_event :
    (event : DrEvent) (actor_id : ℕ) (before : Payload) (new_status : EventStatus) (action : String)
    (extra_after : Payload)
    → Command DrEvent
unfolding save_event
finish_event event actor_id before new_status action extra_after = do
  at ← now
  let moved : DrEvent = record event { version = event.version + 1; updated_at = at }
  save_event moved
  write_audit record {
    dr_event_id = some moved.id;
    actor_user_id = some actor_id;
    actor_type = user_actor;
    entity_type = dr_event_target;
    entity_id = moved.id;
    action = action;
    before_data = some before;
    after_data = some (event_snapshot moved ++ extra_after);
    metadata = [];
  }
  write_outbox dr_event_target moved.id event_state_changed
      (("status", string (event_status_name new_status)) ∷ []) (some moved.id)
  pure moved

-- `[r for r in results if r.severity == severity and not r.satisfied]`
abbrev pub failures : String → List ReadinessResult → List ReadinessResult
failures severity = select (λ r. has_severity severity r && not r.satisfied)

abbrev pub keys_of : List ReadinessResult → List String
keys_of = map (λ r. key_name r.key)

-- The reason as it was given, if it is not blank.
abbrev pub unless_blank : Option String → Option String → Option String
unless_blank reason none = none
unless_blank reason (some stripped) = reason

abbrev pub given_reason : Option String → Option String
given_reason reason = unless_blank reason (clean reason)

-- One audited override per failed key.
unfoldable pub override_each :
    (actor_id event_id : ℕ) (override_reason : String) → List ReadinessResult → Command (Unit {0})
override_each actor_id event_id override_reason [] = pure tt
override_each actor_id event_id override_reason (result ∷ results) = do
  record_override record {
    dr_event_id = event_id;
    target_type = dr_event_target;
    target_id = event_id;
    override_type = "READINESS_OVERRIDE";
    policy_key = some (key_name result.key);
    reason = override_reason;
    performed_by_user_id = actor_id;
    details = [];
  }
  write_audit record {
    dr_event_id = some event_id;
    actor_user_id = some actor_id;
    actor_type = user_actor;
    entity_type = dr_event_target;
    entity_id = event_id;
    action = "READINESS_OVERRIDE_RECORDED";
    before_data = none;
    after_data =
        some
          (("policy_key", string (key_name result.key)) ∷ ("reason", string override_reason) ∷ []);
    metadata = [];
  }
  override_each actor_id event_id override_reason results

-- What `activate` does about the HARD_STOP failures.
unfoldable pub pass_hard_stops :
    (actor_id event_id : ℕ) (override_reason : Option String)
    (hard_stop_failures : List ReadinessResult)
    → Command (Unit {0})
unfolding override_each clean
pass_hard_stops actor_id event_id override_reason hard_stop_failures =
    choose (is_nil hard_stop_failures) (pure tt) (do
      reason ←
          expect (given_reason override_reason) (readiness_hard_stop (keys_of hard_stop_failures))
      let unoverridable = select (λ r. is_non_overridable r.key) hard_stop_failures
      guard (is_nil unoverridable) (readiness_hard_stop (keys_of unoverridable))
      override_each actor_id event_id reason hard_stop_failures)

unfoldable pub activate :
    (actor_id event_id expected_version : ℕ) (override_reason : Option String) → Command DrEvent
unfolding begin_transition evaluate_readiness pass_hard_stops finish_event
activate actor_id event_id expected_version override_reason = do
  event ← begin_transition actor_id event_id expected_version active
  readiness_results ← query (λ s. ok (evaluate_readiness s event))
  pass_hard_stops actor_id event.id override_reason (failures "HARD_STOP" readiness_results)
  finish_event (record event { status = active }) actor_id (event_snapshot event) active
      "DR_EVENT_ACTIVATED"
      ((
        "readiness_hard_stop_overridden",
        strings (keys_of (failures "HARD_STOP" readiness_results)),
      )
        ∷ ("readiness_warnings", strings (keys_of (failures "WARNING" readiness_results)))
        ∷ [])

unfoldable pub save_application : DrApplication → Command (Unit {0})
unfolding put_row
save_application a = modify (λ s. record s { applications = put_row (λ r. r.id) a s.applications })

abbrev pub application_status_name : ApplicationStatus → String
application_status_name ApplicationStatus.not_started = "NOT_STARTED"
application_status_name ApplicationStatus.recovering = "RECOVERING"
application_status_name ApplicationStatus.technical_validation = "TECHNICAL_VALIDATION"
application_status_name ApplicationStatus.failed_over = "FAILED_OVER"
application_status_name ApplicationStatus.failback_in_progress = "FAILBACK_IN_PROGRESS"
application_status_name ApplicationStatus.completed = "COMPLETED"

-- The side effect on one Application: the moved row, and the audit row with the two statuses.
unfoldable pub move_application :
    (actor_id event_id : ℕ) (action : String) (application moved : DrApplication)
    → Command (Unit {0})
unfolding save_application
move_application actor_id event_id action application moved = do
  save_application moved
  write_audit record {
    dr_event_id = some event_id;
    actor_user_id = some actor_id;
    actor_type = user_actor;
    entity_type = dr_application_target;
    entity_id = application.id;
    action = action;
    before_data = some (("status", string (application_status_name application.status)) ∷ []);
    after_data = some (("status", string (application_status_name moved.status)) ∷ []);
    metadata = [];
  }

-- The loop over the Applications that the query returned.
unfoldable pub move_each :
    (actor_id event_id : ℕ) (action : String) (move : DrApplication → DrApplication)
    → List DrApplication
    → Command (Unit {0})
unfolding move_application
move_each actor_id event_id action move [] = pure tt
move_each actor_id event_id action move (a ∷ applications) = do
  move_application actor_id event_id action a (move a)
  move_each actor_id event_id action move applications

abbrev pub is_waiting : ApplicationStatus → Bool
is_waiting ApplicationStatus.not_started = true
is_waiting _ = false

-- NOT_STARTED → RECOVERING
abbrev pub recovering_at : (cut_at at : ℕ) → DrApplication → DrApplication
recovering_at cut_at at a = record a {
  status = ApplicationStatus.recovering;
  sla_start_at = some cut_at;
  version = a.version + 1;
  updated_at = at;
}

abbrev pub or_now : Option ℕ → ℕ → ℕ
or_now none at = at
or_now (some t) at = t

-- `if baseline_version is not None: event.baseline_plan_version_id = baseline_version.id`
abbrev pub with_baseline : Option PlanVersion → DrEvent → DrEvent
with_baseline none event = event
with_baseline (some version) event = record event { baseline_plan_version_id = some version.id }

unfoldable pub start_failover :
    (actor_id event_id expected_version : ℕ) (network_cut_at : Option ℕ) → Command DrEvent
unfolding begin_transition capture_baseline_snapshot move_each finish_event
start_failover actor_id event_id expected_version network_cut_at = do
  event ← begin_transition actor_id event_id expected_version failover_in_progress
  at ← now
  let cut_at = or_now network_cut_at at
  guard (leb event.updated_at cut_at && leb cut_at at) network_cut_at_out_of_bounds
  baseline_version ← capture_baseline_snapshot actor_id event.id
  applications ←
      query (λ s. ok (select (λ a. in_event event.id a && is_waiting a.status) s.applications))
  move_each actor_id event.id "DR_APPLICATION_RECOVERING" (recovering_at cut_at at) applications
  finish_event
      (with_baseline baseline_version
        (record event { status = failover_in_progress; network_cut_at = some cut_at }))
      actor_id (event_snapshot event) failover_in_progress "DR_EVENT_FAILOVER_STARTED"
      (("network_cut_at", time cut_at) ∷ [])

unfoldable pub mark_failed_over : (actor_id event_id expected_version : ℕ) → Command DrEvent
unfolding begin_transition finish_event
mark_failed_over actor_id event_id expected_version = do
  event ← begin_transition actor_id event_id expected_version EventStatus.failed_over
  finish_event (record event { status = EventStatus.failed_over }) actor_id (event_snapshot event)
      EventStatus.failed_over "DR_EVENT_FAILED_OVER" []

abbrev pub is_failed_over_application : ApplicationStatus → Bool
is_failed_over_application ApplicationStatus.failed_over = true
is_failed_over_application _ = false

-- FAILED_OVER → FAILBACK_IN_PROGRESS
abbrev pub failing_back_at : (at : ℕ) → DrApplication → DrApplication
failing_back_at at a = record a {
  status = ApplicationStatus.failback_in_progress;
  version = a.version + 1;
  updated_at = at;
}

unfoldable pub start_failback : (actor_id event_id expected_version : ℕ) → Command DrEvent
unfolding begin_transition move_each finish_event
start_failback actor_id event_id expected_version = do
  event ← begin_transition actor_id event_id expected_version EventStatus.failback_in_progress
  at ← now
  applications ← query (λ s. ok (
      select
        (λ a. in_event event.id a && is_failed_over_application a.status && a.failback_required)
        s.applications))
  move_each actor_id event.id "DR_APPLICATION_FAILBACK_STARTED" (failing_back_at at) applications
  finish_event
      (record event { status = EventStatus.failback_in_progress; failback_started_at = some at })
      actor_id (event_snapshot event) EventStatus.failback_in_progress "DR_EVENT_FAILBACK_STARTED"
      []

abbrev pub closure_exception :
    (actor_id event_id : ℕ) (monitoring : List ℕ) (reason : String) → Override
closure_exception actor_id event_id monitoring reason = record {
  dr_event_id = event_id;
  target_type = dr_event_target;
  target_id = event_id;
  override_type = "CLOSURE_EXCEPTION";
  policy_key = none;
  reason = reason;
  performed_by_user_id = actor_id;
  details = ("monitoring_task_ids", uuids monitoring) ∷ [];
}

-- D-227: an audited closure exception.
unfoldable pub record_closure_exception :
    (actor_id event_id : ℕ) (monitoring : List ℕ) (reason : String) → Command (Unit {0})
record_closure_exception actor_id event_id monitoring reason = do
  record_override (closure_exception actor_id event_id monitoring reason)
  write_audit record {
    dr_event_id = some event_id;
    actor_user_id = some actor_id;
    actor_type = user_actor;
    entity_type = dr_event_target;
    entity_id = event_id;
    action = "CLOSURE_EXCEPTION_RECORDED";
    before_data = none;
    after_data = some (("reason", string reason) ∷ ("monitoring_task_ids", uuids monitoring) ∷ []);
    metadata = [];
  }

-- The guard on unfinished Tasks of MONITORING Work Streams.
unfoldable pub pass_monitoring :
    (actor_id event_id : ℕ) (monitoring : List ℕ) (closure_exception_reason : Option String)
    → Command (Unit {0})
unfolding can record_closure_exception clean
pass_monitoring actor_id event_id monitoring closure_exception_reason =
    choose (is_nil monitoring) (pure tt) (do
      given ← expect closure_exception_reason (monitoring_closure_warning monitoring)
      reason ← expect (clean (some given)) (override_reason_required "A closure exception")
      allowed ← query (λ s. ok (can s actor_id closure_exception_override no_scope))
      guard allowed authorization_required
      record_closure_exception actor_id event_id monitoring reason)

unfoldable pub close :
    (actor_id event_id expected_version : ℕ) (closure_exception_reason : Option String)
    → Command DrEvent
unfolding begin_transition has_non_terminal_children failback_pending unfinished_monitoring_task_ids
    pass_monitoring finish_event
close actor_id event_id expected_version closure_exception_reason = do
  event ← begin_transition actor_id event_id expected_version closed
  children ← query (λ s. ok (has_non_terminal_children s event.id))
  guard (not children) closure_blocked_by_child
  pending ← query (λ s. ok (failback_pending s event.id))
  guard (not (is_failed_over_event event.status && pending)) failback_required_before_close
  monitoring ← query (λ s. ok (unfinished_monitoring_task_ids s event.id))
  pass_monitoring actor_id event.id monitoring closure_exception_reason
  at ← now
  finish_event (record event { status = closed; completed_at = some at }) actor_id
      (event_snapshot event) closed "DR_EVENT_CLOSED" []

unfoldable pub cancel : (actor_id event_id expected_version : ℕ) (reason : String) → Command DrEvent
unfolding require_lifecycle load_event finish_event clean
cancel actor_id event_id expected_version reason = do
  expect (clean (some reason)) cancel_reason_required
  require_lifecycle actor_id
  event ← load_event event_id expected_version
  guard (not (is_terminal_event event.status)) (invalid_event_transition event.status cancelled)
  at ← now
  finish_event
      (record event { status = cancelled; cancelled_at = some at; cancel_reason = some reason })
      actor_id (event_snapshot event) cancelled "DR_EVENT_CANCELLED"
      (("cancel_reason", string reason) ∷ [])
