-- ===== src/Tests/EventWitnesses.antt =====
-- The theorems on Events, Applications and Blockers at concrete inputs.
use syntrix_dr.Prelude.{
  ℕ, ◌+◌, ◌≤◌, ◌≡◌, ◌≢◌, refl, arith, Bool, true, false, ◌&&◌, ◌||◌, none, some, [], ◌∷◌, ◌⊎◌,
  is_some, select,
}
use syntrix_dr.Prelude.Text.{clean}
use syntrix_dr.Db.{
  DrEvent, planned, closed, DrApplication, Validation, Task, TaskStatus, BlockerStatus, Blocker,
  resolved, get_row, UniqueIds, err, concurrency_conflict,
}
use syntrix_dr.Graph.Walks.{IsAcyclic}
use syntrix_dr.Graph.Kahn.{has_cycle}
use syntrix_dr.Graph.Kahn.Correct.{Decides, has_cycle-Decides}
use syntrix_dr.Tasks.Loads.{live_task}
use syntrix_dr.Tasks.LiveGraph.{live_graph_edges}
use syntrix_dr.Validations.Applications.{is_open_for_application}
use syntrix_dr.Events.Queries.{
  has_non_terminal_children, failback_pending, unfinished_monitoring_task_ids,
}
use syntrix_dr.Events.Lifecycle.{is_failed_over_event, legal_event_move}
use syntrix_dr.Events.Lifecycle.Steps.{Excused}
use syntrix_dr.Events.Lifecycle.Moves.{EventArrow}
use syntrix_dr.Events.Applications.{actor_may_validate_application, verdict_status}
use syntrix_dr.Events.Machine.{
  activates, EventStep-Follows, none_yet, then_step, EventSteps-terminal,
}
use syntrix_dr.Events.Machine.Fit.{stamped, fits, Aligned, EventSteps-Aligned}
use syntrix_dr.Events.Guarantees.{
  RecoveringFrom, activate-IsAcyclic, start_failover-bounds, close-settled, validate-by_another,
}
use syntrix_dr.Events.Refusals.{respond, to_activate, first_error, respond-first_error}
use syntrix_dr.Access.Roles.{list_active_roles}
use syntrix_dr.Access.Authorization.{can, global_admin_role_is_effective}
use syntrix_dr.Blockers.{count_active_blockers}
use syntrix_dr.Blockers.Lifecycle.{live_blocker}
use syntrix_dr.Blockers.Lifecycle.Machine.{
  verifies, Recoverable, RecoverySteps-Recoverable, verify-resumes, verify-closes,
}
use syntrix_dr.Blockers.Lifecycle.Machine
use syntrix_dr.Tests.Samples.{task}
use syntrix_dr.Tests.Events.{
  event, before_activation, active_event, after_activation, activation-runs, before_failover,
  cut_event, after_failover, failover-runs, before_close, closed_event, after_close, close-runs,
  before_verdict, approved_application, after_verdict, verdict-runs, fixed_blocker, with_other,
  other_event, beside_other, after_beside, beside-runs, before_verify, verified_blocker,
  after_verify, verify-runs,
}

EventStep-Follows_example :
    (e' : DrEvent) × (get_row (λ r. r.id) 5 after_activation.events ≡ some e')
    × ((e' ≡ event planned) ⊎ (EventArrow planned e'.status × (e'.version ≡ 2)))
unfolding get_row
EventStep-Follows_example =
    EventStep-Follows before_activation after_activation
      (activates 1 5 1 none active_event activation-runs) 5 (event planned) refl

has_cycle-Decides_example :
    (b : Bool) × (has_cycle ((1, 2) ∷ (2, 1) ∷ []) ≡ some b) × Decides ((1, 2) ∷ (2, 1) ∷ []) b
has_cycle-Decides_example = has_cycle-Decides ((1, 2) ∷ (2, 1) ∷ [])

activate-IsAcyclic_example : IsAcyclic (live_graph_edges before_activation 5)
activate-IsAcyclic_example =
    activate-IsAcyclic 1 5 1 none before_activation after_activation active_event activation-runs

start_failover-bounds_example :
    (e : DrEvent) × (cut_at : ℕ) × (get_row (λ r. r.id) 5 before_failover.events ≡ some e)
    × (cut_event.network_cut_at ≡ some cut_at)
    × (e.updated_at ≤ cut_at)
    × (cut_at ≤ 0)
    × RecoveringFrom cut_at 5 before_failover after_failover
unfolding UniqueIds get_row
start_failover-bounds_example =
    start_failover-bounds 1 5 1 none before_failover after_failover cut_event failover-runs
      (refl, tt)

close-settled_example :
    (e : DrEvent) × (get_row (λ r. r.id) 5 before_close.events ≡ some e)
    × (closed_event.status ≡ closed)
    × (has_non_terminal_children before_close 5 ≡ false)
    × ((is_failed_over_event e.status && failback_pending before_close 5) ≡ false)
    × Excused before_close 1 5 (unfinished_monitoring_task_ids before_close 5) after_close.overrides
close-settled_example = close-settled 1 5 1 none before_close after_close closed_event close-runs

validate-by_another_example :
    (a : DrApplication) × (v : Validation) × (get_row (λ r. r.id) 20 before_verdict.applications
      ≡ some a)
    × (approved_application.status ≡ verdict_status true a.failback_required a.status)
    × (select (is_open_for_application 20) before_verdict.validations ≡ v ∷ [])
    × (v.created_by_user_id ≢ 1)
    × (actor_may_validate_application before_verdict 1 a ≡ true)
    × ((true || is_some (clean none)) ≡ true)
validate-by_another_example =
    validate-by_another 1 20 1 true none false none before_verdict after_verdict
      approved_application verdict-runs

planned-Aligned : Aligned before_activation
unfolding UniqueIds get_row stamped fits
planned-Aligned = record {
  unique = (refl, tt);
  times = λ id e at. ground (arith, at);
  fitting = λ id a e found live at. ground (arith, found, at);
}

EventSteps-Aligned_example : Aligned after_activation
EventSteps-Aligned_example =
    EventSteps-Aligned before_activation after_activation
      (then_step none_yet (activates 1 5 1 none active_event activation-runs)) planned-Aligned

EventSteps-terminal_example : get_row (λ r. r.id) 6 after_beside.events ≡ some other_event
unfolding get_row
EventSteps-terminal_example =
    EventSteps-terminal with_other after_beside
      (then_step none_yet (activates 1 5 1 none beside_other beside-runs)) 6 other_event refl refl

blocked-Recoverable : Recoverable before_verify
unfolding UniqueIds live_task count_active_blockers
blocked-Recoverable = record {
  unique = (refl, tt);
  covered = λ id t found on. ground (arith, found, on);
}

RecoverySteps-Recoverable_example : Recoverable after_verify
RecoverySteps-Recoverable_example =
    RecoverySteps-Recoverable before_verify after_verify
      (Machine.then_step Machine.none_yet (verifies 1 40 4 verified_blocker verify-runs))
      blocked-Recoverable

verify-resumes_example :
    (t' : Task) × (live_task after_verify 11 ≡ some t')
    × (t'.status ≡ TaskStatus.in_progress)
    × (t'.version ≡ 2)
    × (fixed_blocker.status ≡ resolved)
    × (verified_blocker.status ≡ BlockerStatus.closed)
    × (verified_blocker.version ≡ fixed_blocker.version + 2)
unfolding UniqueIds live_task live_blocker count_active_blockers
verify-resumes_example =
    verify-resumes 1 40 4 before_verify after_verify fixed_blocker verified_blocker
      (task 11 TaskStatus.blocked) verify-runs (refl, tt) refl refl refl refl

-- A stale version.
respond-first_error_example :
    respond (to_activate none) 1 5 7 before_activation ≡ err concurrency_conflict
unfolding first_error list_active_roles global_admin_role_is_effective can get_row legal_event_move
respond-first_error_example =
    respond-first_error (to_activate none) before_activation 1 5 7 concurrency_conflict refl

verify-closes_example :
    (b : Blocker) × (live_blocker before_verify 40 ≡ some b)
    × (b.status ≡ resolved)
    × (live_blocker after_verify 40 ≡ some verified_blocker)
    × (verified_blocker.status ≡ BlockerStatus.closed)
    × (verified_blocker.version ≡ b.version + 2)
verify-closes_example = verify-closes 1 40 4 before_verify after_verify verified_blocker verify-runs
