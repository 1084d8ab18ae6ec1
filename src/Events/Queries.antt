-- ===== src/Events/Queries.antt =====
-- The reads of Events, their children, Applications and Tasks (dr_events/queries.py,
-- tasks_dependencies/queries.py, work_streams/queries.py).
use syntrix_dr.Prelude.{
  ℕ, Bool, true, false, not, ◌&&◌, none, some, List, [], ◌∷◌, map, ◌==◌, opt_eq, is_none, any,
  select, sorted, contains, if◌then◌else◌,
}
use syntrix_dr.Db.{
  Session, EventStatus, closed, cancelled, DrApplication, Task, TaskStatus, TaskPhase, pre_dr,
  failover, validation, failback, post_dr,
}

-- `_TERMINAL_STATES`
abbrev pub is_terminal_event : EventStatus → Bool
is_terminal_event closed = true
is_terminal_event cancelled = true
is_terminal_event _ = false

unfoldable pub has_non_terminal_children : Session → ℕ → Bool
has_non_terminal_children s parent_dr_event_id =
    any
      (λ e.
        opt_eq e.parent_dr_event_id (some parent_dr_event_id)
        && is_none e.deleted_at
        && not (is_terminal_event e.status))
      s.events

-- A live Application of the Event.
abbrev pub in_event : ℕ → DrApplication → Bool
in_event dr_event_id a = (a.dr_event_id == dr_event_id) && is_none a.deleted_at

unfoldable pub list_dr_applications : Session → ℕ → List DrApplication
list_dr_applications s dr_event_id = select (in_event dr_event_id) s.applications

-- `failback_pending.first() is not None`
unfoldable pub failback_pending : Session → ℕ → Bool
failback_pending s dr_event_id =
    any (λ a. in_event dr_event_id a && a.failback_required) s.applications

unfoldable pub list_monitoring_stream_ids : Session → ℕ → List ℕ
list_monitoring_stream_ids s dr_event_id =
    map (λ w. w.id)
      (select (λ w. (w.dr_event_id == dr_event_id) && w.is_monitoring && is_none w.deleted_at)
        s.directory.work_streams)

abbrev pub in_streams : List ℕ → Task → Bool
in_streams streams t = elim t.work_stream_id [ none ↦ false | some w ↦ contains w streams ]

abbrev pub is_cancelled_task : TaskStatus → Bool
is_cancelled_task TaskStatus.cancelled = true
is_cancelled_task _ = false

-- `COMPLETED` or `CANCELLED`
abbrev pub is_finished_task : TaskStatus → Bool
is_finished_task TaskStatus.completed = true
is_finished_task TaskStatus.cancelled = true
is_finished_task _ = false

-- With no streams no Task is in one of them.
unfoldable pub unfinished_monitoring_task_ids : Session → ℕ → List ℕ
unfolding list_monitoring_stream_ids sorted
unfinished_monitoring_task_ids s dr_event_id = sorted (
    map (λ t. t.id)
      (select
        (λ t.
          in_streams (list_monitoring_stream_ids s dr_event_id) t
          && is_none t.deleted_at
          && not (is_finished_task t.status))
        s.tasks))

unfoldable pub live_monitoring_task_exists : Session → ℕ → Bool
unfolding list_monitoring_stream_ids
live_monitoring_task_exists s dr_event_id =
    any
      (λ t.
        in_streams (list_monitoring_stream_ids s dr_event_id) t
        && is_none t.deleted_at
        && not (is_cancelled_task t.status))
      s.tasks

abbrev pub phase_eq : TaskPhase → TaskPhase → Bool
phase_eq pre_dr pre_dr = true
phase_eq failover failover = true
phase_eq validation validation = true
phase_eq failback failback = true
phase_eq post_dr post_dr = true
phase_eq _ _ = false

-- `BLOCKED` or `IN_PROGRESS`
abbrev pub is_under_way : TaskStatus → Bool
is_under_way TaskStatus.blocked = true
is_under_way TaskStatus.in_progress = true
is_under_way _ = false

unfoldable pub unfinished_phase_task_ids : Session → ℕ → TaskPhase → List ℕ
unfolding sorted
unfinished_phase_task_ids s dr_application_id phase = sorted (
    map (λ t. t.id)
      (select
        (λ t.
          opt_eq t.dr_application_id (some dr_application_id)
          && phase_eq t.phase phase
          && is_under_way t.status
          && is_none t.deleted_at)
        s.tasks))

-- `SELECT DISTINCT`; the rows come in no order.
unfoldable pub distinct : List ℕ → List ℕ
distinct [] = []
distinct (x ∷ xs) = let rest = distinct xs in if contains x rest then rest else x ∷ rest

unfoldable pub owning_team_ids : Session → ℕ → List ℕ
unfolding distinct
owning_team_ids s dr_event_id = distinct (
    map (λ t. t.owning_team_id)
      (select (λ t. (t.dr_event_id == dr_event_id) && is_none t.deleted_at) s.tasks))

unfoldable pub live_team_ids : Session → List ℕ → List ℕ
live_team_ids s team_ids =
    map (λ t. t.id) (select (λ t. contains t.id team_ids && is_none t.deleted_at) s.directory.teams)

unfoldable pub every_stream_has_a_lead : Session → ℕ → Bool
every_stream_has_a_lead s dr_event_id = not (
    any (λ w. (w.dr_event_id == dr_event_id) && is_none w.lead_user_id && is_none w.deleted_at)
      s.directory.work_streams)
