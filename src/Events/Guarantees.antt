-- ===== src/Events/Guarantees.antt =====
-- What the guards of the Event commands promise.
use syntrix_dr.Prelude.{
  ℕ, ◌≤◌, ◌≡◌, ◌≢◌, refl, sym, ap, ◌∙◌, arith, Bool, true, false, ◌&&◌, ◌||◌, Option, some, [], ◌∷◌,
  String, is_some, select,
}
use syntrix_dr.Prelude.Text.{clean}
use syntrix_dr.Db.{
  Session, DrEvent, closed, DrApplication, recovering, Validation, get_row, UniqueIds, put_all-map,
  get-map_where,
}
use syntrix_dr.Db.Writing.Steps.{done}
use syntrix_dr.Graph.Walks.{IsAcyclic}
use syntrix_dr.Graph.Kahn.{has_cycle}
use syntrix_dr.Graph.Kahn.Correct.{Decides, has_cycle-Decides}
use syntrix_dr.Tasks.LiveGraph.{live_graph_edges}
use syntrix_dr.Validations.Applications.{is_open_for_application}
use syntrix_dr.Events.Queries.{
  in_event, has_non_terminal_children, failback_pending, unfinished_monitoring_task_ids,
}
use syntrix_dr.Events.Readiness.{satisfied_by_key, event_graph_has_cycle, answers_no}
use syntrix_dr.Events.Lifecycle.{
  activate, start_failover, close, is_waiting, is_failed_over_event, recovering_at,
}
use syntrix_dr.Events.Lifecycle.Steps.{Excused}
use syntrix_dr.Events.Lifecycle.Moves.{activate-Move, start_failover-Move, close-Move, event-key}
use syntrix_dr.Events.Applications.{validate, actor_may_validate_application, verdict_status}
use syntrix_dr.Events.Applications.Moves.{validate-Move}

-- If `activate` succeeds, with an override reason or without one, the Event's graph of live Tasks,
-- Milestones, dependencies, gates and contributions has no edge that closes a walk.
pub activate-IsAcyclic :
    (actor_id event_id version : ℕ) (reason : Option String) (s s' : Session) (e' : DrEvent)
    → activate actor_id event_id version reason s ≡ done e' s'
    → IsAcyclic (live_graph_edges s event_id)
unfolding satisfied_by_key event_graph_has_cycle
activate-IsAcyclic actor_id event_id version reason s s' e' h =
    let (e, move, _, satisfied, _) =
      (activate-Move actor_id event_id version reason s).result e' s' h in
    let key = event-key s event_id e move.found in
    let (b, answer, decides) = has_cycle-Decides (live_graph_edges s event_id) in
    let negative : answers_no (some b) ≡ true =
      ap answers_no (sym answer)
      ∙ ap (λ i. answers_no (has_cycle (live_graph_edges s i))) (sym key)
      ∙ satisfied in
    from b decides negative
  where
    from :
        (b : Bool)
        → Decides (live_graph_edges s event_id) b
        → answers_no (some b) ≡ true
        → IsAcyclic (live_graph_edges s event_id)
    from true d n = absurd (grind arith)
    from false d n = d

-- The Event's live Applications after the failover started at `cut_at`.
abbrev pub RecoveringFrom : (cut_at event_id : ℕ) → Session → Session → Type 0
RecoveringFrom cut_at event_id s s' =
    (id : ℕ) (a : DrApplication)
    → get_row (λ r. r.id) id s.applications ≡ some a
    → in_event event_id a ≡ true
    → is_waiting a.status ≡ true
    → (a' : DrApplication) × (get_row (λ r. r.id) id s'.applications ≡ some a')
      × (a'.status ≡ recovering)
      × (a'.sla_start_at ≡ some cut_at)

-- If `start_failover` succeeds, the network cut that it stores lies between the time of the Event's last
-- change and the time of the call, whether the caller named one or not; and every live Application of the
-- Event that was NOT_STARTED is RECOVERING with its SLA clock started at the network cut, provided the ids
-- of the Applications are unique.
pub start_failover-bounds :
    (actor_id event_id version : ℕ) (given : Option ℕ) (s s' : Session) (e' : DrEvent)
    → start_failover actor_id event_id version given s ≡ done e' s'
    → UniqueIds (λ r. r.id) s.applications
    → (e : DrEvent) × (cut_at : ℕ) × (get_row (λ r. r.id) event_id s.events ≡ some e)
      × (e'.network_cut_at ≡ some cut_at)
      × (e.updated_at ≤ cut_at)
      × (cut_at ≤ s.clock_readings s.draws)
      × RecoveringFrom cut_at event_id s s'
start_failover-bounds actor_id event_id version given s s' e' h unique =
    let (e, cut_at, at, move, _, _, stored, bounds, time, apps) =
      (start_failover-Move actor_id event_id version given s).result e' s' h in
    (
      e,
      cut_at,
      move.found,
      stored,
      ground (arith, bounds),
      ground (arith, bounds, time),
      λ id a found here waits. (
        recovering_at cut_at at a,
        ap (get_row (λ r. r.id) id) (
              apps
              ∙ put_all-map (λ r. r.id) (recovering_at cut_at at) (λ x. refl)
                  (λ a. in_event event_id a && is_waiting a.status) s.applications unique)
            ∙ get-map_where (λ r. r.id) (recovering_at cut_at at) (λ x. refl)
                (λ a. in_event event_id a && is_waiting a.status) id s.applications
            ∙ ground (arith, found, here, waits),
        refl,
        refl,
      ),
    )

-- If `close` succeeds, no live child of the Event was neither CLOSED nor CANCELLED; an Event that was
-- FAILED_OVER had no live Application that requires failback; and either no Task of its MONITORING Work
-- Streams was unfinished, or the actor may make closure exceptions and exactly one override with a reason
-- that is not blank and with the ids of those Tasks was recorded.
pub close-settled :
    (actor_id event_id version : ℕ) (reason : Option String) (s s' : Session) (e' : DrEvent)
    → close actor_id event_id version reason s ≡ done e' s'
    → (e : DrEvent) × (get_row (λ r. r.id) event_id s.events ≡ some e)
      × (e'.status ≡ closed)
      × (has_non_terminal_children s event_id ≡ false)
      × ((is_failed_over_event e.status && failback_pending s event_id) ≡ false)
      × Excused s actor_id event_id (unfinished_monitoring_task_ids s event_id) s'.overrides
close-settled actor_id event_id version reason s s' e' h =
    let (e, move, to, childless, settled, excused, _) =
      (close-Move actor_id event_id version reason s).result e' s' h in
    (e, move.found, to, childless, settled, excused)

-- If `validate` succeeds on a DR Application, exactly one submission of it was open, the actor is not the
-- user who made it, the actor may validate the Application, a rejection has a note that is not blank, and
-- the new status is the one that the verdict, the phase and `failback_required` call for.
pub validate-by_another :
    (actor_id id version : ℕ) (approve : Bool) (remark : Option String) (confirmed : Bool)
    (business_note : Option String) (s s' : Session) (a' : DrApplication)
    → validate actor_id id version approve remark confirmed business_note s ≡ done a' s'
    → (a : DrApplication) × (v : Validation) × (get_row (λ r. r.id) id s.applications ≡ some a)
      × (a'.status ≡ verdict_status approve a.failback_required a.status)
      × (select (is_open_for_application id) s.validations ≡ v ∷ [])
      × (v.created_by_user_id ≢ actor_id)
      × (actor_may_validate_application s actor_id a ≡ true)
      × ((approve || is_some (clean remark)) ≡ true)
validate-by_another actor_id id version approve remark confirmed business_note s s' a' h =
    let (a, v, move, verdict, only, another, allowed, reasoned) =
      (validate-Move actor_id id version approve remark confirmed business_note s).result a' s' h in
    (a, v, move.found, verdict, only, another, allowed, reasoned)
