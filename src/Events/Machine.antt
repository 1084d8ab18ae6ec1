-- ===== src/Events/Machine.antt =====
-- The commands of the Event and the Application services as one step relation: the state machine of the
-- Event, and how the Applications keep up with it.
pub mod Fit
use syntrix_dr.Prelude.{
  ℕ, ◌+◌, ◌≡◌, refl, sym, ap, ◌∙◌, subst, arith, Bool, true, false, not, ◌&&◌, Option, none, some,
  List, ◌==◌, ==_iff, is_some, is_none, select, String, Bool-cases, Option-cases, ◌⊎◌, inl, inr,
  if◌then◌else◌,
}
use syntrix_dr.Db.{
  Session, DrEvent, EventStatus, planned, active, failover_in_progress, closed, cancelled,
  DrApplication, ApplicationStatus, not_started, recovering, technical_validation, completed,
  get_row, put_row, get-put_row, UniqueIds, UniqueIds-put_row, put_all, put_all-map, get-map_where,
  map_where, UniqueIds-map_where, get_row-key,
}
use syntrix_dr.Db.Writing.Steps.{done}
use syntrix_dr.Events.Queries.{is_terminal_event, in_event}
use syntrix_dr.Events.Lifecycle.{
  activate, start_failover, mark_failed_over, start_failback, close, cancel, is_waiting,
  is_failed_over_application, recovering_at, failing_back_at,
}
use syntrix_dr.Events.Lifecycle.Moves.{
  EventArrow, activated, failover_started, marked_failed_over, failback_started, closed_directly,
  closed_after_failback, cancelled_early, EventMove, activate-Move, start_failover-Move,
  mark_failed_over-Move, start_failback-Move, close-Move, cancel-Move,
}
use syntrix_dr.Events.Applications.{submit_validation, validate, event_is_over}
use syntrix_dr.Events.Applications.Moves.{
  ApplicationArrow, submitted, failed_over_approved, completed_approved, returned,
  failback_pending_still, failback_approved, ApplicationMove, submit-Move, validate-Move,
}

-- One successful command of either service.
pub data EventStep (s s' : Session) : Type 0 where
  activates :
      (actor_id event_id version : ℕ) (reason : Option String) (e : DrEvent)
      → activate actor_id event_id version reason s ≡ done e s'
      → EventStep s s'
  starts_failover :
      (actor_id event_id version : ℕ) (given : Option ℕ) (e : DrEvent)
      → start_failover actor_id event_id version given s ≡ done e s'
      → EventStep s s'
  marks_failed_over :
      (actor_id event_id version : ℕ) (e : DrEvent)
      → mark_failed_over actor_id event_id version s ≡ done e s'
      → EventStep s s'
  starts_failback :
      (actor_id event_id version : ℕ) (e : DrEvent)
      → start_failback actor_id event_id version s ≡ done e s'
      → EventStep s s'
  closes :
      (actor_id event_id version : ℕ) (reason : Option String) (e : DrEvent)
      → close actor_id event_id version reason s ≡ done e s'
      → EventStep s s'
  cancels :
      (actor_id event_id version : ℕ) (reason : String) (e : DrEvent)
      → cancel actor_id event_id version reason s ≡ done e s'
      → EventStep s s'
  submits :
      (actor_id id version : ℕ) (reason : Option String) (a : DrApplication)
      → submit_validation actor_id id version reason s ≡ done a s'
      → EventStep s s'
  judges :
      (actor_id id version : ℕ) (approve : Bool) (remark : Option String) (confirmed : Bool)
      (business_note : Option String) (a : DrApplication)
      → validate actor_id id version approve remark confirmed business_note s ≡ done a s'
      → EventStep s s'

pub data EventSteps (s : Session) : Session → Type 0 where
  none_yet : EventSteps s s
  then_step : {t u : Session} → EventSteps s t → EventStep t u → EventSteps s u

-- What a step is, by the tables of Events and Applications alone.
pub data Effect (s s' : Session) : Type 0 where
  event_alone :
      (event_id : ℕ) (e e' : DrEvent)
      → EventMove s event_id e e' s'
      → (e'.status ≡ failover_in_progress → ⊥)
      → (e'.status ≡ EventStatus.failback_in_progress → ⊥)
      → s'.applications ≡ s.applications
      → Effect s s'
  with_recovering :
      (event_id cut_at at : ℕ) (e e' : DrEvent)
      → EventMove s event_id e e' s'
      → (e.status ≡ active) × (e'.status ≡ failover_in_progress)
      → s'.applications
        ≡ put_all
            (λ r. r.id)
            (recovering_at cut_at at)
            (select (λ a. in_event event_id a && is_waiting a.status) s.applications)
            s.applications
      → Effect s s'
  with_failing_back :
      (event_id at : ℕ) (e e' : DrEvent)
      → EventMove s event_id e e' s'
      → (e.status ≡ EventStatus.failed_over) × (e'.status ≡ EventStatus.failback_in_progress)
      → s'.applications
        ≡ put_all
            (λ r. r.id)
            (failing_back_at at)
            (select
              (λ a.
                in_event event_id a && is_failed_over_application a.status && a.failback_required)
              s.applications)
            s.applications
      → Effect s s'
  application_alone : (id : ℕ) (a a' : DrApplication) → ApplicationMove s id a a' s' → Effect s s'

-- Two statuses that are not the same.
differ : {x y z : EventStatus} → x ≡ y → (y ≡ z → ⊥) → x ≡ z → ⊥
differ e n h = n (sym e ∙ h)

pub EventStep-Effect : (s s' : Session) → EventStep s s' → Effect s s'
EventStep-Effect s s' (activates actor_id event_id version reason e' h) =
    let (e, move, to, _, same) =
      (activate-Move actor_id event_id version reason s).result e' s' h in
    event_alone event_id e e' move (differ to (λ x. grind arith)) (differ to (λ x. grind arith))
      same
EventStep-Effect s s' (starts_failover actor_id event_id version given e' h) =
    let (e, cut_at, at, move, from, to, _, _, _, apps) =
      (start_failover-Move actor_id event_id version given s).result e' s' h in
    with_recovering event_id cut_at at e e' move (from, to) apps
EventStep-Effect s s' (marks_failed_over actor_id event_id version e' h) =
    let (e, move, to, same) = (mark_failed_over-Move actor_id event_id version s).result e' s' h in
    event_alone event_id e e' move (differ to (λ x. grind arith)) (differ to (λ x. grind arith))
      same
EventStep-Effect s s' (starts_failback actor_id event_id version e' h) =
    let (e, at, move, from, to, apps) =
      (start_failback-Move actor_id event_id version s).result e' s' h in
    with_failing_back event_id at e e' move (from, to) apps
EventStep-Effect s s' (closes actor_id event_id version reason e' h) =
    let (e, move, to, _, _, _, same) =
      (close-Move actor_id event_id version reason s).result e' s' h in
    event_alone event_id e e' move (differ to (λ x. grind arith)) (differ to (λ x. grind arith))
      same
EventStep-Effect s s' (cancels actor_id event_id version reason e' h) =
    let (e, move, to, same) = (cancel-Move actor_id event_id version reason s).result e' s' h in
    event_alone event_id e e' move (differ to (λ x. grind arith)) (differ to (λ x. grind arith))
      same
EventStep-Effect s s' (submits actor_id id version reason a' h) =
    let (a, v, move, _, _) = (submit-Move actor_id id version reason s).result a' s' h in
    application_alone id a a' move
EventStep-Effect s s' (judges actor_id id version approve remark confirmed business_note a' h) =
    let (a, v, move, _, _, _, _, _) =
      (validate-Move actor_id id version approve remark confirmed business_note s).result a' s' h in
    application_alone id a a' move

-- The row of one Event before and after.
abbrev pub EventFollows : DrEvent → DrEvent → Type 0
EventFollows e e' = (e' ≡ e) ⊎ (EventArrow e.status e'.status × (e'.version ≡ e.version + 1))

some-event : {a b : DrEvent} → some a ≡ some b → a ≡ b
some-event e = grind arith

-- Every Event of the table after an EventMove.
pub move-row :
    (s s' : Session) (event_id : ℕ) (e e' : DrEvent)
    → EventMove s event_id e e' s'
    → (id : ℕ)
    → (id ≡ event_id) × (get_row (λ r. r.id) id s'.events ≡ some e')
      ⊎ (id ≡ event_id → ⊥) × (get_row (λ r. r.id) id s'.events ≡ get_row (λ r. r.id) id s.events)
move-row s s' event_id e e' move id =
    let at = ap (get_row (λ r. r.id) id) move.events ∙ get-put_row (λ r. r.id) id e' s.events in
    elim (Bool-cases (e'.id == id)) [
      | inl h ↦
          let here : id ≡ event_id = sym ((==_iff e'.id id).0 h) ∙ move.same in
          let there = ap (λ i. get_row (λ r. r.id) i s.events) here ∙ move.found in
          inl (here, ground (arith, at, h, there))
      | inr h ↦
          let same = move.same in
          inr ((λ k. absurd (ground (arith, h, k, same))), ground (arith, at, h))
    ]

move-Follows :
    (s s' : Session) (event_id : ℕ) (e e' : DrEvent)
    → EventMove s event_id e e' s'
    → (id : ℕ) (x : DrEvent) → get_row (λ r. r.id) id s.events ≡ some x
    → (x' : DrEvent) × (get_row (λ r. r.id) id s'.events ≡ some x') × EventFollows x x'
move-Follows s s' event_id e e' move id x there = elim (move-row s s' event_id e e' move id) [
  | inl (here, now_there) ↦
      let same : e ≡ x =
        some-event (sym move.found ∙ ap (λ i. get_row (λ r. r.id) i s.events) (sym here) ∙ there) in
      (
        e',
        now_there,
        inr (
          subst (λ y. EventArrow y.status e'.status) same move.arrow,
          move.version ∙ ap (λ y. y.version + 1) same,
        ),
      )
  | inr (_, unchanged) ↦ (x, unchanged ∙ there, inl refl)
]

Effect-Follows :
    (s s' : Session)
    → Effect s s'
    → (id : ℕ) (x : DrEvent) → get_row (λ r. r.id) id s.events ≡ some x
    → (x' : DrEvent) × (get_row (λ r. r.id) id s'.events ≡ some x') × EventFollows x x'
Effect-Follows s s' (event_alone event_id e e' move _ _ _) = move-Follows s s' event_id e e' move
Effect-Follows s s' (with_recovering event_id _ _ e e' move _ _) =
    move-Follows s s' event_id e e' move
Effect-Follows s s' (with_failing_back event_id _ e e' move _ _) =
    move-Follows s s' event_id e e' move
Effect-Follows s s' (application_alone id a a' move) =
    λ i x there. (x, ap (get_row (λ r. r.id) i) move.events ∙ there, inl refl)

-- Whichever command of the Event and Application services succeeds, every Event is still in the table
-- afterwards; its row is unchanged, or its status moved along one arrow of the state machine (PLANNED to
-- ACTIVE to FAILOVER_IN_PROGRESS to FAILED_OVER to FAILBACK_IN_PROGRESS, FAILED_OVER or
-- FAILBACK_IN_PROGRESS to CLOSED, any status that is not CLOSED or CANCELLED to CANCELLED) and its
-- version is one higher.
pub EventStep-Follows :
    (s s' : Session)
    → EventStep s s'
    → (id : ℕ) (e : DrEvent) → get_row (λ r. r.id) id s.events ≡ some e
    → (e' : DrEvent) × (get_row (λ r. r.id) id s'.events ≡ some e')
      × ((e' ≡ e) ⊎ (EventArrow e.status e'.status × (e'.version ≡ e.version + 1)))
EventStep-Follows s s' step = Effect-Follows s s' (EventStep-Effect s s' step)

terminal-stuck : {x y : EventStatus} → EventArrow x y → is_terminal_event x ≡ true → ⊥
terminal-stuck activated e = grind arith
terminal-stuck failover_started e = grind arith
terminal-stuck marked_failed_over e = grind arith
terminal-stuck failback_started e = grind arith
terminal-stuck closed_directly e = grind arith
terminal-stuck closed_after_failback e = grind arith
terminal-stuck (cancelled_early h) e = ground (arith, h, e)

-- The row of a CLOSED or CANCELLED Event is the same after any sequence of successful commands.
pub EventSteps-terminal :
    (s s' : Session)
    → EventSteps s s'
    → (id : ℕ) (e : DrEvent) → get_row (λ r. r.id) id s.events ≡ some e
    → is_terminal_event e.status ≡ true
    → get_row (λ r. r.id) id s'.events ≡ some e
EventSteps-terminal s s' none_yet id e found over = found
EventSteps-terminal s s' (then_step {t} steps step) id e found over =
    let before = EventSteps-terminal s t steps id e found over in
    let (e', after_it, follows) = EventStep-Follows t s' step id e before in
    elim follows [
      | inl same ↦ after_it ∙ ap some same
      | inr (arrow, _) ↦ absurd (terminal-stuck arrow over)
    ]
