-- ===== src/Events/Lifecycle/Moves.antt =====
-- What each Event command does to the Event, its Applications and the rest, when it succeeds.
use syntrix_dr.Prelude.{
  ℕ, ◌+◌, ◌≡◌, refl, sym, ap, ◌∙◌, arith, Bool, true, false, not, ◌&&◌, Option, none, some, leb,
  select, is_nil, is_some, String, Bool-cases, inl, inr, subst, Memᴰ, select-mem, mem-is_nil,
}
use syntrix_dr.Db.{
  Session, DrEvent, EventStatus, planned, active, failover_in_progress, closed, cancelled,
  PlanVersion, get_row, put_row, put_all, get_row-key,
}
use syntrix_dr.Db.Writing.Steps.{Ensures, after, after_now, after_asks, after_guard, after_expect}
use syntrix_dr.Plans.{capture_baseline_snapshot}
use syntrix_dr.Plans.Steps.{after_capture_baseline}
use syntrix_dr.Events.Queries.{
  is_terminal_event, in_event, has_non_terminal_children, failback_pending,
  unfinished_monitoring_task_ids,
}
use syntrix_dr.Events.Readiness.{
  evaluate_readiness, is_non_overridable, satisfied_by_key, dependency_graph_acyclic, result_for,
  has_severity,
}
use syntrix_dr.Events.Lifecycle.{
  legal_event_move, begin_transition, require_lifecycle, load_event, activate, start_failover,
  mark_failed_over, start_failback, close, cancel, failures, is_waiting, is_failed_over_event,
  is_failed_over_application, recovering_at, failing_back_at, or_now, with_baseline,
}
use syntrix_dr.Events.Lifecycle.Steps.{
  after_begin_transition, after_require_lifecycle, after_load_event, after_finish_event,
  after_pass_hard_stops, after_move_each, after_pass_monitoring, Excused,
}

-- The state machine of a DR Event.
pub data EventArrow : EventStatus → EventStatus → Type 0 where
  activated : EventArrow planned active
  failover_started : EventArrow active failover_in_progress
  marked_failed_over : EventArrow failover_in_progress EventStatus.failed_over
  failback_started : EventArrow EventStatus.failed_over EventStatus.failback_in_progress
  closed_directly : EventArrow EventStatus.failed_over closed
  closed_after_failback : EventArrow EventStatus.failback_in_progress closed
  cancelled_early : {x : EventStatus} → is_terminal_event x ≡ false → EventArrow x cancelled

legal-EventArrow : (x y : EventStatus) → legal_event_move x y ≡ true → EventArrow x y
unfolding legal_event_move
legal-EventArrow planned active e = activated
legal-EventArrow active failover_in_progress e = failover_started
legal-EventArrow failover_in_progress EventStatus.failed_over e = marked_failed_over
legal-EventArrow EventStatus.failed_over EventStatus.failback_in_progress e = failback_started
legal-EventArrow EventStatus.failed_over closed e = closed_directly
legal-EventArrow EventStatus.failback_in_progress closed e = closed_after_failback
legal-EventArrow x y e = absurd (ground (arith, e))

-- The time of the network cut is set by the start of the failover alone, and the time of the failback by
-- the start of the failback.
pub record StampsMove (e e' : DrEvent) : Type 0 where
  pub cut_kept : (e'.status ≡ failover_in_progress → ⊥) → e'.network_cut_at ≡ e.network_cut_at
  pub cut_set : e'.status ≡ failover_in_progress → is_some e'.network_cut_at ≡ true
  pub failback_kept :
      (e'.status ≡ EventStatus.failback_in_progress → ⊥)
      → e'.failback_started_at ≡ e.failback_started_at
  pub failback_set :
      e'.status ≡ EventStatus.failback_in_progress → is_some e'.failback_started_at ≡ true

-- A command that sets neither.
unstamped :
    (e e' : DrEvent)
    → e'.network_cut_at ≡ e.network_cut_at
    → e'.failback_started_at ≡ e.failback_started_at
    → (e'.status ≡ failover_in_progress → ⊥)
    → (e'.status ≡ EventStatus.failback_in_progress → ⊥)
    → StampsMove e e'
unstamped e e' cut failback n m = record {
  cut_kept = λ _. cut;
  cut_set = λ h. absurd (n h);
  failback_kept = λ _. failback;
  failback_set = λ h. absurd (m h);
}

-- The row `e` of the Event became `e'`, by an arrow, with the version one higher; no other Event changed.
pub record EventMove (s : Session) (event_id : ℕ) (e e' : DrEvent) (s' : Session) : Type 0 where
  pub found : get_row (λ r. r.id) event_id s.events ≡ some e
  pub same : e'.id ≡ event_id
  pub arrow : EventArrow e.status e'.status
  pub version : e'.version ≡ e.version + 1
  pub events : s'.events ≡ put_row (λ r. r.id) e' s.events
  pub stamps : StampsMove e e'

pub event-key :
    (s : Session) (event_id : ℕ) (e : DrEvent)
    → get_row (λ r. r.id) event_id s.events ≡ some e
    → e.id ≡ event_id
event-key s event_id e found = get_row-key (λ r. r.id) event_id s.events e found

-- The only keys that must hold to activate.
graph-key :
    (s : Session) (e : DrEvent)
    → is_nil
        (select (λ r. is_non_overridable r.key) (failures "HARD_STOP" (evaluate_readiness s e)))
      ≡ true
    → satisfied_by_key s e dependency_graph_acyclic ≡ true
unfolding evaluate_readiness
graph-key s e h = elim (Bool-cases (satisfied_by_key s e dependency_graph_acyclic)) [
  | inl satisfied ↦ satisfied
  | inr failed ↦
      let here : Memᴰ (result_for s e dependency_graph_acyclic) (evaluate_readiness s e) =
        Memᴰ.tail (Memᴰ.tail (Memᴰ.tail (Memᴰ.tail (Memᴰ.tail (Memᴰ.tail (Memᴰ.head refl)))))) in
      let hard : (has_severity "HARD_STOP" (result_for s e dependency_graph_acyclic)
            && not (satisfied_by_key s e dependency_graph_acyclic))
          ≡ true =
        ap not failed in
      absurd (
        mem-is_nil _ _
          (select-mem (λ r. is_non_overridable r.key) _ _
            (select-mem (λ r. has_severity "HARD_STOP" r && not r.satisfied) _
              (evaluate_readiness s e) here hard)
            refl)
          h)
]

pub activate-Move :
    (actor_id event_id expected_version : ℕ) (reason : Option String) (s : Session)
    → Ensures (activate actor_id event_id expected_version reason) s (λ e' s'.
      (e : DrEvent) × EventMove s event_id e e' s'
      × (e'.status ≡ active)
      × (satisfied_by_key s e dependency_graph_acyclic ≡ true)
      × (s'.applications ≡ s.applications))
unfolding activate
activate-Move actor_id event_id expected_version reason s =
    after (begin_transition actor_id event_id expected_version active) _ (
      after_begin_transition actor_id event_id expected_version active λ e found version legal.
        after _ _ (
          after_asks (λ s. evaluate_readiness s e)
            (after _ _ (
              after_pass_hard_stops actor_id e.id reason _ λ overrides audit ok_keys.
                after_finish_event (record e { status = active }) _ _ active _ _
                  λ at draws audit' outbox. (
                    e,
                    record {
                      found = found;
                      same = event-key s event_id e found;
                      arrow = legal-EventArrow e.status active legal;
                      version = refl;
                      events = refl;
                      stamps =
                          unstamped e _ refl refl (λ h. grind (arith, h)) (λ h. grind (arith, h));
                    },
                    refl,
                    graph-key s e ok_keys,
                    refl,
                  )))))

-- The captured version is the only thing that it sets.
with_baseline-same :
    (o : Option PlanVersion) (e : DrEvent)
    → ((with_baseline o e).id ≡ e.id)
      × ((with_baseline o e).status ≡ e.status)
      × ((with_baseline o e).version ≡ e.version)
      × ((with_baseline o e).network_cut_at ≡ e.network_cut_at)
      × ((with_baseline o e).failback_started_at ≡ e.failback_started_at)
with_baseline-same none e = (refl, refl, refl, refl, refl)
with_baseline-same (some v) e = (refl, refl, refl, refl, refl)

only-active : (x : EventStatus) → legal_event_move x failover_in_progress ≡ true → x ≡ active
unfolding legal_event_move
only-active active e = refl
only-active x e = absurd (ground (arith, e))

abbrev failing_over : ℕ → DrEvent → DrEvent
failing_over cut_at e = record e { status = failover_in_progress; network_cut_at = some cut_at }

pub start_failover-Move :
    (actor_id event_id expected_version : ℕ) (given : Option ℕ) (s : Session)
    → Ensures (start_failover actor_id event_id expected_version given) s (λ e' s'.
      (e : DrEvent) × (cut_at at : ℕ) × EventMove s event_id e e' s'
      × (e.status ≡ active)
      × (e'.status ≡ failover_in_progress)
      × (e'.network_cut_at ≡ some cut_at)
      × (leb e.updated_at cut_at && leb cut_at at ≡ true)
      × (at ≡ s.clock_readings s.draws)
      × (s'.applications
          ≡ put_all
              (λ r. r.id)
              (recovering_at cut_at at)
              (select (λ a. in_event event_id a && is_waiting a.status) s.applications)
              s.applications))
unfolding start_failover
start_failover-Move actor_id event_id expected_version given s =
    after (begin_transition actor_id event_id expected_version failover_in_progress) _ (
      after_begin_transition actor_id event_id expected_version failover_in_progress
        λ e found version legal.
          let cut = or_now given (s.clock_readings s.draws) in
          let key = event-key s event_id e found in
          after _ _ (
            after_now (
              after _ _ (
                after_guard _ _ λ bounds. after (capture_baseline_snapshot actor_id e.id) _ (
                  after_capture_baseline actor_id e.id
                    λ o versions tasks dependencies milestones audit draws. after _ _ (
                      after_asks _ (
                        after _ _ (
                          after_move_each actor_id e.id _ _ _ λ audit'.
                            after_finish_event (with_baseline o (failing_over cut e)) _ _
                              failover_in_progress _ _
                              λ at' draws' audit'' outbox.
                                let (w1, w2, w3, w4, w5) =
                                  with_baseline-same o (failing_over cut e) in
                                (
                                  e,
                                  cut,
                                  s.clock_readings s.draws,
                                  record {
                                    found = found;
                                    same = w1 ∙ key;
                                    arrow =
                                        subst (EventArrow e.status) (sym w2)
                                          (legal-EventArrow e.status failover_in_progress legal);
                                    version = ap (λ n. n + 1) w3;
                                    events = refl;
                                    stamps = record {
                                      cut_kept = λ n. absurd (n w2);
                                      cut_set = λ _. ap is_some w4;
                                      failback_kept = λ _. w5;
                                      failback_set = λ h. absurd (apart (sym w2 ∙ h));
                                    };
                                  },
                                  only-active e.status legal,
                                  w2,
                                  w4,
                                  bounds,
                                  refl,
                                  ap
                                      (λ i.
                                        put_all (λ r. r.id)
                                          (recovering_at cut (s.clock_readings s.draws))
                                          (select (λ a. in_event i a && is_waiting a.status)
                                            s.applications)
                                          s.applications)
                                      key,
                                )))))))))
  where
    apart : failover_in_progress ≡ EventStatus.failback_in_progress → ⊥
    apart h = grind (arith, h)

-- The one command that asks for nothing else.
pub mark_failed_over-Move :
    (actor_id event_id expected_version : ℕ) (s : Session)
    → Ensures (mark_failed_over actor_id event_id expected_version) s (λ e' s'.
      (e : DrEvent) × EventMove s event_id e e' s'
      × (e'.status ≡ EventStatus.failed_over)
      × (s'.applications ≡ s.applications))
unfolding mark_failed_over
mark_failed_over-Move actor_id event_id expected_version s =
    after (begin_transition actor_id event_id expected_version EventStatus.failed_over) _ (
      after_begin_transition actor_id event_id expected_version EventStatus.failed_over
        λ e found version legal.
          after_finish_event (record e { status = EventStatus.failed_over }) _ _
            EventStatus.failed_over _ _
            λ at draws audit outbox. (
              e,
              record {
                found = found;
                same = event-key s event_id e found;
                arrow = legal-EventArrow e.status EventStatus.failed_over legal;
                version = refl;
                events = refl;
                stamps = unstamped e _ refl refl (λ h. grind (arith, h)) (λ h. grind (arith, h));
              },
              refl,
              refl,
            ))

only-failed_over :
    (x : EventStatus)
    → legal_event_move x EventStatus.failback_in_progress ≡ true
    → x ≡ EventStatus.failed_over
unfolding legal_event_move
only-failed_over EventStatus.failed_over e = refl
only-failed_over x e = absurd (ground (arith, e))

pub start_failback-Move :
    (actor_id event_id expected_version : ℕ) (s : Session)
    → Ensures (start_failback actor_id event_id expected_version) s (λ e' s'.
      (e : DrEvent) × (at : ℕ) × EventMove s event_id e e' s'
      × (e.status ≡ EventStatus.failed_over)
      × (e'.status ≡ EventStatus.failback_in_progress)
      × (s'.applications
          ≡ put_all
              (λ r. r.id)
              (failing_back_at at)
              (select
                (λ a.
                  in_event event_id a && is_failed_over_application a.status && a.failback_required)
                s.applications)
              s.applications))
unfolding start_failback
start_failback-Move actor_id event_id expected_version s =
    after (begin_transition actor_id event_id expected_version EventStatus.failback_in_progress) _ (
      after_begin_transition actor_id event_id expected_version EventStatus.failback_in_progress
        λ e found version legal.
          let key = event-key s event_id e found in
          after _ _ (
            after_now (
              after _ _ (
                after_asks _ (
                  after _ _ (
                    after_move_each actor_id e.id _ _ _ λ audit.
                      after_finish_event
                        (record e {
                          status = EventStatus.failback_in_progress;
                          failback_started_at = some (s.clock_readings s.draws);
                        })
                        _ _ EventStatus.failback_in_progress _ _
                        λ at draws audit' outbox. (
                          e,
                          s.clock_readings s.draws,
                          record {
                            found = found;
                            same = key;
                            arrow =
                                legal-EventArrow e.status EventStatus.failback_in_progress legal;
                            version = refl;
                            events = refl;
                            stamps = record {
                              cut_kept = λ _. refl;
                              cut_set = λ h. grind (arith, h);
                              failback_kept = λ n. absurd (n refl);
                              failback_set = λ _. refl;
                            };
                          },
                          only-failed_over e.status legal,
                          refl,
                          ap
                              (λ i.
                                put_all (λ r. r.id) (failing_back_at (s.clock_readings s.draws))
                                  (select
                                    (λ a.
                                      in_event i a
                                      && is_failed_over_application a.status
                                      && a.failback_required)
                                    s.applications)
                                  s.applications)
                              key,
                        )))))))

pub close-Move :
    (actor_id event_id expected_version : ℕ) (reason : Option String) (s : Session)
    → Ensures (close actor_id event_id expected_version reason) s (λ e' s'.
      (e : DrEvent) × EventMove s event_id e e' s'
      × (e'.status ≡ closed)
      × (has_non_terminal_children s event_id ≡ false)
      × ((is_failed_over_event e.status && failback_pending s event_id) ≡ false)
      × Excused s actor_id event_id (unfinished_monitoring_task_ids s event_id) s'.overrides
      × (s'.applications ≡ s.applications))
unfolding close
close-Move actor_id event_id expected_version reason s =
    after (begin_transition actor_id event_id expected_version closed) _ (
      after_begin_transition actor_id event_id expected_version closed λ e found version legal.
        let key = event-key s event_id e found in
        after _ _ (
          after_asks (λ s. has_non_terminal_children s e.id)
            (after _ _ (
              after_guard _ _ λ childless. after _ _ (
                after_asks (λ s. failback_pending s e.id)
                  (after _ _ (
                    after_guard _ _ λ settled. after _ _ (
                      after_asks _ (
                        after _ _ (
                          after_pass_monitoring actor_id e.id
                            (unfinished_monitoring_task_ids s e.id) reason
                            λ overrides audit excused. after _ _ (
                              after_now (
                                after_finish_event
                                  (record e {
                                    status = closed;
                                    completed_at = some (s.clock_readings s.draws);
                                  })
                                  _ _ closed _ _
                                  λ at draws audit' outbox. (
                                    e,
                                    record {
                                      found = found;
                                      same = key;
                                      arrow = legal-EventArrow e.status closed legal;
                                      version = refl;
                                      events = refl;
                                      stamps =
                                          unstamped e _ refl refl (λ h. grind (arith, h))
                                            (λ h. grind (arith, h));
                                    },
                                    refl,
                                    sym (ap (has_non_terminal_children s) key) ∙ was_not childless,
                                    sym (
                                          ap
                                            (λ i.
                                              is_failed_over_event e.status && failback_pending s i)
                                            key)
                                        ∙ was_not settled,
                                    subst
                                        (λ i.
                                          Excused s actor_id i (unfinished_monitoring_task_ids s i)
                                            overrides)
                                        key excused,
                                    refl,
                                  )))))))))))))
  where
    was_not : {b : Bool} → not b ≡ true → b ≡ false
    was_not {b} e = ground (arith, e)

pub cancel-Move :
    (actor_id event_id expected_version : ℕ) (reason : String) (s : Session)
    → Ensures (cancel actor_id event_id expected_version reason) s (λ e' s'.
      (e : DrEvent) × EventMove s event_id e e' s'
      × (e'.status ≡ cancelled)
      × (s'.applications ≡ s.applications))
unfolding cancel
cancel-Move actor_id event_id expected_version reason s = after _ _ (
    after_expect _ _ λ text _. after (require_lifecycle actor_id) _ (
      after_require_lifecycle actor_id λ _. after (load_event event_id expected_version) _ (
        after_load_event event_id expected_version λ e found version. after _ _ (
          after_guard _ _ λ early. after _ _ (
            after_now (
              after_finish_event
                (record e {
                  status = cancelled;
                  cancelled_at = some (s.clock_readings s.draws);
                  cancel_reason = some reason;
                })
                _ _ cancelled _ _
                λ at draws audit outbox. (
                  e,
                  record {
                    found = found;
                    same = event-key s event_id e found;
                    arrow = cancelled_early (ground (arith, early));
                    version = refl;
                    events = refl;
                    stamps =
                        unstamped e _ refl refl (λ h. grind (arith, h)) (λ h. grind (arith, h));
                  },
                  refl,
                  refl,
                )))))))
