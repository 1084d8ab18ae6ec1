-- ===== src/Tasks/Dependencies/Acyclic.antt =====
-- The live graph of every Event stays acyclic.
use syntrix_dr.Prelude.{ℕ, ◌≡◌, refl, sym, true, some, arith, ◌+◌, subst}
use syntrix_dr.Db.{get_row-key, Session, Task, TaskDependency, MilestoneDependency, Strength}
use syntrix_dr.Db.Writing.Steps.{
  Ensures, done, after, after_guard, after_expect, after_asks, after_modify, after_now,
  after_new_uuid, after_pure, after_write_audit, after_write_outbox,
}
use syntrix_dr.Graph.Walks.{Walk}
use syntrix_dr.Tasks.LiveGraph.{live_graph_edges, is_live_task}
use syntrix_dr.Tasks.Dependencies.{
  write_task_changed, add_task_dependency, remove_task_dependency, save_dependency,
  add_milestone_gate, create_gate, remove_milestone_gate, save_gate,
}
use syntrix_dr.Tasks.Loads.{get_visible_task, live_task}
use syntrix_dr.Tasks.Loads.Steps.{after_load_visible}
use syntrix_dr.Tasks.LiveGraph.Acyclic.{
  EventsAcyclic, added_dependency-EventsAcyclic, removed_dependency-EventsAcyclic,
  added_gate-EventsAcyclic, removed_gate-EventsAcyclic,
}
use syntrix_dr.Tasks.Dependencies.Steps.{
  insert_gate-Ensures, refuse_cycle-Ensures, after_authorize, create_dependency-Ensures,
}

drawn-EventsAcyclic :
    (s : Session) (n : ℕ) → EventsAcyclic s → EventsAcyclic (record s { draws = n })
unfolding live_graph_edges
drawn-EventsAcyclic s n acyclic = acyclic

add_dependency-Ensures :
    (actor_id p q : ℕ) (strength : Strength) {s : Session}
    → EventsAcyclic s
    → Ensures (add_task_dependency actor_id p q strength) s (λ edge s'. EventsAcyclic s')
unfolding add_task_dependency
add_dependency-Ensures actor_id p q strength {s} acyclic =
    let t : Session = record s { draws = s.draws + 1 } in
    after _ _ (
      after_guard _ _ λ _. after _ _ (
        after_load_visible p actor_id λ predecessor _. after _ _ (
          after_load_visible q actor_id λ successor _. after _ _ (
            after_guard _ _ λ _. after _ _ (
              after_authorize actor_id successor (
                after _ _ (
                  after_asks _ (
                    after _ _ (
                      after_guard _ _ λ _. after _ _ (
                        after_asks _ (
                          after _ _ (
                            refuse_cycle-Ensures t _ _ _ λ apart.
                              create_dependency-Ensures actor_id predecessor successor strength
                                (λ ev u v. ¬ Walk (live_graph_edges t ev) v u) apart
                                λ d audit outbox draws apart'.
                                  added_dependency-EventsAcyclic t audit outbox draws d
                                    (drawn-EventsAcyclic s _ acyclic) apart'))))))))))))

remove_dependency-Ensures :
    (actor_id dependency_id : ℕ) {s : Session}
    → EventsAcyclic s
    → Ensures (remove_task_dependency actor_id dependency_id) s (λ edge s'. EventsAcyclic s')
unfolding remove_task_dependency save_dependency write_task_changed
remove_dependency-Ensures actor_id dependency_id {s} acyclic = after _ _ (
    after_asks _ (
      after _ _ (
        after_expect _ _ λ edge _. after _ _ (
          after_asks _ (
            after _ _ (
              after_expect _ _ λ successor _. after _ _ (
                after_authorize actor_id successor (
                  after _ _ (
                    after_now (
                      after _ _ (
                        after_modify _ (
                          after _ _ (
                            after_write_audit _ (
                              after _ _ (
                                after_write_outbox _ _ _ _ _ (
                                  after_pure _ (
                                    removed_dependency-EventsAcyclic s _ _ _ _ refl
                                      acyclic)))))))))))))))))

-- The Task that an actor sees is live in its own Event and in no other.
visible-event :
    (s : Session) (actor_id task_id ev : ℕ) (task : Task)
    → get_visible_task s actor_id task_id ≡ some task
    → is_live_task s.tasks ev task.id ≡ true
    → ev ≡ task.dr_event_id
unfolding get_visible_task live_task is_live_task
visible-event s actor_id task_id ev task seen live =
    ground (arith, seen, live, get_row-key (λ t. t.id) task_id s.tasks task)

add_gate-Ensures :
    (actor_id m q : ℕ) (strength : Strength) {s : Session}
    → EventsAcyclic s
    → Ensures (add_milestone_gate actor_id m q strength) s (λ gate s'. EventsAcyclic s')
unfolding add_milestone_gate create_gate write_task_changed
add_gate-Ensures actor_id m q strength {s} acyclic =
    let t : Session = record s { draws = s.draws + 1 } in
    after _ _ (
      after_load_visible q actor_id λ successor seen. after _ _ (
        after_asks _ (
          after _ _ (
            after_expect _ _ λ milestone _. after _ _ (
              after_guard _ _ λ _. after _ _ (
                after_authorize actor_id successor (
                  after _ _ (
                    after_asks _ (
                      after _ _ (
                        after_guard _ _ λ _. after _ _ (
                          after_asks _ (
                            after _ _ (
                              refuse_cycle-Ensures t _ _ _ λ apart. after _ _ (
                                after_now (
                                  after _ _ (
                                    after_new_uuid (
                                      after _ _ (
                                        insert_gate-Ensures _ (
                                          after _ _ (
                                            after_write_audit _ (
                                              after _ _ (
                                                after_write_outbox _ _ _ _ _ (
                                                  after_pure _ (
                                                    added_gate-EventsAcyclic t _ _ _ _
                                                      (drawn-EventsAcyclic s _ acyclic)
                                                      (λ ev live.
                                                        subst
                                                          (λ x.
                                                            ¬ Walk (live_graph_edges t x)
                                                            successor.id milestone.id)
                                                          (sym (
                                                            visible-event s actor_id q ev successor
                                                            seen live))
                                                          apart)))))))))))))))))))))))))

remove_gate-Ensures :
    (actor_id milestone_dependency_id : ℕ) {s : Session}
    → EventsAcyclic s
    → Ensures
        (remove_milestone_gate actor_id milestone_dependency_id)
        s
        (λ gate s'. EventsAcyclic s')
unfolding remove_milestone_gate save_gate write_task_changed
remove_gate-Ensures actor_id milestone_dependency_id {s} acyclic = after _ _ (
    after_asks _ (
      after _ _ (
        after_expect _ _ λ found _. after _ _ (
          after_authorize actor_id found.1 (
            after _ _ (
              after_now (
                after _ _ (
                  after_modify _ (
                    after _ _ (
                      after_write_audit _ (
                        after _ _ (
                          after_write_outbox _ _ _ _ _ (
                            after_pure _
                              (removed_gate-EventsAcyclic s _ _ _ _ refl acyclic))))))))))))))

-- A change to the dependency graph: a command of the service that succeeds.
pub data GraphStep (s s' : Session) : Type 0 where
  dependency_added :
      (actor_id p q : ℕ) (strength : Strength) (edge : TaskDependency)
      → add_task_dependency actor_id p q strength s ≡ done edge s'
      → GraphStep s s'
  dependency_removed :
      (actor_id dependency_id : ℕ) (edge : TaskDependency)
      → remove_task_dependency actor_id dependency_id s ≡ done edge s'
      → GraphStep s s'
  gate_added :
      (actor_id m q : ℕ) (strength : Strength) (gate : MilestoneDependency)
      → add_milestone_gate actor_id m q strength s ≡ done gate s'
      → GraphStep s s'
  gate_removed :
      (actor_id milestone_dependency_id : ℕ) (gate : MilestoneDependency)
      → remove_milestone_gate actor_id milestone_dependency_id s ≡ done gate s'
      → GraphStep s s'

-- What a sequence of such changes leads to.
pub data GraphSteps (s : Session) : Session → Type 0 where
  none_yet : GraphSteps s s
  then_step : {t u : Session} → GraphSteps s t → GraphStep t u → GraphSteps s u

GraphStep-EventsAcyclic : (s s' : Session) → GraphStep s s' → EventsAcyclic s → EventsAcyclic s'
GraphStep-EventsAcyclic s s' (dependency_added actor_id p q strength edge e) acyclic =
    (add_dependency-Ensures actor_id p q strength acyclic).result edge s' e
GraphStep-EventsAcyclic s s' (dependency_removed actor_id dependency_id edge e) acyclic =
    (remove_dependency-Ensures actor_id dependency_id acyclic).result edge s' e
GraphStep-EventsAcyclic s s' (gate_added actor_id m q strength gate e) acyclic =
    (add_gate-Ensures actor_id m q strength acyclic).result gate s' e
GraphStep-EventsAcyclic s s' (gate_removed actor_id gate_id gate e) acyclic =
    (remove_gate-Ensures actor_id gate_id acyclic).result gate s' e

-- If the live graph (Task dependencies, Milestone gates and required contributions) of every Event has
-- no cycle, then so it is after any sequence of successful commands of the dependency service, in any
-- order and by any actors: adding or removing Task dependencies and Milestone gates.
pub GraphSteps-EventsAcyclic :
    (s s' : Session) → GraphSteps s s' → EventsAcyclic s → EventsAcyclic s'
GraphSteps-EventsAcyclic s s' none_yet acyclic = acyclic
GraphSteps-EventsAcyclic s s' (then_step {t} before last) acyclic =
    GraphStep-EventsAcyclic t s' last (GraphSteps-EventsAcyclic s t before acyclic)
