-- ===== src/Tasks/Dependencies/Steps.antt =====
-- What holds after the steps of the dependency commands.
use syntrix_dr.Prelude.{ℕ, sym, List, [], ◌∷◌, ◌++◌, ◌+◌, subst}
use syntrix_dr.Db.{
  Session, AuditEvent, OutboxEvent, add_row-append, Task, TaskDependency, MilestoneDependency,
  Strength,
}
use syntrix_dr.Db.Writing.Steps.{
  Ensures, after, after_guard, after_expect, after_query, after_asks, after_modify, after_raise,
  after_now, after_new_uuid, after_pure, after_write_audit, after_write_outbox,
}
use syntrix_dr.Graph.{CycleSearch, no_cycle, cycle, stuck, cycle_path}
use syntrix_dr.Graph.Walks.{Walk}
use syntrix_dr.Graph.Correct.{IsAnswer, cycle_path-IsAnswer}
use syntrix_dr.Tasks.LiveGraph.{live_graph_edges, find_cycle_path}
use syntrix_dr.Tasks.Dependencies.{
  refuse_cycle, insert_dependency, write_task_changed, create_dependency, authorize, insert_gate,
}

pub insert_dependency-Ensures :
    (d : TaskDependency) {s : Session} {Q : Unit {0} → Session → Type 0}
    → Q tt (record s { task_dependencies = s.task_dependencies ++ d ∷ [] })
    → Ensures (insert_dependency d) s Q
unfolding insert_dependency
insert_dependency-Ensures d {s} {Q} h = after _ _ (
    after_asks _ (
      after _ _ (
        after_expect _ _ λ rows e. after_modify _ (
          subst (λ x. Q tt (record s { task_dependencies = x }))
            (sym (add_row-append (λ r. r.id) d _ rows e)) h))))

pub insert_gate-Ensures :
    (g : MilestoneDependency) {s : Session} {Q : Unit {0} → Session → Type 0}
    → Q tt (record s { milestone_dependencies = s.milestone_dependencies ++ g ∷ [] })
    → Ensures (insert_gate g) s Q
unfolding insert_gate
insert_gate-Ensures g {s} {Q} h = after _ _ (
    after_asks _ (
      after _ _ (
        after_expect _ _ λ rows e. after_modify _ (
          subst (λ x. Q tt (record s { milestone_dependencies = x }))
            (sym (add_row-append (λ r. r.id) g _ rows e)) h))))

pub refuse_cycle-Ensures :
    (s₀ : Session) (dr_event_id p q : ℕ) {s : Session} {Q : Unit {0} → Session → Type 0}
    → (¬ Walk (live_graph_edges s₀ dr_event_id) q p → Q tt s)
    → Ensures (refuse_cycle (find_cycle_path s₀ dr_event_id p q)) s Q
unfolding find_cycle_path
refuse_cycle-Ensures s₀ ev p q {s} {Q} h =
    let es = live_graph_edges s₀ ev in split (cycle_path es p q) (cycle_path-IsAnswer es p q)
  where
    split :
        (c : CycleSearch) → IsAnswer (live_graph_edges s₀ ev) p q c → Ensures (refuse_cycle c) s Q
    split no_cycle a = after_pure tt (h a)
    split (cycle path) a = after_raise _
    split stuck a = absurd a

pub after_authorize :
    (actor_id : ℕ) (successor : Task) {s : Session} {Q : Unit {0} → Session → Type 0}
    → Q tt (record s { draws = s.draws + 1 })
    → Ensures (authorize actor_id successor) s Q
unfolding authorize
after_authorize actor_id successor h =
    after _ _ (after_now (after _ _ (after_query _ (λ allowed e. after_guard _ _ λ f. h))))

-- What `create_dependency` returns, and the tables it leaves.
pub create_dependency-Ensures :
    (actor_id : ℕ) (predecessor successor : Task) (strength : Strength) (P : ℕ → ℕ → ℕ → Type 0)
    {s : Session} {Q : TaskDependency → Session → Type 0}
    → P successor.dr_event_id predecessor.id successor.id
    → ((d : TaskDependency) (audit : List AuditEvent) (outbox : List OutboxEvent) (draws : ℕ)
        → P d.dr_event_id d.predecessor_task_id d.successor_task_id
        → Q d (record s {
          task_dependencies = s.task_dependencies ++ d ∷ [];
          audit = audit;
          outbox = outbox;
          draws = draws;
        }))
    → Ensures (create_dependency actor_id predecessor successor strength) s Q
unfolding create_dependency write_task_changed
create_dependency-Ensures actor_id predecessor successor strength P p h = after _ _ (
    after_now (
      after _ _ (
        after_new_uuid (
          after _ _ (
            insert_dependency-Ensures _ (
              after _ _ (
                after_write_audit _
                  (after _ _ (after_write_outbox _ _ _ _ _ (after_pure _ (h _ _ _ _ p)))))))))))
