-- ===== src/Tasks/LiveGraph/Acyclic.antt =====
-- Events whose live graphs have no cycle, and the changes of one row that keep them so.
use syntrix_dr.Prelude.{ℕ, ◌≡◌, true, List, [], ◌∷◌, ◌++◌, ◌==◌, is_some, ==_iff, subst}
use syntrix_dr.Db.{Session, AuditEvent, OutboxEvent, TaskDependency, MilestoneDependency, put_row}
use syntrix_dr.Graph.Walks.{grown-IsAcyclic, Walk, IsAcyclic, IsAcyclic-anti}
use syntrix_dr.Tasks.LiveGraph.{live_graph_edges, is_live_task}
use syntrix_dr.Tasks.LiveGraph.Changes.{
  grow_left, grow_right, keep_left, keep_right, task_edges-append, task_edges-put_row,
  gate_edges-append, gate_edges-put_row,
}

-- No Event's live graph has a cycle.
abbrev pub EventsAcyclic : Session → Type 0
EventsAcyclic s = (dr_event_id : ℕ) → IsAcyclic (live_graph_edges s dr_event_id)

-- The tables after one more dependency, one more gate, and a removal of each.
module _ (s : Session) (audit : List AuditEvent) (outbox : List OutboxEvent) (draws : ℕ) where
  abbrev pub with_dependencies : List TaskDependency → Session
  with_dependencies ds = record s {
    task_dependencies = ds;
    audit = audit;
    outbox = outbox;
    draws = draws;
  }

  abbrev pub with_gates : List MilestoneDependency → Session
  with_gates gs = record s {
    milestone_dependencies = gs;
    audit = audit;
    outbox = outbox;
    draws = draws;
  }

  pub added_dependency-EventsAcyclic :
      (d : TaskDependency)
      → EventsAcyclic s
      → ¬ Walk (live_graph_edges s d.dr_event_id) d.successor_task_id d.predecessor_task_id
      → EventsAcyclic (with_dependencies (s.task_dependencies ++ d ∷ []))
  unfolding live_graph_edges
  added_dependency-EventsAcyclic d acyclic apart ev =
      grown-IsAcyclic (d.dr_event_id == ev)
        (λ u v. grow_left _ (task_edges-append ev u v d s.task_dependencies))
        (λ e.
          subst (λ x. ¬ Walk (live_graph_edges s x) d.successor_task_id d.predecessor_task_id)
            ((==_iff d.dr_event_id ev).0 e) apart)
        (acyclic ev)

  pub removed_dependency-EventsAcyclic :
      (d : TaskDependency)
      → is_some d.deleted_at ≡ true
      → EventsAcyclic s
      → EventsAcyclic (with_dependencies (put_row (λ r. r.id) d s.task_dependencies))
  unfolding live_graph_edges
  removed_dependency-EventsAcyclic d dead acyclic ev =
      IsAcyclic-anti (λ u v. keep_left _ (task_edges-put_row ev u v d s.task_dependencies dead))
        (acyclic ev)

  pub added_gate-EventsAcyclic :
      (g : MilestoneDependency)
      → EventsAcyclic s
      → ((ev : ℕ)
          → is_live_task s.tasks ev g.successor_task_id ≡ true
          → ¬ Walk (live_graph_edges s ev) g.successor_task_id g.milestone_id)
      → EventsAcyclic (with_gates (s.milestone_dependencies ++ g ∷ []))
  unfolding live_graph_edges
  added_gate-EventsAcyclic g acyclic apart ev =
      grown-IsAcyclic (is_live_task s.tasks ev g.successor_task_id)
        (λ u v.
          grow_right _ (
            grow_left _ (gate_edges-append s.tasks s.milestones ev u v g s.milestone_dependencies)))
        (apart ev) (acyclic ev)

  pub removed_gate-EventsAcyclic :
      (g : MilestoneDependency)
      → is_some g.deleted_at ≡ true
      → EventsAcyclic s
      → EventsAcyclic (with_gates (put_row (λ r. r.id) g s.milestone_dependencies))
  unfolding live_graph_edges
  removed_gate-EventsAcyclic g dead acyclic ev =
      IsAcyclic-anti
        (λ u v. keep_right _ (
          keep_left _
            (gate_edges-put_row s.tasks s.milestones ev u v g s.milestone_dependencies dead)))
        (acyclic ev)
