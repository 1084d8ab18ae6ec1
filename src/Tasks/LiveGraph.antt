-- ===== src/Tasks/LiveGraph.antt =====
-- The live edges of one Event, and the cycle check over them (tasks_dependencies/queries.py).
pub mod Acyclic
pub mod Changes
use syntrix_dr.Prelude.{
  ℕ, Bool, true, false, ◌&&◌, List, [], ◌∷◌, ◌++◌, ◌==◌, is_none, none, some, if◌then◌else◌,
}
use syntrix_dr.Db.{
  Session, Task, Milestone, get_row, TaskDependency, MilestoneDependency, MilestoneTask,
}
use syntrix_dr.Graph.{Edge, CycleSearch, cycle_path}

-- `id IN (SELECT id FROM tasks WHERE dr_event_id = ... AND deleted_at IS NULL)`; the id is the key.
unfoldable pub is_live_task : List Task → ℕ → ℕ → Bool
unfolding get_row
is_live_task tasks dr_event_id task_id = elim (get_row (λ t. t.id) task_id tasks) [
  | none ↦ false
  | some t ↦ (t.dr_event_id == dr_event_id) && is_none t.deleted_at
]

unfoldable pub is_live_milestone : List Milestone → ℕ → ℕ → Bool
unfolding get_row
is_live_milestone milestones dr_event_id milestone_id =
    elim (get_row (λ m. m.id) milestone_id milestones) [
      | none ↦ false
      | some m ↦ (m.dr_event_id == dr_event_id) && is_none m.deleted_at
    ]

unfoldable pub task_edges : ℕ → List TaskDependency → List Edge
task_edges dr_event_id [] = []
task_edges dr_event_id (d ∷ ds) =
    let rest = task_edges dr_event_id ds in
    if (d.dr_event_id == dr_event_id) && is_none d.deleted_at
    then (d.predecessor_task_id, d.successor_task_id) ∷ rest
    else rest

unfoldable pub gate_edges : List Task → List Milestone → ℕ → List MilestoneDependency → List Edge
gate_edges tasks milestones dr_event_id [] = []
gate_edges tasks milestones dr_event_id (g ∷ gs) =
    let rest = gate_edges tasks milestones dr_event_id gs in
    if is_none g.deleted_at
      && (is_live_milestone milestones dr_event_id g.milestone_id
          && is_live_task tasks dr_event_id g.successor_task_id)
    then (g.milestone_id, g.successor_task_id) ∷ rest
    else rest

unfoldable pub contribution_edges : List Task → List Milestone → ℕ → List MilestoneTask → List Edge
contribution_edges tasks milestones dr_event_id [] = []
contribution_edges tasks milestones dr_event_id (c ∷ cs) =
    let rest = contribution_edges tasks milestones dr_event_id cs in
    if c.is_required
      && (is_live_milestone milestones dr_event_id c.milestone_id
          && is_live_task tasks dr_event_id c.task_id)
    then (c.task_id, c.milestone_id) ∷ rest
    else rest

-- `_live_graph_edges`
unfoldable pub live_graph_edges : Session → ℕ → List Edge
unfolding task_edges gate_edges contribution_edges is_live_task is_live_milestone
live_graph_edges s dr_event_id =
    task_edges dr_event_id s.task_dependencies
    ++ (gate_edges s.tasks s.milestones dr_event_id s.milestone_dependencies
        ++ contribution_edges s.tasks s.milestones dr_event_id s.milestone_tasks)

unfoldable pub find_cycle_path : Session → ℕ → ℕ → ℕ → CycleSearch
unfolding live_graph_edges cycle_path
find_cycle_path s dr_event_id predecessor_id successor_id =
    cycle_path (live_graph_edges s dr_event_id) predecessor_id successor_id
