-- ===== src/Tasks/Dependencies.antt =====
-- `DependencyService` (tasks_dependencies/dependency_service.py): the only way an edge or a gate is made
-- or removed through the API. The advisory lock changes no row: a command here runs alone, as it does
-- under the lock.
pub mod Steps
pub mod Acyclic
use syntrix_dr.Prelude.{
  ℕ, String, Bool, true, false, not, ◌&&◌, Option, none, some, List, [], ◌∷◌, ◌++◌, ◌==◌, is_none,
  is_some, any, if◌then◌else◌,
}
use syntrix_dr.Db.{
  Session, Read, Result, ok, err, Command, Error, task_dependency_not_found, milestone_not_found,
  milestone_gate_not_found, authorization_required, self_dependency, cross_event_dependency,
  dependency_exists_error, dependency_cycle, integrity_error, assertion_failed, Task,
  TaskDependency, Milestone, MilestoneDependency, Strength, hard, advisory, get_row, put_row,
  add_row, Json, uuid, string, null, time, Payload, task_target, task_dependency_target,
  task_changed, user_actor, AuditEvent,
}
use syntrix_dr.Db.Writing.{
  ◌>>=◌, ◌>>◌, pure, raise, query, modify, guard, expect, now, new_uuid, write_audit, write_outbox,
}
use syntrix_dr.Access.Visibility.{user_can_see_event}
use syntrix_dr.Graph.{CycleSearch, no_cycle, cycle, stuck}
use syntrix_dr.Tasks.Policies.{actor_may_change_dependency}
use syntrix_dr.Tasks.Loads.{get_visible_task, load_visible, live_milestone}
use syntrix_dr.Tasks.LiveGraph.{find_cycle_path}

abbrev pub strength_name : Strength → String
strength_name hard = "HARD"
strength_name advisory = "ADVISORY"

-- `_authorize`
unfoldable pub authorize : ℕ → Task → Command (Unit {0})
authorize actor_id successor = do
  at ← now
  allowed ← query (actor_may_change_dependency actor_id successor at)
  guard allowed authorization_required

-- `_task_changed`
unfoldable pub write_task_changed : Task → String → String → ℕ → Command (Unit {0})
write_task_changed successor change ref_key ref_id =
    write_outbox task_target successor.id task_changed
      (("change", string change) ∷ (ref_key, uuid ref_id) ∷ []) (some successor.dr_event_id)

-- `dependency_exists` of tasks_dependencies/commands.py
unfoldable pub dependency_exists : Session → ℕ → ℕ → Bool
dependency_exists s predecessor_task_id successor_task_id =
    any
      (λ d.
        (d.predecessor_task_id == predecessor_task_id)
        && (d.successor_task_id == successor_task_id)
        && is_none d.deleted_at)
      s.task_dependencies

unfoldable pub live_milestone_gate_exists : Session → ℕ → ℕ → Bool
live_milestone_gate_exists s milestone_id successor_task_id =
    any
      (λ g.
        (g.milestone_id == milestone_id)
        && (g.successor_task_id == successor_task_id)
        && is_none g.deleted_at)
      s.milestone_dependencies

-- `if cycle is not None: raise DependencyCycleError(cycle)`
abbrev pub refuse_cycle : CycleSearch → Command (Unit {0})
refuse_cycle no_cycle = pure tt
refuse_cycle (cycle path) = raise (dependency_cycle path)
refuse_cycle stuck = raise assertion_failed

unfoldable pub insert_dependency : TaskDependency → Command (Unit {0})
unfolding add_row
insert_dependency d = do
  added ← query (λ s. ok (add_row (λ r. r.id) d s.task_dependencies))
  rows ← expect added integrity_error
  modify (λ s. record s { task_dependencies = rows })

unfoldable pub save_dependency : TaskDependency → Command (Unit {0})
unfolding put_row
save_dependency d s =
    ok (tt, record s { task_dependencies = put_row (λ r. r.id) d s.task_dependencies })

unfoldable pub insert_gate : MilestoneDependency → Command (Unit {0})
unfolding add_row
insert_gate g = do
  added ← query (λ s. ok (add_row (λ r. r.id) g s.milestone_dependencies))
  rows ← expect added integrity_error
  modify (λ s. record s { milestone_dependencies = rows })

unfoldable pub save_gate : MilestoneDependency → Command (Unit {0})
unfolding put_row
save_gate g s =
    ok (tt, record s { milestone_dependencies = put_row (λ r. r.id) g s.milestone_dependencies })

-- An audit row of a user's change to an edge.
abbrev pub edge_audit : ℕ → ℕ → String → ℕ → Option Payload → Payload → AuditEvent
edge_audit actor_id edge_id action dr_event_id before after = record {
  dr_event_id = some dr_event_id;
  actor_user_id = some actor_id;
  actor_type = user_actor;
  entity_type = task_dependency_target;
  entity_id = edge_id;
  action = action;
  before_data = before;
  after_data = some after;
  metadata = [];
}

-- A gate is audited against the Task that it holds.
abbrev pub gate_audit : ℕ → Task → String → Payload → AuditEvent
gate_audit actor_id successor action after = record {
  dr_event_id = some successor.dr_event_id;
  actor_user_id = some actor_id;
  actor_type = user_actor;
  entity_type = task_target;
  entity_id = successor.id;
  action = action;
  before_data = none;
  after_data = some after;
  metadata = [];
}

-- The write of `add_task_dependency`, once every check has passed.
unfoldable pub create_dependency : ℕ → Task → Task → Strength → Command TaskDependency
unfolding insert_dependency write_task_changed
create_dependency actor_id predecessor successor strength = do
  created_at ← now
  id ← new_uuid
  let edge : TaskDependency = record {
    id = id;
    dr_event_id = successor.dr_event_id;
    predecessor_task_id = predecessor.id;
    successor_task_id = successor.id;
    strength = strength;
    created_by_user_id = actor_id;
    created_at = created_at;
    deleted_at = none;
  }
  insert_dependency edge
  write_audit (
      edge_audit actor_id edge.id "TASK_DEPENDENCY_CREATED" edge.dr_event_id none (
        ("predecessor_task_id", uuid predecessor.id)
        ∷ ("successor_task_id", uuid successor.id)
        ∷ ("strength", string (strength_name strength))
        ∷ []))
  write_task_changed successor "DEPENDENCY_ADDED" "task_dependency_id" edge.id
  pure edge

unfoldable pub add_task_dependency : ℕ → ℕ → ℕ → Strength → Command TaskDependency
unfolding authorize create_dependency
add_task_dependency actor_id predecessor_task_id successor_task_id strength = do
  guard (not (predecessor_task_id == successor_task_id)) self_dependency
  predecessor ← load_visible predecessor_task_id actor_id
  successor ← load_visible successor_task_id actor_id
  guard (predecessor.dr_event_id == successor.dr_event_id) cross_event_dependency
  authorize actor_id successor
  exists ← query (λ s. ok (dependency_exists s predecessor.id successor.id))
  guard (not exists) dependency_exists_error
  found ← query (λ s. ok (find_cycle_path s successor.dr_event_id predecessor.id successor.id))
  refuse_cycle found
  create_dependency actor_id predecessor successor strength

-- The live edge, if its Event is visible.
unfoldable pub visible_dependency : Session → ℕ → ℕ → Option TaskDependency
unfolding get_row
visible_dependency s actor_id dependency_id =
    elim (get_row (λ d. d.id) dependency_id s.task_dependencies) [
      | none ↦ none
      | some d ↦
          if is_none d.deleted_at && user_can_see_event s actor_id d.dr_event_id
          then some d
          else none
    ]

unfoldable pub remove_task_dependency : ℕ → ℕ → Command TaskDependency
unfolding authorize visible_dependency save_dependency write_task_changed get_row
remove_task_dependency actor_id dependency_id = do
  found ← query (λ s. ok (visible_dependency s actor_id dependency_id))
  edge ← expect found task_dependency_not_found
  target ← query (λ s. ok (get_row (λ t. t.id) edge.successor_task_id s.tasks))
  successor ← expect target assertion_failed
  authorize actor_id successor
  at ← now
  let removed = record edge { deleted_at = some at }
  save_dependency removed
  write_audit (
      edge_audit actor_id edge.id "TASK_DEPENDENCY_DELETED" edge.dr_event_id
        (some (("deleted_at", null) ∷ [])) (("deleted_at", time at) ∷ []))
  write_task_changed successor "DEPENDENCY_REMOVED" "task_dependency_id" edge.id
  pure removed

-- The Milestone of a new gate: live, in an Event that the actor sees.
unfoldable pub visible_milestone : Session → ℕ → ℕ → Option Milestone
unfolding live_milestone
visible_milestone s actor_id milestone_id = elim (live_milestone s milestone_id) [
  | none ↦ none
  | some m ↦ if user_can_see_event s actor_id m.dr_event_id then some m else none
]

unfoldable pub create_gate : ℕ → Milestone → Task → Strength → Command MilestoneDependency
unfolding insert_gate write_task_changed
create_gate actor_id milestone successor strength = do
  created_at ← now
  id ← new_uuid
  let gate : MilestoneDependency = record {
    id = id;
    milestone_id = milestone.id;
    successor_task_id = successor.id;
    strength = strength;
    created_by_user_id = actor_id;
    created_at = created_at;
    deleted_at = none;
  }
  insert_gate gate
  write_audit (
      gate_audit actor_id successor "MILESTONE_GATE_ADDED" (
        ("milestone_dependency_id", uuid gate.id)
        ∷ ("milestone_id", uuid milestone.id)
        ∷ ("strength", string (strength_name strength))
        ∷ []))
  write_task_changed successor "MILESTONE_GATE_ADDED" "milestone_dependency_id" gate.id
  pure gate

unfoldable pub add_milestone_gate : ℕ → ℕ → ℕ → Strength → Command MilestoneDependency
unfolding authorize visible_milestone create_gate
add_milestone_gate actor_id milestone_id successor_task_id strength = do
  successor ← load_visible successor_task_id actor_id
  found_milestone ← query (λ s. ok (visible_milestone s actor_id milestone_id))
  milestone ← expect found_milestone milestone_not_found
  guard (milestone.dr_event_id == successor.dr_event_id) cross_event_dependency
  authorize actor_id successor
  exists ← query (λ s. ok (live_milestone_gate_exists s milestone.id successor.id))
  guard (not exists) dependency_exists_error
  found ← query (λ s. ok (find_cycle_path s successor.dr_event_id milestone.id successor.id))
  refuse_cycle found
  create_gate actor_id milestone successor strength

-- The live gate with its successor, if that is live and visible.
unfoldable pub visible_gate : Session → ℕ → ℕ → Option (MilestoneDependency × Task)
unfolding get_row get_visible_task
visible_gate s actor_id milestone_dependency_id =
    elim (get_row (λ g. g.id) milestone_dependency_id s.milestone_dependencies) [
      | none ↦ none
      | some g ↦
          if is_none g.deleted_at
          then elim (get_visible_task s actor_id g.successor_task_id) [
            | none ↦ none
            | some t ↦ some (g, t)
          ]
          else none
    ]

unfoldable pub remove_milestone_gate : ℕ → ℕ → Command MilestoneDependency
unfolding authorize visible_gate save_gate write_task_changed
remove_milestone_gate actor_id milestone_dependency_id = do
  found ← query (λ s. ok (visible_gate s actor_id milestone_dependency_id))
  (gate, successor) ← expect found milestone_gate_not_found
  authorize actor_id successor
  at ← now
  let removed = record gate { deleted_at = some at }
  save_gate removed
  write_audit (
      gate_audit actor_id successor "MILESTONE_GATE_REMOVED"
        (("milestone_dependency_id", uuid gate.id) ∷ ("milestone_id", uuid gate.milestone_id) ∷ []))
  write_task_changed successor "MILESTONE_GATE_REMOVED" "milestone_dependency_id" gate.id
  pure removed
