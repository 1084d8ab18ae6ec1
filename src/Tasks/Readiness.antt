-- ===== src/Tasks/Readiness.antt =====
-- Derived Ready (tasks_dependencies/queries.py): what a Task waits on.
pub mod Correct
pub mod Rows
use syntrix_dr.Prelude.{
  is_nil, ℕ, Bool, true, false, not, ◌&&◌, Option, none, some, List, [], ◌∷◌, ◌++◌, map, ◌==◌, leb,
  is_none, select, if◌then◌else◌,
}
use syntrix_dr.Db.{
  Session, Task, TaskStatus, TaskDependency, MilestoneStatus, achieved, MilestoneDependency,
  Strength, hard, advisory, get_row,
}

pub data GateKind : Type 0 where
  task_gate milestone_gate : GateKind

pub record GateRef : Type 0 where
  pub id : ℕ
  pub kind : GateKind
  pub work_stream_id : Option ℕ

pub record Upstream : Type 0 where
  pub ref : GateRef
  pub strength : Strength
  pub satisfied : Bool

pub record Readiness : Type 0 where
  pub status_ok : Bool
  pub blocking : List GateRef
  pub advisory_pending : List GateRef

abbrev pub is_not_started : TaskStatus → Bool
is_not_started TaskStatus.not_started = true
is_not_started _ = false

abbrev pub is_completed : TaskStatus → Bool
is_completed TaskStatus.completed = true
is_completed _ = false

abbrev pub is_achieved : MilestoneStatus → Bool
is_achieved achieved = true
is_achieved _ = false

abbrev pub is_hard : Strength → Bool
is_hard hard = true
is_hard advisory = false

-- The property `ready`.
unfoldable pub ready : Readiness → Bool
ready r = r.status_ok && is_nil r.blocking

abbrev pub kind_eq : GateKind → GateKind → Bool
kind_eq task_gate task_gate = true
kind_eq milestone_gate milestone_gate = true
kind_eq _ _ = false

-- The ids of the gates of one kind, in their order.
unfoldable pub ids : GateKind → List GateRef → List ℕ
ids kind [] = []
ids kind (g ∷ gs) = let rest = ids kind gs in if kind_eq g.kind kind then g.id ∷ rest else rest

-- The sort key `(kind, str(id))`: "MILESTONE" stands before "TASK".
abbrev pub before : GateRef → GateRef → Bool
before a b = elim a.kind [
  | milestone_gate ↦ elim b.kind [ milestone_gate ↦ leb a.id b.id | task_gate ↦ true ]
  | task_gate ↦ elim b.kind [ milestone_gate ↦ false | task_gate ↦ leb a.id b.id ]
]

unfoldable pub insert_upstream : Upstream → List Upstream → List Upstream
insert_upstream u [] = u ∷ []
insert_upstream u (v ∷ vs) = if before u.ref v.ref then u ∷ v ∷ vs else v ∷ insert_upstream u vs

unfoldable pub sort_upstream : List Upstream → List Upstream
unfolding insert_upstream
sort_upstream [] = []
sort_upstream (u ∷ us) = insert_upstream u (sort_upstream us)

abbrev pub is_blocking : Upstream → Bool
is_blocking u = is_hard u.strength && not u.satisfied

abbrev pub is_pending_advice : Upstream → Bool
is_pending_advice u = not (is_hard u.strength) && not u.satisfied

unfoldable pub derive_readiness : TaskStatus → List Upstream → Readiness
unfolding sort_upstream
derive_readiness task_status upstream =
    let order = sort_upstream upstream in
    record {
      status_ok = is_not_started task_status;
      blocking = map (λ u. u.ref) (select is_blocking order);
      advisory_pending = map (λ u. u.ref) (select is_pending_advice order);
    }

-- The join of one live edge with its live predecessor.
abbrev pub predecessor_of : Session → TaskDependency → List Upstream
predecessor_of s d = elim (get_row (λ t. t.id) d.predecessor_task_id s.tasks) [
  | none ↦ []
  | some p ↦
      if is_none p.deleted_at
      then record {
        ref = record { id = p.id; kind = task_gate; work_stream_id = p.work_stream_id };
        strength = d.strength;
        satisfied = is_completed p.status;
      }
        ∷ []
      else []
]

unfoldable pub predecessors : Session → ℕ → List TaskDependency → List Upstream
unfolding get_row
predecessors s task_id [] = []
predecessors s task_id (d ∷ ds) =
    (if (d.successor_task_id == task_id) && is_none d.deleted_at then predecessor_of s d else [])
    ++ predecessors s task_id ds

-- The join of one live gate with its live Milestone.
abbrev pub milestone_of : Session → MilestoneDependency → List Upstream
milestone_of s g = elim (get_row (λ m. m.id) g.milestone_id s.milestones) [
  | none ↦ []
  | some m ↦
      if is_none m.deleted_at
      then record {
        ref = record { id = m.id; kind = milestone_gate; work_stream_id = m.work_stream_id };
        strength = g.strength;
        satisfied = is_achieved m.status;
      }
        ∷ []
      else []
]

unfoldable pub gates : Session → ℕ → List MilestoneDependency → List Upstream
unfolding get_row
gates s task_id [] = []
gates s task_id (g ∷ gs) =
    (if (g.successor_task_id == task_id) && is_none g.deleted_at then milestone_of s g else [])
    ++ gates s task_id gs

-- `_upstream_by_task` at one Task.
unfoldable pub upstream_of : Session → ℕ → List Upstream
unfolding predecessors gates
upstream_of s task_id =
    predecessors s task_id s.task_dependencies ++ gates s task_id s.milestone_dependencies

unfoldable pub readiness : Session → Task → Readiness
unfolding derive_readiness upstream_of
readiness s task = derive_readiness task.status (upstream_of s task.id)
