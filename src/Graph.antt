-- ===== src/Graph.antt =====
-- The dependency graph of one DR Event: nodes are ids of Tasks and Milestones, and an edge leads from
-- what is waited for to what waits. `cycle_path` of tasks_dependencies/queries.py.
pub mod Walks
pub mod Trace
pub mod Scan
pub mod Kahn
pub mod Correct
use syntrix_dr.Prelude.{
  ℕ, zero, suc, ◌+◌, Bool, true, false, Option, none, some, List, [], ◌∷◌, ◌++◌, reverse, ◌==◌,
  if◌then◌else◌, length, sorted, is_some,
}

abbrev pub Edge : Type 0
Edge = ℕ × ℕ

-- `successors[p]`, for the defaultdict that the first loop fills.
pub successors : List Edge → ℕ → List ℕ
successors [] p = []
successors ((q, s) ∷ es) p = let rest = successors es p in if q == p then s ∷ rest else rest

-- The dict `parent`, newest entry first.
abbrev pub Parents : Type 0
Parents = List (ℕ × Option ℕ)

-- `parent[k]`; `none` is a KeyError.
abbrev pub get_parent : ℕ → Parents → Option (Option ℕ)
get_parent k [] = none
get_parent k ((j, v) ∷ d) = if k == j then some v else get_parent k d

-- `k in parent`
abbrev pub visited : ℕ → Parents → Bool
visited k [] = false
visited k ((j, v) ∷ d) = if k == j then true else visited k d

abbrev pub cons_if_some : ℕ → Option (List ℕ) → Option (List ℕ)
cons_if_some c none = none
cons_if_some c (some path) = some (c ∷ path)

-- The loop `while cursor is not None`: the path in the order of its appends. `none` stands for a
-- KeyError and for fuel that ran out.
pub trace : ℕ → Parents → ℕ → Option (List ℕ)
trace zero d c = none
trace (suc fuel) d c = elim (get_parent c d) [
  | none ↦ none
  | some none ↦ some (c ∷ [])
  | some (some u) ↦ cons_if_some c (trace fuel d u)
]

pub data CycleSearch : Type 0 where
  no_cycle : CycleSearch
  cycle : List ℕ → CycleSearch
  stuck : CycleSearch

pub record Frontier : Type 0 where
  pub parent : Parents
  pub queue : List ℕ

-- The body of the loop over the sorted successors.
pub offer : ℕ → Frontier → ℕ → Frontier
offer node s nxt =
    if visited nxt s.parent
    then s
    else record { parent = (nxt, some node) ∷ s.parent; queue = s.queue ++ nxt ∷ [] }

pub scan : ℕ → Frontier → List ℕ → Frontier
scan node s [] = s
scan node s (nxt ∷ ns) = scan node (offer node s nxt) ns

-- `[predecessor_id, *reversed(path)]`
abbrev pub close_path : ℕ → Option (List ℕ) → CycleSearch
close_path goal none = stuck
close_path goal (some path) = cycle (goal ∷ reverse path)

-- The loop `while queue`; `stuck` at the end of the fuel.
pub bfs : List Edge → ℕ → ℕ → Frontier → CycleSearch
unfolding trace
bfs es goal zero s = elim s.queue [ [] ↦ no_cycle | _ ∷ _ ↦ stuck ]
bfs es goal (suc fuel) s = elim s.queue [
  | [] ↦ no_cycle
  | node ∷ rest ↦ elim (node == goal) [
    | true ↦ close_path goal (trace (length s.parent) s.parent node)
    | false ↦ bfs es goal fuel (scan node (record s { queue = rest }) (sorted (successors es node)))
  ]
]

unfoldable pub start : ℕ → Frontier
start root = record { parent = (root, none) ∷ []; queue = root ∷ [] }

-- Each round takes one node off the queue, and each node but the first is the target of an edge.
unfoldable pub cycle_path : List Edge → ℕ → ℕ → CycleSearch
unfolding bfs start scan offer successors sorted
cycle_path es predecessor_id successor_id =
    bfs es predecessor_id (length es + 1) (start successor_id)
