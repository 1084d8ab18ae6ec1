-- ===== src/Graph/Kahn.antt =====
-- `has_cycle` of tasks_dependencies/queries.py: Kahn's algorithm.
pub mod Loop
pub mod Correct
use syntrix_dr.Prelude.{
  ℕ, zero, suc, ◌+◌, ◌-◌, Bool, true, false, not, Option, none, some, List, [], ◌∷◌, ◌++◌, ◌==◌,
  if◌then◌else◌, length, contains, select,
}
use syntrix_dr.Graph.{Edge, successors}

-- `Counter.__getitem__`
abbrev pub Indegree : Type 0
Indegree = ℕ → ℕ

abbrev pub increment : ℕ → Indegree → Indegree
increment s indegree k = if k == s then indegree k + 1 else indegree k

-- A count is never decremented below 0: each decrement takes back one edge.
abbrev pub decrement : ℕ → Indegree → Indegree
decrement s indegree k = if k == s then indegree k - 1 else indegree k

unfoldable pub indegrees : List Edge → Indegree
indegrees [] = λ k. 0
indegrees ((p, s) ∷ es) = increment s (indegrees es)

abbrev pub add_node : ℕ → List ℕ → List ℕ
add_node n ns = if contains n ns then ns else n ∷ ns

-- The set `nodes`; a Python set has no order, so any will do.
unfoldable pub nodes : List Edge → List ℕ
nodes [] = []
nodes ((p, s) ∷ es) = add_node p (add_node s (nodes es))

-- The body of the loop over the successors: the queue and the counts.
abbrev pub release : ℕ → List ℕ × Indegree → List ℕ × Indegree
release nxt (queue, indegree) =
    let fewer = decrement nxt indegree in
    (if fewer nxt == 0 then queue ++ nxt ∷ [] else queue, fewer)

unfoldable pub release_all : List ℕ → List ℕ × Indegree → List ℕ × Indegree
release_all [] q = q
release_all (nxt ∷ ns) q = release_all ns (release nxt q)

-- The loop `while queue`: the number of nodes removed. `none` at the end of the fuel.
unfoldable pub remove_ready : List Edge → ℕ → List ℕ × Indegree → ℕ → Option ℕ
unfolding release_all successors
remove_ready es fuel ([], indegree) removed = some removed
remove_ready es zero (node ∷ queue, indegree) removed = none
remove_ready es (suc fuel) (node ∷ queue, indegree) removed =
    remove_ready es fuel (release_all (successors es node) (queue, indegree)) (suc removed)

abbrev pub differs : ℕ → ℕ → Bool
differs n m = not (n == m)

-- Each round removes one node, and no node is removed twice.
unfoldable pub has_cycle : List Edge → Option Bool
unfolding remove_ready indegrees nodes
has_cycle es =
    elim (remove_ready es (length (nodes es))
      (select (λ n. indegrees es n == 0) (nodes es), indegrees es) 0) [
        | none ↦ none
        | some removed ↦ some (differs removed (length (nodes es)))
      ]
