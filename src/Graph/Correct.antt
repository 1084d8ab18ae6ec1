-- ===== src/Graph/Correct.antt =====
-- `cycle_path` always answers, and its answer is right.
use syntrix_dr.Prelude.{
  ℕ, zero, suc, ◌+◌, ◌≤◌, ◌≡◌, refl, ◌⊎◌, inl, inr, ⊎_elim, Bool, true, false, none, List, [], ◌∷◌,
  Memᴰ, arith, ◌==◌, length, subst, Bool-cases, Memᴰ-cons, sorted, mem-sorted, reverse,
}
use syntrix_dr.Prelude.Memᴰ
use syntrix_dr.Graph.{
  Edge, Parents, successors, visited, trace, Frontier, scan, CycleSearch, no_cycle, cycle, stuck,
  bfs, start, cycle_path, close_path,
}
use syntrix_dr.Graph.Walks.{HasEdge, Walk, here, step, Trail}
use syntrix_dr.Graph.Trace.{IsTree, trace-Trail}
use syntrix_dr.Graph.Scan.{
  mem-successors, visited-scan, mem-scan, IsTree-scan, unseen, work, work-scan,
}

-- What an answer must say: no walk leads back, or this one does.
abbrev pub IsAnswer : List Edge → ℕ → ℕ → CycleSearch → Type 0
IsAnswer es p s no_cycle = ¬ Walk es s p
IsAnswer es p s (cycle path) = (t : List ℕ) × (path ≡ p ∷ t) × Trail es p s t
IsAnswer es p s stuck = ⊥

module _ (es : List Edge) (goal root : ℕ) where
  record Inv (s : Frontier) : Type 0 where
    tree : IsTree es root s.parent
    source : visited root s.parent ≡ true
    queued : (v : ℕ) → Memᴰ v s.queue → visited v s.parent ≡ true
    closed :
        (u v : ℕ)
        → visited u s.parent ≡ true
        → HasEdge es u v
        → Memᴰ u s.queue ⊎ (visited v s.parent ≡ true)
    unmet : visited goal s.parent ≡ true → Memᴰ goal s.queue

  Inv-start : Inv (start root)
  unfolding start
  Inv-start = record {
    tree = (refl, refl);
    source = ground arith;
    queued = λ v m. ground (arith, Memᴰ.eq_of_singleton m);
    closed = λ u v seen e. inl (Memᴰ.head (ground arith));
    unmet = λ seen. Memᴰ.head (ground arith);
  }

  edges-from : (node w : ℕ) → Memᴰ w (sorted (successors es node)) → HasEdge es node w
  edges-from node w m = (mem-successors es node w).0 ((mem-sorted w (successors es node)).0 m)

  abbrev at : Parents → List ℕ → Frontier
  at d q = record { parent = d; queue = q }

  abbrev round : Parents → ℕ → List ℕ → Frontier
  round d node rest = scan node (at d rest) (sorted (successors es node))

  Inv-round :
      (d : Parents) (node : ℕ) (rest : List ℕ)
      → (node == goal) ≡ false
      → Inv (at d (node ∷ rest))
      → Inv (round d node rest)
  Inv-round d node rest other h =
      let ns = sorted (successors es node) in
      let seen = λ (w : ℕ). visited-scan node (at d rest) ns w in
      let later = λ (w : ℕ). mem-scan node (at d rest) ns w in
      let offered = λ (w : ℕ) (e : HasEdge es node w).
        (mem-sorted w (successors es node)).1 ((mem-successors es node w).1 e) in
      record {
        tree =
            IsTree-scan es root node (at d rest) ns (queued node (Memᴰ.head refl)) (edges-from node)
              tree;
        source = (seen root).1 (inl source);
        queued = λ v m. ground (arith, seen v, later v, queued v, Memᴰ-cons v node rest);
        closed = λ u v su edge. elim (Bool-cases (u == node)) [
          | inl same ↦
              let e : u ≡ node = ground arith in
              inr ((seen v).1 (inr (offered v (subst (λ x. HasEdge es x v) e edge))))
          | inr old ↦
              ground (arith, seen v, seen u, later u, closed u v, edge, Memᴰ-cons u node rest)
        ];
        unmet = λ sg. ground (arith, seen goal, later goal, unmet, Memᴰ-cons goal node rest);
      }
    where
      open h use {tree, source, queued, closed, unmet}

  -- With an empty queue the visited nodes are closed under edges, and the goal is not among them.
  reached : (d : Parents) → Inv (at d []) → {v : ℕ} → Walk es root v → visited v d ≡ true
  reached d h here = h.source
  reached d h (step {v = u} {w = v} p edge) =
      ⊎_elim (λ m. absurd (Memᴰ.not-nil m)) (λ seen. seen) (h.closed u v (reached d h p) edge)

  -- The goal at the head of the queue: its trace is the answer.
  met-IsAnswer :
      (d : Parents) (node : ℕ)
      → node ≡ goal
      → IsTree es root d
      → visited node d ≡ true
      → IsAnswer es goal root (close_path goal (trace (length d) d node))
  met-IsAnswer d node e t seen =
      let (p, found, trail) = trace-Trail es root d node t seen in
      rw found (reverse p, refl, subst (λ x. Trail es x root (reverse p)) e trail)

  bfs-IsAnswer :
      (fuel : ℕ) (d : Parents) (q : List ℕ)
      → Inv (at d q)
      → work es (at d q) ≤ fuel
      → IsAnswer es goal root (bfs es goal fuel (at d q))
  unfolding bfs
  bfs-IsAnswer zero d [] h enough = λ w. Memᴰ.not-nil (h.unmet (reached d h w))
  bfs-IsAnswer zero d (node ∷ rest) h enough = absurd (omega arith)
  bfs-IsAnswer (suc fuel) d [] h enough = λ w. Memᴰ.not-nil (h.unmet (reached d h w))
  bfs-IsAnswer (suc fuel) d (node ∷ rest) h enough =
      let r = round d node rest in split (node == goal) refl (bfs-IsAnswer fuel r.parent r.queue)
    where
      split :
          (b : Bool)
          → (node == goal) ≡ b
          → (let r = round d node rest in
              Inv r → work es r ≤ fuel → IsAnswer es goal root (bfs es goal fuel r))
          → IsAnswer es goal root (elim b [
            | true ↦ close_path goal (trace (length d) d node)
            | false ↦ bfs es goal fuel (round d node rest)
          ])
      split true met go = met-IsAnswer d node (ground arith) h.tree (h.queued node (Memᴰ.head refl))
      split false other go = go (Inv-round d node rest other h) (
          omega
            (arith, work-scan es node (at d rest) (sorted (successors es node)) (edges-from node)))

-- The initial work: no more unvisited targets than edges, and one node in the queue.
unseen-le : (es : List Edge) (d : Parents) → unseen es d ≤ length es
unseen-le [] d = omega arith
unseen-le ((u, v) ∷ es) d = ground (arith, unseen-le es d)

-- For every list of edges, `cycle_path` ends, and it is right: if it answers None, no walk leads from
-- the successor to the predecessor; if it returns a path, that path is the predecessor followed by a
-- walk, over the given edges, from the successor back to the predecessor.
pub cycle_path-IsAnswer :
    (es : List Edge) (predecessor_id successor_id : ℕ)
    → IsAnswer es predecessor_id successor_id (cycle_path es predecessor_id successor_id)
unfolding cycle_path
cycle_path-IsAnswer es p s =
    bfs-IsAnswer es p s (length es + 1) ((s, none) ∷ []) (s ∷ []) (unfold start in Inv-start es p s)
      (omega (arith, unseen-le es ((s, none) ∷ [])))
