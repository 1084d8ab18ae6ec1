-- ===== src/Graph/Kahn/Correct.antt =====
-- Kahn's algorithm ends, and tells whether the graph has a cycle.
use syntrix_dr.Prelude.{
  ℕ, zero, suc, ◌+◌, ◌≤◌, ◌≡◌, refl, sym, ap, ◌∙◌, subst, arith, Bool, true, false, not, ◌&&◌, ◌||◌,
  ◌⊎◌, inl, inr, Option, none, some, List, [], ◌∷◌, ◌==◌, ==_iff, if◌then◌else◌, length, contains,
  select, Bool-cases, Memᴰ, Memᴰ-cons,
}
use syntrix_dr.Prelude.Memᴰ
use syntrix_dr.Prelude.Distinct.{
  NoRepeats, Among, NoRepeats-select, contains-select, length-Among, Among-all, Among-or-missing,
}
use syntrix_dr.Graph.{Edge, successors}
use syntrix_dr.Graph.Walks.{HasEdge, Walk, here, step, Walk-trans, Walk-single, IsAcyclic}
use syntrix_dr.Graph.Kahn.{
  Indegree, release_all, remove_ready, nodes, indegrees, add_node, has_cycle, differs,
}
use syntrix_dr.Graph.Kahn.Loop.{
  waiting, waiting-some, occurrences, Inv, Ordered, release_all-Inv, remove-Inv,
}

contains-add_node :
    (x n : ℕ) (ns : List ℕ) → contains x (add_node n ns) ≡ ((x == n) || contains x ns)
contains-add_node x n ns = elim (Bool-cases (contains n ns)) [
  | inl h ↦ elim (Bool-cases (x == n)) [
    | inl k ↦ let e = ap (λ i. contains i ns) ((==_iff x n).0 k) in ground (arith, h, k, e)
    | inr k ↦ ground (arith, h, k)
  ]
  | inr h ↦ ground (arith, h)
]

NoRepeats-add_node : (n : ℕ) (ns : List ℕ) → NoRepeats ns → NoRepeats (add_node n ns)
unfolding NoRepeats
NoRepeats-add_node n ns u = elim (Bool-cases (contains n ns)) [
  | inl h ↦ subst NoRepeats (sym (ap (λ b. if b then ns else n ∷ ns) h)) u
  | inr h ↦ subst NoRepeats (sym (ap (λ b. if b then ns else n ∷ ns) h)) (h, u)
]

NoRepeats-nodes : (es : List Edge) → NoRepeats (nodes es)
unfolding nodes NoRepeats
NoRepeats-nodes [] = tt
NoRepeats-nodes ((p, s) ∷ es) =
    NoRepeats-add_node p (add_node s (nodes es))
      (NoRepeats-add_node s (nodes es) (NoRepeats-nodes es))

-- The ends of an edge are nodes.
ends-nodes :
    (es : List Edge) (u v : ℕ)
    → HasEdge es u v
    → (contains u (nodes es) ≡ true) × (contains v (nodes es) ≡ true)
unfolding nodes
ends-nodes [] u v e = absurd (Memᴰ.not-nil e)
ends-nodes ((p, s) ∷ es) u v e = elim ((Memᴰ-cons (u, v) (p, s) es).0 e) [
  | inl same ↦
      let up = (==_iff u p).1 (ap (λ x. x.0) same) in
      let vs = (==_iff v s).1 (ap (λ x. x.1) same) in (both u (inl up), both v (inr (inl vs)))
  | inr there ↦
      let (hu, hv) = ends-nodes es u v there in (both u (inr (inr hu)), both v (inr (inr hv)))
]
  where
    both :
        (x : ℕ)
        → ((x == p) ≡ true) ⊎ ((x == s) ≡ true) ⊎ (contains x (nodes es) ≡ true)
        → contains x (add_node p (add_node s (nodes es))) ≡ true
    both x h =
        contains-add_node x p (add_node s (nodes es))
        ∙ ap (λ b. (x == p) || b) (contains-add_node x s (nodes es))
        ∙ ground (arith, h)

successors-edge :
    (es : List Edge) (node x : ℕ) → contains x (successors es node) ≡ true → HasEdge es node x
unfolding successors
successors-edge [] node x m = absurd (grind arith)
successors-edge ((p, s) ∷ es) node x m = elim (Bool-cases ((p == node) && (x == s))) [
  | inl h ↦
      let a : node ≡ p = sym ((==_iff p node).0 (ground (arith, h))) in
      let b : x ≡ s = (==_iff x s).0 (ground (arith, h)) in
      Memᴰ.head (ap (λ i. (i, x)) a ∙ ap (λ i. (p, i)) b)
  | inr h ↦ Memᴰ.tail (successors-edge es node x (ground (arith, h, m)))
]

counted : (es : List Edge) (k : ℕ) → indegrees es k ≡ waiting [] es k + 0
unfolding indegrees waiting
counted [] k = refl
counted ((p, s) ∷ es) k = ground (arith, counted es k)

-- At first nothing is removed, and the queue holds the nodes that wait for nothing.
start-Inv :
    (es : List Edge) → Inv es (select (λ n. indegrees es n == 0) (nodes es)) [] (indegrees es) []
unfolding NoRepeats Ordered occurrences
start-Inv es = record {
  counts = λ k. counted es k;
  queued_free = λ k m.
      (==_iff (indegrees es k) 0).0
        (ground (arith, sym (contains-select k (λ n. indegrees es n == 0) (nodes es)) ∙ m));
  removed_free = λ k m. absurd (grind arith);
  free_known = λ k m z.
      let e = (==_iff (indegrees es k) 0).1 z in
      ground (arith, contains-select k (λ n. indegrees es n == 0) (nodes es), e, m);
  queue_once = NoRepeats-select (λ n. indegrees es n == 0) (nodes es) (NoRepeats-nodes es);
  removed_once = tt;
  apart = λ k m. refl;
  queue_nodes =
      λ k m. ground (arith, sym (contains-select k (λ n. indegrees es n == 0) (nodes es)) ∙ m);
  removed_nodes = λ k m. absurd (grind arith);
  ordered = tt;
}

-- The loop ends before its fuel does, with an empty queue.
loop-ends :
    (es : List Edge) (fuel : ℕ) (q d : List ℕ) (indegree : Indegree)
    → Inv es q d indegree []
    → length (nodes es) ≤ length d + fuel
    → (done : List ℕ) × (left : Indegree) × (remove_ready es fuel (q, indegree) (length d)
        ≡ some (length done))
      × Inv es [] done left []
unfolding remove_ready
loop-ends es fuel [] d indegree inv enough = (d, indegree, refl, inv)
loop-ends es zero (node ∷ q) d indegree inv enough =
    let next = remove-Inv es node q d indegree inv in
    let more = length-Among (node ∷ d) (nodes es) next.removed_once next.removed_nodes in
    absurd (ground (arith, more, enough))
loop-ends es (suc fuel) (node ∷ q) d indegree inv enough =
    let next =
      release_all-Inv es (successors es node) q (node ∷ d) indegree
        (λ x m. (ends-nodes es node x (successors-edge es node x m)).1)
        (remove-Inv es node q d indegree inv) in
    loop-ends es fuel (release_all (successors es node) (q, indegree)).0 (node ∷ d)
      (release_all (successors es node) (q, indegree)).1 next (ground (arith, enough))

-- The predecessors of a removed node are removed, and so is whatever leads to it.
Ordered-pred :
    (es : List Edge) (d : List ℕ) (p x : ℕ)
    → Ordered es d
    → HasEdge es p x
    → contains x d ≡ true
    → contains p d ≡ true
unfolding Ordered
Ordered-pred es [] p x o e m = absurd (grind arith)
Ordered-pred es (y ∷ d) p x (before, o) e m = elim (Bool-cases (x == y)) [
  | inl h ↦
      let in_tail = before p (subst (HasEdge es p) ((==_iff x y).0 h) e) in ground (arith, in_tail)
  | inr h ↦
      let in_tail = Ordered-pred es d p x o e (ground (arith, h, m)) in ground (arith, in_tail)
]

Ordered-Walk :
    (es : List Edge) (d : List ℕ) {u x : ℕ}
    → Ordered es d
    → Walk es u x
    → contains x d ≡ true
    → contains u d ≡ true
Ordered-Walk es d o here m = m
Ordered-Walk es d o (step w e) m = Ordered-Walk es d o w (Ordered-pred es d _ _ o e m)

-- No edge into a removed node closes a walk.
Ordered-IsAcyclic :
    (es : List Edge) (d : List ℕ) (u v : ℕ)
    → Ordered es d
    → NoRepeats d
    → contains v d ≡ true
    → HasEdge es u v
    → ¬ Walk es v u
unfolding Ordered NoRepeats
Ordered-IsAcyclic es [] u v o n m e w = absurd (grind arith)
Ordered-IsAcyclic es (y ∷ d) u v (before, o) (fresh, n) m e w = elim (Bool-cases (v == y)) [
  | inl h ↦
      let same = (==_iff v y).0 h in
      let again = Ordered-Walk es d o w (before u (subst (HasEdge es u) same e)) in
      let gone = ap (λ i. contains i d) same ∙ fresh in absurd (ground (arith, again, gone))
  | inr h ↦ Ordered-IsAcyclic es d u v o n (ground (arith, h, m)) e w
]

-- An edge that closes a walk.
abbrev pub HasCycle : List Edge → Type 0
HasCycle es = (u v : ℕ) × HasEdge es u v × Walk es v u

module _ (es : List Edge) (d : List ℕ) (left : Indegree) (inv : Inv es [] d left []) where
  -- A node that is left has a predecessor that is left.
  left-pred :
      (x : ℕ)
      → contains x (nodes es) ≡ true
      → contains x d ≡ false
      → (p : ℕ) × HasEdge es p x × (contains p d ≡ false)
  unfolding occurrences
  left-pred x known out = waiting-some d es x λ z.
      let free : left x ≡ 0 = inv.counts x ∙ ground (arith, z) in
      let e = inv.free_known x known free in absurd (ground (arith, e, out))

  -- A walk back from `x` through the nodes `seen`, none of them removed.
  record Trail (x : ℕ) (seen : List ℕ) : Type 0 where
    known : contains x (nodes es) ≡ true
    out : contains x d ≡ false
    once : NoRepeats seen
    among : Among seen (nodes es)
    walks : (z : ℕ) → contains z seen ≡ true → Walk es x z

  -- One step further back comes upon a node of the trail, or makes it longer.
  back-once : (x : ℕ) (seen : List ℕ) → Trail x seen → HasCycle es ⊎ ((p : ℕ) × Trail p (p ∷ seen))
  unfolding NoRepeats
  back-once x seen trail =
      let (p, e, p_out) = left-pred x trail.known trail.out in
      elim (Bool-cases (contains p seen)) [
        | inl again ↦ inl (p, x, e, trail.walks p again)
        | inr new ↦
            let p_known = (ends-nodes es p x e).0 in
            inr (
              p,
              record {
                known = p_known;
                out = p_out;
                once = (new, trail.once);
                among = λ z m. elim (Bool-cases (z == p)) [
                  | inl h ↦ ap (λ i. contains i (nodes es)) ((==_iff z p).0 h) ∙ p_known
                  | inr h ↦ trail.among z (ground (arith, h, m))
                ];
                walks = λ z m. elim (Bool-cases (z == p)) [
                  | inl h ↦ subst (Walk es p) (sym ((==_iff z p).0 h)) here
                  | inr h ↦ Walk-trans (Walk-single e) (trail.walks z (ground (arith, h, m)))
                ];
              },
            )
      ]

  -- The trail cannot grow longer than there are nodes.
  back :
      (fuel : ℕ) (x : ℕ) (seen : List ℕ)
      → Trail x seen
      → length (nodes es) ≤ length seen + fuel
      → HasCycle es
  back zero x seen trail enough = elim (back-once x seen trail) [
    | inl found ↦ found
    | inr (p, longer) ↦
        let more = length-Among (p ∷ seen) (nodes es) longer.once longer.among in
        absurd (ground (arith, more, enough))
  ]
  back (suc fuel) x seen trail enough = elim (back-once x seen trail) [
    | inl found ↦ found
    | inr (p, longer) ↦ back fuel p (p ∷ seen) longer (ground (arith, enough))
  ]

  -- A node that is left lies behind a cycle.
  left-cycle : (x : ℕ) → contains x (nodes es) ≡ true → contains x d ≡ false → HasCycle es
  unfolding NoRepeats
  left-cycle x known out =
      back (length (nodes es)) x []
        (record {
          known = known;
          out = out;
          once = tt;
          among = λ z m. absurd (grind arith);
          walks = λ z m. absurd (grind arith);
        })
        (ground arith)

-- What the answer `b` of `has_cycle` says of the graph.
abbrev pub Decides : List Edge → Bool → Type 0
Decides es true = HasCycle es
Decides es false = IsAcyclic es

decided :
    (es : List Edge) (d : List ℕ) (left : Indegree)
    → Inv es [] d left []
    → Decides es (differs (length d) (length (nodes es)))
decided es d left inv = split (length d == length (nodes es)) refl
  where
    split : (b : Bool) → (length d == length (nodes es)) ≡ b → Decides es (not b)
    split true h =
        let all_removed =
          Among-all d (nodes es) inv.removed_once inv.removed_nodes (ground (arith, h)) in
        λ u v e.
          Ordered-IsAcyclic es d u v inv.ordered inv.removed_once
            (all_removed v (ends-nodes es u v e).1) e
    split false h = elim (Among-or-missing (nodes es) d) [
      | inl all_removed ↦
          let le = length-Among (nodes es) d (NoRepeats-nodes es) all_removed in
          let ge = length-Among d (nodes es) inv.removed_once inv.removed_nodes in
          absurd (ground (arith, h, le, ge))
      | inr (x, known, out) ↦ left-cycle es d left inv x known out
    ]

-- Kahn's loop ends on every list of edges, before its fuel does; `has_cycle` then answers, True if and
-- only if the graph has a cycle: when it answers True some edge closes a walk, and when it answers False
-- no edge does.
pub has_cycle-Decides : (es : List Edge) → (b : Bool) × (has_cycle es ≡ some b) × Decides es b
unfolding has_cycle
has_cycle-Decides es =
    let (d, left, ended, inv) =
      loop-ends es (length (nodes es)) (select (λ n. indegrees es n == 0) (nodes es)) []
        (indegrees es) (start-Inv es) (ground arith) in
    (differs (length d) (length (nodes es)), ap answer ended, decided es d left inv)
  where
    answer : Option ℕ → Option Bool
    answer none = none
    answer (some removed) = some (differs removed (length (nodes es)))
