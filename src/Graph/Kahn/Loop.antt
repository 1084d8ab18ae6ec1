-- ===== src/Graph/Kahn/Loop.antt =====
-- The invariant of the loop of Kahn's algorithm: what the counts mean, and which nodes the queue holds.
use syntrix_dr.Prelude.{
  ℕ, ◌+◌, ◌≡◌, refl, sym, ap, ◌∙◌, arith, Bool, true, false, not, ◌&&◌, ◌||◌, ◌⊎◌, inl, inr, List,
  [], ◌∷◌, ◌++◌, ◌==◌, ==_iff, if◌then◌else◌, contains, Bool-cases, Memᴰ, Memᴰ-cons,
}
use syntrix_dr.Prelude.Memᴰ
use syntrix_dr.Prelude.Distinct.{NoRepeats, Among, NoRepeats-append, contains-append}
use syntrix_dr.Graph.{Edge, successors}
use syntrix_dr.Graph.Walks.{HasEdge}
use syntrix_dr.Graph.Kahn.{Indegree, decrement, release, release_all, nodes}

-- The edges into `k` from nodes that are not removed yet.
unfoldable pub waiting : List ℕ → List Edge → ℕ → ℕ
waiting d [] k = 0
waiting d ((p, s) ∷ es) k = (if contains p d then 0 else if k == s then 1 else 0) + waiting d es k

-- How often `k` is still to be released.
unfoldable pub occurrences : ℕ → List ℕ → ℕ
occurrences k [] = 0
occurrences k (x ∷ xs) = (if k == x then 1 else 0) + occurrences k xs

-- The removal of one node turns its edges into releases.
waiting-remove :
    (node : ℕ) (d : List ℕ) (es : List Edge) (k : ℕ)
    → contains node d ≡ false
    → waiting d es k ≡ waiting (node ∷ d) es k + occurrences k (successors es node)
unfolding waiting occurrences successors
waiting-remove node d [] k fresh = ground arith
waiting-remove node d ((p, s) ∷ es) k fresh = elim (Bool-cases (p == node)) [
  | inl h ↦
      let gone : contains p d ≡ false = ap (λ i. contains i d) ((==_iff p node).0 h) ∙ fresh in
      ground (arith, h, gone, waiting-remove node d es k fresh)
  | inr h ↦ ground (arith, h, waiting-remove node d es k fresh)
]

-- A node that nothing waits for has all its predecessors removed.
waiting-none :
    (d : List ℕ) (es : List Edge) (p k : ℕ)
    → HasEdge es p k
    → waiting d es k ≡ 0
    → contains p d ≡ true
unfolding waiting
waiting-none d [] p k e none_left = absurd (Memᴰ.not-nil e)
waiting-none d ((q, s) ∷ es) p k e none_left = elim ((Memᴰ-cons (p, k) (q, s) es).0 e) [
  | inl same ↦
      let first : p ≡ q = ap (λ x. x.0) same in
      let second : (k == s) ≡ true = (==_iff k s).1 (ap (λ x. x.1) same) in
      elim (Bool-cases (contains q d)) [
        | inl h ↦ ap (λ i. contains i d) first ∙ h
        | inr h ↦ absurd (ground (arith, h, second, none_left))
      ]
  | inr there ↦ waiting-none d es p k there (ground (arith, none_left))
]

-- And one that something waits for has a predecessor that is not removed.
pub waiting-some :
    (d : List ℕ) (es : List Edge) (k : ℕ)
    → (waiting d es k ≡ 0 → ⊥)
    → (p : ℕ) × HasEdge es p k × (contains p d ≡ false)
unfolding waiting
waiting-some d [] k more = absurd (more refl)
waiting-some d ((q, s) ∷ es) k more = elim (Bool-cases (not (contains q d) && (k == s))) [
  | inl h ↦
      let here : k ≡ s = (==_iff k s).0 (ground (arith, h)) in
      (q, Memᴰ.head (ap (λ i. (q, i)) here), ground (arith, h))
  | inr h ↦
      let (p, e, out) = waiting-some d es k (λ z. more (ground (arith, h, z))) in
      (p, Memᴰ.tail e, out)
]

-- Each removed node stands after all its predecessors.
unfoldable pub Ordered : List Edge → List ℕ → Type 0
Ordered es [] = Unit {0}
Ordered es (x ∷ d) = ((p : ℕ) → HasEdge es p x → contains p d ≡ true) × Ordered es d

-- `q` is the queue, `d` the removed nodes, newest first, `ns` the successors still to be released.
pub record Inv (es : List Edge) (q d : List ℕ) (indegree : Indegree) (ns : List ℕ) : Type 0 where
  pub counts : (k : ℕ) → indegree k ≡ waiting d es k + occurrences k ns
  pub queued_free : (k : ℕ) → contains k q ≡ true → indegree k ≡ 0
  pub removed_free : (k : ℕ) → contains k d ≡ true → indegree k ≡ 0
  pub free_known :
      (k : ℕ)
      → contains k (nodes es) ≡ true
      → indegree k ≡ 0
      → (contains k q || contains k d) ≡ true
  pub queue_once : NoRepeats q
  pub removed_once : NoRepeats d
  pub apart : (k : ℕ) → contains k q ≡ true → contains k d ≡ false
  pub queue_nodes : Among q (nodes es)
  pub removed_nodes : Among d (nodes es)
  pub ordered : Ordered es d

-- One release: the node has one edge less to wait for, and joins the queue if it was the last.
module _ (es : List Edge) (q d : List ℕ) (indegree : Indegree) (nxt : ℕ) (ns : List ℕ)
    (known : contains nxt (nodes es) ≡ true) (inv : Inv es q d indegree (nxt ∷ ns)) where
  positive : (indegree nxt ≡ 0) → ⊥
  unfolding occurrences
  positive z = let e = inv.counts nxt in absurd (ground (arith, e, z))

  not-queued : contains nxt q ≡ false
  not-queued = elim (Bool-cases (contains nxt q)) [
    | inl h ↦ absurd (positive (inv.queued_free nxt h))
    | inr h ↦ h
  ]

  not-removed : contains nxt d ≡ false
  not-removed = elim (Bool-cases (contains nxt d)) [
    | inl h ↦ absurd (positive (inv.removed_free nxt h))
    | inr h ↦ h
  ]

  fewer-counts : (k : ℕ) → decrement nxt indegree k ≡ waiting d es k + occurrences k ns
  unfolding occurrences
  fewer-counts k = let e = inv.counts k in ground (arith, e)

  still-free : (k : ℕ) → indegree k ≡ 0 → decrement nxt indegree k ≡ 0
  still-free k z = ground (arith, z)

  -- What is free now was free before, or is `nxt`.
  was-free : (k : ℕ) → decrement nxt indegree k ≡ 0 → (k ≡ nxt) ⊎ (indegree k ≡ 0)
  was-free k z = elim (Bool-cases (k == nxt)) [
    | inl h ↦ inl ((==_iff k nxt).0 h)
    | inr h ↦ inr (ground (arith, h, z))
  ]

  released : decrement nxt indegree nxt ≡ 0 → Inv es (q ++ nxt ∷ []) d (decrement nxt indegree) ns
  released free = record {
    counts = fewer-counts;
    queued_free = λ k m. elim (Bool-cases (k == nxt)) [
      | inl h ↦ ap (decrement nxt indegree) ((==_iff k nxt).0 h) ∙ free
      | inr h ↦
          still-free k (inv.queued_free k (ground (arith, sym (contains-append k nxt q) ∙ m, h)))
    ];
    removed_free = λ k m. still-free k (inv.removed_free k m);
    free_known = λ k m z. elim (was-free k z) [
      | inl same ↦
          let here : (k == nxt) ≡ true = (==_iff k nxt).1 same in
          ground (arith, contains-append k nxt q, here)
      | inr before ↦ ground (arith, contains-append k nxt q, inv.free_known k m before)
    ];
    queue_once = NoRepeats-append nxt q not-queued inv.queue_once;
    removed_once = inv.removed_once;
    apart = λ k m. elim (Bool-cases (k == nxt)) [
      | inl h ↦ ap (λ i. contains i d) ((==_iff k nxt).0 h) ∙ not-removed
      | inr h ↦ inv.apart k (ground (arith, sym (contains-append k nxt q) ∙ m, h))
    ];
    queue_nodes = λ k m. elim (Bool-cases (k == nxt)) [
      | inl h ↦ ap (λ i. contains i (nodes es)) ((==_iff k nxt).0 h) ∙ known
      | inr h ↦ inv.queue_nodes k (ground (arith, sym (contains-append k nxt q) ∙ m, h))
    ];
    removed_nodes = inv.removed_nodes;
    ordered = inv.ordered;
  }

  held : (decrement nxt indegree nxt ≡ 0 → ⊥) → Inv es q d (decrement nxt indegree) ns
  held busy = record {
    counts = fewer-counts;
    queued_free = λ k m. still-free k (inv.queued_free k m);
    removed_free = λ k m. still-free k (inv.removed_free k m);
    free_known = λ k m z. elim (was-free k z) [
      | inl same ↦ absurd (busy (sym (ap (decrement nxt indegree) same) ∙ z))
      | inr before ↦ inv.free_known k m before
    ];
    queue_once = inv.queue_once;
    removed_once = inv.removed_once;
    apart = inv.apart;
    queue_nodes = inv.queue_nodes;
    removed_nodes = inv.removed_nodes;
    ordered = inv.ordered;
  }

  release-Inv : Inv es (release nxt (q, indegree)).0 d (release nxt (q, indegree)).1 ns
  release-Inv = split (decrement nxt indegree nxt == 0) refl
    where
      split :
          (b : Bool)
          → (decrement nxt indegree nxt == 0) ≡ b
          → Inv es (if b then q ++ nxt ∷ [] else q) d (decrement nxt indegree) ns
      split true h = released ((==_iff (decrement nxt indegree nxt) 0).0 h)
      split false h = held λ z. absurd (ground (arith, h, z))

pub release_all-Inv :
    (es : List Edge) (ns q d : List ℕ) (indegree : Indegree)
    → Among ns (nodes es)
    → Inv es q d indegree ns
    → Inv es (release_all ns (q, indegree)).0 d (release_all ns (q, indegree)).1 []
unfolding release_all
release_all-Inv es [] q d indegree known inv = inv
release_all-Inv es (nxt ∷ ns) q d indegree known inv =
    release_all-Inv es ns (release nxt (q, indegree)).0 d (release nxt (q, indegree)).1
      (λ x m. known x (ground (arith, m)))
      (release-Inv es q d indegree nxt ns (known nxt (ground arith)) inv)

-- The front of the queue is removed.
pub remove-Inv :
    (es : List Edge) (node : ℕ) (q d : List ℕ) (indegree : Indegree)
    → Inv es (node ∷ q) d indegree []
    → Inv es q (node ∷ d) indegree (successors es node)
unfolding NoRepeats occurrences Ordered
remove-Inv es node q d indegree inv = record {
  counts = λ k. let e = inv.counts k in ground (arith, e, waiting-remove node d es k fresh);
  queued_free = λ k m. inv.queued_free k (ground (arith, m));
  removed_free = λ k m. elim (Bool-cases (k == node)) [
    | inl h ↦ inv.queued_free k (ground (arith, h))
    | inr h ↦ inv.removed_free k (ground (arith, h, m))
  ];
  free_known = λ k m z. let e = inv.free_known k m z in ground (arith, e);
  queue_once = inv.queue_once.1;
  removed_once = (fresh, inv.removed_once);
  apart = λ k m. elim (Bool-cases (k == node)) [
    | inl h ↦
        let once = inv.queue_once.0 in
        let same = ap (λ i. contains i q) ((==_iff k node).0 h) in
        absurd (ground (arith, once, same, m))
    | inr h ↦ let e = inv.apart k (ground (arith, m)) in ground (arith, h, e)
  ];
  queue_nodes = λ k m. inv.queue_nodes k (ground (arith, m));
  removed_nodes = λ k m. elim (Bool-cases (k == node)) [
    | inl h ↦ inv.queue_nodes k (ground (arith, h))
    | inr h ↦ inv.removed_nodes k (ground (arith, h, m))
  ];
  ordered = (λ p e. waiting-none d es p node e nothing, inv.ordered);
}
  where
    here : contains node (node ∷ q) ≡ true
    here = ground arith

    fresh : contains node d ≡ false
    fresh = inv.apart node here

    nothing : waiting d es node ≡ 0
    nothing = let e = inv.counts node in let z = inv.queued_free node here in ground (arith, e, z)
