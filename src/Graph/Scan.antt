-- ===== src/Graph/Scan.antt =====
-- One scan of the successors of a node: what is visited, what is queued, and the work left.
use syntrix_dr.Prelude.{
  ℕ, suc, ◌+◌, ◌≤◌, ◌<◌, ◌≡◌, refl, ◌↔◌, ◌⊎◌, inl, ⊎_elim, true, false, Option, some, List, [], ◌∷◌,
  Memᴰ, arith, if◌then◌else◌, length, length-append, Memᴰ-cons, Memᴰ-concat,
}
use syntrix_dr.Prelude.Memᴰ
use syntrix_dr.Graph.{Edge, successors, Parents, visited, Frontier, offer, scan}
use syntrix_dr.Graph.Walks.{HasEdge}
use syntrix_dr.Graph.Trace.{IsTree}

pub mem-successors : (es : List Edge) (u v : ℕ) → Memᴰ v (successors es u) ↔ HasEdge es u v
unfolding successors
mem-successors [] u v = (λ m. absurd (Memᴰ.not-nil m), λ m. absurd (Memᴰ.not-nil m))
mem-successors ((q, s) ∷ es) u v = ground (
  arith,
  mem-successors es u v,
  Memᴰ-cons {A = Edge} (u, v) (q, s) es,
  Memᴰ-cons v s (successors es u),
)

-- `scan` visits the nodes that it is offered, and no other.
pub visited-scan :
    (node : ℕ) (s : Frontier) (ns : List ℕ) (w : ℕ)
    → (visited w (scan node s ns).parent ≡ true) ↔ ((visited w s.parent ≡ true) ⊎ Memᴰ w ns)
unfolding scan offer
visited-scan node s [] w = (inl, ⊎_elim (λ m. m) (λ m. absurd (Memᴰ.not-nil m)))
visited-scan node s (n ∷ ns) w =
    ground (arith, visited-scan node (offer node s n) ns w, Memᴰ-cons w n ns)

-- `scan` queues the nodes that it visits first.
pub mem-scan :
    (node : ℕ) (s : Frontier) (ns : List ℕ) (w : ℕ)
    → Memᴰ w (scan node s ns).queue
      ↔ (Memᴰ w s.queue ⊎ (visited w (scan node s ns).parent ≡ true) × (visited w s.parent ≡ false))
unfolding scan offer
mem-scan node s [] w = (inl, ⊎_elim (λ m. m) (λ (now, before). cc))
mem-scan node s (n ∷ ns) w = ground (
  arith,
  mem-scan node (offer node s n) ns w,
  visited-scan node (offer node s n) ns w,
  Memᴰ-concat w n s.queue,
)

-- From a visited node, over its edges, the parents stay a tree.
pub IsTree-scan :
    (es : List Edge) (root node : ℕ) (s : Frontier) (ns : List ℕ)
    → visited node s.parent ≡ true
    → ((w : ℕ) → Memᴰ w ns → HasEdge es node w)
    → IsTree es root s.parent
    → IsTree es root (scan node s ns).parent
unfolding scan offer
IsTree-scan es root node s [] seen edges t = t
IsTree-scan es root node s (n ∷ ns) seen edges t =
    IsTree-scan es root node (offer node s n) ns (ground arith) (λ w m. edges w (Memᴰ.tail m))
      (ground (arith, edges n (Memᴰ.head refl)))

-- The edges whose targets are not yet visited.
abbrev pub unseen : List Edge → Parents → ℕ
unseen [] d = 0
unseen ((u, v) ∷ es) d = if visited v d then unseen es d else suc (unseen es d)

unseen-cons-le :
    (es : List Edge) (v : ℕ) (x : Option ℕ) (d : Parents) → unseen es ((v, x) ∷ d) ≤ unseen es d
unseen-cons-le [] v x d = omega arith
unseen-cons-le ((a, b) ∷ es) v x d = ground (arith, unseen-cons-le es v x d)

unseen-cons-lt :
    (es : List Edge) (u v : ℕ) (x : Option ℕ) (d : Parents)
    → HasEdge es u v
    → visited v d ≡ false
    → unseen es ((v, x) ∷ d) < unseen es d
unseen-cons-lt [] u v x d e fresh = absurd (Memᴰ.not-nil e)
unseen-cons-lt ((a, b) ∷ es) u v x d e fresh = ground (
  arith,
  unseen-cons-lt es u v x d,
  unseen-cons-le es v x d,
  Memᴰ-cons {A = Edge} (u, v) (a, b) es,
)

abbrev pub work : List Edge → Frontier → ℕ
work es s = unseen es s.parent + length s.queue

pub work-scan :
    (es : List Edge) (node : ℕ) (s : Frontier) (ns : List ℕ)
    → ((w : ℕ) → Memᴰ w ns → HasEdge es node w)
    → work es (scan node s ns) ≤ work es s
unfolding scan offer
work-scan es node s [] edges = omega arith
work-scan es node s (n ∷ ns) edges = ground (
  arith,
  work-scan es node (offer node s n) ns (λ w m. edges w (Memᴰ.tail m)),
  unseen-cons-lt es node n (some node) s.parent (edges n (Memᴰ.head refl)),
  length-append s.queue (n ∷ []),
)
