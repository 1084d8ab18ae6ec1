-- ===== src/Graph/Trace.antt =====
-- The parent tree of the search: the trace from a visited node is a walk from the root.
use mathlib.Core.List.{reverse-cons}
use syntrix_dr.Prelude.{
  ℕ, zero, suc, ◌≤◌, ◌≡◌, refl, sym, ◌∙◌, ◌⊎◌, inl, inr, true, false, Option, none, some, List, [],
  ◌∷◌, reverse, arith, ◌==◌, length, subst, Bool-cases,
}
use syntrix_dr.Graph.{Edge, Parents, get_parent, visited, trace}
use syntrix_dr.Graph.Walks.{HasEdge, Trail, stop, Trail-concat}

-- Each entry but the oldest is entered over an edge from an older entry.
abbrev pub IsTree : List Edge → ℕ → Parents → Type 0
IsTree es root [] = ⊥
IsTree es root ((v, none) ∷ d) = (v ≡ root) × (d ≡ [])
IsTree es root ((v, some u) ∷ d) =
    HasEdge es u v × (visited u d ≡ true) × (visited v d ≡ false) × IsTree es root d

-- The nodes that a trace appends.
data Route (es : List Edge) (root : ℕ) : ℕ → List ℕ → Type 0 where
  origin : Route es root root (root ∷ [])
  via : {u v : ℕ} {p : List ℕ} → Route es root u p → HasEdge es u v → Route es root v (v ∷ p)

Route-Trail :
    {es : List Edge} {root v : ℕ} {p : List ℕ} → Route es root v p → Trail es v root (reverse p)
Route-Trail origin = stop
Route-Trail {root} (via {u} {v} {p} r e) =
    subst (Trail _ v root) (sym (reverse-cons v p)) (Trail-concat e (Route-Trail r))

parent_cases :
    (es : List Edge) (root : ℕ) (d : Parents) (c : ℕ)
    → IsTree es root d
    → visited c d ≡ true
    → (get_parent c d ≡ some none)
      ⊎ ((u : ℕ) × (get_parent c d ≡ some (some u)) × (visited u d ≡ true))
parent_cases es root [] c t seen = absurd t
parent_cases es root ((v, none) ∷ d) c t seen = ground arith
parent_cases es root ((v, some u) ∷ d) c t seen = elim (Bool-cases (c == v)) [
  | inl same ↦ inr (u, ground arith, ground arith)
  | inr other ↦ elim (parent_cases es root d c t.3 (ground arith)) [
    | inl top ↦ inl (ground arith)
    | inr (w, up, above) ↦ inr (w, ground arith, ground arith)
  ]
]

-- An entry that the trace does not meet changes nothing.
trace_shift :
    (f : ℕ) (es : List Edge) (root v : ℕ) (x : Option ℕ) (d : Parents) (c : ℕ)
    → IsTree es root d
    → visited v d ≡ false
    → visited c d ≡ true
    → trace f ((v, x) ∷ d) c ≡ trace f d c
unfolding trace
trace_shift zero es root v x d c t fresh seen = refl
trace_shift (suc f) es root v x d c t fresh seen = elim (parent_cases es root d c t seen) [
  | inl top ↦ ground arith
  | inr (u, up, above) ↦ ground (arith, trace_shift f es root v x d u t fresh above)
]

trace-Route :
    (f : ℕ) (es : List Edge) (root : ℕ) (d : Parents) (c : ℕ)
    → IsTree es root d
    → visited c d ≡ true
    → length d ≤ f
    → (p : List ℕ) × (trace f d c ≡ some p) × Route es root c p
unfolding trace
trace-Route f es root [] c t seen h = absurd t
trace-Route zero es root (e ∷ d) c t seen h = absurd (omega arith)
trace-Route (suc f) es root ((v, none) ∷ []) c t seen h =
    let at_root : c ≡ root = ground arith in
    (c ∷ [], ground arith, subst (λ x. Route es root x (x ∷ [])) (sym at_root) origin)
trace-Route (suc f) es root ((v, none) ∷ (e ∷ d)) c t seen h = cc (t.1)
trace-Route (suc f) es root ((v, some u) ∷ d) c t seen h = elim (Bool-cases (c == v)) [
  | inl same ↦
      let (p, e, r) = trace-Route f es root d u t.3 t.1 (omega arith) in
      let top : v ≡ c = ground arith in
      (
        c ∷ p,
        ground (arith, e, trace_shift f es root v (some u) d u t.3 t.2 t.1),
        subst (λ x. Route es root x (x ∷ p)) top (via r t.0),
      )
  | inr other ↦
      let (p, e, r) = trace-Route (suc f) es root d c t.3 (ground arith) (omega arith) in
      (p, trace_shift (suc f) es root v (some u) d c t.3 t.2 (ground arith) ∙ e, r)
]

-- The trace of a visited node, reversed, is a walk from the root with all its nodes.
pub trace-Trail :
    (es : List Edge) (root : ℕ) (d : Parents) (c : ℕ)
    → IsTree es root d
    → visited c d ≡ true
    → (p : List ℕ) × (trace (length d) d c ≡ some p) × Trail es c root (reverse p)
trace-Trail es root d c t seen =
    let (p, e, r) = trace-Route (length d) es root d c t seen (omega arith) in (p, e, Route-Trail r)
