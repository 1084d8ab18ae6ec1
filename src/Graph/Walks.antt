-- ===== src/Graph/Walks.antt =====
-- Walks in a list of edges, and what one more edge does to acyclicity.
use syntrix_dr.Prelude.{
  ℕ, ◌≡◌, refl, sym, arith, Bool, true, false, ⊎_elim, ◌⊎◌, inl, inr, List, [], ◌∷◌, ◌++◌, Memᴰ,
  subst,
}
use syntrix_dr.Graph.{Edge}

abbrev pub HasEdge : List Edge → ℕ → ℕ → Type 0
HasEdge es u v = Memᴰ {A = Edge} (u, v) es

-- A walk from `u`, step by step at its far end.
pub data Walk (es : List Edge) (u : ℕ) : ℕ → Type 0 where
  here : Walk es u u
  step : {v w : ℕ} → Walk es u v → HasEdge es v w → Walk es u w

pub Walk-trans : {es : List Edge} {u v w : ℕ} → Walk es u v → Walk es v w → Walk es u w
Walk-trans p here = p
Walk-trans p (step q e) = step (Walk-trans p q) e

pub Walk-single : {es : List Edge} {u v : ℕ} → HasEdge es u v → Walk es u v
Walk-single e = step here e

-- No edge closes a walk.
abbrev pub IsAcyclic : List Edge → Type 0
IsAcyclic es = (u v : ℕ) → HasEdge es u v → ¬ Walk es v u

-- Every edge of `es'` is an edge of `es`, or the new edge from `p` to `s`.
abbrev pub Extends : List Edge → ℕ → ℕ → List Edge → Type 0
Extends es p s es' = (u v : ℕ) → HasEdge es' u v → HasEdge es u v ⊎ (u ≡ p) × (v ≡ s)

module _ {es es' : List Edge} {p s : ℕ} (ext : Extends es p s es') where
  -- A walk over the new edge enters it at `p` and leaves it at `s`.
  split-Walk : {u v : ℕ} → Walk es' u v → Walk es u v ⊎ Walk es u p × Walk es s v
  split-Walk here = inl here
  split-Walk (step w e) = extend (split-Walk w) (ext _ _ e)
    where
      extend :
          {u v w : ℕ}
          → Walk es u v ⊎ Walk es u p × Walk es s v
          → HasEdge es v w ⊎ (v ≡ p) × (w ≡ s)
          → Walk es u w ⊎ Walk es u p × Walk es s w
      extend (inl a) (inl e) = inl (step a e)
      extend {u} (inl a) (inr (vp, ws)) =
          inr (subst (Walk es u) vp a, subst (Walk es s) (sym ws) here)
      extend (inr (a, b)) (inl e) = inr (a, step b e)
      extend (inr (a, b)) (inr (vp, ws)) = inr (a, subst (Walk es s) (sym ws) here)

  -- An edge whose ends no walk joins backwards keeps the graph acyclic.
  pub Extends-IsAcyclic : IsAcyclic es → ¬ Walk es s p → IsAcyclic es'
  Extends-IsAcyclic acyclic apart u v e w = close (ext u v e) (split-Walk w)
    where
      close : HasEdge es u v ⊎ (u ≡ p) × (v ≡ s) → Walk es v u ⊎ Walk es v p × Walk es s u → ⊥
      close (inl e) (inl w) = acyclic u v e w
      close (inl e) (inr (a, b)) = apart (Walk-trans (step b e) a)
      close (inr (up, vs)) (inl w) = apart (subst (Walk es s) up (subst (λ x. Walk es x u) vs w))
      close (inr (up, vs)) (inr (a, b)) = apart (subst (Walk es s) up b)

-- Fewer edges, fewer walks.
pub Walk-mono :
    {es es' : List Edge}
    → ((u v : ℕ) → HasEdge es u v → HasEdge es' u v)
    → (u v : ℕ) → Walk es u v
    → Walk es' u v
Walk-mono sub u v here = here
Walk-mono sub u v (step w e) = step (Walk-mono sub _ _ w) (sub _ _ e)

pub IsAcyclic-anti :
    {es es' : List Edge}
    → ((u v : ℕ) → HasEdge es u v → HasEdge es' u v)
    → IsAcyclic es'
    → IsAcyclic es
IsAcyclic-anti sub acyclic u v e w = acyclic u v (sub u v e) (Walk-mono sub v u w)

-- The same where the new edge comes under a condition.
pub grown-IsAcyclic :
    (b : Bool) {es es' : List Edge} {p s : ℕ}
    → ((u v : ℕ) → HasEdge es' u v → HasEdge es u v ⊎ (b ≡ true) × (u ≡ p) × (v ≡ s))
    → (b ≡ true → ¬ Walk es s p)
    → IsAcyclic es
    → IsAcyclic es'
grown-IsAcyclic true grown apart acyclic =
    Extends-IsAcyclic (λ u v e. ⊎_elim inl (λ (_, a, b). inr (a, b)) (grown u v e)) acyclic
      (apart refl)
grown-IsAcyclic false grown apart acyclic =
    IsAcyclic-anti
      (λ u v e. ⊎_elim (λ old. old) (λ (f, _, _). absurd (ground (arith, f))) (grown u v e)) acyclic

-- A walk with the list of its nodes, both ends included.
pub data Trail (es : List Edge) (v : ℕ) : ℕ → List ℕ → Type 0 where
  stop : Trail es v v (v ∷ [])
  next : {u w : ℕ} {p : List ℕ} → HasEdge es u w → Trail es v w p → Trail es v u (u ∷ p)

pub Trail-Walk : {es : List Edge} {v u : ℕ} {p : List ℕ} → Trail es v u p → Walk es u v
Trail-Walk stop = here
Trail-Walk (next e t) = Walk-trans (Walk-single e) (Trail-Walk t)

pub Trail-concat :
    {es : List Edge} {v w : ℕ} (e : HasEdge es v w) {u : ℕ} {p : List ℕ}
    → Trail es v u p
    → Trail es w u (p ++ w ∷ [])
Trail-concat e stop = next e stop
Trail-concat e (next d t) = next d (Trail-concat e t)
