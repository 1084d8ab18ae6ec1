-- ===== src/Tasks/LiveGraph/Changes.antt =====
-- How the live edges of an Event change with one row.
use syntrix_dr.Prelude.{
  ℕ, ◌≡◌, ◌⊎◌, inl, inr, ⊎_elim, true, List, [], ◌∷◌, ◌++◌, ◌==◌, Memᴰ-cons, arith, is_some,
}
use syntrix_dr.Prelude.Memᴰ
use syntrix_dr.Db.{Task, Milestone, TaskDependency, MilestoneDependency, put_row}
use syntrix_dr.Graph.{Edge}
use syntrix_dr.Graph.Walks.{HasEdge}
use syntrix_dr.Tasks.LiveGraph.{is_live_task, task_edges, gate_edges}

pub task_edges-append :
    (dr_event_id u v : ℕ) (d : TaskDependency) (ds : List TaskDependency)
    → HasEdge (task_edges dr_event_id (ds ++ d ∷ [])) u v
    → HasEdge (task_edges dr_event_id ds) u v
      ⊎ ((d.dr_event_id == dr_event_id) ≡ true)
        × (u ≡ d.predecessor_task_id)
        × (v ≡ d.successor_task_id)
unfolding task_edges
task_edges-append ev u v d [] =
    ground (arith, Memᴰ-cons {A = Edge} (u, v) (d.predecessor_task_id, d.successor_task_id) [])
task_edges-append ev u v d (x ∷ ds) = ground (
  arith,
  task_edges-append ev u v d ds,
  Memᴰ-cons {A = Edge} (u, v) (x.predecessor_task_id, x.successor_task_id) (task_edges ev ds),
  Memᴰ-cons {A = Edge} (u, v) (x.predecessor_task_id, x.successor_task_id)
      (task_edges ev (ds ++ d ∷ [])),
)

pub task_edges-put_row :
    (dr_event_id u v : ℕ) (d : TaskDependency) (ds : List TaskDependency)
    → is_some d.deleted_at ≡ true
    → HasEdge (task_edges dr_event_id (put_row (λ r. r.id) d ds)) u v
    → HasEdge (task_edges dr_event_id ds) u v
unfolding task_edges put_row
task_edges-put_row ev u v d [] dead = λ m. m
task_edges-put_row ev u v d (x ∷ ds) dead = ground (
  arith,
  task_edges-put_row ev u v d ds,
  Memᴰ-cons {A = Edge} (u, v) (x.predecessor_task_id, x.successor_task_id) (task_edges ev ds),
  Memᴰ-cons {A = Edge} (u, v) (x.predecessor_task_id, x.successor_task_id)
      (task_edges ev (put_row (λ r. r.id) d ds)),
)

pub gate_edges-append :
    (tasks : List Task) (milestones : List Milestone) (dr_event_id u v : ℕ)
    (g : MilestoneDependency) (gs : List MilestoneDependency)
    → HasEdge (gate_edges tasks milestones dr_event_id (gs ++ g ∷ [])) u v
    → HasEdge (gate_edges tasks milestones dr_event_id gs) u v
      ⊎ (is_live_task tasks dr_event_id g.successor_task_id ≡ true)
        × (u ≡ g.milestone_id)
        × (v ≡ g.successor_task_id)
unfolding gate_edges
gate_edges-append tasks milestones ev u v g [] =
    ground (arith, Memᴰ-cons {A = Edge} (u, v) (g.milestone_id, g.successor_task_id) [])
gate_edges-append tasks milestones ev u v g (x ∷ gs) = ground (
  arith,
  gate_edges-append tasks milestones ev u v g gs,
  Memᴰ-cons {A = Edge} (u, v) (x.milestone_id, x.successor_task_id)
      (gate_edges tasks milestones ev gs),
  Memᴰ-cons {A = Edge} (u, v) (x.milestone_id, x.successor_task_id)
      (gate_edges tasks milestones ev (gs ++ g ∷ [])),
)

pub gate_edges-put_row :
    (tasks : List Task) (milestones : List Milestone) (dr_event_id u v : ℕ)
    (g : MilestoneDependency) (gs : List MilestoneDependency)
    → is_some g.deleted_at ≡ true
    → HasEdge (gate_edges tasks milestones dr_event_id (put_row (λ r. r.id) g gs)) u v
    → HasEdge (gate_edges tasks milestones dr_event_id gs) u v
unfolding gate_edges put_row
gate_edges-put_row tasks milestones ev u v g [] dead = λ m. m
gate_edges-put_row tasks milestones ev u v g (x ∷ gs) dead = ground (
  arith,
  gate_edges-put_row tasks milestones ev u v g gs,
  Memᴰ-cons {A = Edge} (u, v) (x.milestone_id, x.successor_task_id)
      (gate_edges tasks milestones ev gs),
  Memᴰ-cons {A = Edge} (u, v) (x.milestone_id, x.successor_task_id)
      (gate_edges tasks milestones ev (put_row (λ r. r.id) g gs)),
)

-- Edges of a list in two parts.
pub grow_left :
    {es es' : List Edge} (fs : List Edge) {u v : ℕ} {X : Type 0}
    → (HasEdge es' u v → HasEdge es u v ⊎ X)
    → HasEdge (es' ++ fs) u v
    → HasEdge (es ++ fs) u v ⊎ X
grow_left {es} {es'} fs grown m =
    ⊎_elim (λ l. ⊎_elim (λ old. inl (Memᴰ.append_left fs old)) inr (grown l))
      (λ r. inl (Memᴰ.append_right es r)) (Memᴰ.append_cases es' m)

pub grow_right :
    (es : List Edge) {fs fs' : List Edge} {u v : ℕ} {X : Type 0}
    → (HasEdge fs' u v → HasEdge fs u v ⊎ X)
    → HasEdge (es ++ fs') u v
    → HasEdge (es ++ fs) u v ⊎ X
grow_right es {fs} {fs'} grown m =
    ⊎_elim (λ l. inl (Memᴰ.append_left fs l))
      (λ r. ⊎_elim (λ old. inl (Memᴰ.append_right es old)) inr (grown r)) (Memᴰ.append_cases es m)

pub keep_left :
    {es es' : List Edge} (fs : List Edge) {u v : ℕ}
    → (HasEdge es' u v → HasEdge es u v)
    → HasEdge (es' ++ fs) u v
    → HasEdge (es ++ fs) u v
keep_left {es} {es'} fs kept m =
    ⊎_elim (λ l. Memᴰ.append_left fs (kept l)) (λ r. Memᴰ.append_right es r)
      (Memᴰ.append_cases es' m)

pub keep_right :
    (es : List Edge) {fs fs' : List Edge} {u v : ℕ}
    → (HasEdge fs' u v → HasEdge fs u v)
    → HasEdge (es ++ fs') u v
    → HasEdge (es ++ fs) u v
keep_right es {fs} {fs'} kept m =
    ⊎_elim (λ l. Memᴰ.append_left fs l) (λ r. Memᴰ.append_right es (kept r))
      (Memᴰ.append_cases es m)
