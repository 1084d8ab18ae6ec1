-- ===== src/Tasks/Readiness/Rows.antt =====
-- Derived Ready in the database: from the upstream rows to the tables they were joined from.
use syntrix_dr.Prelude.{
  ℕ, ◌≡◌, sym, subst, ◌++◌, ⊎_elim, ◌==◌, is_none, Bool, Option, none, some, if◌then◌else◌, refl,
  ap, ◌∙◌, ◌↔◌, arith, true, false, ◌&&◌, List, [], ◌∷◌, Memᴰ, Memᴰ-cons,
}
use syntrix_dr.Prelude.Memᴰ
use syntrix_dr.Db.{
  Session, Task, TaskStatus, TaskDependency, Milestone, achieved, MilestoneDependency, hard,
  get_row,
}
use syntrix_dr.Tasks.Readiness.{
  Upstream, is_hard, ready, is_completed, is_achieved, task_gate, milestone_gate, predecessor_of,
  predecessors, milestone_of, gates, upstream_of, readiness,
}
use syntrix_dr.Tasks.Readiness.Correct.{derive_readiness-ready}

-- Every HARD row of a list is satisfied.
abbrev AllMet : List Upstream → Type 0
AllMet us = (u : Upstream) → Memᴰ u us → is_hard u.strength ≡ true → u.satisfied ≡ true

AllMet-append : (xs ys : List Upstream) → AllMet (xs ++ ys) ↔ (AllMet xs × AllMet ys)
AllMet-append xs ys = (
  λ met. (λ u m. met u (Memᴰ.append_left ys m), λ u m. met u (Memᴰ.append_right xs m)),
  λ (left, right) u m. ⊎_elim (left u) (right u) (Memᴰ.append_cases xs m),
)

-- A list that a test guards, and one row.
guarded-met :
    (b : Bool) (us : List Upstream) → AllMet (if b then us else []) ↔ (b ≡ true → AllMet us)
guarded-met true us = (λ met e. met, λ met. met refl)
guarded-met false us = (λ met e. absurd (grind (arith, e)), λ met u m. absurd (Memᴰ.not-nil m))

single-met : (u : Upstream) → AllMet (u ∷ []) ↔ (is_hard u.strength ≡ true → u.satisfied ≡ true)
single-met u = (
  λ met. met u (Memᴰ.head refl),
  λ met v m h.
      let same = Memᴰ.eq_of_singleton m in
      ap (λ x. x.satisfied) same ∙ met (sym (ap (λ x. is_hard x.strength) same) ∙ h),
)

-- The row of a join, where a test on the edge and the found row let it through.
joined-met :
    {A : Type 0} (here : Bool) (live : A → Bool) (row : A → Upstream) (o : Option A)
    → AllMet
        (if here then elim o [ none ↦ [] | some p ↦ if live p then row p ∷ [] else [] ] else [])
      ↔ ((p : A)
          → o ≡ some p
          → here ≡ true
          → live p ≡ true
          → is_hard (row p).strength ≡ true
          → (row p).satisfied ≡ true)
joined-met here live row none = (
  λ met p e. absurd (grind (arith, e)),
  λ met. (guarded-met here []).1 λ _ u m. absurd (Memᴰ.not-nil m),
)
joined-met here live row (some q) = (
  λ met p e on now strong.
      let same : q ≡ p = grind (arith, e) in
      let one =
        (guarded-met (live q) (row q ∷ [])).0
          ((guarded-met here (if live q then row q ∷ [] else [])).0 met on) (ap live same ∙ now) in
      ap (λ x. (row x).satisfied) (sym same)
      ∙ (single-met (row q)).0 one (ap (λ x. is_hard (row x).strength) same ∙ strong),
  λ met. (guarded-met here (if live q then row q ∷ [] else [])).1 λ on.
      (guarded-met (live q) (row q ∷ [])).1
        λ now. (single-met (row q)).1 λ strong. met q refl on now strong,
)

-- What a live HARD edge to this Task asks of a live predecessor.
abbrev EdgeMet : Session → ℕ → TaskDependency → Type 0
EdgeMet s task_id d =
    (p : Task)
    → d.successor_task_id ≡ task_id
    → d.deleted_at ≡ none
    → d.strength ≡ hard
    → get_row (λ r. r.id) d.predecessor_task_id s.tasks ≡ some p
    → p.deleted_at ≡ none
    → p.status ≡ TaskStatus.completed

-- And a live HARD gate of a live Milestone.
abbrev GateMet : Session → ℕ → MilestoneDependency → Type 0
GateMet s task_id g =
    (m : Milestone)
    → g.successor_task_id ≡ task_id
    → g.deleted_at ≡ none
    → g.strength ≡ hard
    → get_row (λ r. r.id) g.milestone_id s.milestones ≡ some m
    → m.deleted_at ≡ none
    → m.status ≡ achieved

edge-met :
    (s : Session) (task_id : ℕ) (d : TaskDependency)
    → AllMet (
        if (d.successor_task_id == task_id) && is_none d.deleted_at then predecessor_of s d else [])
      ↔ EdgeMet s task_id d
edge-met s task_id d =
    let (to, from) =
      joined-met ((d.successor_task_id == task_id) && is_none d.deleted_at)
        (λ p. is_none p.deleted_at)
        (λ p. record {
          ref = record { id = p.id; kind = task_gate; work_stream_id = p.work_stream_id };
          strength = d.strength;
          satisfied = is_completed p.status;
        })
        (get_row (λ r. r.id) d.predecessor_task_id s.tasks) in
    (
      λ met p at live strong found alive.
          let done =
            to met p found (ground (arith, at, live)) (ground (arith, alive))
              (ground (arith, strong)) in
          ground (arith, done),
      λ met. from λ p found on alive strong.
          let done =
            met p (ground (arith, on)) (ground (arith, on)) (ground (arith, strong)) found
              (ground (arith, alive)) in
          ground (arith, done),
    )

gate-met :
    (s : Session) (task_id : ℕ) (g : MilestoneDependency)
    → AllMet
        (if (g.successor_task_id == task_id) && is_none g.deleted_at then milestone_of s g else [])
      ↔ GateMet s task_id g
gate-met s task_id g =
    let (to, from) =
      joined-met ((g.successor_task_id == task_id) && is_none g.deleted_at)
        (λ m. is_none m.deleted_at)
        (λ m. record {
          ref = record { id = m.id; kind = milestone_gate; work_stream_id = m.work_stream_id };
          strength = g.strength;
          satisfied = is_achieved m.status;
        })
        (get_row (λ r. r.id) g.milestone_id s.milestones) in
    (
      λ met m at live strong found alive.
          let done =
            to met m found (ground (arith, at, live)) (ground (arith, alive))
              (ground (arith, strong)) in
          ground (arith, done),
      λ met. from λ m found on alive strong.
          let done =
            met m (ground (arith, on)) (ground (arith, on)) (ground (arith, strong)) found
              (ground (arith, alive)) in
          ground (arith, done),
    )

-- A property of every element, from one element on.
each-cons :
    {A : Type 0} (P : A → Type 0) (x : A) (xs : List A)
    → ((a : A) → Memᴰ a (x ∷ xs) → P a) ↔ (P x × ((a : A) → Memᴰ a xs → P a))
each-cons P x xs = (
  λ all_of. (all_of x (Memᴰ.head refl), λ a m. all_of a (Memᴰ.tail m)),
  λ (first, rest) a m. ⊎_elim (λ e. subst P (sym e) first) (rest a) ((Memᴰ-cons a x xs).0 m),
)

edges-met :
    (s : Session) (task_id : ℕ) (ds : List TaskDependency)
    → AllMet (predecessors s task_id ds) ↔ ((d : TaskDependency) → Memᴰ d ds → EdgeMet s task_id d)
unfolding predecessors
edges-met s task_id [] = (λ met d m. absurd (Memᴰ.not-nil m), λ met u m. absurd (Memᴰ.not-nil m))
edges-met s task_id (d ∷ ds) =
    let (split, join) = AllMet-append _ (predecessors s task_id ds) in
    let (to, from) = each-cons (EdgeMet s task_id) d ds in
    (
      λ met.
          let (one, rest) = split met in
          from ((edge-met s task_id d).0 one, (edges-met s task_id ds).0 rest),
      λ met.
          let (one, rest) = to met in
          join ((edge-met s task_id d).1 one, (edges-met s task_id ds).1 rest),
    )

gates-met :
    (s : Session) (task_id : ℕ) (gs : List MilestoneDependency)
    → AllMet (gates s task_id gs) ↔ ((g : MilestoneDependency) → Memᴰ g gs → GateMet s task_id g)
unfolding gates
gates-met s task_id [] = (λ met g m. absurd (Memᴰ.not-nil m), λ met u m. absurd (Memᴰ.not-nil m))
gates-met s task_id (g ∷ gs) =
    let (split, join) = AllMet-append _ (gates s task_id gs) in
    let (to, from) = each-cons (GateMet s task_id) g gs in
    (
      λ met.
          let (one, rest) = split met in
          from ((gate-met s task_id g).0 one, (gates-met s task_id gs).0 rest),
      λ met.
          let (one, rest) = to met in
          join ((gate-met s task_id g).1 one, (gates-met s task_id gs).1 rest),
    )

-- The Task waits on nothing.
pub record Free (s : Session) (task : Task) : Type 0 where
  pub fresh : task.status ≡ TaskStatus.not_started
  pub edges : (d : TaskDependency) → Memᴰ d s.task_dependencies → EdgeMet s task.id d
  pub gates : (g : MilestoneDependency) → Memᴰ g s.milestone_dependencies → GateMet s task.id g

-- A Task is derived Ready in the database exactly if it is NOT_STARTED, the live predecessor of every live
-- HARD Task dependency into it is COMPLETED, and the live Milestone of every live HARD gate on it is
-- ACHIEVED; ADVISORY and deleted rows never count.
pub readiness-Free : (s : Session) (task : Task) → (ready (readiness s task) ≡ true) ↔ Free s task
unfolding readiness upstream_of
readiness-Free s task =
    let (to, from) = derive_readiness-ready task.status (upstream_of s task.id) in
    let (split, join) =
      AllMet-append (predecessors s task.id s.task_dependencies)
        (gates s task.id s.milestone_dependencies) in
    (
      λ e.
          let (fresh, met) = to e in
          let (left, right) = split met in
          record {
            fresh = fresh;
            edges = (edges-met s task.id s.task_dependencies).0 left;
            gates = (gates-met s task.id s.milestone_dependencies).0 right;
          },
      λ free. from (
        free.fresh,
        join (
          (edges-met s task.id s.task_dependencies).1 free.edges,
          (gates-met s task.id s.milestone_dependencies).1 free.gates,
        ),
      ),
    )
