-- ===== src/Tasks/Lifecycle/Blocked.antt =====
-- A BLOCKED Task has an active Blocker (invariant #10), as far as the Task commands go.
use syntrix_dr.Prelude.{
  false, ◌==◌, ℕ, ◌≡◌, ◌≤◌, sym, ap, ◌∙◌, ◌⊎◌, inl, inr, arith, true, some, List, [], ◌∷◌, ◌++◌,
  subst, select, length,
}
use syntrix_dr.Db.{Session, Task, TaskStatus, TaskCommand, Blocker}
use syntrix_dr.Blockers.{is_active_on, count_active_blockers}
use syntrix_dr.Tasks.Loads.{live_task}
use syntrix_dr.Tasks.Lifecycle.Changes.{
  Change, starts, blocks, resumes, submits, judges, cancels, Move,
}
use syntrix_dr.Tasks.Lifecycle.Machine.{
  ServiceSteps, none_yet, then_step, SomeMove, ServiceStep-SomeMove, Move-live_back,
}

-- Every live BLOCKED Task has an active Blocker.
abbrev pub BlockedHaveBlockers : Session → Type 0
BlockedHaveBlockers s =
    (id : ℕ) (t : Task)
    → live_task s id ≡ some t
    → t.status ≡ TaskStatus.blocked
    → 1 ≤ count_active_blockers s t.id

-- One more Blocker only adds to a Task's active ones.
active-append :
    (task_id : ℕ) (b : Blocker) (bs : List Blocker)
    → (length (select (is_active_on task_id) bs)
        ≤ length (select (is_active_on task_id) (bs ++ b ∷ [])))
      × (is_active_on task_id b ≡ true → 1 ≤ length (select (is_active_on task_id) (bs ++ b ∷ [])))
active-append task_id b [] = ground arith
active-append task_id b (x ∷ bs) = ground (arith, active-append task_id b bs)

-- A change loses no Blocker, and one to BLOCKED brings one.
Change-blockers :
    {c : TaskCommand} {a : ℕ} {s s' : Session} {t t' : Task}
    → Change a s s' t t' c
    → ((task_id : ℕ) → count_active_blockers s task_id ≤ count_active_blockers s' task_id)
      × (t'.status ≡ TaskStatus.blocked → 1 ≤ count_active_blockers s' t.id)
unfolding count_active_blockers
Change-blockers (starts p q (k, _)) = (
  λ i. omega (arith, ap (λ x. length (select (is_active_on i) x)) k),
  λ e. absurd (grind (arith, q, e)),
)
Change-blockers {s} {t} (blocks p q b on k _) = (
  λ i.
      omega
        (arith, ap (λ x. length (select (is_active_on i) x)) k, (active-append i b s.blockers).0),
  λ e. omega (
    arith,
    ap (λ x. length (select (is_active_on t.id) x)) k,
    (active-append t.id b s.blockers).1 on.0,
  ),
)
Change-blockers (resumes p q (k, _)) = (
  λ i. omega (arith, ap (λ x. length (select (is_active_on i) x)) k),
  λ e. absurd (grind (arith, q, e)),
)
Change-blockers (submits p q _ _ _ k) = (
  λ i. omega (arith, ap (λ x. length (select (is_active_on i) x)) k),
  λ e. absurd (grind (arith, q, e)),
)
Change-blockers (judges p approve q _ _ _ _ _ _ k) = (
  λ i. omega (arith, ap (λ x. length (select (is_active_on i) x)) k),
  λ e. absurd (ground (arith, q, e)),
)
Change-blockers (cancels p q _ k) = (
  λ i. omega (arith, ap (λ x. length (select (is_active_on i) x)) k),
  λ e. absurd (grind (arith, q, e)),
)

Move-BlockedHaveBlockers :
    (c : TaskCommand) (a i : ℕ) (s s' : Session) (t' : Task)
    → Move c a i s t' s'
    → BlockedHaveBlockers s
    → BlockedHaveBlockers s'
Move-BlockedHaveBlockers c a i s s' t' m holds id t e on =
    split (Move-live_back c a i s t' s' m id t e)
  where
    split :
        (id ≡ i) × (t ≡ t') ⊎ (live_task s id ≡ some t) × ((id == i) ≡ false)
        → 1 ≤ count_active_blockers s' t.id
    split (inl (_, same)) =
        let id_of = ap (λ x. x.id) same ∙ m.same.0 in
        subst (λ x. 1 ≤ count_active_blockers s' x) (sym id_of)
          ((Change-blockers m.change).1 (sym (ap (λ x. x.status) same) ∙ on))
    split (inr (old, _)) = omega (arith, holds id t old on, (Change-blockers m.change).0 t.id)

pub SomeMove-BlockedHaveBlockers :
    (u s' : Session) → SomeMove u s' ⊎ (s' ≡ u) → BlockedHaveBlockers u → BlockedHaveBlockers s'
SomeMove-BlockedHaveBlockers u s' (inl (c, a, i, t', m)) = Move-BlockedHaveBlockers c a i u s' t' m
SomeMove-BlockedHaveBlockers u s' (inr same) = subst BlockedHaveBlockers (sym same)

-- If every live BLOCKED Task has a Blocker that is neither CLOSED nor deleted, then so it is after any
-- sequence of successful commands of the Task service.
pub ServiceSteps-BlockedHaveBlockers :
    (s s' : Session) → ServiceSteps s s' → BlockedHaveBlockers s → BlockedHaveBlockers s'
ServiceSteps-BlockedHaveBlockers s s' none_yet holds = holds
ServiceSteps-BlockedHaveBlockers s s' (then_step {t = u} before last) holds =
    SomeMove-BlockedHaveBlockers u s' (ServiceStep-SomeMove u s' last)
      (ServiceSteps-BlockedHaveBlockers s u before holds)
