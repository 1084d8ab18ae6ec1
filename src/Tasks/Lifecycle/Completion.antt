-- ===== src/Tasks/Lifecycle/Completion.antt =====
-- How a Task is completed: by the verdict of someone else, and in no other way (D-207, D-209).
use syntrix_dr.Prelude.{
  ℕ, ◌≡◌, refl, sym, ap, ◌∙◌, ◌⊎◌, inl, inr, arith, Bool, false, ◌==◌, opt_eq, Option, some, String,
  [], ◌∷◌, subst, select,
}
use syntrix_dr.Db.{Session, Task, TaskStatus, TaskCommand, validate, Validation}
use syntrix_dr.Db.Writing.Steps.{done}
use syntrix_dr.Validations.{is_open_for}
use syntrix_dr.Tasks.Loads.{live_task}
use syntrix_dr.Tasks.Policies.{is_self_validation}
use syntrix_dr.Tasks.Lifecycle.{validate_task}
use syntrix_dr.Tasks.Lifecycle.Changes.{
  Change, starts, blocks, resumes, submits, judges, cancels, Move,
}
use syntrix_dr.Tasks.Lifecycle.Moves.{
  start_task-Move, block_task-Move, resume_task-Move, resume_after_last_blocker-Move,
  submit_task_validation-Move, validate_task-Move, cancel_task-Move,
}
use syntrix_dr.Tasks.Lifecycle.Machine.{
  ServiceStep, started, blocked_by, resumed, resumed_after, submitted, validated, cancelled_by,
  Move-live_back,
}

-- Someone other than the Task's assignee and its submitter: `actor_id` is neither.
abbrev pub JudgedByAnother : ℕ → Session → Task → Type 0
JudgedByAnother actor_id s t =
    (submission : Validation) × (select (is_open_for t.id) s.validations ≡ submission ∷ [])
    × (opt_eq t.current_assignee_user_id (some actor_id) ≡ false)
    × ((submission.created_by_user_id == actor_id) ≡ false)

some-eq : {A : Type 0} {a b : A} → some a ≡ some b → a ≡ b
some-eq e = grind arith

-- A change that ends in COMPLETED is a verdict.
Change-completed :
    {c : TaskCommand} {a : ℕ} {s s' : Session} {t t' : Task}
    → Change a s s' t t' c
    → t'.status ≡ TaskStatus.completed
    → (c ≡ validate) × JudgedByAnother a s t
unfolding is_self_validation
Change-completed (starts _ q _) e = absurd (grind (arith, q, e))
Change-completed (blocks _ q _ _ _ _) e = absurd (grind (arith, q, e))
Change-completed (resumes _ q _) e = absurd (grind (arith, q, e))
Change-completed (submits _ q _ _ _ _) e = absurd (grind (arith, q, e))
Change-completed (cancels _ q _ _) e = absurd (grind (arith, q, e))
Change-completed (judges _ approve q v v' one other _ _ _) e =
    (refl, (v, one, ground (arith, other), ground (arith, other)))

Move-completed :
    (c : TaskCommand) (a i : ℕ) (s s' : Session) (t' : Task)
    → Move c a i s t' s'
    → (id : ℕ) (old new : Task) → live_task s id ≡ some old
    → (old.status ≡ TaskStatus.completed → ⊥)
    → live_task s' id ≡ some new
    → new.status ≡ TaskStatus.completed
    → (id ≡ i) × (new ≡ t') × (c ≡ validate) × JudgedByAnother a s old
Move-completed c a i s s' t' m id old new e unfinished e' complete =
    split (Move-live_back c a i s t' s' m id new e')
  where
    split :
        (id ≡ i) × (new ≡ t') ⊎ (live_task s id ≡ some new) × ((id == i) ≡ false)
        → (id ≡ i) × (new ≡ t') × (c ≡ validate) × JudgedByAnother a s old
    split (inl (here, same)) =
        let (verdict, judged) =
          Change-completed m.change (sym (ap (λ x. x.status) same) ∙ complete) in
        (
          here,
          same,
          verdict,
          subst (JudgedByAnother a s) (some-eq (sym m.found ∙ ap (live_task s) (sym here) ∙ e))
              judged,
        )
    split (inr (stayed, _)) =
        absurd (unfinished (ap (λ x. x.status) (some-eq (sym e ∙ stayed)) ∙ complete))

-- If a successful command of the Task service leaves a live Task COMPLETED that was not, then it was
-- `validate` on this Task, the Task had exactly one open submission, and the actor is neither the
-- Task's assignee nor the one who submitted it.
pub ServiceStep-completed :
    (s s' : Session)
    → ServiceStep s s'
    → (id : ℕ) (old new : Task) → live_task s id ≡ some old
    → (old.status ≡ TaskStatus.completed → ⊥)
    → live_task s' id ≡ some new
    → new.status ≡ TaskStatus.completed
    → (actor_id expected_version : ℕ) × (approve : Bool) × (note : Option String) × (validate_task
          actor_id id expected_version approve note s
        ≡ done new s')
      × JudgedByAnother actor_id s old
ServiceStep-completed s s' step id old new e unfinished e' complete = split step
  where
    Goal : Type 0
    Goal =
        (actor_id expected_version : ℕ) × (approve : Bool) × (note : Option String) × (validate_task
            actor_id id expected_version approve note s
          ≡ done new s')
        × JudgedByAnother actor_id s old

    other : (c : TaskCommand) (a i : ℕ) (t' : Task) → (c ≡ validate → ⊥) → Move c a i s t' s' → Goal
    other c a i t' differs m =
        absurd (differs (Move-completed c a i s s' t' m id old new e unfinished e' complete).2)

    split : ServiceStep s s' → Goal
    split (started a i v r t' d) =
        other _ a i t' (λ x. grind (arith, x)) ((start_task-Move a i v r s).result t' s' d)
    split (blocked_by a i v r t' d) =
        other _ a i t' (λ x. grind (arith, x)) ((block_task-Move a i v r s).result t' s' d)
    split (resumed a i v r t' d) =
        other _ a i t' (λ x. grind (arith, x)) ((resume_task-Move a i v r s).result t' s' d)
    split (resumed_after i a b t' d) =
        automatic ((resume_after_last_blocker-Move i a b s).result t' s' d)
      where
        automatic : Move TaskCommand.resume a i s t' s' ⊎ (s' ≡ s) → Goal
        automatic (inl m) = other _ a i t' (λ x. grind (arith, x)) m
        automatic (inr same) = absurd (
            unfinished (
              ap (λ x. x.status) (some-eq (sym e ∙ ap (λ x. live_task x id) (sym same) ∙ e'))
              ∙ complete))
    split (submitted a i v n t' d) =
        other _ a i t' (λ x. grind (arith, x))
          ((submit_task_validation-Move a i v n s).result t' s' d)
    split (cancelled_by a i v r t' d) =
        other _ a i t' (λ x. grind (arith, x)) ((cancel_task-Move a i v r s).result t' s' d)
    split (validated a i v b n t' d) =
        let (here, same, _, judged) =
          Move-completed validate a i s s' t' ((validate_task-Move a i v b n s).result t' s' d) id
            old new e unfinished e' complete in
        (
          a,
          v,
          b,
          n,
          subst (λ x. validate_task a x v b n s ≡ done new s') (sym here)
              (d ∙ ap (λ x. done x s') (sym same)),
          judged,
        )
