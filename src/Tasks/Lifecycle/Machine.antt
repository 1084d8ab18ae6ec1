-- ===== src/Tasks/Lifecycle/Machine.antt =====
-- The state machine of a Task over any sequence of commands.
use syntrix_dr.Prelude.{
  ◌==◌, ℕ, ◌≡◌, refl, sym, ap, ◌∙◌, ◌+◌, ◌⊎◌, inl, inr, ⊎_elim, arith, Bool, true, false, Option,
  some, String, subst,
}
use syntrix_dr.Db.{
  Session, Task, TaskStatus, TaskCommand, start, block, resume, submit_validation, validate, cancel,
  get_row, get-put_row, get_row-key,
}
use syntrix_dr.Db.Writing.Steps.{done}
use syntrix_dr.Tasks.Loads.{live_task}
use syntrix_dr.Tasks.Guards.{legal_from}
use syntrix_dr.Tasks.Lifecycle.{
  start_task, block_task, resume_task, resume_after_last_blocker, submit_task_validation,
  validate_task, cancel_task,
}
use syntrix_dr.Tasks.Lifecycle.Changes.{
  Change, starts, blocks, resumes, submits, judges, cancels, Move,
}
use syntrix_dr.Tasks.Lifecycle.Moves.{
  start_task-Move, block_task-Move, resume_task-Move, resume_after_last_blocker-Move,
  submit_task_validation-Move, validate_task-Move, cancel_task-Move,
}

-- The arrows of the Task's state machine (STATE_MACHINES.md).
pub data Arrow : TaskStatus → TaskStatus → Type 0 where
  start_arrow : Arrow TaskStatus.not_started TaskStatus.in_progress
  block_arrow : Arrow TaskStatus.in_progress TaskStatus.blocked
  resume_arrow : Arrow TaskStatus.blocked TaskStatus.in_progress
  submit_arrow : Arrow TaskStatus.in_progress TaskStatus.ready_for_validation
  approve_arrow : Arrow TaskStatus.ready_for_validation TaskStatus.completed
  reject_arrow : Arrow TaskStatus.ready_for_validation TaskStatus.in_progress
  cancel_arrow : {x : TaskStatus} → legal_from cancel x ≡ true → Arrow x TaskStatus.cancelled

-- A command of the service that succeeds, by any actor on any Task.
pub data ServiceStep (s s' : Session) : Type 0 where
  started :
      (actor_id task_id v : ℕ) (reason : Option String) (t' : Task)
      → start_task actor_id task_id v reason s ≡ done t' s'
      → ServiceStep s s'
  blocked_by :
      (actor_id task_id v : ℕ) (reason : Option String) (t' : Task)
      → block_task actor_id task_id v reason s ≡ done t' s'
      → ServiceStep s s'
  resumed :
      (actor_id task_id v : ℕ) (reason : Option String) (t' : Task)
      → resume_task actor_id task_id v reason s ≡ done t' s'
      → ServiceStep s s'
  resumed_after :
      (task_id actor_id blocker_id : ℕ) (t' : Task)
      → resume_after_last_blocker task_id actor_id blocker_id s ≡ done t' s'
      → ServiceStep s s'
  submitted :
      (actor_id task_id v : ℕ) (note : Option String) (t' : Task)
      → submit_task_validation actor_id task_id v note s ≡ done t' s'
      → ServiceStep s s'
  validated :
      (actor_id task_id v : ℕ) (approve : Bool) (note : Option String) (t' : Task)
      → validate_task actor_id task_id v approve note s ≡ done t' s'
      → ServiceStep s s'
  cancelled_by :
      (actor_id task_id v : ℕ) (reason : Option String) (t' : Task)
      → cancel_task actor_id task_id v reason s ≡ done t' s'
      → ServiceStep s s'

pub data ServiceSteps (s : Session) : Session → Type 0 where
  none_yet : ServiceSteps s s
  then_step : {t u : Session} → ServiceSteps s t → ServiceStep t u → ServiceSteps s u

-- Every step is a move of one Task, or changes nothing.
abbrev pub SomeMove : Session → Session → Type 0
SomeMove s s' =
    (command : TaskCommand) × (actor_id : ℕ) × (task_id : ℕ) × (t' : Task) × Move command actor_id
      task_id s t' s'

pub ServiceStep-SomeMove : (s s' : Session) → ServiceStep s s' → SomeMove s s' ⊎ (s' ≡ s)
ServiceStep-SomeMove s s' (started a i v r t' e) =
    inl (start, a, i, t', (start_task-Move a i v r s).result t' s' e)
ServiceStep-SomeMove s s' (blocked_by a i v r t' e) =
    inl (block, a, i, t', (block_task-Move a i v r s).result t' s' e)
ServiceStep-SomeMove s s' (resumed a i v r t' e) =
    inl (resume, a, i, t', (resume_task-Move a i v r s).result t' s' e)
ServiceStep-SomeMove s s' (resumed_after i a b t' e) =
    ⊎_elim (λ m. inl (resume, a, i, t', m)) inr
      ((resume_after_last_blocker-Move i a b s).result t' s' e)
ServiceStep-SomeMove s s' (submitted a i v n t' e) =
    inl (submit_validation, a, i, t', (submit_task_validation-Move a i v n s).result t' s' e)
ServiceStep-SomeMove s s' (validated a i v b n t' e) =
    inl (validate, a, i, t', (validate_task-Move a i v b n s).result t' s' e)
ServiceStep-SomeMove s s' (cancelled_by a i v r t' e) =
    inl (cancel, a, i, t', (cancel_task-Move a i v r s).result t' s' e)

-- The arrow of a change.
Arrow-between : {x y x' y' : TaskStatus} → Arrow x y → x' ≡ x → y' ≡ y → Arrow x' y'
Arrow-between {x} {y} {x'} {y'} a p q = subst (λ z. Arrow z y') (sym p) (subst (Arrow x) (sym q) a)

Change-Arrow :
    {c : TaskCommand} {a : ℕ} {s s' : Session} {t t' : Task}
    → Change a s s' t t' c
    → Arrow t.status t'.status
Change-Arrow (starts p q _) = Arrow-between start_arrow p q
Change-Arrow (blocks p q _ _ _ _) = Arrow-between block_arrow p q
Change-Arrow (resumes p q _) = Arrow-between resume_arrow p q
Change-Arrow (submits p q _ _ _ _) = Arrow-between submit_arrow p q
Change-Arrow (judges p true q _ _ _ _ _ _ _) = Arrow-between approve_arrow p q
Change-Arrow (judges p false q _ _ _ _ _ _ _) = Arrow-between reject_arrow p q
Change-Arrow {t} (cancels p q _ _) = subst (Arrow t.status) (sym q) (cancel_arrow p)

-- What a move does to the live row of any id: it is the row that moved, or it stays.
pub Move-live_task :
    (command : TaskCommand) (actor_id task_id : ℕ) (s : Session) (t' : Task) (s' : Session)
    → (m : Move command actor_id task_id s t' s') → (id : ℕ) (t : Task) → live_task s id ≡ some t
    → (id ≡ task_id) × (t ≡ m.before) × (live_task s' id ≡ some t') ⊎ (live_task s' id ≡ some t)
unfolding live_task
Move-live_task command actor_id task_id s t' s' m id t e = ground (
  arith,
  e,
  m.found,
  m.same.0,
  m.same.1,
  ap (get_row (λ r. r.id) id) m.rows ∙ get-put_row (λ r. r.id) id t' s.tasks,
  get_row-key (λ r. r.id) task_id s.tasks m.before,
  get_row-key (λ r. r.id) id s.tasks t,
)

abbrev pub is_terminal : TaskStatus → Bool
is_terminal TaskStatus.completed = true
is_terminal TaskStatus.cancelled = true
is_terminal _ = false

-- Where one command can take a live Task: nowhere, or along one arrow with the version one higher.
abbrev pub Follows : Task → Task → Type 0
Follows t t' = (t' ≡ t) ⊎ Arrow t.status t'.status × (t'.version ≡ t.version + 1)

-- After any successful command of the Task service, on this Task or on another one, a live Task is still
-- live, and either its row is unchanged or its status went along exactly one arrow of the state machine
-- and its version is one higher.
pub ServiceStep-Follows :
    (s s' : Session)
    → ServiceStep s s'
    → (id : ℕ) (t : Task) → live_task s id ≡ some t
    → (t' : Task) × (live_task s' id ≡ some t') × Follows t t'
ServiceStep-Follows s s' step id t e = split (ServiceStep-SomeMove s s' step)
  where
    at_move :
        {c : TaskCommand} {a i : ℕ} {t' : Task} (m : Move c a i s t' s')
        → (id ≡ i) × (t ≡ m.before) × (live_task s' id ≡ some t') ⊎ (live_task s' id ≡ some t)
        → (t' : Task) × (live_task s' id ≡ some t') × Follows t t'
    at_move {t'} m (inl (_, same, e')) = (
      t',
      e',
      inr (
        Arrow-between (Change-Arrow m.change) (ap (λ x. x.status) same) refl,
        m.version ∙ ap (λ x. x.version + 1) (sym same),
      ),
    )
    at_move m (inr e') = (t, e', inl refl)

    split : SomeMove s s' ⊎ (s' ≡ s) → (t' : Task) × (live_task s' id ≡ some t') × Follows t t'
    split (inl (c, a, i, t', m)) = at_move m (Move-live_task c a i s t' s' m id t e)
    split (inr same) = (t, ap (λ x. live_task x id) same ∙ e, inl refl)

Arrow-not-terminal : {x y : TaskStatus} → Arrow x y → is_terminal x ≡ false
unfolding legal_from
Arrow-not-terminal start_arrow = refl
Arrow-not-terminal block_arrow = refl
Arrow-not-terminal resume_arrow = refl
Arrow-not-terminal submit_arrow = refl
Arrow-not-terminal approve_arrow = refl
Arrow-not-terminal reject_arrow = refl
Arrow-not-terminal (cancel_arrow {x} legal) = ground arith

-- A COMPLETED or CANCELLED Task keeps its row, with its version, through any sequence of successful
-- commands of the Task service.
pub ServiceSteps-terminal :
    (s s' : Session)
    → ServiceSteps s s'
    → (id : ℕ) (t : Task) → live_task s id ≡ some t
    → is_terminal t.status ≡ true
    → live_task s' id ≡ some t
ServiceSteps-terminal s s' none_yet id t e terminal = e
ServiceSteps-terminal s s' (then_step {t = u} before last) id t e terminal =
    stays (ServiceStep-Follows u s' last id t (ServiceSteps-terminal s u before id t e terminal))
  where
    stays : (t' : Task) × (live_task s' id ≡ some t') × Follows t t' → live_task s' id ≡ some t
    stays (t', e', inl same) = e' ∙ ap (λ x. some x) same
    stays (t', e', inr (arrow, _)) = absurd (ground (arith, Arrow-not-terminal arrow, terminal))

-- The live rows after a move: the row that moved, and rows that were there.
pub Move-live_back :
    (command : TaskCommand) (actor_id task_id : ℕ) (s : Session) (t' : Task) (s' : Session)
    → (m : Move command actor_id task_id s t' s') → (id : ℕ) (t : Task) → live_task s' id ≡ some t
    → (id ≡ task_id) × (t ≡ t') ⊎ (live_task s id ≡ some t) × ((id == task_id) ≡ false)
unfolding live_task
Move-live_back command actor_id task_id s t' s' m id t e = ground (
  arith,
  e,
  m.found,
  m.same.0,
  m.same.1,
  ap (get_row (λ r. r.id) id) m.rows ∙ get-put_row (λ r. r.id) id t' s.tasks,
  get_row-key (λ r. r.id) task_id s.tasks m.before,
)
