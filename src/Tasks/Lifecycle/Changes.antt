-- ===== src/Tasks/Lifecycle/Changes.antt =====
-- The change that each command of `TaskTransitionService` makes to the tables of Tasks, Blockers and
-- Validations.
use syntrix_dr.Prelude.{
  none, ℕ, ◌≡◌, ◌+◌, ◌⊎◌, Bool, true, false, some, [], ◌∷◌, ◌++◌, select, if◌then◌else◌,
}
use syntrix_dr.Db.{
  Session, Task, TaskStatus, TaskCommand, start, block, resume, submit_validation, validate, cancel,
  Blocker, Validation, put_row, get_row,
}
use syntrix_dr.Blockers.{is_active_on}
use syntrix_dr.Validations.Steps.{Closing}
use syntrix_dr.Validations.{is_open_for, is_pending}
use syntrix_dr.Tasks.Loads.{live_task}
use syntrix_dr.Tasks.Policies.{is_self_validation}
use syntrix_dr.Tasks.Guards.{legal_from}
use syntrix_dr.Tasks.Lifecycle.{is_submitted}

-- The tables of Blockers and Validations stay as they are.
abbrev pub Kept : Session → Session → Type 0
Kept s s' = (s'.blockers ≡ s.blockers) × (s'.validations ≡ s.validations)

-- The one change that a command makes to a Task's status, with what it does to the other two tables.
pub data Change (actor_id : ℕ) (s s' : Session) (t t' : Task) : TaskCommand → Type 0 where
  starts :
      t.status ≡ TaskStatus.not_started
      → t'.status ≡ TaskStatus.in_progress
      → Kept s s'
      → Change actor_id s s' t t' start
  blocks :
      t.status ≡ TaskStatus.in_progress
      → t'.status ≡ TaskStatus.blocked
      → (b : Blocker) → (is_active_on t.id b ≡ true) × (get_row (λ r. r.id) b.id s.blockers ≡ none)
      → s'.blockers ≡ s.blockers ++ b ∷ []
      → s'.validations ≡ s.validations
      → Change actor_id s s' t t' block
  resumes :
      t.status ≡ TaskStatus.blocked
      → t'.status ≡ TaskStatus.in_progress
      → Kept s s'
      → Change actor_id s s' t t' resume
  submits :
      t.status ≡ TaskStatus.in_progress
      → t'.status ≡ TaskStatus.ready_for_validation
      → (v : Validation)
      → (v.target_id ≡ t.id)
        × (is_open_for t.id v ≡ true)
        × (get_row (λ r. r.id) v.id s.validations ≡ none)
      → s'.validations ≡ s.validations ++ v ∷ []
      → s'.blockers ≡ s.blockers
      → Change actor_id s s' t t' submit_validation
  judges :
      t.status ≡ TaskStatus.ready_for_validation
      → (approve : Bool)
      → t'.status ≡ (if approve then TaskStatus.completed else TaskStatus.in_progress)
      → (v v' : Validation) → select (is_open_for t.id) s.validations ≡ v ∷ []
      → is_self_validation actor_id t v.created_by_user_id ≡ false
      → (v'.id ≡ v.id) × (is_pending v'.status ≡ false)
      → s'.validations ≡ put_row (λ r. r.id) v' s.validations
      → s'.blockers ≡ s.blockers
      → Change actor_id s s' t t' validate
  cancels :
      legal_from cancel t.status ≡ true
      → t'.status ≡ TaskStatus.cancelled
      → ((is_submitted t.status ≡ false) × (s'.validations ≡ s.validations))
        ⊎ Closing s t.id s'.validations
      → s'.blockers ≡ s.blockers
      → Change actor_id s s' t t' cancel

-- One successful command: the live row it found, and the row it wrote in its place.
pub record Move (command : TaskCommand) (actor_id task_id : ℕ) (s : Session) (t' : Task)
    (s' : Session) : Type 0 where
  pub before : Task
  pub found : live_task s task_id ≡ some before
  pub same : (t'.id ≡ before.id) × (t'.deleted_at ≡ before.deleted_at)
  pub version : t'.version ≡ before.version + 1
  pub change : Change actor_id s s' before t' command
  pub rows : s'.tasks ≡ put_row (λ t. t.id) t' s.tasks

pub moved :
    {command : TaskCommand} {actor_id task_id : ℕ} {s s' : Session} {task t' : Task}
    → live_task s task_id ≡ some task
    → (t'.id ≡ task.id) × (t'.deleted_at ≡ task.deleted_at)
    → t'.version ≡ task.version + 1
    → s'.tasks ≡ put_row (λ t. t.id) t' s.tasks
    → Change actor_id s s' task t' command
    → Move command actor_id task_id s t' s'
moved found same version rows change = record {
  before = _;
  found = found;
  same = same;
  version = version;
  change = change;
  rows = rows;
}
