-- ===== src/Tasks/Loads.antt =====
-- Loading a live Task, and the 404 that an invisible one shares with a missing one.
pub mod Steps
use syntrix_dr.Prelude.{ℕ, Bool, true, false, Option, none, some, List, is_none, if◌then◌else◌}
use syntrix_dr.Db.{
  Session, Read, Result, ok, err, Command, Error, task_not_found, Task, Milestone, get_row, put_row,
}
use syntrix_dr.Db.Writing.{◌>>=◌, ◌>>◌, pure, modify, expect}
use syntrix_dr.Access.Visibility.{user_can_see_event}

-- The row with this id that is not soft-deleted; the id is the primary key.
unfoldable pub live_task : Session → ℕ → Option Task
unfolding get_row
live_task s task_id = elim (get_row (λ t. t.id) task_id s.tasks) [
  | none ↦ none
  | some t ↦ if is_none t.deleted_at then some t else none
]

-- `get_visible_task`, and `lock_visible_task`, which takes the row's lock besides.
unfoldable pub get_visible_task : Session → ℕ → ℕ → Option Task
unfolding live_task
get_visible_task s actor_id task_id = elim (live_task s task_id) [
  | none ↦ none
  | some t ↦ if user_can_see_event s actor_id t.dr_event_id then some t else none
]

-- `_load_visible_for_update`, and `_visible_task` of the dependency service.
unfoldable pub load_visible : ℕ → ℕ → Command Task
unfolding get_visible_task
load_visible task_id actor_id s = expect (get_visible_task s actor_id task_id) task_not_found s

-- An UPDATE of one Task's row; an attribute that is set is flushed before the next query.
unfoldable pub save_task : Task → Command (Unit {0})
unfolding put_row
save_task task s = ok (tt, record s { tasks = put_row (λ t. t.id) task s.tasks })

unfoldable pub live_milestone : Session → ℕ → Option Milestone
unfolding get_row
live_milestone s milestone_id = elim (get_row (λ m. m.id) milestone_id s.milestones) [
  | none ↦ none
  | some m ↦ if is_none m.deleted_at then some m else none
]
