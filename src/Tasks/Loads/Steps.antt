-- ===== src/Tasks/Loads/Steps.antt =====
-- What holds after a Task was loaded or saved.
use syntrix_dr.Prelude.{ℕ, ◌≡◌, refl, some}
use syntrix_dr.Db.{Session, Task, put_row}
use syntrix_dr.Db.Writing.Steps.{Ensures, after_expect, after_return}
use syntrix_dr.Tasks.Loads.{get_visible_task, load_visible, save_task}

pub after_load_visible :
    (task_id actor_id : ℕ) {s : Session} {Q : Task → Session → Type 0}
    → ((task : Task) → get_visible_task s actor_id task_id ≡ some task → Q task s)
    → Ensures (load_visible task_id actor_id) s Q
unfolding load_visible
after_load_visible task_id actor_id h = record { result = (after_expect _ _ h).result }

pub after_save_task :
    (task : Task) {s : Session} {Q : Unit {0} → Session → Type 0}
    → Q tt (record s { tasks = put_row (λ t. t.id) task s.tasks })
    → Ensures (save_task task) s Q
unfolding save_task
after_save_task task h = after_return tt _ refl h
