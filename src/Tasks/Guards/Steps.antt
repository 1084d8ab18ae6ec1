-- ===== src/Tasks/Guards/Steps.antt =====
-- What holds after the shared head and tail of the Task commands.
use syntrix_dr.Prelude.{ℕ, ◌≡◌, ◌+◌, ==_iff, arith, true, some, List, String}
use syntrix_dr.Db.{Override, AuditEvent, Session, Task, TaskCommand, Payload, put_row}
use syntrix_dr.Db.Writing.Steps.{
  Ensures, after, after_now, after_query, after_guard, after_pure, after_write_audit,
  after_write_outbox, weaken, after_record_override,
}
use syntrix_dr.Tasks.Loads.{get_visible_task, live_task}
use syntrix_dr.Tasks.Loads.Steps.{after_load_visible, after_save_task}
use syntrix_dr.Tasks.Guards.{
  legal_from, check_version, assert_legal, finish_task, load_for_execution, record_task_override,
}
use syntrix_dr.Milestones.Transitions.Frame.{apart_from_milestones, on_task_changed-Framed}

-- A Task that the actor sees is live.
pub visible-live :
    (s : Session) (actor_id task_id : ℕ) (task : Task)
    → get_visible_task s actor_id task_id ≡ some task
    → live_task s task_id ≡ some task
unfolding get_visible_task
visible-live s actor_id task_id task e = ground arith

-- The row that `finish_task` writes.
abbrev pub bumped : Task → ℕ → Task
bumped task at = record task { version = task.version + 1; updated_at = at }

pub after_finish_task :
    (task : Task) (actor_id : ℕ) (before : Payload) (action : String) (extra : Payload)
    {s : Session} {Q : Task → Session → Type 0}
    → ((at : ℕ) (s' : Session)
        → apart_from_milestones s'
          ≡ apart_from_milestones
              (record s { tasks = put_row (λ t. t.id) (bumped task at) s.tasks })
        → Q (bumped task at) s')
    → Ensures (finish_task task actor_id before action extra) s Q
unfolding finish_task
after_finish_task task actor_id before action extra h = after _ _ (
    after_now (
      after _ _ (
        after_save_task _ (
          after _ _ (
            after_write_audit _ (
              after _ _ (
                after_write_outbox _ _ _ _ _ (
                  after _ _ (
                    weaken _ (on_task_changed-Framed task.id actor_id _)
                      λ _ s' e. after_pure _ (h _ s' e))))))))))

pub after_load_for_execution :
    (command : TaskCommand) (actor_id task_id expected_version : ℕ) {s : Session}
    {Q : Task → Session → Type 0}
    → ((task : Task)
        → live_task s task_id ≡ some task
        → task.version ≡ expected_version
        → legal_from command task.status ≡ true
        → Q task (record s { draws = s.draws + 1 }))
    → Ensures (load_for_execution command actor_id task_id expected_version) s Q
unfolding load_for_execution check_version assert_legal
after_load_for_execution command actor_id task_id expected_version {s} h = after _ _ (
    after_load_visible task_id actor_id λ task seen. after _ _ (
      after_now (
        after _ _ (
          after_query _ λ allowed _. after _ _ (
            after_guard _ _ λ _. after _ _ (
              after_guard _ _ λ version. after _ _ (
                after_guard _ _ λ legal. after_pure _ (
                  h task (visible-live s actor_id task_id task seen)
                    ((==_iff task.version expected_version).0 version) legal))))))))

-- An override writes rows of the override and audit tables.
pub after_record_task_override :
    (task : Task) (actor_id : ℕ) (override_type action reason : String) (metadata : Payload)
    {s : Session} {Q : Unit {0} → Session → Type 0}
    → ((overrides : List Override) (audit : List AuditEvent)
        → Q tt (record s { overrides = overrides; audit = audit }))
    → Ensures (record_task_override task actor_id override_type action reason metadata) s Q
unfolding record_task_override
after_record_task_override task actor_id override_type action reason metadata h =
    after _ _ (after_record_override _ (after_write_audit _ (h _ _)))
