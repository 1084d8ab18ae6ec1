-- ===== src/Tasks/Lifecycle/Start.antt =====
-- What a start without an override reason shows.
use syntrix_dr.Prelude.{ℕ, ◌≡◌, arith, true, none, some, Option, String}
use syntrix_dr.Prelude.Text.{clean}
use syntrix_dr.Db.{Session, Task, start}
use syntrix_dr.Db.Writing.Steps.{
  Ensures, done, after, after_asks, after_when, after_expect, after_now,
}
use syntrix_dr.Tasks.Readiness.{Readiness, ready, readiness}
use syntrix_dr.Tasks.Loads.{live_task}
use syntrix_dr.Tasks.Guards.{legal_from}
use syntrix_dr.Tasks.Guards.Steps.{after_load_for_execution, after_finish_task}
use syntrix_dr.Tasks.Lifecycle.{start_task, override_dependencies}

-- Without a reason there is no override.
no_override :
    (task : Task) (r : Readiness) (actor_id : ℕ) (override_reason : Option String) {s : Session}
    {Q : Unit {0} → Session → Type 0}
    → clean override_reason ≡ none
    → Ensures (override_dependencies task r actor_id override_reason) s Q
unfolding override_dependencies
no_override task r actor_id override_reason e =
    after _ _ (after_expect _ _ λ reason given. absurd (grind (arith, e, given)))

start-Ensures :
    (actor_id task_id expected_version : ℕ) (override_reason : Option String) (s : Session)
    → clean override_reason ≡ none
    → Ensures (start_task actor_id task_id expected_version override_reason) s (λ _ _.
      (task : Task) × (live_task s task_id ≡ some task) × (ready (readiness s task) ≡ true))
unfolding start_task legal_from ready readiness
start-Ensures actor_id task_id expected_version override_reason s blank = after _ _ (
    after_load_for_execution start actor_id task_id expected_version λ task found _ legal.
      after _ _ (
        after_asks _ (
          after _ _ (
            after_when _ _ (λ _. no_override task _ actor_id override_reason blank)
              (λ free. after _ _ (
                after_now (
                  after_finish_task _ _ _ _ _
                    λ _ _ _. (task, found, ground (arith, free, legal)))))))))

-- If `start` succeeds with an override reason that is absent or blank, then the Task was live and derived
-- Ready.
pub start_task-ready :
    (actor_id task_id expected_version : ℕ) (override_reason : Option String) (s : Session)
    → clean override_reason ≡ none
    → (t' : Task) (s' : Session)
    → start_task actor_id task_id expected_version override_reason s ≡ done t' s'
    → (task : Task) × (live_task s task_id ≡ some task) × (ready (readiness s task) ≡ true)
start_task-ready actor_id task_id expected_version override_reason s blank =
    (start-Ensures actor_id task_id expected_version override_reason s blank).result
