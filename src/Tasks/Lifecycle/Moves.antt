-- ===== src/Tasks/Lifecycle/Moves.antt =====
-- What each command of `TaskTransitionService` does to the tables of Tasks, Blockers and Validations.
use syntrix_dr.Prelude.{
  some, ◌==◌, ℕ, ◌≡◌, refl, sym, ap, ◌∙◌, ◌+◌, ◌⊎◌, inl, inr, arith, Bool, true, false, not, ◌&&◌,
  subst, Option, List, String, if◌then◌else◌,
}
use syntrix_dr.Db.{
  Override, AuditEvent, ok, Session, Task, TaskStatus, start, block, resume, submit_validation,
  validate, cancel,
}
use syntrix_dr.Db.Writing.{query}
use syntrix_dr.Db.Writing.Steps.{
  Ensures, after, after_now, after_query, after_asks, after_guard, after_expect, after_pure,
  after_when, after_choose,
}
use syntrix_dr.Validations.Steps.{
  Closing, after_open_task_validation, after_close_task_validation, after_close_for_cancelled,
  scalar-one,
}
use syntrix_dr.Blockers.Steps.{after_create_blocker}
use syntrix_dr.Validations.{get_pending_task_validation}
use syntrix_dr.Tasks.Loads.Steps.{after_load_visible}
use syntrix_dr.Tasks.Readiness.{Readiness}
use syntrix_dr.Tasks.Guards.{legal_from, check_version, assert_legal}
use syntrix_dr.Tasks.Guards.Steps.{
  visible-live, after_finish_task, after_load_for_execution, after_record_task_override,
}
use syntrix_dr.Tasks.Loads.{live_task}
use syntrix_dr.Blockers.{count_active_blockers}
use syntrix_dr.Tasks.Lifecycle.{
  is_blocked, override_dependencies, start_task, block_task, override_blockers, resume_task,
  resume_after_last_blocker, check_evidence, submit_task_validation, judged, validate_task,
  cancel_task,
}
use syntrix_dr.Tasks.Lifecycle.Changes.{
  starts, blocks, resumes, submits, judges, cancels, Move, moved,
}

after_override_dependencies :
    (task : Task) (r : Readiness) (actor_id : ℕ) (override_reason : Option String) {s : Session}
    {Q : Unit {0} → Session → Type 0}
    → ((overrides : List Override) (audit : List AuditEvent)
        → Q tt (record s { overrides = overrides; audit = audit }))
    → Ensures (override_dependencies task r actor_id override_reason) s Q
unfolding override_dependencies
after_override_dependencies task r actor_id override_reason h = after _ _ (
    after_expect _ _ λ _ _. after _ _ (
      after_query _
        λ _ _. after _ _ (after_guard _ _ λ _. after_record_task_override _ _ _ _ _ _ h)))

after_override_blockers :
    (task : Task) (n actor_id : ℕ) (override_reason : Option String) {s : Session}
    {Q : Unit {0} → Session → Type 0}
    → ((overrides : List Override) (audit : List AuditEvent)
        → Q tt (record s { overrides = overrides; audit = audit }))
    → Ensures (override_blockers task n actor_id override_reason) s Q
unfolding override_blockers
after_override_blockers task n actor_id override_reason h = after _ _ (
    after_expect _ _ λ _ _. after _ _ (
      after_query _
        λ _ _. after _ _ (after_guard _ _ λ _. after_record_task_override _ _ _ _ _ _ h)))

legal-start : (x : TaskStatus) → legal_from start x ≡ true → x ≡ TaskStatus.not_started
unfolding legal_from
legal-start x e = ground arith

legal-block : (x : TaskStatus) → legal_from block x ≡ true → x ≡ TaskStatus.in_progress
unfolding legal_from
legal-block x e = ground arith

legal-resume : (x : TaskStatus) → legal_from resume x ≡ true → x ≡ TaskStatus.blocked
unfolding legal_from
legal-resume x e = ground arith

legal-submit : (x : TaskStatus) → legal_from submit_validation x ≡ true → x ≡ TaskStatus.in_progress
unfolding legal_from
legal-submit x e = ground arith

legal-validate :
    (x : TaskStatus) → legal_from validate x ≡ true → x ≡ TaskStatus.ready_for_validation
unfolding legal_from
legal-validate x e = ground arith

pub start_task-Move :
    (actor_id task_id expected_version : ℕ) (override_reason : Option String) (s : Session)
    → Ensures
        (start_task actor_id task_id expected_version override_reason)
        s
        (Move start actor_id task_id s)
unfolding start_task
start_task-Move actor_id task_id expected_version override_reason s = after _ _ (
    after_load_for_execution start actor_id task_id expected_version λ task found _ legal.
      after _ _ (
        after_asks _ (
          after _ _ (
            after_when _ _
              (λ _. after_override_dependencies task _ actor_id override_reason λ overrides audit.
                after _ _ (
                  after_now (
                    after_finish_task _ _ _ _ _ λ at s' e.
                      moved found (refl, refl) refl (ap (λ x. x.tasks) e)
                        (starts (legal-start task.status legal) refl
                          (ap (λ x. x.blockers) e, ap (λ x. x.validations) e)))))
              (λ _. after _ _ (
                after_now (
                  after_finish_task _ _ _ _ _ λ at s' e.
                    moved found (refl, refl) refl (ap (λ x. x.tasks) e)
                      (starts (legal-start task.status legal) refl
                        (ap (λ x. x.blockers) e, ap (λ x. x.validations) e)))))))))

pub block_task-Move :
    (actor_id task_id expected_version : ℕ) (reason : Option String) (s : Session)
    → Ensures
        (block_task actor_id task_id expected_version reason)
        s
        (Move block actor_id task_id s)
unfolding block_task
block_task-Move actor_id task_id expected_version reason s = after _ _ (
    after_load_for_execution block actor_id task_id expected_version λ task found _ legal.
      after _ _ (
        after_expect _ _ λ _ _. after _ _ (
          after_create_blocker _ _ _ _ λ b audit draws active.
            after_finish_task _ _ _ _ _ λ at s' e.
              moved found (refl, refl) refl (ap (λ x. x.tasks) e)
                (blocks (legal-block task.status legal) refl b active (ap (λ x. x.blockers) e)
                  (ap (λ x. x.validations) e)))))

pub resume_task-Move :
    (actor_id task_id expected_version : ℕ) (override_reason : Option String) (s : Session)
    → Ensures
        (resume_task actor_id task_id expected_version override_reason)
        s
        (Move resume actor_id task_id s)
unfolding resume_task
resume_task-Move actor_id task_id expected_version override_reason s = after _ _ (
    after_load_for_execution resume actor_id task_id expected_version λ task found _ legal.
      after _ _ (
        after_asks _ (
          after _ _ (
            after_when _ _
              (λ _. after_override_blockers task _ actor_id override_reason λ overrides audit.
                after_finish_task _ _ _ _ _ λ at s' e.
                  moved found (refl, refl) refl (ap (λ x. x.tasks) e)
                    (resumes (legal-resume task.status legal) refl
                      (ap (λ x. x.blockers) e, ap (λ x. x.validations) e)))
              (λ _. after_finish_task _ _ _ _ _ λ at s' e.
                moved found (refl, refl) refl (ap (λ x. x.tasks) e)
                  (resumes (legal-resume task.status legal) refl
                    (ap (λ x. x.blockers) e, ap (λ x. x.validations) e)))))))

pub submit_task_validation-Move :
    (actor_id task_id expected_version : ℕ) (verification_note : Option String) (s : Session)
    → Ensures
        (submit_task_validation actor_id task_id expected_version verification_note)
        s
        (Move submit_validation actor_id task_id s)
unfolding submit_task_validation check_evidence
submit_task_validation-Move actor_id task_id expected_version verification_note s = after _ _ (
    after_load_for_execution submit_validation actor_id task_id expected_version
      λ task found _ legal. after _ _ (
        after _ _ (
          after_asks _ (
            after_guard _ _ λ _. after _ _ (
              after_guard _ _ λ _. after _ _ (
                after_open_task_validation _ _ _ _ λ v audit draws opened.
                  after_finish_task _ _ _ _ _ λ at s' e.
                    moved found (refl, refl) refl (ap (λ x. x.tasks) e)
                      (submits (legal-submit task.status legal) refl v opened
                        (ap (λ x. x.validations) e) (ap (λ x. x.blockers) e))))))))

-- The verdict's row, and what it keeps of the Task.
after_judged :
    (approve : Bool) (task : Task) {s : Session} {Q : Task → Session → Type 0}
    → ((verdict : Task) (n : ℕ)
        → (verdict.id ≡ task.id) × (verdict.deleted_at ≡ task.deleted_at)
        → verdict.version ≡ task.version
        → verdict.status ≡ (if approve then TaskStatus.completed else TaskStatus.in_progress)
        → Q verdict (record s { draws = n }))
    → Ensures (judged approve task) s Q
unfolding judged
after_judged true task h = after _ _ (after_now (after_pure _ (h _ _ (refl, refl) refl refl)))
after_judged false task h = after_pure _ (h _ _ (refl, refl) refl refl)

not-false : (b : Bool) → not b ≡ true → b ≡ false
not-false b e = ground arith

pub validate_task-Move :
    (actor_id task_id expected_version : ℕ) (approve : Bool) (note : Option String) (s : Session)
    → Ensures
        (validate_task actor_id task_id expected_version approve note)
        s
        (Move validate actor_id task_id s)
unfolding validate_task check_version assert_legal get_pending_task_validation
validate_task-Move actor_id task_id expected_version approve remark s = after _ _ (
    after_load_visible task_id actor_id λ task seen. after _ _ (
      after_query _ λ _ _. after _ _ (
        after_guard _ _ λ _. after _ _ (
          after_guard _ _ λ _. after _ _ (
            after_guard _ _ λ legal. after (query (get_pending_task_validation task.id)) _ (
              after_query _ λ o pending. after _ _ (
                after_expect _ _ λ v one. after _ _ (
                  after_guard _ _ λ other. after _ _ (
                    after_judged approve task λ verdict _ same version status. after _ _ (
                      after_close_task_validation v approve _ _ _ λ v' _ _ closed.
                        after_finish_task _ _ _ _ _ λ at s' e.
                          moved (visible-live s actor_id task_id task seen) same
                            (ap (λ x. x + 1) version) (ap (λ x. x.tasks) e)
                            (judges (legal-validate task.status legal) approve status v v'
                              (scalar-one _ v (pending ∙ ap (λ x. ok x) one)) (not-false _ other)
                              closed (ap (λ x. x.validations) e) (ap (λ x. x.blockers) e))))))))))))

pub cancel_task-Move :
    (actor_id task_id expected_version : ℕ) (reason : Option String) (s : Session)
    → Ensures
        (cancel_task actor_id task_id expected_version reason)
        s
        (Move cancel actor_id task_id s)
unfolding cancel_task check_version assert_legal
cancel_task-Move actor_id task_id expected_version reason s = after _ _ (
    after_load_visible task_id actor_id λ task seen. after _ _ (
      after_query _ λ _ _. after _ _ (
        after_guard _ _ λ _. after _ _ (
          after_guard _ _ λ _. after _ _ (
            after_guard _ _ λ legal. after _ _ (
              after_expect _ _ λ _ _. after _ _ (
                after_when _ _
                  (λ _. after _ _ (
                    after_close_for_cancelled _ _ _ _ λ o vs _ _ closing. after_pure _ (
                      after_finish_task _ _ _ _ _ λ at s' e.
                        moved (visible-live s actor_id task_id task seen) (refl, refl) refl
                          (ap (λ x. x.tasks) e)
                          (cancels legal refl
                            (inr
                              (subst (Closing s task.id) (sym (ap (λ x. x.validations) e)) closing))
                            (ap (λ x. x.blockers) e)))))
                  (λ open_for_no_one. after_finish_task _ _ _ _ _ λ at s' e.
                    moved (visible-live s actor_id task_id task seen) (refl, refl) refl
                      (ap (λ x. x.tasks) e)
                      (cancels legal refl (inl (open_for_no_one, ap (λ x. x.validations) e))
                        (ap (λ x. x.blockers) e))))))))))

blocked-status : (x : TaskStatus) (b : Bool) → is_blocked x && b ≡ true → x ≡ TaskStatus.blocked
blocked-status x b e = ground arith

-- A BLOCKED Task without an active Blocker is resumed.
pub resume_after-Move :
    (task_id actor_id blocker_id : ℕ) (t : Task) (s : Session)
    → live_task s task_id ≡ some t
    → (is_blocked t.status && (count_active_blockers s t.id == 0)) ≡ true
    → Ensures
        (resume_after_last_blocker task_id actor_id blocker_id)
        s
        (λ t' s'. Move resume actor_id task_id s t' s')
unfolding resume_after_last_blocker
resume_after-Move task_id actor_id blocker_id t s live last = after _ _ (
    after_asks _ (
      after _ _ (
        after_expect _ _ λ task found. after _ _ (
          after_asks _ (
            after_choose _ _ _
              (λ b. after_finish_task _ _ _ _ _ λ at s' e.
                moved found (refl, refl) refl (ap (λ x. x.tasks) e)
                  (resumes (blocked-status task.status _ b) refl
                    (ap (λ x. x.blockers) e, ap (λ x. x.validations) e)))
              (λ b.
                let same : t ≡ task = same-task (sym live ∙ found) in
                let now_last =
                  ap (λ x. is_blocked x.status && (count_active_blockers s x.id == 0)) (sym same)
                  ∙ last in
                absurd (ground (arith, b, now_last))))))))
  where
    same-task : {a b : Task} → some a ≡ some b → a ≡ b
    same-task e = grind arith

-- The automatic resumption is the manual one's move, or changes nothing.
pub resume_after_last_blocker-Move :
    (task_id actor_id blocker_id : ℕ) (s : Session)
    → Ensures
        (resume_after_last_blocker task_id actor_id blocker_id)
        s
        (λ t' s'. Move resume actor_id task_id s t' s' ⊎ (s' ≡ s))
unfolding resume_after_last_blocker
resume_after_last_blocker-Move task_id actor_id blocker_id s = after _ _ (
    after_asks _ (
      after _ _ (
        after_expect _ _ λ task found. after _ _ (
          after_asks _ (
            after_choose _ _ _
              (λ b. after_finish_task _ _ _ _ _ λ at s' e. inl (
                moved found (refl, refl) refl (ap (λ x. x.tasks) e)
                  (resumes (blocked-status task.status _ b) refl
                    (ap (λ x. x.blockers) e, ap (λ x. x.validations) e))))
              (λ _. after_pure _ (inr refl)))))))
