-- ===== src/Plans/Steps.antt =====
-- What holds after a Plan version was stored.
use syntrix_dr.Prelude.{
  ℕ, ◌≡◌, refl, sym, subst, String, false, Option, none, some, List, [], ◌∷◌, ◌++◌, any, arith,
}
use syntrix_dr.Db.{
  Session, PlanVersion, PlanVersionType, SnapshotRow, AuditEvent, get_row, add_row-append,
  add_row-fresh,
}
use syntrix_dr.Db.Writing.Steps.{
  Ensures, after, after_now, after_new_uuid, after_asks, after_guard, after_expect, after_modify,
  after_pure, after_write_audit,
}
use syntrix_dr.Plans.{
  same_number, insert_plan_version, copies, copy_snapshot_rows, create_event_version, capture_from,
  capture_baseline_snapshot, execution_version,
}

-- The row is appended; its id and, in its Plan, its number are new.
pub after_insert_plan_version :
    (v : PlanVersion) {s : Session} {Q : Unit {0} → Session → Type 0}
    → (any (same_number v) s.plan_versions ≡ false
        → get_row (λ r. r.id) v.id s.plan_versions ≡ none
        → Q tt (record s { plan_versions = s.plan_versions ++ v ∷ [] }))
    → Ensures (insert_plan_version v) s Q
unfolding insert_plan_version
after_insert_plan_version v {s} {Q} h = after _ _ (
    after_asks _ (
      after _ _ (
        after_guard _ _ λ free. after _ _ (
          after_asks _ (
            after _ _ (
              after_expect _ _ λ rows e. after_modify _ (
                subst (λ x. Q tt (record s { plan_versions = x }))
                  (sym (add_row-append (λ r. r.id) v _ rows e))
                  (h (ground (arith, free)) (add_row-fresh (λ r. r.id) v _ rows e)))))))))

pub after_create_event_version :
    (actor_id dr_event_id version_number : ℕ) (version_type : PlanVersionType) (source : ℕ)
    (action key : String) {s : Session} {Q : PlanVersion → Session → Type 0}
    → ((v : PlanVersion) (audit : List AuditEvent) (draws : ℕ)
        → (v.dr_event_id ≡ some dr_event_id)
          × (v.version_number ≡ version_number)
          × (v.version_type ≡ version_type)
          × (get_row (λ r. r.id) v.id s.plan_versions ≡ none)
        → Q v (record s {
          plan_versions = s.plan_versions ++ v ∷ [];
          plan_version_tasks = s.plan_version_tasks ++ copies source v.id s.plan_version_tasks;
          plan_version_task_dependencies =
              s.plan_version_task_dependencies
              ++ copies source v.id s.plan_version_task_dependencies;
          plan_version_milestones =
              s.plan_version_milestones ++ copies source v.id s.plan_version_milestones;
          audit = audit;
          draws = draws;
        }))
    → Ensures
        (create_event_version actor_id dr_event_id version_number version_type source action key)
        s
        Q
unfolding create_event_version copy_snapshot_rows
after_create_event_version actor_id dr_event_id number kind source action key h = after _ _ (
    after_new_uuid (
      after _ _ (
        after_now (
          after _ _ (
            after_insert_plan_version _ λ _ fresh. after _ _ (
              after_modify _ (
                after _ _
                  (after_write_audit _ (after_pure _ (h _ _ _ (refl, refl, refl, fresh)))))))))))

after_capture_from :
    (o : Option PlanVersion) (actor_id dr_event_id : ℕ) {s : Session}
    {Q : Option PlanVersion → Session → Type 0}
    → ((o : Option PlanVersion) (versions : List PlanVersion)
          (tasks dependencies milestones : List SnapshotRow) (audit : List AuditEvent) (draws : ℕ)
        → Q o (record s {
          plan_versions = versions;
          plan_version_tasks = tasks;
          plan_version_task_dependencies = dependencies;
          plan_version_milestones = milestones;
          audit = audit;
          draws = draws;
        }))
    → Ensures (capture_from o actor_id dr_event_id) s Q
unfolding capture_from
after_capture_from none actor_id dr_event_id h = after_pure _ (h _ _ _ _ _ _ _)
after_capture_from (some v) actor_id dr_event_id h =
    after _ _
      (after_create_event_version _ _ _ _ _ _ _ λ captured _ _ _. after_pure _ (h _ _ _ _ _ _ _))

-- Only the tables of Plan versions and the audit log change.
pub after_capture_baseline :
    (actor_id dr_event_id : ℕ) {s : Session} {Q : Option PlanVersion → Session → Type 0}
    → ((o : Option PlanVersion) (versions : List PlanVersion)
          (tasks dependencies milestones : List SnapshotRow) (audit : List AuditEvent) (draws : ℕ)
        → Q o (record s {
          plan_versions = versions;
          plan_version_tasks = tasks;
          plan_version_task_dependencies = dependencies;
          plan_version_milestones = milestones;
          audit = audit;
          draws = draws;
        }))
    → Ensures (capture_baseline_snapshot actor_id dr_event_id) s Q
unfolding capture_baseline_snapshot
after_capture_baseline actor_id dr_event_id {s} h =
    after _ _ (after_asks _ (after_capture_from (execution_version s dr_event_id) _ _ h))
