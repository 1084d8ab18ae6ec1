-- ===== src/Plans.antt =====
-- Versioned templates (plans_import/commands.py): the EXECUTION version of an Event, the BASELINE that
-- `start_failover` captures, and the numbered versions of a template.
pub mod Steps
pub mod Baselines
use syntrix_dr.Prelude.{
  ℕ, ◌+◌, Bool, true, false, ◌&&◌, Option, none, some, List, [], ◌∷◌, ◌++◌, map, ◌==◌, leb, opt_eq,
  is_some, any, select, if◌then◌else◌, String,
}
use syntrix_dr.Db.{
  Session, Command, ok, integrity_error, plan_not_found, plan_version_not_found,
  plan_version_baseline_not_allowed, authorization_required, PlanVersion, PlanVersionType, draft,
  baseline, execution, final, SnapshotRow, Payload, add_row, get_row, plan_target,
  plan_version_target, user_actor, Plan, PlanType, failover_plan, failback_plan, general_plan,
  string, number, uuid,
}
use syntrix_dr.Db.Writing.{
  ◌>>=◌, ◌>>◌, pure, query, modify, guard, expect, now, new_uuid, write_audit,
}
use syntrix_dr.Access.Grants.{manage_plans}
use syntrix_dr.Access.Authorization.{can, no_scope}

abbrev pub is_execution : PlanVersionType → Bool
is_execution execution = true
is_execution _ = false

-- The columns of the unique index `ux_plan_versions_plan_version`, which skips rows without a Plan.
abbrev pub same_number : PlanVersion → PlanVersion → Bool
same_number v w =
    is_some v.plan_id && opt_eq v.plan_id w.plan_id && (v.version_number == w.version_number)

-- `session.add(version)` and the flush: the primary key and the unique index may refuse the row.
unfoldable pub insert_plan_version : PlanVersion → Command (Unit {0})
unfolding add_row
insert_plan_version v = do
  taken ← query (λ s. ok (any (same_number v) s.plan_versions))
  guard (if taken then false else true) integrity_error
  added ← query (λ s. ok (add_row (λ r. r.id) v s.plan_versions))
  rows ← expect added integrity_error
  modify (λ s. record s { plan_versions = rows })

abbrev pub retarget : ℕ → SnapshotRow → SnapshotRow
retarget target_plan_version_id row = record row { plan_version_id = target_plan_version_id }

-- A new row for each row of the source version, with its source and data.
unfoldable pub copies :
    (source_plan_version_id target_plan_version_id : ℕ) → List SnapshotRow → List SnapshotRow
copies source_plan_version_id target_plan_version_id rows =
    map (retarget target_plan_version_id)
      (select (λ r. r.plan_version_id == source_plan_version_id) rows)

-- `_copy_snapshot_rows`, its three loops.
unfoldable pub copy_snapshot_rows :
    (source_plan_version_id target_plan_version_id : ℕ) → Command (Unit {0})
unfolding copies
copy_snapshot_rows source_plan_version_id target_plan_version_id = modify (λ s. record s {
  plan_version_tasks =
      s.plan_version_tasks
      ++ copies source_plan_version_id target_plan_version_id s.plan_version_tasks;
  plan_version_task_dependencies =
      s.plan_version_task_dependencies
      ++ copies source_plan_version_id target_plan_version_id s.plan_version_task_dependencies;
  plan_version_milestones =
      s.plan_version_milestones
      ++ copies source_plan_version_id target_plan_version_id s.plan_version_milestones;
})

-- `ORDER BY created_at DESC LIMIT 1`; of rows created at the same time, the first in the table.
unfoldable pub latest_version : List PlanVersion → Option PlanVersion
latest_version [] = none
latest_version (v ∷ vs) = elim (latest_version vs) [
  | none ↦ some v
  | some w ↦ if leb w.created_at v.created_at then some v else some w
]

unfoldable pub execution_version : Session → ℕ → Option PlanVersion
unfolding latest_version
execution_version s dr_event_id = latest_version (
    select (λ v. opt_eq v.dr_event_id (some dr_event_id) && is_execution v.version_type)
      s.plan_versions)

-- An Event's own version (`plan_id=None`) with the rows of the source, and its audit row.
unfoldable pub create_event_version :
    (actor_id dr_event_id version_number : ℕ) (version_type : PlanVersionType)
    (source_plan_version_id : ℕ) (action source_key : String)
    → Command PlanVersion
unfolding insert_plan_version copy_snapshot_rows
create_event_version actor_id dr_event_id version_number version_type source_plan_version_id action
      source_key =
    do
      id ← new_uuid
      at ← now
      let version : PlanVersion = record {
        id = id;
        plan_id = none;
        dr_event_id = some dr_event_id;
        version_number = version_number;
        version_type = version_type;
        created_by_user_id = actor_id;
        created_at = at;
      }
      insert_plan_version version
      copy_snapshot_rows source_plan_version_id version.id
      write_audit record {
        dr_event_id = none;
        actor_user_id = some actor_id;
        actor_type = user_actor;
        entity_type = plan_version_target;
        entity_id = version.id;
        action = action;
        before_data = none;
        after_data =
            some
              (("dr_event_id", uuid dr_event_id) ∷ (source_key, uuid source_plan_version_id) ∷ []);
        metadata = [];
      }
      pure version

-- No EXECUTION version: nothing to capture.
unfoldable pub capture_from :
    Option PlanVersion → (actor_id dr_event_id : ℕ) → Command (Option PlanVersion)
unfolding create_event_version
capture_from none actor_id dr_event_id = pure none
capture_from (some version) actor_id dr_event_id = do
  captured ←
      create_event_version actor_id dr_event_id version.version_number baseline version.id
        "PLAN_VERSION_BASELINE_CAPTURED" "source_execution_plan_version_id"
  pure (some captured)

unfoldable pub capture_baseline_snapshot : (actor_id dr_event_id : ℕ) → Command (Option PlanVersion)
unfolding execution_version capture_from
capture_baseline_snapshot actor_id dr_event_id = do
  found ← query (λ s. ok (execution_version s dr_event_id))
  capture_from found actor_id dr_event_id

unfoldable pub instantiate_plan_into_event :
    (actor_id plan_id plan_version_id dr_event_id : ℕ) → Command PlanVersion
unfolding can get_row create_event_version
instantiate_plan_into_event actor_id plan_id plan_version_id dr_event_id = do
  allowed ← query (λ s. ok (can s actor_id manage_plans no_scope))
  guard allowed authorization_required
  found ← query (λ s. ok (get_row (λ v. v.id) plan_version_id s.plan_versions))
  source ← expect found plan_version_not_found
  guard (opt_eq source.plan_id (some plan_id)) plan_version_not_found
  create_event_version actor_id dr_event_id 1 execution source.id "PLAN_VERSION_INSTANTIATED"
      "source_plan_version_id"

-- `version_type not in _CALLER_ALLOWED_VERSION_TYPES`
abbrev pub is_caller_allowed : PlanVersionType → Bool
is_caller_allowed baseline = false
is_caller_allowed _ = true

abbrev pub version_type_name : PlanVersionType → String
version_type_name draft = "DRAFT"
version_type_name baseline = "BASELINE"
version_type_name execution = "EXECUTION"
version_type_name final = "FINAL"

abbrev pub plan_type_name : PlanType → String
plan_type_name failover_plan = "FAILOVER"
plan_type_name failback_plan = "FAILBACK"
plan_type_name general_plan = "GENERAL"

unfoldable pub insert_plan : Plan → Command (Unit {0})
unfolding add_row
insert_plan p = do
  added ← query (λ s. ok (add_row (λ r. r.id) p s.plans))
  rows ← expect added integrity_error
  modify (λ s. record s { plans = rows })

unfoldable pub create_plan :
    (actor_id : ℕ) (name : String) (plan_type : PlanType) (description : Option String)
    (application_id : Option ℕ)
    → Command Plan
unfolding can insert_plan
create_plan actor_id name plan_type description application_id = do
  allowed ← query (λ s. ok (can s actor_id manage_plans no_scope))
  guard allowed authorization_required
  id ← new_uuid
  let plan : Plan = record {
    id = id;
    name = name;
    description = description;
    plan_type = plan_type;
    application_id = application_id;
    created_by_user_id = actor_id;
  }
  insert_plan plan
  write_audit record {
    dr_event_id = none;
    actor_user_id = some actor_id;
    actor_type = user_actor;
    entity_type = plan_target;
    entity_id = plan.id;
    action = "PLAN_CREATED";
    before_data = none;
    after_data =
        some (("name", string name) ∷ ("plan_type", string (plan_type_name plan_type)) ∷ []);
    metadata = [];
  }
  pure plan

-- The largest number of the Plan's versions, 0 if there is none.
unfoldable pub max_number : ℕ → List PlanVersion → ℕ
max_number plan_id [] = 0
max_number plan_id (v ∷ vs) =
    let rest = max_number plan_id vs in
    if opt_eq v.plan_id (some plan_id)
    then if leb rest v.version_number then v.version_number else rest
    else rest

unfoldable pub next_plan_version_number : Session → ℕ → ℕ
unfolding max_number
next_plan_version_number s plan_id = max_number plan_id s.plan_versions + 1

-- `SnapshotItem`: `source_id` and `snapshot_data`.
abbrev pub SnapshotItem : Type 0
SnapshotItem = Option ℕ × Payload

abbrev pub snapshot_row : ℕ → SnapshotItem → SnapshotRow
snapshot_row plan_version_id (source_id, snapshot_data) = record {
  plan_version_id = plan_version_id;
  source_id = source_id;
  snapshot_data = snapshot_data;
}

unfoldable pub create_plan_version :
    (actor_id plan_id : ℕ) (version_type : PlanVersionType)
    (tasks task_dependencies milestones : List SnapshotItem)
    → Command PlanVersion
unfolding can get_row next_plan_version_number insert_plan_version
create_plan_version actor_id plan_id version_type tasks task_dependencies milestones = do
  allowed ← query (λ s. ok (can s actor_id manage_plans no_scope))
  guard allowed authorization_required
  guard (is_caller_allowed version_type) plan_version_baseline_not_allowed
  found ← query (λ s. ok (get_row (λ p. p.id) plan_id s.plans))
  plan ← expect found plan_not_found
  next_number ← query (λ s. ok (next_plan_version_number s plan_id))
  id ← new_uuid
  at ← now
  let version : PlanVersion = record {
    id = id;
    plan_id = some plan_id;
    dr_event_id = none;
    version_number = next_number;
    version_type = version_type;
    created_by_user_id = actor_id;
    created_at = at;
  }
  insert_plan_version version
  modify (λ s. record s {
    plan_version_tasks = s.plan_version_tasks ++ map (snapshot_row version.id) tasks;
    plan_version_task_dependencies =
        s.plan_version_task_dependencies ++ map (snapshot_row version.id) task_dependencies;
    plan_version_milestones = s.plan_version_milestones ++ map (snapshot_row version.id) milestones;
  })
  write_audit record {
    dr_event_id = none;
    actor_user_id = some actor_id;
    actor_type = user_actor;
    entity_type = plan_version_target;
    entity_id = version.id;
    action = "PLAN_VERSION_CREATED";
    before_data = none;
    after_data = some (
        ("plan_id", uuid plan_id)
        ∷ ("version_type", string (version_type_name version_type))
        ∷ ("version_number", number next_number)
        ∷ []);
    metadata = [];
  }
  pure version
