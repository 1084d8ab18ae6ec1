-- ===== src/Tests/Plans.antt =====
-- A sample plan on its way into an Event and into the Event's baseline.
use syntrix_dr.Prelude.{◌≡◌, refl, none, some, [], ◌∷◌}
use syntrix_dr.Db.{Session, PlanVersion, draft, baseline, SnapshotRow, number, get_row}
use syntrix_dr.Db.Writing.{◌>>=◌, query, guard, expect, now, new_uuid, write_audit}
use syntrix_dr.Db.Writing.Steps.{done}
use syntrix_dr.Access.Roles.{list_active_roles}
use syntrix_dr.Access.Authorization.{can, global_admin_role_is_effective}
use syntrix_dr.Plans.{
  latest_version, execution_version, capture_baseline_snapshot, instantiate_plan_into_event,
}
use syntrix_dr.Plans.Baselines.{SnapshotsRefer, HoldsTheSame, refers, capture-instantiate}
use syntrix_dr.Tests.Samples.{initial, value_of, state_of}

abbrev plan_version : PlanVersion
plan_version = record {
  id = 800;
  plan_id = some 80;
  dr_event_id = none;
  version_number = 1;
  version_type = draft;
  created_by_user_id = 1;
  created_at = 0;
}

abbrev step : SnapshotRow
step = record {
  plan_version_id = 800;
  source_id = some 90;
  snapshot_data = ("planned_minutes", number 15) ∷ [];
}

abbrev with_plan : Session
with_plan = record initial { plan_versions = plan_version ∷ []; plan_version_tasks = step ∷ [] }

abbrev instantiated : Session
instantiated = state_of (instantiate_plan_into_event 1 80 800 5 with_plan)

abbrev execution_row : PlanVersion
execution_row = value_of (instantiate_plan_into_event 1 80 800 5 with_plan) plan_version

abbrev captured : Session
captured = state_of (capture_baseline_snapshot 1 5 instantiated)

abbrev baseline_row : PlanVersion
baseline_row = record {
  id = 1002;
  plan_id = none;
  dr_event_id = some 5;
  version_number = 1;
  version_type = baseline;
  created_by_user_id = 1;
  created_at = 3;
}

instantiation-runs :
    instantiate_plan_into_event 1 80 800 5 with_plan ≡ done execution_row instantiated
unfolding instantiate_plan_into_event query guard expect now new_uuid write_audit ◌>>=◌
    list_active_roles global_admin_role_is_effective can
instantiation-runs = refl

capture-runs : capture_baseline_snapshot 1 5 instantiated ≡ done (some baseline_row) captured
unfolding instantiate_plan_into_event capture_baseline_snapshot query guard expect now new_uuid
    write_audit ◌>>=◌ list_active_roles global_admin_role_is_effective can
capture-runs = refl

plan-refers : SnapshotsRefer with_plan
unfolding refers get_row
plan-refers = record { tasks = refl; dependencies = refl; milestones = refl }

capture-instantiate_example :
    (w : PlanVersion) × (some baseline_row ≡ some w)
    × (w.dr_event_id ≡ some 5)
    × (w.version_type ≡ baseline)
    × HoldsTheSame 800 with_plan w.id captured
    × SnapshotsRefer captured
unfolding execution_version latest_version
capture-instantiate_example =
    capture-instantiate 1 80 800 5 1 with_plan instantiated captured execution_row
      (some baseline_row) instantiation-runs capture-runs refl plan-refers
