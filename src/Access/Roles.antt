-- ===== src/Access/Roles.antt =====
-- The reads of users_teams_org/queries.py, work_streams/queries.py and applications_catalog/queries.py
-- that authorization rests on.
use syntrix_dr.Prelude.{
  ℕ, Bool, true, false, ◌&&◌, Option, none, some, List, ◌==◌, leb, opt_eq, is_some, is_none, any,
  select,
}
use syntrix_dr.Db.{
  Session, Read, ok, err, RoleKey, global_admin, executor, global_readonly, RoleAssignment,
  OwnerType, system_application,
}
use syntrix_dr.Db.Reading.{scalar_one_or_none}

abbrev pub is_global_admin_key : RoleKey → Bool
is_global_admin_key global_admin = true
is_global_admin_key _ = false

abbrev pub is_global_readonly_key : RoleKey → Bool
is_global_readonly_key global_readonly = true
is_global_readonly_key _ = false

abbrev pub is_executor_key : RoleKey → Bool
is_executor_key executor = true
is_executor_key _ = false

unfoldable pub list_active_roles : Session → ℕ → List RoleAssignment
list_active_roles s user_id =
    select (λ r. (r.user_id == user_id) && is_none r.revoked_at) s.directory.role_assignments

-- `has_active_role(session, user_id, role_key)` with no scope; `is_key` is the test for the key.
unfoldable pub has_active_role : ℕ → (RoleKey → Bool) → Read Bool
has_active_role user_id is_key s =
    elim (scalar_one_or_none (
      select (λ r. (r.user_id == user_id) && (is_key r.role_key && is_none r.revoked_at))
        s.directory.role_assignments)) [ ok row ↦ ok (is_some row) | err e ↦ err e ]

-- `column IS NULL OR column <= at`, and the other way round.
abbrev pub null_or_le : Option ℕ → ℕ → Bool
null_or_le none at = true
null_or_le (some t) at = leb t at

abbrev pub null_or_ge : Option ℕ → ℕ → Bool
null_or_ge none at = true
null_or_ge (some t) at = leb at t

unfoldable pub is_active_team_member : Session → ℕ → ℕ → ℕ → Bool
is_active_team_member s team_id user_id at =
    any
      (λ m.
        (m.team_id == team_id)
        && (m.user_id == user_id)
        && is_none m.deleted_at
        && null_or_le m.effective_from at
        && null_or_ge m.effective_to at)
      s.directory.team_memberships

unfoldable pub is_work_stream_lead : Session → ℕ → ℕ → Bool
is_work_stream_lead s work_stream_id user_id =
    any
      (λ w.
        (w.id == work_stream_id) && opt_eq w.lead_user_id (some user_id) && is_none w.deleted_at)
      s.directory.work_streams

abbrev pub is_system : OwnerType → Bool
is_system system_application = true
is_system _ = false

unfoldable pub is_system_application_owner : Session → ℕ → ℕ → Bool
is_system_application_owner s application_id user_id =
    any
      (λ o.
        (o.application_id == application_id)
        && (o.user_id == user_id)
        && is_system o.owner_type
        && is_none o.deleted_at)
      s.directory.application_owners
