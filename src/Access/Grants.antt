-- ===== src/Access/Grants.antt =====
-- RBAC_MATRIX.md as data: `Capability` and `GRANTS` of users_teams_org/authorization.py.
use syntrix_dr.Prelude.{Bool, true, false}
use syntrix_dr.Db.{
  RoleKey, global_admin, dr_coordinator, work_stream_lead, app_owner, business_owner, manager,
  executor,
}

pub data Capability : Type 0 where
  read_event_participant_content grant_global_readonly global_policy_config : Capability
  create_planned_dr_event event_lifecycle_command manage_event_participants : Capability
  cross_team_assignment own_team_reassignment change_task_metadata change_dependencies : Capability
  confirm_shared_milestone validate_application_work validate_shared_work_stream_work : Capability
  validate_task_standard blocker_create_resolve_verify blocker_start_claim : Capability
  create_issue_finding comment_mention_cross_team override_cross_work_stream_guard : Capability
  override_within_work_stream closure_exception_override resolve_needs_review : Capability
  publish_official_report export_import_full_package create_local_fallback_user ai_act : Capability
  manage_application_catalog manage_tiers manage_plans manage_imports execute_task : Capability
  manage_work_streams : Capability

-- The markers True, "SCOPE" and "OWN_TEAM"; `absent` is a role that the row does not name.
pub data Marker : Type 0 where
  granted in_scope own_team absent : Marker

-- `GRANTS[capability].get(role_key)`
unfoldable pub grants : Capability → RoleKey → Marker
grants read_event_participant_content global_admin = granted
grants read_event_participant_content dr_coordinator = granted
grants read_event_participant_content work_stream_lead = granted
grants read_event_participant_content app_owner = granted
grants read_event_participant_content business_owner = granted
grants read_event_participant_content manager = granted
grants read_event_participant_content executor = granted
grants grant_global_readonly global_admin = granted
grants grant_global_readonly dr_coordinator = granted
grants global_policy_config global_admin = granted
grants global_policy_config dr_coordinator = in_scope
grants create_planned_dr_event global_admin = granted
grants create_planned_dr_event dr_coordinator = granted
grants create_planned_dr_event app_owner = in_scope
grants event_lifecycle_command global_admin = granted
grants event_lifecycle_command dr_coordinator = granted
grants manage_event_participants global_admin = granted
grants manage_event_participants dr_coordinator = granted
grants cross_team_assignment global_admin = granted
grants cross_team_assignment dr_coordinator = granted
grants cross_team_assignment work_stream_lead = in_scope
grants own_team_reassignment global_admin = granted
grants own_team_reassignment dr_coordinator = granted
grants own_team_reassignment work_stream_lead = in_scope
grants own_team_reassignment app_owner = in_scope
grants own_team_reassignment manager = own_team
grants change_task_metadata global_admin = granted
grants change_task_metadata dr_coordinator = granted
grants change_task_metadata work_stream_lead = in_scope
grants change_task_metadata app_owner = in_scope
grants change_task_metadata manager = own_team
grants change_dependencies global_admin = granted
grants change_dependencies dr_coordinator = granted
grants change_dependencies work_stream_lead = in_scope
grants change_dependencies app_owner = in_scope
grants change_dependencies manager = own_team
grants confirm_shared_milestone global_admin = granted
grants confirm_shared_milestone dr_coordinator = granted
grants confirm_shared_milestone work_stream_lead = in_scope
grants validate_application_work global_admin = granted
grants validate_application_work dr_coordinator = granted
grants validate_application_work app_owner = in_scope
grants validate_shared_work_stream_work global_admin = granted
grants validate_shared_work_stream_work dr_coordinator = granted
grants validate_shared_work_stream_work work_stream_lead = granted
grants validate_task_standard global_admin = granted
grants validate_task_standard dr_coordinator = granted
grants validate_task_standard work_stream_lead = in_scope
grants validate_task_standard app_owner = in_scope
grants blocker_create_resolve_verify global_admin = granted
grants blocker_create_resolve_verify dr_coordinator = granted
grants blocker_create_resolve_verify work_stream_lead = granted
grants blocker_create_resolve_verify app_owner = granted
grants blocker_create_resolve_verify manager = in_scope
grants blocker_create_resolve_verify executor = in_scope
grants blocker_start_claim global_admin = granted
grants blocker_start_claim dr_coordinator = granted
grants blocker_start_claim work_stream_lead = in_scope
grants blocker_start_claim app_owner = in_scope
grants blocker_start_claim manager = in_scope
grants blocker_start_claim executor = in_scope
grants create_issue_finding global_admin = granted
grants create_issue_finding dr_coordinator = granted
grants create_issue_finding work_stream_lead = granted
grants create_issue_finding app_owner = granted
grants create_issue_finding manager = granted
grants create_issue_finding executor = granted
grants comment_mention_cross_team global_admin = granted
grants comment_mention_cross_team dr_coordinator = granted
grants comment_mention_cross_team work_stream_lead = granted
grants comment_mention_cross_team app_owner = granted
grants comment_mention_cross_team business_owner = granted
grants comment_mention_cross_team manager = granted
grants comment_mention_cross_team executor = granted
grants override_cross_work_stream_guard global_admin = granted
grants override_cross_work_stream_guard dr_coordinator = granted
grants override_within_work_stream global_admin = granted
grants override_within_work_stream dr_coordinator = granted
grants override_within_work_stream work_stream_lead = in_scope
grants closure_exception_override global_admin = granted
grants closure_exception_override dr_coordinator = granted
grants resolve_needs_review global_admin = granted
grants resolve_needs_review dr_coordinator = granted
grants resolve_needs_review work_stream_lead = in_scope
grants resolve_needs_review app_owner = in_scope
grants resolve_needs_review manager = in_scope
grants resolve_needs_review executor = in_scope
grants publish_official_report global_admin = granted
grants publish_official_report dr_coordinator = granted
grants export_import_full_package global_admin = granted
grants export_import_full_package dr_coordinator = in_scope
grants create_local_fallback_user global_admin = granted
grants ai_act global_admin = granted
grants ai_act dr_coordinator = granted
grants ai_act work_stream_lead = granted
grants ai_act app_owner = granted
grants ai_act business_owner = granted
grants ai_act manager = granted
grants ai_act executor = granted
grants manage_application_catalog global_admin = granted
grants manage_tiers global_admin = granted
grants manage_plans global_admin = granted
grants manage_plans dr_coordinator = granted
grants manage_imports global_admin = granted
grants manage_imports dr_coordinator = granted
grants execute_task global_admin = granted
grants execute_task dr_coordinator = granted
grants execute_task work_stream_lead = in_scope
grants execute_task app_owner = in_scope
grants execute_task manager = own_team
grants manage_work_streams global_admin = granted
grants manage_work_streams dr_coordinator = granted
grants _ _ = absent

-- `capability in READ_ONLY_CAPABILITIES`
abbrev pub is_read_only : Capability → Bool
is_read_only read_event_participant_content = true
is_read_only _ = false
