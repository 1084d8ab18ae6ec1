-- ===== src/Events/Readiness.antt =====
-- `evaluate_readiness` of dr_events/readiness_service.py.
use text.Mathlib.Text.{◌==◌ as str_eq}
use Prim.Native.String.{[] as empty_text}
use syntrix_dr.Prelude.{
  ℕ, String, Bool, true, false, not, ◌&&◌, ◌||◌, Option, none, some, List, [], ◌∷◌, map, ◌==◌,
  is_nil, is_some, is_none, any, all, select, contains, if◌then◌else◌,
}
use syntrix_dr.Db.{
  Session, DrEvent, DrApplication, PolicyJson, policy_text, OwnerType, system_application, business,
  ConfirmationMode, manual, automatic,
}
use syntrix_dr.Graph.Kahn.{has_cycle}
use syntrix_dr.Access.Policies.{resolve}
use syntrix_dr.Tasks.LiveGraph.{live_graph_edges}
use syntrix_dr.Events.Queries.{
  list_dr_applications, owning_team_ids, live_team_ids, every_stream_has_a_lead,
  live_monitoring_task_exists,
}

-- `EVALUATED_KEYS`
pub data ReadinessKey : Type 0 where
  event_timezone_set coordinator_assigned application_in_scope primary_system_owner : ReadinessKey
  rpo_target_or_na primary_business_owner dependency_graph_acyclic task_owning_team : ReadinessKey
  work_stream_lead_key monitoring_task_present critical_milestone_owner : ReadinessKey

abbrev pub key_name : ReadinessKey → String
key_name event_timezone_set = "readiness.event_timezone_set"
key_name coordinator_assigned = "readiness.coordinator_assigned"
key_name application_in_scope = "readiness.application_in_scope"
key_name primary_system_owner = "readiness.primary_system_owner"
key_name rpo_target_or_na = "readiness.rpo_target_or_na"
key_name primary_business_owner = "readiness.primary_business_owner"
key_name dependency_graph_acyclic = "readiness.dependency_graph_acyclic"
key_name task_owning_team = "readiness.task_owning_team"
key_name work_stream_lead_key = "readiness.work_stream_lead"
key_name monitoring_task_present = "readiness.monitoring_task_present"
key_name critical_milestone_owner = "readiness.critical_milestone_owner"

abbrev pub evaluated_keys : List ReadinessKey
evaluated_keys =
    event_timezone_set ∷ coordinator_assigned ∷ application_in_scope ∷ primary_system_owner
    ∷ rpo_target_or_na ∷ primary_business_owner ∷ dependency_graph_acyclic ∷ task_owning_team
    ∷ work_stream_lead_key ∷ monitoring_task_present ∷ critical_milestone_owner ∷ []

-- `key in NON_OVERRIDABLE_KEYS`
abbrev pub is_non_overridable : ReadinessKey → Bool
is_non_overridable dependency_graph_acyclic = true
is_non_overridable _ = false

pub record ReadinessResult : Type 0 where
  pub key : ReadinessKey
  pub severity : PolicyJson
  pub satisfied : Bool

abbrev pub owner_type_eq : OwnerType → OwnerType → Bool
owner_type_eq system_application system_application = true
owner_type_eq business business = true
owner_type_eq _ _ = false

unfoldable pub list_application_ids_with_primary_owner : Session → List ℕ → OwnerType → List ℕ
list_application_ids_with_primary_owner s application_ids owner_type =
    map (λ o. o.application_id)
      (select
        (λ o.
          contains o.application_id application_ids
          && owner_type_eq o.owner_type owner_type
          && (o.owner_order == 1)
          && is_none o.deleted_at)
        s.directory.application_owners)

-- `_every_in_scope_app_has_primary_owner`
unfoldable pub every_app_has_primary_owner : Session → List DrApplication → OwnerType → Bool
unfolding list_application_ids_with_primary_owner
every_app_has_primary_owner s dr_apps owner_type =
    let application_ids = map (λ a. a.application_id) dr_apps in
    let covered = list_application_ids_with_primary_owner s application_ids owner_type in
    not (is_nil dr_apps) && all (λ i. contains i covered) application_ids

abbrev pub is_manual : ConfirmationMode → Bool
is_manual manual = true
is_manual automatic = false

unfoldable pub manual_milestone_without_owner_exists : Session → ℕ → Bool
manual_milestone_without_owner_exists s dr_event_id =
    any
      (λ m.
        (m.dr_event_id == dr_event_id)
        && is_none m.deleted_at
        && is_manual m.confirmation_mode
        && is_none m.owner_user_id)
      s.milestones

-- `none` if the search ran out of fuel, which it never does.
unfoldable pub event_graph_has_cycle : Session → ℕ → Option Bool
unfolding has_cycle live_graph_edges
event_graph_has_cycle s dr_event_id = has_cycle (live_graph_edges s dr_event_id)

-- `not await event_graph_has_cycle(...)`
abbrev pub answers_no : Option Bool → Bool
answers_no none = false
answers_no (some b) = not b

abbrev pub is_empty_text : String → Bool
is_empty_text empty_text = true
is_empty_text _ = false

-- `satisfied_by_key[key]`
unfoldable pub satisfied_by_key : Session → DrEvent → ReadinessKey → Bool
unfolding list_dr_applications every_app_has_primary_owner owning_team_ids live_team_ids
    every_stream_has_a_lead live_monitoring_task_exists event_graph_has_cycle
    manual_milestone_without_owner_exists
satisfied_by_key s event event_timezone_set = not (is_empty_text event.event_timezone)
satisfied_by_key s event coordinator_assigned = is_some event.coordinator_user_id
satisfied_by_key s event application_in_scope = not (is_nil (list_dr_applications s event.id))
satisfied_by_key s event primary_system_owner =
    every_app_has_primary_owner s (list_dr_applications s event.id) system_application
satisfied_by_key s event primary_business_owner =
    every_app_has_primary_owner s (list_dr_applications s event.id) business
satisfied_by_key s event rpo_target_or_na =
    not (is_nil (list_dr_applications s event.id))
    && all (λ a. is_some a.rpo_target_minutes || a.rpo_not_applicable)
        (list_dr_applications s event.id)
satisfied_by_key s event dependency_graph_acyclic = answers_no (event_graph_has_cycle s event.id)
satisfied_by_key s event task_owning_team =
    all (λ t. contains t (live_team_ids s (owning_team_ids s event.id)))
      (owning_team_ids s event.id)
satisfied_by_key s event work_stream_lead_key = every_stream_has_a_lead s event.id
satisfied_by_key s event monitoring_task_present = live_monitoring_task_exists s event.id
satisfied_by_key s event critical_milestone_owner =
    not (manual_milestone_without_owner_exists s event.id)

unfoldable pub severity_of : Session → DrEvent → ReadinessKey → PolicyJson
unfolding resolve
severity_of s event key =
    if is_non_overridable key
    then policy_text "HARD_STOP"
    else resolve s (key_name key) (some event.id) none none

abbrev pub result_for : Session → DrEvent → ReadinessKey → ReadinessResult
result_for s event key = record {
  key = key;
  severity = severity_of s event key;
  satisfied = satisfied_by_key s event key;
}

unfoldable pub evaluate_readiness : Session → DrEvent → List ReadinessResult
unfolding severity_of satisfied_by_key
evaluate_readiness s event = map (result_for s event) evaluated_keys

-- `r.severity == severity`
abbrev pub has_severity : String → ReadinessResult → Bool
has_severity severity r = elim r.severity [ policy_text t ↦ str_eq t severity | _ ↦ false ]
