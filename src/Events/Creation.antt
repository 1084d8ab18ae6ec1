-- ===== src/Events/Creation.antt =====
-- `create_event` of dr_events/commands.py. The name, type and description of an Event, which no modelled
-- operation reads, are not in its row.
pub mod Enrolled
pub mod Created
use syntrix_dr.Prelude.{
  ℕ, String, Bool, true, false, ◌&&◌, ◌||◌, Option, none, some, List, [], ◌∷◌, ◌++◌, ◌==◌, leb, any,
  select, is_none, is_nil, if◌then◌else◌,
}
use syntrix_dr.Db.{
  Session, Command, Error, ok, authorization_required, dr_event_not_found, application_not_found,
  tier_not_found, plan_version_required, integrity_error, DrEvent, planned, DrApplication,
  ApplicationStatus, Application, Tier, OwnerType, system_application, business, ApplicationOwner,
  get_row, add_row, application_scope, user_actor, dr_event_target, dr_application_target,
  event_state_changed, string, uuid,
}
use syntrix_dr.Db.Writing.{
  ◌>>=◌, ◌>>◌, pure, query, modify, guard, choose, expect, now, new_uuid, write_audit, write_outbox,
}
use syntrix_dr.Access.Grants.{Capability, create_planned_dr_event, manage_plans}
use syntrix_dr.Access.Authorization.{Scope, can, no_scope, typed_scope}
use syntrix_dr.Access.Visibility.{user_can_see_event}
use syntrix_dr.Access.Participants.{enrol_participant}
use syntrix_dr.Plans.{instantiate_plan_into_event}

-- `_OWNER_TYPE_TO_PARTICIPANT_SOURCE`
abbrev pub participant_source : OwnerType → String
participant_source system_application = "APP_OWNER"
participant_source business = "BUSINESS_OWNER"

-- `ORDER BY owner_type, owner_order`
abbrev pub owner_before : ApplicationOwner → ApplicationOwner → Bool
owner_before o p = elim o.owner_type [
  | system_application ↦ elim p.owner_type [
    | system_application ↦ leb o.owner_order p.owner_order
    | business ↦ true
  ]
  | business ↦ elim p.owner_type [
    | system_application ↦ false
    | business ↦ leb o.owner_order p.owner_order
  ]
]

abbrev pub insert_owner : ApplicationOwner → List ApplicationOwner → List ApplicationOwner
insert_owner o [] = o ∷ []
insert_owner o (p ∷ owners) = if owner_before o p then o ∷ p ∷ owners else p ∷ insert_owner o owners

abbrev pub sort_owners : List ApplicationOwner → List ApplicationOwner
sort_owners [] = []
sort_owners (o ∷ owners) = insert_owner o (sort_owners owners)

abbrev pub is_owner_row_of : ℕ → ApplicationOwner → Bool
is_owner_row_of application_id o = (o.application_id == application_id) && is_none o.deleted_at

unfoldable pub list_application_owners : Session → ℕ → List ApplicationOwner
list_application_owners s application_id =
    sort_owners (select (is_owner_row_of application_id) s.directory.application_owners)

-- `AuthorizationService.require`
unfoldable pub require : (actor_id : ℕ) → Capability → Scope → Command (Unit {0})
unfolding can
require actor_id capability scope = do
  allowed ← query (λ s. ok (can s actor_id capability scope))
  guard allowed authorization_required

unfoldable pub require_each : (actor_id : ℕ) (application_ids : List ℕ) → Command (Unit {0})
unfolding require
require_each actor_id [] = pure tt
require_each actor_id (app_id ∷ application_ids) = do
  require actor_id create_planned_dr_event (typed_scope application_scope (some app_id))
  require_each actor_id application_ids

-- `if application_ids: ... else: ...`
unfoldable pub require_creation : (actor_id : ℕ) (application_ids : List ℕ) → Command (Unit {0})
unfolding require require_each
require_creation actor_id [] = require actor_id create_planned_dr_event no_scope
require_creation actor_id (app_id ∷ application_ids) =
    require_each actor_id (app_id ∷ application_ids)

unfoldable pub require_plans : (actor_id : ℕ) (plan_id : Option ℕ) → Command (Unit {0})
unfolding require
require_plans actor_id none = pure tt
require_plans actor_id (some plan_id) = require actor_id manage_plans no_scope

-- A parent that the actor does not see is not found.
unfoldable pub check_parent : (actor_id : ℕ) (parent_dr_event_id : Option ℕ) → Command (Unit {0})
unfolding get_row user_can_see_event
check_parent actor_id none = pure tt
check_parent actor_id (some parent_dr_event_id) = do
  found ← query (λ s. ok (get_row (λ e. e.id) parent_dr_event_id s.events))
  expect found dr_event_not_found
  seen ← query (λ s. ok (user_can_see_event s actor_id parent_dr_event_id))
  guard seen dr_event_not_found

unfoldable pub insert_event : DrEvent → Command (Unit {0})
unfolding add_row
insert_event e = do
  added ← query (λ s. ok (add_row (λ r. r.id) e s.events))
  rows ← expect added integrity_error
  modify (λ s. record s { events = rows })

-- The primary key and the unique constraint on the Event and the Application.
unfoldable pub insert_application : DrApplication → Command (Unit {0})
unfolding add_row
insert_application a = do
  taken ← query (λ s. ok (
      any (λ r. (r.dr_event_id == a.dr_event_id) && (r.application_id == a.application_id))
        s.applications))
  guard (if taken then false else true) integrity_error
  added ← query (λ s. ok (add_row (λ r. r.id) a s.applications))
  rows ← expect added integrity_error
  modify (λ s. record s { applications = rows })

unfoldable pub enrol_owners : (event_id : ℕ) → List ApplicationOwner → Command (Unit {0})
unfolding enrol_participant
enrol_owners event_id [] = pure tt
enrol_owners event_id (owner ∷ owners) = do
  enrol_participant event_id owner.user_id (participant_source owner.owner_type)
  enrol_owners event_id owners

-- The row of a new DR Application, with the defaults of its columns.
abbrev pub new_application : (id event_id app_id : ℕ) → Tier → (at : ℕ) → DrApplication
new_application id event_id app_id tier at = record {
  id = id;
  dr_event_id = event_id;
  application_id = app_id;
  effective_tier_id = tier.id;
  effective_sla_minutes = tier.default_sla_minutes;
  rto_target_minutes = tier.default_sla_minutes;
  status = ApplicationStatus.not_started;
  rpo_target_minutes = none;
  rpo_not_applicable = false;
  failback_required = true;
  sla_start_at = none;
  technical_validated_at = none;
  version = 1;
  updated_at = at;
  deleted_at = none;
}

-- One round of the loop over the Applications.
unfoldable pub scope_application : (actor_id event_id app_id : ℕ) → Command (Unit {0})
unfolding get_row insert_application list_application_owners enrol_owners
scope_application actor_id event_id app_id = do
  found ← query (λ s. ok (get_row (λ a. a.id) app_id s.directory.catalog))
  application ← expect found application_not_found
  its_tier ← query (λ s. ok (get_row (λ t. t.id) application.tier_id s.directory.tiers))
  tier ← expect its_tier tier_not_found
  id ← new_uuid
  at ← now
  insert_application (new_application id event_id app_id tier at)
  write_audit record {
    dr_event_id = some event_id;
    actor_user_id = some actor_id;
    actor_type = user_actor;
    entity_type = dr_application_target;
    entity_id = id;
    action = "DR_APPLICATION_CREATED";
    before_data = none;
    after_data = some (("application_id", uuid app_id) ∷ ("dr_event_id", uuid event_id) ∷ []);
    metadata = [];
  }
  owners ← query (λ s. ok (list_application_owners s app_id))
  enrol_owners event_id owners

unfoldable pub scope_applications :
    (actor_id event_id : ℕ) (application_ids : List ℕ) → Command (Unit {0})
unfolding scope_application
scope_applications actor_id event_id [] = pure tt
scope_applications actor_id event_id (app_id ∷ application_ids) = do
  scope_application actor_id event_id app_id
  scope_applications actor_id event_id application_ids

unfoldable pub attach_plan :
    (actor_id event_id : ℕ) (plan_id plan_version_id : Option ℕ) → Command (Unit {0})
unfolding instantiate_plan_into_event
attach_plan actor_id event_id none plan_version_id = pure tt
attach_plan actor_id event_id (some plan_id) plan_version_id = do
  version ← expect plan_version_id plan_version_required
  instantiate_plan_into_event actor_id plan_id version event_id
  pure tt

-- The row of a new Event, with the defaults of its columns.
abbrev pub new_event : (id : ℕ) (parent_dr_event_id : Option ℕ) (at : ℕ) → DrEvent
new_event id parent_dr_event_id at = record {
  id = id;
  status = planned;
  parent_dr_event_id = parent_dr_event_id;
  event_timezone = "UTC";
  coordinator_user_id = none;
  network_cut_at = none;
  baseline_plan_version_id = none;
  failback_started_at = none;
  completed_at = none;
  cancelled_at = none;
  cancel_reason = none;
  version = 1;
  updated_at = at;
  deleted_at = none;
}

unfoldable pub create_event :
    (actor_id : ℕ) (name event_type : String) (application_ids : List ℕ)
    (plan_id plan_version_id parent_dr_event_id : Option ℕ)
    → Command DrEvent
unfolding require_creation require_plans check_parent insert_event enrol_participant
    scope_applications attach_plan
create_event actor_id name event_type application_ids plan_id plan_version_id parent_dr_event_id =
    do
      require_creation actor_id application_ids
      require_plans actor_id plan_id
      check_parent actor_id parent_dr_event_id
      id ← new_uuid
      at ← now
      let event = new_event id parent_dr_event_id at
      insert_event event
      enrol_participant event.id actor_id "EXPLICIT"
      scope_applications actor_id event.id application_ids
      attach_plan actor_id event.id plan_id plan_version_id
      write_audit record {
        dr_event_id = some event.id;
        actor_user_id = some actor_id;
        actor_type = user_actor;
        entity_type = dr_event_target;
        entity_id = event.id;
        action = "DR_EVENT_CREATED";
        before_data = none;
        after_data = some (
            ("name", string name)
            ∷ ("event_type", string event_type)
            ∷ ("status", string "PLANNED")
            ∷ []);
        metadata = [];
      }
      write_outbox dr_event_target event.id event_state_changed (("status", string "PLANNED") ∷ [])
          (some event.id)
      pure event
