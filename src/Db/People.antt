-- ===== src/Db/People.antt =====
-- Rows of users, roles, Teams, participants, Work Streams, owners and policies
-- (users_teams_org/models.py, dr_events/models.py, work_streams/models.py, applications_catalog/models.py,
-- policies_admin/models.py), with the columns that the modelled code reads. A UUID and a time are numbers.
use syntrix_dr.Prelude.{ℕ, String, Bool, Option}

pub data IdentityType : Type 0 where
  local_identity entra_identity : IdentityType

pub record User : Type 0 where
  pub id : ℕ
  pub identity_type : IdentityType
  pub is_active : Bool
  pub deleted_at : Option ℕ

pub record LocalCredential : Type 0 where
  pub user_id : ℕ
  pub totp_enabled : Bool

-- `role_key` is free text in the table; `other_role` is a key that the code names nowhere.
pub data RoleKey : Type 0 where
  global_admin dr_coordinator work_stream_lead app_owner : RoleKey
  business_owner manager executor global_readonly : RoleKey
  other_role : String → RoleKey

pub data ScopeType : Type 0 where
  global_scope event_scope stream_scope application_scope : ScopeType

pub record RoleAssignment : Type 0 where
  pub user_id : ℕ
  pub role_key : RoleKey
  pub scope_type : ScopeType
  pub scope_id : Option ℕ
  pub revoked_at : Option ℕ

pub record Team : Type 0 where
  pub id : ℕ
  pub manager_user_id : Option ℕ
  pub deleted_at : Option ℕ

pub record TeamMembership : Type 0 where
  pub team_id : ℕ
  pub user_id : ℕ
  pub effective_from : Option ℕ
  pub effective_to : Option ℕ
  pub deleted_at : Option ℕ

pub record DrEventParticipant : Type 0 where
  pub dr_event_id : ℕ
  pub user_id : ℕ
  pub source : String
  pub removed_at : Option ℕ

pub record WorkStream : Type 0 where
  pub id : ℕ
  pub dr_event_id : ℕ
  pub is_monitoring : Bool
  pub lead_user_id : Option ℕ
  pub deleted_at : Option ℕ

pub record Tier : Type 0 where
  pub id : ℕ
  pub default_sla_minutes : ℕ

-- A row of the catalog.
pub record Application : Type 0 where
  pub id : ℕ
  pub tier_id : ℕ

pub data OwnerType : Type 0 where
  system_application business : OwnerType

pub record ApplicationOwner : Type 0 where
  pub application_id : ℕ
  pub user_id : ℕ
  pub owner_type : OwnerType
  pub owner_order : ℕ
  pub deleted_at : Option ℕ

-- A policy value is JSON; the modelled code compares it with `true` and with texts.
pub data PolicyJson : Type 0 where
  policy_null : PolicyJson
  policy_bool : Bool → PolicyJson
  policy_text : String → PolicyJson
  policy_number : ℕ → PolicyJson

pub record PolicyDefinition : Type 0 where
  pub id : ℕ
  pub key : String
  pub default_value : PolicyJson

pub record PolicyValue : Type 0 where
  pub policy_definition_id : ℕ
  pub scope_type : ScopeType
  pub scope_id : Option ℕ
  pub value : PolicyJson
  pub superseded_at : Option ℕ
