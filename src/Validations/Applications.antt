-- ===== src/Validations/Applications.antt =====
-- Validations of DR Applications (validation_evidence/commands.py and queries.py).
use Prim.Native.String.{◌++◌ as str_append, [] as empty_text}
use syntrix_dr.Prelude.{
  ℕ, String, Bool, true, false, ◌&&◌, Option, none, some, [], ◌∷◌, ◌==◌, is_none, select,
}
use syntrix_dr.Prelude.Text.{strip}
use syntrix_dr.Db.{
  Read, Command, Validation, pending, TargetType, dr_application_target, validation_target,
  user_actor, uuid, string, TaskPhase, pre_dr, failover, validation, failback, post_dr,
}
use syntrix_dr.Db.Reading.{scalar_one_or_none}
use syntrix_dr.Db.Writing.{◌>>=◌, ◌>>◌, pure, now, new_uuid, write_audit}
use syntrix_dr.Validations.{is_pending, insert_validation, close_task_validation}

abbrev pub is_application_target : TargetType → Bool
is_application_target dr_application_target = true
is_application_target _ = false

-- An open submission of the DR Application.
abbrev pub is_open_for_application : ℕ → Validation → Bool
is_open_for_application dr_application_id v =
    is_application_target v.target_type
    && (v.target_id == dr_application_id)
    && is_pending v.status
    && is_none v.deleted_at

-- `get_pending_validation(session, "DR_APPLICATION", dr_application_id)`
unfoldable pub get_pending_application_validation : ℕ → Read (Option Validation)
get_pending_application_validation dr_application_id s =
    scalar_one_or_none (select (is_open_for_application dr_application_id) s.validations)

abbrev pub phase_name : TaskPhase → String
phase_name pre_dr = "PRE_DR"
phase_name failover = "FAILOVER"
phase_name validation = "VALIDATION"
phase_name failback = "FAILBACK"
phase_name post_dr = "POST_DR"

unfoldable pub open_application_validation :
    (dr_application_id dr_event_id : ℕ) (phase : TaskPhase) (submitted_by_user_id : ℕ)
    → Command Validation
unfolding insert_validation
open_application_validation dr_application_id dr_event_id phase submitted_by_user_id = do
  at ← now
  id ← new_uuid
  let opened : Validation = record {
    id = id;
    target_type = dr_application_target;
    target_id = dr_application_id;
    status = pending;
    verification_note = some (str_append "phase:" (phase_name phase));
    validator_user_id = none;
    submitted_at = at;
    reviewed_at = none;
    approved_at = none;
    note = none;
    business_confirmed = false;
    business_confirmation_note = none;
    created_by_user_id = submitted_by_user_id;
    version = 1;
    updated_at = at;
    deleted_at = none;
  }
  insert_validation opened
  write_audit record {
    dr_event_id = some dr_event_id;
    actor_user_id = some submitted_by_user_id;
    actor_type = user_actor;
    entity_type = validation_target;
    entity_id = opened.id;
    action = "VALIDATION_OPENED";
    before_data = none;
    after_data = some (
        ("target_type", string "DR_APPLICATION")
        ∷ ("target_id", uuid dr_application_id)
        ∷ ("status", string "PENDING")
        ∷ ("phase", string (phase_name phase))
        ∷ []);
    metadata = [];
  }
  pure opened

-- `business_confirmation_note.strip() if business_confirmation_note else None`
abbrev pub stripped_if_given : Option String → Option String
stripped_if_given none = none
stripped_if_given (some empty_text) = none
stripped_if_given (some text) = some (strip text)

-- The row with the business confirmation goes through the one transition of Validations.
unfoldable pub close_application_validation :
    (found : Validation) (approve : Bool) (validator_user_id : ℕ) (note : Option String)
    (business_confirmed : Bool) (business_confirmation_note : Option String) (dr_event_id : ℕ)
    → Command Validation
unfolding close_task_validation
close_application_validation found approve validator_user_id note business_confirmed
      business_confirmation_note dr_event_id =
    close_task_validation
      (record found {
        business_confirmed = business_confirmed;
        business_confirmation_note = business_confirmation_note;
      })
      approve validator_user_id note dr_event_id
