-- ===== src/Validations.antt =====
-- Validations of Tasks and the count of their Evidence Items (validation_evidence/commands.py, queries.py
-- and transition_service.py).
pub mod Steps
pub mod Applications
use Prim.Native.String.{◌++◌ as str_append}
use syntrix_dr.Prelude.{
  ℕ, String, Bool, true, false, not, ◌&&◌, Option, none, some, [], ◌∷◌, ◌+◌, ◌==◌, is_none, select,
  length, if◌then◌else◌,
}
use syntrix_dr.Db.{
  Session, Read, Command, ok, integrity_error, invalid_validation_transition, Validation,
  ValidationStatus, pending, in_review, approved, rejected, remediation, TargetType, task_target,
  validation_target, add_row, put_row, user_actor, uuid, string, number, EvidenceItem, EvidenceType,
  ScanStatus,
}
use syntrix_dr.Db.Reading.{scalar_one_or_none}
use syntrix_dr.Db.Writing.{
  ◌>>=◌, ◌>>◌, pure, query, modify, guard, expect, now, new_uuid, write_audit,
}

abbrev pub is_pending : ValidationStatus → Bool
is_pending pending = true
is_pending _ = false

abbrev pub is_task_target : TargetType → Bool
is_task_target task_target = true
is_task_target _ = false

-- `Validation.status` as the payloads print it.
abbrev pub validation_status_name : ValidationStatus → String
validation_status_name pending = "PENDING"
validation_status_name in_review = "IN_REVIEW"
validation_status_name approved = "APPROVED"
validation_status_name rejected = "REJECTED"
validation_status_name remediation = "REMEDIATION"

-- An open submission of the Task.
abbrev pub is_open_for : ℕ → Validation → Bool
is_open_for task_id v =
    is_task_target v.target_type
    && (v.target_id == task_id)
    && is_pending v.status
    && is_none v.deleted_at

unfoldable pub get_pending_task_validation : ℕ → Read (Option Validation)
get_pending_task_validation task_id s =
    scalar_one_or_none (select (is_open_for task_id) s.validations)

unfoldable pub insert_validation : Validation → Command (Unit {0})
unfolding add_row
insert_validation v = do
  added ← query (λ s. ok (add_row (λ r. r.id) v s.validations))
  rows ← expect added integrity_error
  modify (λ s. record s { validations = rows })

unfoldable pub save_validation : Validation → Command (Unit {0})
unfolding put_row
save_validation v = modify (λ s. record s { validations = put_row (λ r. r.id) v s.validations })

unfoldable pub open_task_validation :
    (task_id dr_event_id : ℕ) (verification_note : Option String) (submitted_by_user_id : ℕ)
    → Command Validation
unfolding insert_validation
open_task_validation task_id dr_event_id verification_note submitted_by_user_id = do
  at ← now
  id ← new_uuid
  let validation : Validation = record {
    id = id;
    target_type = task_target;
    target_id = task_id;
    status = pending;
    verification_note = verification_note;
    validator_user_id = none;
    submitted_at = at;
    reviewed_at = none;
    approved_at = none;
    note = none;
    business_confirmed = false;
    business_confirmation_note = none;
    created_by_user_id = submitted_by_user_id;
    version = 1;
    updated_at = at;
    deleted_at = none;
  }
  insert_validation validation
  write_audit record {
    dr_event_id = some dr_event_id;
    actor_user_id = some submitted_by_user_id;
    actor_type = user_actor;
    entity_type = validation_target;
    entity_id = validation.id;
    action = "VALIDATION_OPENED";
    before_data = none;
    after_data = some (
        ("target_type", string "TASK")
        ∷ ("target_id", uuid task_id)
        ∷ ("status", string "PENDING")
        ∷ []);
    metadata = [];
  }
  pure validation

-- `ValidationTransitionService.close_task_validation`
unfoldable pub close_task_validation :
    (validation : Validation) (approve : Bool) (validator_user_id : ℕ) (note : Option String)
    (dr_event_id : ℕ)
    → Command Validation
unfolding save_validation
close_task_validation validation approve validator_user_id note dr_event_id = do
  guard (is_pending validation.status) (invalid_validation_transition validation.status)
  at ← now
  let closed_validation : Validation = record validation {
    status = if approve then approved else rejected;
    validator_user_id = some validator_user_id;
    reviewed_at = some at;
    approved_at = if approve then some at else validation.approved_at;
    note = note;
    version = validation.version + 1;
    updated_at = at;
  }
  save_validation closed_validation
  write_audit record {
    dr_event_id = some dr_event_id;
    actor_user_id = some validator_user_id;
    actor_type = user_actor;
    entity_type = validation_target;
    entity_id = validation.id;
    action = if approve then "VALIDATION_APPROVED" else "VALIDATION_REJECTED";
    before_data = some (("status", string (validation_status_name validation.status)) ∷ []);
    after_data = some (
        ("status", string (validation_status_name closed_validation.status))
        ∷ ("version", number closed_validation.version)
        ∷ []);
    metadata = [];
  }
  pure closed_validation

-- `ValidationTransitionService.close_for_cancelled_task`
unfoldable pub close_for_cancelled_task :
    (validation : Validation) (actor_id : ℕ) (reason : String) (dr_event_id : ℕ)
    → Command Validation
unfolding save_validation
close_for_cancelled_task validation actor_id reason dr_event_id = do
  guard (is_pending validation.status) (invalid_validation_transition validation.status)
  at ← now
  let closed_validation : Validation = record validation {
    status = rejected;
    reviewed_at = some at;
    note = some (str_append "Task cancelled: " reason);
    version = validation.version + 1;
    updated_at = at;
  }
  save_validation closed_validation
  write_audit record {
    dr_event_id = some dr_event_id;
    actor_user_id = some actor_id;
    actor_type = user_actor;
    entity_type = validation_target;
    entity_id = validation.id;
    action = "VALIDATION_CLOSED_TASK_CANCELLED";
    before_data = some (("status", string (validation_status_name validation.status)) ∷ []);
    after_data = some (
        ("status", string "REJECTED")
        ∷ ("version", number closed_validation.version)
        ∷ ("reason", string reason)
        ∷ []);
    metadata = [];
  }
  pure closed_validation

-- Whether there is a submission to close, and its close.
abbrev pub close_if_open : Option Validation → ℕ → String → ℕ → Command (Option Validation)
close_if_open none actor_id reason dr_event_id = pure none
close_if_open (some validation) actor_id reason dr_event_id = do
  closed_validation ← close_for_cancelled_task validation actor_id reason dr_event_id
  pure (some closed_validation)

unfoldable pub close_validation_for_cancelled_task :
    (task_id actor_id : ℕ) (reason : String) (dr_event_id : ℕ) → Command (Option Validation)
unfolding get_pending_task_validation close_for_cancelled_task
close_validation_for_cancelled_task task_id actor_id reason dr_event_id = do
  validation ← query (get_pending_task_validation task_id)
  close_if_open validation actor_id reason dr_event_id

abbrev pub is_file : EvidenceType → Bool
is_file EvidenceType.file = true
is_file EvidenceType.screenshot = true
is_file _ = false

abbrev pub is_clean : Option ScanStatus → Bool
is_clean (some ScanStatus.clean) = true
is_clean _ = false

-- A live item of the Task.
abbrev pub is_item_of : ℕ → EvidenceItem → Bool
is_item_of task_id e =
    is_task_target e.target_type && (e.target_id == task_id) && is_none e.deleted_at

-- `AcceptableEvidenceCounter.count_acceptable_for_task`: the others, and the clean files.
unfoldable pub count_acceptable_for_task : Session → ℕ → ℕ
count_acceptable_for_task s task_id =
    length (
      select (λ e. is_item_of task_id e && not (is_file e.evidence_type))
        s.directory.evidence_items)
    + length (
        select
          (λ e. is_item_of task_id e && (is_file e.evidence_type && is_clean e.malware_scan_status))
          s.directory.evidence_items)
