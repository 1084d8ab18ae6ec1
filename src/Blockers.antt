-- ===== src/Blockers.antt =====
-- Blockers as the Task commands use them (blockers/queries.py, blockers/commands.py).
pub mod Steps
pub mod Policies
pub mod Lifecycle
use syntrix_dr.Prelude.{
  ℕ, String, Bool, true, false, not, ◌&&◌, none, some, [], ◌∷◌, ◌==◌, is_none, select, length,
}
use syntrix_dr.Db.{
  Session, Command, ok, integrity_error, Blocker, BlockerStatus, open_blocker, add_row,
  blocker_target, user_actor, uuid, string,
}
use syntrix_dr.Db.Writing.{◌>>=◌, ◌>>◌, pure, query, modify, expect, now, new_uuid, write_audit}

abbrev pub is_closed : BlockerStatus → Bool
is_closed BlockerStatus.closed = true
is_closed _ = false

-- A Blocker that holds its Task: not CLOSED and not soft-deleted.
abbrev pub is_active_on : ℕ → Blocker → Bool
is_active_on task_id b = (b.task_id == task_id) && is_none b.deleted_at && not (is_closed b.status)

unfoldable pub count_active_blockers : Session → ℕ → ℕ
count_active_blockers s task_id = length (select (is_active_on task_id) s.blockers)

unfoldable pub insert_blocker : Blocker → Command (Unit {0})
unfolding add_row
insert_blocker b = do
  added ← query (λ s. ok (add_row (λ r. r.id) b s.blockers))
  rows ← expect added integrity_error
  modify (λ s. record s { blockers = rows })

unfoldable pub create_blocker_for_task :
    (task_id dr_event_id : ℕ) (reason : String) (created_by_user_id : ℕ) → Command Blocker
unfolding insert_blocker
create_blocker_for_task task_id dr_event_id reason created_by_user_id = do
  at ← now
  id ← new_uuid
  let blocker : Blocker = record {
    id = id;
    task_id = task_id;
    reason = reason;
    status = open_blocker;
    created_by_user_id = created_by_user_id;
    blocker_team_id = none;
    blocker_owner_user_id = none;
    blocked_at = at;
    claimed_at = none;
    resolved_at = none;
    verified_at = none;
    closed_at = none;
    resolution_note = none;
    version = 1;
    updated_at = at;
    deleted_at = none;
  }
  insert_blocker blocker
  write_audit record {
    dr_event_id = some dr_event_id;
    actor_user_id = some created_by_user_id;
    actor_type = user_actor;
    entity_type = blocker_target;
    entity_id = blocker.id;
    action = "BLOCKER_CREATED";
    before_data = none;
    after_data =
        some
          (("task_id", uuid task_id) ∷ ("status", string "OPEN") ∷ ("reason", string reason) ∷ []);
    metadata = [];
  }
  pure blocker
