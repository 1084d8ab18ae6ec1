-- ===== src/Blockers/Lifecycle.antt =====
-- `BlockerTransitionService` of blockers/transition_service.py.
pub mod Moves
pub mod Machine
use syntrix_dr.Prelude.{
  ℕ, ◌+◌, String, Bool, true, false, not, ◌&&◌, ◌||◌, Option, none, some, List, [], ◌∷◌, ◌++◌, ◌==◌,
  is_some, is_none, if◌then◌else◌,
}
use syntrix_dr.Prelude.Text.{clean}
use syntrix_dr.Db.{
  Session, Command, ok, authorization_required, concurrency_conflict, blocker_not_found,
  team_not_found, user_not_found, invalid_blocker_transition, blocker_routing_required,
  blocker_routing_mismatch, Task, Blocker, BlockerStatus, open_blocker, assigned, in_progress,
  resolved, verified, closed, Payload, Json, null, string, number, uuid, get_row, put_row,
  blocker_target, blocker_changed, user_actor,
}
use syntrix_dr.Db.Writing.{
  ◌>>=◌, ◌>>◌, pure, query, modify, guard, choose, when, expect, now, write_audit, write_outbox,
}
use syntrix_dr.Access.Roles.{is_active_team_member}
use syntrix_dr.Access.Participants.{enrol_participant}
use syntrix_dr.Alerts.{resolve_escalations}
use syntrix_dr.Tasks.Loads.{get_visible_task}
use syntrix_dr.Tasks.Lifecycle.{is_blocked, resume_after_last_blocker}
use syntrix_dr.Blockers.{count_active_blockers}
use syntrix_dr.Blockers.Policies.{
  get_team, is_member, actor_may_route_blocker, actor_may_start_blocker, actor_may_resolve_blocker,
  actor_may_verify_blocker,
}

abbrev pub blocker_status_name : BlockerStatus → String
blocker_status_name open_blocker = "OPEN"
blocker_status_name assigned = "ASSIGNED"
blocker_status_name in_progress = "IN_PROGRESS"
blocker_status_name resolved = "RESOLVED"
blocker_status_name verified = "VERIFIED"
blocker_status_name closed = "CLOSED"

-- `_LEGAL_FROM`, by command.
abbrev pub assignable : BlockerStatus → Bool
assignable open_blocker = true
assignable assigned = true
assignable _ = false

abbrev pub startable : BlockerStatus → Bool
startable assigned = true
startable _ = false

abbrev pub resolvable : BlockerStatus → Bool
resolvable in_progress = true
resolvable _ = false

abbrev pub verifiable : BlockerStatus → Bool
verifiable resolved = true
verifiable _ = false

-- `get_blocker` and `lock_blocker`: the live row.
unfoldable pub live_blocker : Session → ℕ → Option Blocker
unfolding get_row
live_blocker s blocker_id = elim (get_row (λ b. b.id) blocker_id s.blockers) [
  | none ↦ none
  | some b ↦ if is_none b.deleted_at then some b else none
]

-- `_load`: the Blocker is read for its Task, the Task is locked, then the Blocker.
unfoldable pub load_blocker : (actor_id blocker_id : ℕ) → Command (Task × Blocker)
unfolding live_blocker get_visible_task
load_blocker actor_id blocker_id = do
  found ← query (λ s. ok (live_blocker s blocker_id))
  unlocked ← expect found blocker_not_found
  visible ← query (λ s. ok (get_visible_task s actor_id unlocked.task_id))
  task ← expect visible blocker_not_found
  locked ← query (λ s. ok (live_blocker s blocker_id))
  blocker ← expect locked blocker_not_found
  pure (task, blocker)

unfoldable pub save_blocker : Blocker → Command (Unit {0})
unfolding put_row
save_blocker b = modify (λ s. record s { blockers = put_row (λ r. r.id) b s.blockers })

abbrev pub id_or_null : Option ℕ → Json
id_or_null none = null
id_or_null (some i) = uuid i

-- `_snapshot`
abbrev pub blocker_snapshot : Blocker → Payload
blocker_snapshot b =
    ("status", string (blocker_status_name b.status))
    ∷ ("version", number b.version)
    ∷ ("blocker_team_id", id_or_null b.blocker_team_id)
    ∷ ("blocker_owner_user_id", id_or_null b.blocker_owner_user_id)
    ∷ []

-- `_finish`
unfoldable pub finish_blocker :
    (blocker : Blocker) (task : Task) (actor_id : ℕ) (before : Payload) (action : String)
    → Command Blocker
unfolding save_blocker
finish_blocker blocker task actor_id before action = do
  at ← now
  let moved : Blocker = record blocker { version = blocker.version + 1; updated_at = at }
  save_blocker moved
  write_audit record {
    dr_event_id = some task.dr_event_id;
    actor_user_id = some actor_id;
    actor_type = user_actor;
    entity_type = blocker_target;
    entity_id = moved.id;
    action = action;
    before_data = some before;
    after_data = some (blocker_snapshot moved);
    metadata = [];
  }
  write_outbox blocker_target moved.id blocker_changed
      (("change", string action) ∷ ("task_id", uuid task.id) ∷ blocker_snapshot moved)
      (some task.dr_event_id)
  pure moved

-- `is_user_active`
unfoldable pub is_user_active : Session → ℕ → Bool
unfolding get_row
is_user_active s user_id = elim (get_row (λ u. u.id) user_id s.directory.users) [
  | none ↦ false
  | some u ↦ is_none u.deleted_at && u.is_active
]

-- The three checks on where an assignment routes the Blocker.
unfoldable pub check_team : Option ℕ → Command (Unit {0})
unfolding get_team
check_team none = pure tt
check_team (some team_id) = do
  known ← query (λ s. ok (is_some (get_team s team_id)))
  guard known team_not_found

unfoldable pub check_assignee : (team_id assignee_user_id : Option ℕ) (at : ℕ) → Command (Unit {0})
unfolding is_user_active
check_assignee team_id none at = pure tt
check_assignee team_id (some user_id) at = do
  is_active ← query (λ s. ok (is_user_active s user_id))
  guard is_active user_not_found
  belongs ← query (λ s. ok (is_none team_id || is_member s user_id at team_id))
  guard belongs blocker_routing_mismatch

abbrev pub is_open_status : BlockerStatus → Bool
is_open_status open_blocker = true
is_open_status _ = false

-- `_enrol_owner`, if there is an owner to enrol.
unfoldable pub enrol_owner : Task → Option ℕ → Command (Unit {0})
unfolding enrol_participant
enrol_owner task none = pure tt
enrol_owner task (some owner_id) = enrol_participant task.dr_event_id owner_id "BLOCKER_OWNER"

abbrev pub or_kept : Option ℕ → Option ℕ → Option ℕ
or_kept none kept = kept
or_kept (some i) kept = some i

unfoldable pub assign :
    (actor_id blocker_id expected_version : ℕ) (team_id assignee_user_id : Option ℕ)
    → Command Blocker
unfolding load_blocker actor_may_route_blocker check_team check_assignee resolve_escalations
    enrol_owner finish_blocker
assign actor_id blocker_id expected_version team_id assignee_user_id = do
  at ← now
  (task, blocker) ← load_blocker actor_id blocker_id
  allowed ← query (actor_may_route_blocker actor_id task blocker team_id assignee_user_id at)
  guard allowed authorization_required
  guard (blocker.version == expected_version) concurrency_conflict
  guard (assignable blocker.status) (invalid_blocker_transition "assign" blocker.status)
  guard (is_some team_id || is_some assignee_user_id) blocker_routing_required
  check_team team_id
  check_assignee team_id assignee_user_id at
  when (is_open_status blocker.status) (resolve_escalations blocker.id at)
  enrol_owner task assignee_user_id
  finish_blocker
      (record blocker {
        status = assigned;
        blocker_team_id = or_kept team_id blocker.blocker_team_id;
        blocker_owner_user_id = assignee_user_id;
      })
      task actor_id (blocker_snapshot blocker) "BLOCKER_ASSIGNED"

-- `if blocker.blocker_owner_user_id is None`: whom a claim enrols.
abbrev pub claimant : Option ℕ → ℕ → Option ℕ
claimant none actor_id = some actor_id
claimant (some owner) actor_id = none

unfoldable pub start_blocker : (actor_id blocker_id expected_version : ℕ) → Command Blocker
unfolding load_blocker actor_may_start_blocker enrol_owner finish_blocker
start_blocker actor_id blocker_id expected_version = do
  at ← now
  (task, blocker) ← load_blocker actor_id blocker_id
  allowed ← query (actor_may_start_blocker actor_id task blocker at)
  guard allowed authorization_required
  guard (blocker.version == expected_version) concurrency_conflict
  guard (startable blocker.status) (invalid_blocker_transition "start" blocker.status)
  enrol_owner task (claimant blocker.blocker_owner_user_id actor_id)
  finish_blocker
      (record blocker {
        status = in_progress;
        claimed_at = some at;
        blocker_owner_user_id = or_kept blocker.blocker_owner_user_id (some actor_id);
      })
      task actor_id (blocker_snapshot blocker) "BLOCKER_STARTED"

unfoldable pub resolve_blocker :
    (actor_id blocker_id expected_version : ℕ) (resolution_note : Option String) → Command Blocker
unfolding load_blocker actor_may_resolve_blocker finish_blocker clean
resolve_blocker actor_id blocker_id expected_version resolution_note = do
  at ← now
  (task, blocker) ← load_blocker actor_id blocker_id
  allowed ← query (actor_may_resolve_blocker actor_id task blocker at)
  guard allowed authorization_required
  guard (blocker.version == expected_version) concurrency_conflict
  guard (resolvable blocker.status) (invalid_blocker_transition "resolve" blocker.status)
  finish_blocker
      (record blocker {
        status = resolved;
        resolved_at = some at;
        resolution_note = clean resolution_note;
      })
      task actor_id (blocker_snapshot blocker) "BLOCKER_RESOLVED"

-- The end of `verify`: the last active Blocker returns its Task.
unfoldable pub resume_if_last : Task → (actor_id blocker_id : ℕ) → Command (Unit {0})
unfolding count_active_blockers resume_after_last_blocker
resume_if_last task actor_id blocker_id = do
  left ← query (λ s. ok (count_active_blockers s task.id))
  choose (is_blocked task.status && (left == 0))
      (resume_after_last_blocker task.id actor_id blocker_id >>= (λ t. pure tt)) (pure tt)

unfoldable pub verify : (actor_id blocker_id expected_version : ℕ) → Command Blocker
unfolding load_blocker actor_may_verify_blocker finish_blocker resume_if_last
verify actor_id blocker_id expected_version = do
  at ← now
  (task, blocker) ← load_blocker actor_id blocker_id
  allowed ← query (actor_may_verify_blocker actor_id task blocker at)
  guard allowed authorization_required
  guard (blocker.version == expected_version) concurrency_conflict
  guard (verifiable blocker.status) (invalid_blocker_transition "verify" blocker.status)
  checked ←
      finish_blocker (record blocker { status = verified; verified_at = some at }) task actor_id
        (blocker_snapshot blocker) "BLOCKER_VERIFIED"
  shut ←
      finish_blocker (record checked { status = closed; closed_at = some at }) task actor_id
        (blocker_snapshot checked) "BLOCKER_CLOSED"
  resume_if_last task actor_id shut.id
  pure shut
