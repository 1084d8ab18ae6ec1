-- ===== src/Issues.antt =====
-- Issues and Findings (issues_findings/): who handles them, how they are opened and closed.
pub mod Creation
pub mod Moves
pub mod Machine
use syntrix_dr.Prelude.{
  ℕ, ◌+◌, String, Bool, true, false, ◌&&◌, ◌||◌, Option, none, some, [], ◌∷◌, ◌++◌, ◌==◌, opt_eq,
  is_none, is_some, if◌then◌else◌,
}
use syntrix_dr.Prelude.Text.{clean, strip}
use syntrix_dr.Db.{
  Session, Command, ok, Error, authorization_required, concurrency_conflict, dr_event_not_found,
  user_not_found, issue_not_found, invalid_issue_transition, resolution_note_required,
  cross_event_reference, integrity_error, IssueFinding, IssueStatus, issue_open, issue_in_review,
  issue_resolved, issue_dismissed, DrApplication, WorkStream, Payload, get_row, put_row, add_row,
  stream_scope, application_scope, user_actor, issue_target, issue_changed, string, number, uuid,
  null, Json,
}
use syntrix_dr.Db.Writing.{
  ◌>>=◌, ◌>>◌, pure, query, modify, guard, expect, now, new_uuid, write_audit, write_outbox,
}
use syntrix_dr.Access.Grants.{create_issue_finding}
use syntrix_dr.Access.Roles.{is_work_stream_lead, is_system_application_owner}
use syntrix_dr.Access.Authorization.{can, no_scope, typed_scope}
use syntrix_dr.Access.Visibility.{user_can_see_event}
use syntrix_dr.Tasks.Loads.{live_task}
use syntrix_dr.Blockers.Lifecycle.{is_user_active}

-- The branch on `work_stream_id`.
unfoldable pub can_in_stream : Session → (actor_id : ℕ) → Option ℕ → Bool
unfolding can is_work_stream_lead
can_in_stream s actor_id none = false
can_in_stream s actor_id (some work_stream_id) =
    can s actor_id create_issue_finding (typed_scope stream_scope (some work_stream_id))
    || is_work_stream_lead s work_stream_id actor_id

-- The branch on `dr_application_id`.
unfoldable pub can_in_application : Session → (actor_id : ℕ) → Option ℕ → Bool
unfolding can is_system_application_owner get_row
can_in_application s actor_id none = false
can_in_application s actor_id (some dr_application_id) =
    elim (get_row (λ a. a.id) dr_application_id s.applications) [
      | none ↦ false
      | some a ↦
          can s actor_id create_issue_finding
            (typed_scope application_scope (some a.application_id))
          || is_system_application_owner s a.application_id actor_id
    ]

-- `_can_in_scopes`, which is `actor_may_create_issue` too.
unfoldable pub actor_may_create_issue :
    Session → (actor_id : ℕ) (work_stream_id dr_application_id : Option ℕ) → Bool
unfolding can can_in_stream can_in_application
actor_may_create_issue s actor_id work_stream_id dr_application_id =
    can s actor_id create_issue_finding no_scope
    || can_in_stream s actor_id work_stream_id
    || can_in_application s actor_id dr_application_id

unfoldable pub actor_may_handle_issue : Session → (actor_id : ℕ) → IssueFinding → Bool
unfolding actor_may_create_issue
actor_may_handle_issue s actor_id issue =
    (actor_id == issue.created_by_user_id)
    || opt_eq (some actor_id) issue.owner_user_id
    || actor_may_create_issue s actor_id issue.work_stream_id issue.dr_application_id

pub data IssueCommand : Type 0 where
  to_review to_resolve to_dismiss : IssueCommand

abbrev pub command_name : IssueCommand → String
command_name to_review = "review"
command_name to_resolve = "resolve"
command_name to_dismiss = "dismiss"

-- `_LEGAL_FROM`
unfoldable pub issue_legal_from : IssueCommand → IssueStatus → Bool
issue_legal_from to_review issue_open = true
issue_legal_from to_resolve issue_open = true
issue_legal_from to_resolve issue_in_review = true
issue_legal_from to_dismiss issue_open = true
issue_legal_from to_dismiss issue_in_review = true
issue_legal_from _ _ = false

abbrev pub issue_status_name : IssueStatus → String
issue_status_name issue_open = "OPEN"
issue_status_name issue_in_review = "IN_REVIEW"
issue_status_name issue_resolved = "RESOLVED"
issue_status_name issue_dismissed = "DISMISSED"

unfoldable pub lock_issue : Session → ℕ → Option IssueFinding
unfolding get_row
lock_issue s issue_id = elim (get_row (λ i. i.id) issue_id s.issues) [
  | none ↦ none
  | some i ↦ if is_none i.deleted_at then some i else none
]

-- `_load`: an Issue of an Event that the actor does not see is not found.
unfoldable pub load_issue : (actor_id issue_id : ℕ) → Command IssueFinding
unfolding lock_issue user_can_see_event
load_issue actor_id issue_id = do
  found ← query (λ s. ok (lock_issue s issue_id))
  issue ← expect found issue_not_found
  visible ← query (λ s. ok (user_can_see_event s actor_id issue.dr_event_id))
  guard visible issue_not_found
  pure issue

unfoldable pub prepare_issue :
    (actor_id issue_id expected_version : ℕ) → IssueCommand → Command IssueFinding
unfolding load_issue actor_may_handle_issue issue_legal_from
prepare_issue actor_id issue_id expected_version command = do
  issue ← load_issue actor_id issue_id
  allowed ← query (λ s. ok (actor_may_handle_issue s actor_id issue))
  guard allowed authorization_required
  guard (issue.version == expected_version) concurrency_conflict
  guard (issue_legal_from command issue.status)
      (invalid_issue_transition (command_name command) issue.status)
  pure issue

unfoldable pub save_issue : IssueFinding → Command (Unit {0})
unfolding put_row
save_issue i = modify (λ s. record s { issues = put_row (λ r. r.id) i s.issues })

abbrev pub issue_snapshot : IssueFinding → Payload
issue_snapshot i =
    ("status", string (issue_status_name i.status)) ∷ ("version", number i.version) ∷ []

-- `_finish`: the version, the row, the audit row and the outbox row.
unfoldable pub finish_issue :
    IssueFinding
    → (actor_id : ℕ) (before : Payload) (action : String) (extra : Payload) → Command IssueFinding
unfolding save_issue
finish_issue issue actor_id before action extra = do
  at ← now
  let moved : IssueFinding = record issue { version = issue.version + 1; updated_at = at }
  save_issue moved
  write_audit record {
    dr_event_id = some moved.dr_event_id;
    actor_user_id = some actor_id;
    actor_type = user_actor;
    entity_type = issue_target;
    entity_id = moved.id;
    action = action;
    before_data = some before;
    after_data = some (issue_snapshot moved ++ extra);
    metadata = [];
  }
  write_outbox issue_target moved.id issue_changed
      (("change", string action) ∷ (issue_snapshot moved ++ extra)) (some moved.dr_event_id)
  pure moved

unfoldable pub review : (actor_id issue_id expected_version : ℕ) → Command IssueFinding
unfolding prepare_issue finish_issue
review actor_id issue_id expected_version = do
  issue ← prepare_issue actor_id issue_id expected_version to_review
  finish_issue (record issue { status = issue_in_review }) actor_id (issue_snapshot issue)
      "ISSUE_IN_REVIEW" []

-- `_close`
unfoldable pub close_issue :
    (actor_id issue_id expected_version : ℕ) (note : Option String) (command : IssueCommand)
    (target : IssueStatus) (action : String)
    → Command IssueFinding
unfolding prepare_issue finish_issue clean
close_issue actor_id issue_id expected_version note command target action = do
  issue ← prepare_issue actor_id issue_id expected_version command
  clean_note ← expect (clean note) (resolution_note_required (command_name command))
  at ← now
  finish_issue
      (record issue { status = target; resolution_note = some clean_note; resolved_at = some at })
      actor_id (issue_snapshot issue) action (("note", string clean_note) ∷ [])

unfoldable pub resolve_issue :
    (actor_id issue_id expected_version : ℕ) (note : Option String) → Command IssueFinding
unfolding close_issue
resolve_issue actor_id issue_id expected_version note =
    close_issue actor_id issue_id expected_version note to_resolve issue_resolved "ISSUE_RESOLVED"

unfoldable pub dismiss_issue :
    (actor_id issue_id expected_version : ℕ) (note : Option String) → Command IssueFinding
unfolding close_issue
dismiss_issue actor_id issue_id expected_version note =
    close_issue actor_id issue_id expected_version note to_dismiss issue_dismissed "ISSUE_DISMISSED"
