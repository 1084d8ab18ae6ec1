-- ===== src/Issues/Creation.antt =====
-- `create_issue` of issues_findings/commands.py.
use syntrix_dr.Prelude.{
  ℕ, String, Bool, true, Option, none, some, [], ◌∷◌, ◌++◌, opt_eq, is_none, if◌then◌else◌,
}
use syntrix_dr.Prelude.Text.{strip}
use syntrix_dr.Db.{
  Session, Command, ok, authorization_required, dr_event_not_found, user_not_found,
  cross_event_reference, integrity_error, IssueFinding, issue_open, Payload, get_row, add_row,
  user_actor, issue_target, issue_changed, string, uuid, null, Json,
}
use syntrix_dr.Db.Writing.{
  ◌>>=◌, ◌>>◌, pure, query, modify, guard, expect, now, new_uuid, write_audit, write_outbox,
}
use syntrix_dr.Access.Visibility.{user_can_see_event}
use syntrix_dr.Tasks.Loads.{live_task}
use syntrix_dr.Blockers.Lifecycle.{is_user_active}
use syntrix_dr.Issues.{actor_may_create_issue, issue_snapshot}

-- `link is not None` and the linked row is not of this Event.
abbrev pub check_link :
    Option ℕ → Option ℕ → (dr_event_id : ℕ) (field : String) → Command (Unit {0})
check_link none event_of_row dr_event_id field = pure tt
check_link (some link) event_of_row dr_event_id field =
    guard (opt_eq event_of_row (some dr_event_id)) (cross_event_reference field)

abbrev pub event_of_application : Session → Option ℕ → Option ℕ
event_of_application s none = none
event_of_application s (some id) = elim (get_row (λ a. a.id) id s.applications) [
  | none ↦ none
  | some a ↦ some a.dr_event_id
]

-- A deleted Work Stream is no Work Stream.
abbrev pub event_of_stream : Session → Option ℕ → Option ℕ
event_of_stream s none = none
event_of_stream s (some id) = elim (get_row (λ w. w.id) id s.directory.work_streams) [
  | none ↦ none
  | some w ↦ if is_none w.deleted_at then some w.dr_event_id else none
]

abbrev pub event_of_task : Session → Option ℕ → Option ℕ
event_of_task s none = none
event_of_task s (some id) = elim (live_task s id) [ none ↦ none | some t ↦ some t.dr_event_id ]

abbrev pub owner_is_active : Session → Option ℕ → Bool
owner_is_active s none = true
owner_is_active s (some user_id) = is_user_active s user_id

abbrev pub id_or_null : Option ℕ → Json
id_or_null none = null
id_or_null (some id) = uuid id

unfoldable pub insert_issue : IssueFinding → Command (Unit {0})
unfolding add_row
insert_issue i = do
  added ← query (λ s. ok (add_row (λ r. r.id) i s.issues))
  rows ← expect added integrity_error
  modify (λ s. record s { issues = rows })

-- The links are looked up where they are checked.
unfoldable pub check_links :
    (dr_event_id : ℕ) (dr_application_id work_stream_id task_id owner_user_id : Option ℕ)
    → Command (Unit {0})
unfolding get_row live_task is_user_active
check_links dr_event_id dr_application_id work_stream_id task_id owner_user_id = do
  of_application ← query (λ s. ok (event_of_application s dr_application_id))
  check_link dr_application_id of_application dr_event_id "dr_application_id"
  of_stream ← query (λ s. ok (event_of_stream s work_stream_id))
  check_link work_stream_id of_stream dr_event_id "work_stream_id"
  of_task ← query (λ s. ok (event_of_task s task_id))
  check_link task_id of_task dr_event_id "task_id"
  active ← query (λ s. ok (owner_is_active s owner_user_id))
  guard active user_not_found

unfoldable pub create_issue :
    (actor_id dr_event_id : ℕ) (item_type title description : String) (priority : Option String)
    (dr_application_id work_stream_id task_id owner_user_id : Option ℕ)
    → Command IssueFinding
unfolding get_row user_can_see_event actor_may_create_issue check_links insert_issue strip
create_issue actor_id dr_event_id item_type title description priority dr_application_id
      work_stream_id task_id owner_user_id =
    do
      found ← query (λ s. ok (get_row (λ e. e.id) dr_event_id s.events))
      expect found dr_event_not_found
      visible ← query (λ s. ok (user_can_see_event s actor_id dr_event_id))
      guard visible dr_event_not_found
      allowed ← query (λ s. ok (actor_may_create_issue s actor_id work_stream_id dr_application_id))
      guard allowed authorization_required
      check_links dr_event_id dr_application_id work_stream_id task_id owner_user_id
      created ← now
      updated ← now
      id ← new_uuid
      let issue : IssueFinding = record {
        id = id;
        dr_event_id = dr_event_id;
        dr_application_id = dr_application_id;
        work_stream_id = work_stream_id;
        task_id = task_id;
        item_type = item_type;
        status = issue_open;
        title = strip title;
        description = strip description;
        priority = priority;
        owner_user_id = owner_user_id;
        resolution_note = none;
        version = 1;
        created_by_user_id = actor_id;
        created_at = created;
        updated_at = updated;
        resolved_at = none;
        deleted_at = none;
      }
      insert_issue issue
      let after : Payload =
          issue_snapshot issue
          ++ ("item_type", string item_type) ∷ ("task_id", id_or_null task_id) ∷ []
      write_audit record {
        dr_event_id = some dr_event_id;
        actor_user_id = some actor_id;
        actor_type = user_actor;
        entity_type = issue_target;
        entity_id = issue.id;
        action = "ISSUE_CREATED";
        before_data = none;
        after_data = some after;
        metadata = [];
      }
      write_outbox issue_target issue.id issue_changed (("change", string "ISSUE_CREATED") ∷ after)
          (some dr_event_id)
      pure issue
