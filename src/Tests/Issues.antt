-- ===== src/Tests/Issues.antt =====
-- An Issue of the sample Event, resolved with a note.
use syntrix_dr.Prelude.{ℕ, ◌≡◌, refl, none, some, [], ◌∷◌}
use syntrix_dr.Prelude.Text.{clean}
use syntrix_dr.Db.{
  Session, IssueFinding, IssueStatus, issue_open, issue_dismissed, planned, get_row,
}
use syntrix_dr.Db.Writing.{◌>>=◌, query, guard, expect, now, write_audit, write_outbox}
use syntrix_dr.Db.Writing.Steps.{done}
use syntrix_dr.Access.Roles.{list_active_roles}
use syntrix_dr.Access.Authorization.{can, global_admin_role_is_effective}
use syntrix_dr.Access.Visibility.{user_can_see_event}
use syntrix_dr.Issues.{resolve_issue}
use syntrix_dr.Issues.Moves.{Apart}
use syntrix_dr.Issues.Machine.{resolves, none_yet, then_step, IssueStep-Apart, IssueSteps-closed}
use syntrix_dr.Tests.Samples.{initial, value_of, state_of}
use syntrix_dr.Tests.Events.{event}

abbrev issue_of : (id : ℕ) → IssueStatus → IssueFinding
issue_of id status = record {
  id = id;
  dr_event_id = 5;
  dr_application_id = none;
  work_stream_id = none;
  task_id = some 11;
  item_type = "RISK";
  status = status;
  title = "Tape drive";
  description = "Slow restore";
  priority = none;
  owner_user_id = none;
  resolution_note = none;
  version = 1;
  created_by_user_id = 1;
  created_at = 0;
  updated_at = 0;
  resolved_at = none;
  deleted_at = none;
}

abbrev with_issues : Session
with_issues = record initial {
  events = event planned ∷ [];
  issues = issue_of 70 issue_open ∷ issue_of 71 issue_dismissed ∷ [];
}

abbrev resolved_row : IssueFinding
resolved_row =
    value_of (resolve_issue 1 70 1 (some "Replaced") with_issues) (issue_of 70 issue_open)

abbrev after_resolution : Session
after_resolution = state_of (resolve_issue 1 70 1 (some "Replaced") with_issues)

resolution-runs :
    resolve_issue 1 70 1 (some "Replaced") with_issues ≡ done resolved_row after_resolution
unfolding resolve_issue query guard expect now write_audit write_outbox ◌>>=◌ list_active_roles
    global_admin_role_is_effective can clean user_can_see_event
resolution-runs = refl

IssueStep-Apart_example : Apart with_issues after_resolution
IssueStep-Apart_example =
    IssueStep-Apart with_issues after_resolution
      (resolves 1 70 1 (some "Replaced") resolved_row resolution-runs)

IssueSteps-closed_example :
    get_row (λ r. r.id) 71 after_resolution.issues ≡ some (issue_of 71 issue_dismissed)
unfolding get_row
IssueSteps-closed_example =
    IssueSteps-closed with_issues after_resolution 71 (issue_of 71 issue_dismissed)
      (then_step none_yet (resolves 1 70 1 (some "Replaced") resolved_row resolution-runs)) refl
      refl
