-- ===== src/Lib.antt =====
-- SyntrixDR runs disaster-recovery Events: an Event has Tasks, wired by dependencies, Milestones that gate
-- them, Blockers that hold them, and Validations that complete them. The program is the FastAPI back end
-- under apps/api/app; the library models its core as pure functions over one database session.
--
-- How a command is modelled. `Session` (Db/Store) is the tables as lists of rows, with the readings of the
-- clock and the supply of new UUIDs as functions of a counter. UUIDs and times are numbers. A command
-- (Db/Monad, Db/Writing) maps a session to a result and a session, or to an error without a session: an
-- error rolls the transaction back (core/uow.py). A read (Db/Reading) may raise and changes nothing. An
-- UPDATE, an INSERT and a `session.get` are the functions of Db/Table; the primary key refuses a second row
-- of the same id. Row locks, the advisory lock of the dependency graph and flushes change no row and are
-- left out: a command runs alone, as it does under its locks. Columns that no modelled code reads are left
-- out of the rows (Db/People, Db/Rows).
--
-- The parts and their files, with paths below apps/api/app:
--   Graph: `cycle_path` of tasks_dependencies/queries.py on a plain list of edges. Its loop runs on fuel, the
--     number of edges and one; each round takes a node off the queue, and a node enters it once.
--     Graph/Walks has walks and acyclicity, Graph/Trace the parent pointers, Graph/Scan one round. Graph/Kahn
--     is `has_cycle`, on fuel as large as the number of nodes; each round removes a node for good.
--   Access: users_teams_org/authorization.py and queries.py (Grants is the table GRANTS, Roles the reads,
--     Authorization the service, Authorization/Granted a grant in terms of the rows alone),
--     dr_events/participants.py (Visibility, Participants), policies_admin/queries.py (Policies).
--   Tasks: tasks_dependencies. Policies is policies.py; Readiness is derive_readiness and its reads; LiveGraph
--     is _live_graph_edges and find_cycle_path; Dependencies is dependency_service.py; Guards and Lifecycle
--     are transition_service.py (start_task is TaskTransitionService.start, and so on); Loads has the reads
--     that they share.
--   Milestones: derive_target and the reads (Derivation), recompute, confirm, miss and on_task_changed
--     (Transitions). Every Task command ends in on_task_changed, in the same transaction.
--   Blockers: blockers/commands.py and queries.py; Policies is policies.py, Lifecycle is transition_service.py
--     (start_blocker is BlockerTransitionService.start, and so on). `verify` ends in the Task service's
--     resumption; Blockers/Lifecycle/Machine joins the commands of both services. Alerts resolves the
--     escalation alerts (comments_mentions_notifications/commands.py).
--   Validations: validation_evidence/commands.py, queries.py and transition_service.py, as far as the Task and
--     the Application commands (Validations/Applications) call them.
--   Events: dr_events. Queries has the reads of several components; Readiness is readiness_service.py;
--     Lifecycle is DrEventTransitionService and Applications DrApplicationTransitionService of
--     transition_service.py; Creation is `create_event` of commands.py, with its participants, Applications
--     and Plan; Machine joins the commands of both, Guarantees says what their
--     guards give, and Refusals in which order they refuse; Descendants
--     searches the tree of Events, on fuel, one more than the Events, and each round that goes on finds a new one.
--     A row whose attributes are set one by one is written once, by the last write of the command.
--   Issues: issues_findings; `create_issue`, and IssueTransitionService (resolve_issue is its resolve);
--     Machine joins them.
--   Plans: Plans and their versions of plans_import/commands.py; `start_failover` captures the baseline here,
--     and Baselines follows the snapshot data there.
--   Files called Steps say what holds after each of these operations succeeds; proofs go through a command's
--     do block with them. Tests has a sample Event and the runs that the witnesses use.
--
-- Not modelled: the routes and schemas (HTTP glue); Task drafts, metadata and assignment;
-- idempotency keys; sign-in; the import of spreadsheets; comments and notifications; the web front end.
-- Races between transactions (the savepoint of `enrol_participant`) do not arise, since commands run alone.
-- `NoRecoveryMetricsYet`, the one RecoveryMetrics of the program, writes nothing and is left out.
-- The audit row's own id and time, which nothing reads, are left out.
-- An error is a value with what its details name; its text is not.
pub mod Plans
pub mod Issues
pub mod Prelude
pub mod Events
pub mod Graph
pub mod Db
pub mod Access
pub mod Tasks
pub mod Alerts
pub mod Blockers
pub mod Validations
pub mod Milestones
pub mod Tests
