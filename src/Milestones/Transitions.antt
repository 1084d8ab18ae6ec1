-- ===== src/Milestones/Transitions.antt =====
-- `MilestoneTransitionService` (milestones/transition_service.py) and `on_task_changed`
-- (milestones/commands.py).
pub mod Frame
pub mod Machine
use syntrix_dr.Prelude.{
  ℕ, String, Bool, true, false, not, ◌&&◌, ◌||◌, Option, none, some, List, [], ◌∷◌, ◌++◌, ◌+◌, ◌==◌,
  any, if◌then◌else◌,
}
use syntrix_dr.Db.{
  TaskStatus, Session, Command, ok, milestone_not_found, authorization_required,
  concurrency_conflict, invalid_milestone_transition, Milestone, MilestoneStatus, at_risk,
  ready_for_confirmation, achieved, missed, ConfirmationMode, automatic, manual, put_row,
  milestone_target, milestone_changed, ActorType, user_actor, system_actor, Payload, Json, null,
  bool, number, string, uuid, time, PolicyJson, policy_bool, stream_scope,
}
use syntrix_dr.Db.Writing.{
  ◌>>=◌, ◌>>◌, pure, query, modify, guard, choose, expect, now, write_audit, write_outbox,
}
use syntrix_dr.Access.Grants.{confirm_shared_milestone}
use syntrix_dr.Access.Roles.{is_work_stream_lead}
use syntrix_dr.Access.Authorization.{no_scope, typed_scope, can}
use syntrix_dr.Access.Visibility.{user_can_see_event}
use syntrix_dr.Access.Policies.{resolve}
use syntrix_dr.Tasks.Policies.{application_id_of}
use syntrix_dr.Tasks.Loads.{live_milestone}
use syntrix_dr.Milestones.Derivation.{
  is_terminal, derive_target, contributor_states, milestone_ids_for_task,
}

abbrev pub milestone_status_name : MilestoneStatus → String
milestone_status_name MilestoneStatus.not_started = "NOT_STARTED"
milestone_status_name MilestoneStatus.in_progress = "IN_PROGRESS"
milestone_status_name at_risk = "AT_RISK"
milestone_status_name ready_for_confirmation = "READY_FOR_CONFIRMATION"
milestone_status_name achieved = "ACHIEVED"
milestone_status_name missed = "MISSED"

abbrev pub milestone_status_eq : MilestoneStatus → MilestoneStatus → Bool
milestone_status_eq MilestoneStatus.not_started MilestoneStatus.not_started = true
milestone_status_eq MilestoneStatus.in_progress MilestoneStatus.in_progress = true
milestone_status_eq at_risk at_risk = true
milestone_status_eq ready_for_confirmation ready_for_confirmation = true
milestone_status_eq achieved achieved = true
milestone_status_eq missed missed = true
milestone_status_eq _ _ = false

abbrev pub is_ready : MilestoneStatus → Bool
is_ready ready_for_confirmation = true
is_ready _ = false

-- `_DERIVED_ACTION.get((current, target), "MILESTONE_READY_FOR_CONFIRMATION")`
abbrev pub derived_action : MilestoneStatus → MilestoneStatus → String
derived_action MilestoneStatus.not_started MilestoneStatus.in_progress = "MILESTONE_STARTED"
derived_action at_risk MilestoneStatus.in_progress = "MILESTONE_BACK_ON_TRACK"
derived_action MilestoneStatus.not_started at_risk = "MILESTONE_AT_RISK"
derived_action MilestoneStatus.in_progress at_risk = "MILESTONE_AT_RISK"
derived_action _ _ = "MILESTONE_READY_FOR_CONFIRMATION"

-- `_snapshot`
abbrev pub milestone_snapshot : Milestone → Payload
milestone_snapshot m =
    ("status", string (milestone_status_name m.status)) ∷ ("version", number m.version) ∷ []

unfoldable pub save_milestone : Milestone → Command (Unit {0})
unfolding put_row
save_milestone m = modify (λ s. record s { milestones = put_row (λ r. r.id) m s.milestones })

-- `_finish`: the version, the row, the audit row and the outbox row.
unfoldable pub finish_milestone :
    (milestone : Milestone) (actor_id : Option ℕ) (before : Payload) (action : String)
    (extra metadata : Payload) (actor_type : ActorType)
    → Command Milestone
unfolding save_milestone
finish_milestone milestone actor_id before action extra metadata actor_type = do
  at ← now
  let moved : Milestone = record milestone { version = milestone.version + 1; updated_at = at }
  save_milestone moved
  write_audit record {
    dr_event_id = some moved.dr_event_id;
    actor_user_id = actor_id;
    actor_type = actor_type;
    entity_type = milestone_target;
    entity_id = moved.id;
    action = action;
    before_data = some before;
    after_data = some (milestone_snapshot moved ++ extra);
    metadata = metadata;
  }
  write_outbox milestone_target moved.id milestone_changed
      (("change", string action) ∷ (milestone_snapshot moved ++ extra)) (some moved.dr_event_id)
  pure moved

-- `value is True`
abbrev pub is_true : PolicyJson → Bool
is_true (policy_bool b) = b
is_true _ = false

unfoldable pub auto_confirm_allowed : Session → Milestone → Bool
unfolding resolve application_id_of
auto_confirm_allowed s milestone = is_true (
    resolve s "milestone.auto_confirm_allowed" (some milestone.dr_event_id) milestone.work_stream_id
      (application_id_of s milestone.dr_application_id))

abbrev pub is_automatic : ConfirmationMode → Bool
is_automatic automatic = true
is_automatic manual = false

-- `if target == READY: milestone.ready_for_confirmation_at = clock.now()`
unfoldable pub ready_time : Milestone → MilestoneStatus → Command (Option ℕ)
ready_time milestone target =
    choose (is_ready target) (now >>= (λ t. pure (some t)))
      (pure milestone.ready_for_confirmation_at)

-- The derived move of `recompute`, if there is one.
unfoldable pub derive_move :
    (milestone : Milestone) (target : MilestoneStatus) (actor_id trigger_task_id : ℕ)
    → Command Milestone
unfolding ready_time finish_milestone
derive_move milestone target actor_id trigger_task_id = do
  ready_at ← ready_time milestone target
  finish_milestone (record milestone { status = target; ready_for_confirmation_at = ready_at })
      (some actor_id) (milestone_snapshot milestone) (derived_action milestone.status target) []
      (("trigger_task_id", uuid trigger_task_id) ∷ []) user_actor

unfoldable pub auto_confirm :
    (milestone : Milestone) (actor_id trigger_task_id : ℕ) → Command Milestone
unfolding finish_milestone
auto_confirm milestone actor_id trigger_task_id = do
  at ← now
  finish_milestone (record milestone { status = achieved; achieved_at = some at }) (some actor_id)
      (milestone_snapshot milestone) "MILESTONE_ACHIEVED" (("auto_confirmed", bool true) ∷ [])
      (("trigger_task_id", uuid trigger_task_id) ∷ []) user_actor

-- D-225: only an AUTOMATIC Milestone, only under the policy, and not if nothing is required.
unfoldable pub confirm_if_allowed :
    (milestone : Milestone) (target : MilestoneStatus) (contributors : List (TaskStatus × Bool))
    (actor_id trigger_task_id : ℕ)
    → Command Milestone
unfolding auto_confirm auto_confirm_allowed
confirm_if_allowed milestone target contributors actor_id trigger_task_id = do
  allowed ← query (λ s. ok (auto_confirm_allowed s milestone))
  choose
      (is_ready milestone.status
        && is_ready target
        && is_automatic milestone.confirmation_mode
        && any (λ c. c.1) contributors
        && allowed)
      (auto_confirm milestone actor_id trigger_task_id) (pure milestone)

-- `recompute` of a live Milestone that is not terminal.
unfoldable pub recompute_live :
    (milestone : Milestone) (actor_id trigger_task_id : ℕ) → Command Milestone
unfolding contributor_states derive_target derive_move confirm_if_allowed
recompute_live milestone actor_id trigger_task_id = do
  contributors ← query (λ s. ok (contributor_states s milestone.id))
  let target = derive_target milestone.status contributors
  moved ←
      choose (milestone_status_eq target milestone.status) (pure milestone)
        (derive_move milestone target actor_id trigger_task_id)
  confirm_if_allowed moved target contributors actor_id trigger_task_id

unfoldable pub recompute_found :
    (found : Option Milestone) (actor_id trigger_task_id : ℕ) → Command (Option Milestone)
unfolding recompute_live
recompute_found none actor_id trigger_task_id = pure none
recompute_found (some milestone) actor_id trigger_task_id =
    choose (is_terminal milestone.status) (pure (some milestone))
      (recompute_live milestone actor_id trigger_task_id >>= (λ m. pure (some m)))

-- `recompute`, called with the Task that changed.
unfoldable pub recompute : (milestone_id actor_id trigger_task_id : ℕ) → Command (Option Milestone)
unfolding live_milestone recompute_found
recompute milestone_id actor_id trigger_task_id = do
  found ← query (λ s. ok (live_milestone s milestone_id))
  recompute_found found actor_id trigger_task_id

unfoldable pub recompute_each : List ℕ → (actor_id task_id : ℕ) → Command (Unit {0})
unfolding recompute
recompute_each [] actor_id task_id = pure tt
recompute_each (m ∷ ms) actor_id task_id = do
  recompute m actor_id task_id
  recompute_each ms actor_id task_id

-- `on_task_changed`
unfoldable pub on_task_changed : (task_id actor_id : ℕ) → Command (Unit {0})
unfolding milestone_ids_for_task recompute_each
on_task_changed task_id actor_id = do
  milestone_ids ← query (λ s. ok (milestone_ids_for_task s task_id))
  recompute_each milestone_ids actor_id task_id

-- `_in_milestone_stream` for "Confirm shared Milestone".
unfoldable pub actor_may_confirm_milestone : Session → ℕ → Milestone → Bool
unfolding can is_work_stream_lead
actor_may_confirm_milestone s actor_id milestone =
    can s actor_id confirm_shared_milestone no_scope || elim milestone.work_stream_id [
      | none ↦ false
      | some stream ↦
          can s actor_id confirm_shared_milestone (typed_scope stream_scope (some stream))
          || is_work_stream_lead s stream actor_id
    ]

-- The live Milestone, if its Event is visible.
unfoldable pub lock_visible_milestone : Session → ℕ → ℕ → Option Milestone
unfolding live_milestone user_can_see_event
lock_visible_milestone s actor_id milestone_id = elim (live_milestone s milestone_id) [
  | none ↦ none
  | some m ↦ if user_can_see_event s actor_id m.dr_event_id then some m else none
]

unfoldable pub confirm : (actor_id milestone_id expected_version : ℕ) → Command Milestone
unfolding lock_visible_milestone actor_may_confirm_milestone finish_milestone
confirm actor_id milestone_id expected_version = do
  found ← query (λ s. ok (lock_visible_milestone s actor_id milestone_id))
  milestone ← expect found milestone_not_found
  allowed ← query (λ s. ok (actor_may_confirm_milestone s actor_id milestone))
  guard allowed authorization_required
  guard (milestone.version == expected_version) concurrency_conflict
  guard (is_ready milestone.status) (invalid_milestone_transition "confirm" milestone.status)
  at ← now
  finish_milestone (record milestone { status = achieved; achieved_at = some at }) (some actor_id)
      (milestone_snapshot milestone) "MILESTONE_ACHIEVED" (("auto_confirmed", bool false) ∷ []) []
      user_actor

abbrev pub time_or_null : Option ℕ → Json
time_or_null none = null
time_or_null (some t) = time t

unfoldable pub miss : (milestone_id : ℕ) → Command Milestone
unfolding live_milestone finish_milestone
miss milestone_id = do
  found ← query (λ s. ok (live_milestone s milestone_id))
  milestone ← expect found milestone_not_found
  guard (not (is_terminal milestone.status)) (invalid_milestone_transition "miss" milestone.status)
  finish_milestone (record milestone { status = missed }) none (milestone_snapshot milestone)
      "MILESTONE_MISSED" (("target_at", time_or_null milestone.target_at) ∷ []) [] system_actor
