-- ===== src/Milestones/Derivation.antt =====
-- `derive_target` of milestones/transition_service.py, and what it reads (milestones/queries.py).
use syntrix_dr.Prelude.{
  ℕ, Bool, true, false, not, ◌&&◌, none, some, List, [], ◌∷◌, map, ◌==◌, any, all, select, sorted,
  if◌then◌else◌,
}
use syntrix_dr.Db.{
  Session, TaskStatus, MilestoneStatus, at_risk, ready_for_confirmation, achieved, missed,
  MilestoneTask,
}
use syntrix_dr.Tasks.Loads.{live_task, live_milestone}
use syntrix_dr.Tasks.Readiness.{is_not_started, is_completed}

abbrev pub is_blocked : TaskStatus → Bool
is_blocked TaskStatus.blocked = true
is_blocked _ = false

-- `TERMINAL`
abbrev pub is_terminal : MilestoneStatus → Bool
is_terminal achieved = true
is_terminal missed = true
is_terminal _ = false

-- `_DERIVED_LEGAL`: the moves that a derivation may make.
unfoldable pub derived_legal : MilestoneStatus → MilestoneStatus → Bool
derived_legal MilestoneStatus.not_started MilestoneStatus.in_progress = true
derived_legal MilestoneStatus.not_started at_risk = true
derived_legal MilestoneStatus.not_started ready_for_confirmation = true
derived_legal MilestoneStatus.in_progress at_risk = true
derived_legal MilestoneStatus.in_progress ready_for_confirmation = true
derived_legal at_risk MilestoneStatus.in_progress = true
derived_legal at_risk ready_for_confirmation = true
derived_legal _ _ = false

-- The status that the contributors alone would give.
unfoldable pub wanted : List (TaskStatus × Bool) → MilestoneStatus
wanted contributors =
    let required = select (λ c. c.1) contributors in
    if all (λ c. is_completed c.0) required
    then ready_for_confirmation
    else if any (λ c. is_blocked c.0) required
    then at_risk
    else if any (λ c. not (is_not_started c.0)) contributors
    then MilestoneStatus.in_progress
    else MilestoneStatus.not_started

unfoldable pub derive_target : MilestoneStatus → List (TaskStatus × Bool) → MilestoneStatus
unfolding derived_legal wanted
derive_target current contributors =
    let target = wanted contributors in if derived_legal current target then target else current

-- The rows of one Milestone, each with the status of its live Task.
unfoldable pub contributors_in : Session → ℕ → List MilestoneTask → List (TaskStatus × Bool)
unfolding live_task
contributors_in s milestone_id [] = []
contributors_in s milestone_id (c ∷ cs) =
    let rest = contributors_in s milestone_id cs in
    if c.milestone_id == milestone_id
    then elim (live_task s c.task_id) [
      | none ↦ rest
      | some task ↦ (task.status, c.is_required) ∷ rest
    ]
    else rest

unfoldable pub contributor_states : Session → ℕ → List (TaskStatus × Bool)
unfolding contributors_in
contributor_states s milestone_id = contributors_in s milestone_id s.milestone_tasks

abbrev pub is_live : Session → ℕ → Bool
is_live s milestone_id = elim (live_milestone s milestone_id) [ none ↦ false | some m ↦ true ]

-- `ORDER BY milestones.id`: the order in which they are locked.
unfoldable pub milestone_ids_for_task : Session → ℕ → List ℕ
unfolding live_milestone sorted
milestone_ids_for_task s task_id = sorted (
    map (λ c. c.milestone_id)
      (select (λ c. (c.task_id == task_id) && is_live s c.milestone_id) s.milestone_tasks))
