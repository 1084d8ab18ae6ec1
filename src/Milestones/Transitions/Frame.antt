-- ===== src/Milestones/Transitions/Frame.antt =====
-- What re-deriving Milestones leaves alone: every table but `milestones`, the audit log and the outbox.
use syntrix_dr.Prelude.{ℕ, ◌≡◌, refl, ◌+◌, ◌∙◌, Bool, Option, none, some, List, [], ◌∷◌, String}
use syntrix_dr.Db.{achieved, TaskStatus, Session, Milestone, MilestoneStatus, Payload, ActorType}
use syntrix_dr.Db.Writing.Steps.{
  Ensures, after, after_now, after_asks, after_modify, after_pure, after_write_audit,
  after_write_outbox, after_choose, weaken,
}
use syntrix_dr.Milestones.Derivation.{is_terminal, contributor_states}
use syntrix_dr.Milestones.Transitions.{
  recompute_found, ready_time, confirm_if_allowed, finish_milestone, save_milestone, derive_move,
  auto_confirm, recompute_live, recompute, recompute_each, on_task_changed,
}

-- The session without what a Milestone's move writes.
abbrev pub apart_from_milestones : Session → Session
apart_from_milestones s = record s { milestones = []; audit = []; outbox = []; draws = 0 }

abbrev pub Framed : {A : Type 0} → Session → A → Session → Type 0
Framed s a s' = apart_from_milestones s' ≡ apart_from_milestones s

finish_milestone-Framed :
    (m : Milestone) (actor_id : Option ℕ) (before : Payload) (action : String)
    (extra metadata : Payload) (actor_type : ActorType) (s : Session)
    → Ensures (finish_milestone m actor_id before action extra metadata actor_type) s (Framed s)
unfolding finish_milestone save_milestone
finish_milestone-Framed m actor_id before action extra metadata actor_type s = after _ _ (
    after_now (
      after _ _ (
        after_modify _ (
          after _ _
            (after_write_audit _ (after _ _ (after_write_outbox _ _ _ _ _ (after_pure _ refl))))))))

pub after_ready_time :
    (m : Milestone) (target : MilestoneStatus) {s : Session} {Q : Option ℕ → Session → Type 0}
    → ((t : Option ℕ) (n : ℕ) → Q t (record s { draws = n }))
    → Ensures (ready_time m target) s Q
unfolding ready_time
after_ready_time m target h =
    after_choose _ _ _ (λ _. after _ _ (after_now (after_pure _ (h _ _))))
      (λ _. after_pure _ (h _ _))

derive_move-Framed :
    (m : Milestone) (target : MilestoneStatus) (actor_id task_id : ℕ) (s : Session)
    → Ensures (derive_move m target actor_id task_id) s (Framed s)
unfolding derive_move
derive_move-Framed m target actor_id task_id s = after (ready_time m target) _ (
    after_ready_time m target λ t n.
      weaken (Framed s)
        (finish_milestone-Framed (record m { status = target; ready_for_confirmation_at = t }) _ _ _
          _ _ _ (record s { draws = n }))
        λ _ _ e. e)

auto_confirm-Framed :
    (m : Milestone) (actor_id task_id : ℕ) (s : Session)
    → Ensures (auto_confirm m actor_id task_id) s (Framed s)
unfolding auto_confirm
auto_confirm-Framed m actor_id task_id s = after _ _ (
    after_now (
      finish_milestone-Framed
        (record m { status = achieved; achieved_at = some (s.clock_readings s.draws) }) _ _ _ _ _ _
        (record s { draws = s.draws + 1 })))

confirm_if_allowed-Framed :
    (m : Milestone) (target : MilestoneStatus) (contributors : List (TaskStatus × Bool))
    (actor_id task_id : ℕ) (s : Session)
    → Ensures (confirm_if_allowed m target contributors actor_id task_id) s (Framed s)
unfolding confirm_if_allowed
confirm_if_allowed-Framed m target contributors actor_id task_id s = after _ _ (
    after_asks _
      (after_choose _ _ _ (λ _. auto_confirm-Framed m actor_id task_id s) (λ _. after_pure _ refl)))

recompute_live-Framed :
    (m : Milestone) (actor_id task_id : ℕ) (s : Session)
    → Ensures (recompute_live m actor_id task_id) s (Framed s)
unfolding recompute_live
recompute_live-Framed m actor_id task_id s = after _ _ (
    after_asks _ (
      after _ _ (
        after_choose _ _ _
          (λ _. after_pure _ (confirm_if_allowed-Framed _ _ (contributor_states s m.id) _ _ s))
          (λ _. weaken _ (derive_move-Framed m _ actor_id task_id s) λ moved t e.
            weaken _ (confirm_if_allowed-Framed _ _ (contributor_states s m.id) _ _ t)
              λ _ u f. f ∙ e))))

recompute_found-Framed :
    (found : Option Milestone) (actor_id task_id : ℕ) (s : Session)
    → Ensures (recompute_found found actor_id task_id) s (Framed s)
unfolding recompute_found
recompute_found-Framed none actor_id task_id s = after_pure none refl
recompute_found-Framed (some m) actor_id task_id s =
    after_choose (is_terminal m.status) _ _ (λ _. after_pure (some m) refl)
      (λ _.
        after (recompute_live m actor_id task_id) _
          (weaken _ (recompute_live-Framed m actor_id task_id s) (λ m t e. after_pure (some m) e)))

recompute-Framed :
    (milestone_id actor_id task_id : ℕ) (s : Session)
    → Ensures (recompute milestone_id actor_id task_id) s (Framed s)
unfolding recompute
recompute-Framed milestone_id actor_id task_id s =
    after _ _ (after_asks _ (recompute_found-Framed _ actor_id task_id s))

recompute_each-Framed :
    (ids : List ℕ) (actor_id task_id : ℕ) (s : Session)
    → Ensures (recompute_each ids actor_id task_id) s (Framed s)
unfolding recompute_each
recompute_each-Framed [] actor_id task_id s = after_pure tt refl
recompute_each-Framed (m ∷ ms) actor_id task_id s = after _ _ (
    weaken _ (recompute-Framed m actor_id task_id s)
      λ _ t e. weaken _ (recompute_each-Framed ms actor_id task_id t) λ _ u f. f ∙ e)

pub on_task_changed-Framed :
    (task_id actor_id : ℕ) (s : Session) → Ensures (on_task_changed task_id actor_id) s (Framed s)
unfolding on_task_changed
on_task_changed-Framed task_id actor_id s =
    after _ _ (after_asks _ (recompute_each-Framed _ actor_id task_id s))
