-- ===== src/Milestones/Transitions/Machine.antt =====
-- The state machine of a Milestone, as far as the derived moves go.
use syntrix_dr.Prelude.{
  ℕ, ◌≡◌, refl, sym, ap, ◌∙◌, ◌+◌, ◌==◌, arith, Bool, true, false, Option, none, some, List, [],
  ◌∷◌, String, subst, if◌then◌else◌, Bool-cases, ◌⊎◌, inl, inr, ==_iff,
}
use syntrix_dr.Db.{
  Session, TaskStatus, Milestone, MilestoneStatus, at_risk, ready_for_confirmation, achieved,
  missed, Payload, ActorType, get_row, put_row, get-put_row, get_row-key,
}
use syntrix_dr.Db.Writing.Steps.{
  Ensures, done, after, after_now, after_asks, after_modify, after_pure, after_write_audit,
  after_write_outbox, after_choose, weaken,
}
use syntrix_dr.Tasks.Loads.{live_milestone}
use syntrix_dr.Milestones.Derivation.{
  is_terminal, wanted, derived_legal, derive_target, contributor_states,
}
use syntrix_dr.Milestones.Transitions.{
  finish_milestone, save_milestone, milestone_status_eq, is_ready, ready_time, derive_move,
  auto_confirm, confirm_if_allowed, recompute_live, recompute_found, recompute, recompute_each,
  on_task_changed,
}
use syntrix_dr.Milestones.Transitions.Frame.{after_ready_time}

-- The state machine of a Milestone, without `miss`: NOT_STARTED, IN_PROGRESS and AT_RISK lead to each
-- other, but not back to NOT_STARTED, and to READY_FOR_CONFIRMATION; this only to ACHIEVED; ACHIEVED and
-- MISSED to nothing.
pub data Arrow : MilestoneStatus → MilestoneStatus → Type 0 where
  begun : Arrow MilestoneStatus.not_started MilestoneStatus.in_progress
  threatened_early : Arrow MilestoneStatus.not_started at_risk
  ready_at_once : Arrow MilestoneStatus.not_started ready_for_confirmation
  threatened : Arrow MilestoneStatus.in_progress at_risk
  made_ready : Arrow MilestoneStatus.in_progress ready_for_confirmation
  recovered : Arrow at_risk MilestoneStatus.in_progress
  ready_after_risk : Arrow at_risk ready_for_confirmation
  confirmed : Arrow ready_for_confirmation achieved

legal-Arrow : (x y : MilestoneStatus) → derived_legal x y ≡ true → Arrow x y
unfolding derived_legal
legal-Arrow MilestoneStatus.not_started MilestoneStatus.in_progress e = begun
legal-Arrow MilestoneStatus.not_started at_risk e = threatened_early
legal-Arrow MilestoneStatus.not_started ready_for_confirmation e = ready_at_once
legal-Arrow MilestoneStatus.in_progress at_risk e = threatened
legal-Arrow MilestoneStatus.in_progress ready_for_confirmation e = made_ready
legal-Arrow at_risk MilestoneStatus.in_progress e = recovered
legal-Arrow at_risk ready_for_confirmation e = ready_after_risk
legal-Arrow x y e = absurd (ground (arith, e))

-- Where a row can have come by arrows, each with the version one higher.
pub data Onward (m : Milestone) : Milestone → Type 0 where
  stays : Onward m m
  moves :
      {x y : Milestone}
      → Onward m x
      → Arrow x.status y.status
      → y.version ≡ x.version + 1
      → Onward m y

Onward-trans : {a b c : Milestone} → Onward a b → Onward b c → Onward a c
Onward-trans p stays = p
Onward-trans p (moves q arrow v) = moves (Onward-trans p q) arrow v

-- Every Milestone is still there, and came by arrows.
abbrev pub AllOnward : Session → Session → Type 0
AllOnward s s' =
    (id : ℕ) (m : Milestone)
    → get_row (λ r. r.id) id s.milestones ≡ some m
    → (m' : Milestone) × (get_row (λ r. r.id) id s'.milestones ≡ some m') × Onward m m'

AllOnward-refl : (s s' : Session) → s'.milestones ≡ s.milestones → AllOnward s s'
AllOnward-refl s s' k id m e = (m, ap (get_row (λ r. r.id) id) k ∙ e, stays)

AllOnward-trans : (s t u : Session) → AllOnward s t → AllOnward t u → AllOnward s u
AllOnward-trans s t u p q id m e =
    let (m₁, e₁, o₁) = p id m e in let (m₂, e₂, o₂) = q id m₁ e₁ in (m₂, e₂, Onward-trans o₁ o₂)

-- One row is written in its place, one arrow on.
AllOnward-put_row :
    (s s' : Session) (m m' : Milestone)
    → get_row (λ r. r.id) m.id s.milestones ≡ some m
    → m'.id ≡ m.id
    → Arrow m.status m'.status
    → m'.version ≡ m.version + 1
    → s'.milestones ≡ put_row (λ r. r.id) m' s.milestones
    → AllOnward s s' × (get_row (λ r. r.id) m'.id s'.milestones ≡ some m')
AllOnward-put_row s s' m m' found same arrow version k = (
  λ id x e.
      let at = ap (get_row (λ r. r.id) id) k ∙ get-put_row (λ r. r.id) id m' s.milestones in
      elim (Bool-cases (m'.id == id)) [
        | inl h ↦
            let here : m.id ≡ id = sym same ∙ (==_iff m'.id id).0 h in
            let it : some x ≡ some m =
              sym e ∙ sym (ap (λ i. get_row (λ r. r.id) i s.milestones) here) ∙ found in
            (
              m',
              ground (arith, at, h, e),
              subst (λ y. Onward y m') (sym (some-eq it)) (moves stays arrow version),
            )
        | inr h ↦ (x, ground (arith, at, h, e), stays)
      ],
  let found' = ap (λ i. get_row (λ r. r.id) i s.milestones) same ∙ found in
      ap (get_row (λ r. r.id) m'.id) k
      ∙ get-put_row (λ r. r.id) m'.id m' s.milestones
      ∙ ground (arith, found'),
)
  where
    some-eq : {a b : Milestone} → some a ≡ some b → a ≡ b
    some-eq e = grind arith

after_finish_milestone :
    (m : Milestone) (actor_id : Option ℕ) (before : Payload) (action : String)
    (extra metadata : Payload) (actor_type : ActorType) {s : Session}
    {Q : Milestone → Session → Type 0}
    → ((at : ℕ) (s' : Session)
        → s'.milestones
          ≡ put_row (λ r. r.id) (record m { version = m.version + 1; updated_at = at }) s.milestones
        → Q (record m { version = m.version + 1; updated_at = at }) s')
    → Ensures (finish_milestone m actor_id before action extra metadata actor_type) s Q
unfolding finish_milestone save_milestone
after_finish_milestone m actor_id before action extra metadata actor_type h = after _ _ (
    after_now (
      after _ _ (
        after_modify _ (
          after _ _ (
            after_write_audit _
              (after _ _ (after_write_outbox _ _ _ _ _ (after_pure _ (h _ _ refl)))))))))

-- The row is in its table.
abbrev IsRow : Session → Milestone → Type 0
IsRow s m = get_row (λ r. r.id) m.id s.milestones ≡ some m

derive_move-Onward :
    (m : Milestone) (target : MilestoneStatus) (actor_id task_id : ℕ) (s : Session)
    → IsRow s m
    → derived_legal m.status target ≡ true
    → Ensures (derive_move m target actor_id task_id) s (λ m' s'. AllOnward s s' × IsRow s' m')
unfolding derive_move
derive_move-Onward m target actor_id task_id s found legal = after (ready_time m target) _ (
    after_ready_time m target λ t n.
      weaken (λ m' s'. AllOnward s s' × IsRow s' m')
        (after_finish_milestone (record m { status = target; ready_for_confirmation_at = t }) _ _ _
          _ _ _ {s = record s { draws = n }} {Q = λ m' s'. AllOnward s s' × IsRow s' m'}
          λ at s' k.
            AllOnward-put_row s s' m _ found refl (legal-Arrow m.status target legal) refl k)
        λ _ _ p. p)

auto_confirm-Onward :
    (m : Milestone) (actor_id task_id : ℕ) (s : Session)
    → IsRow s m
    → is_ready m.status ≡ true
    → Ensures (auto_confirm m actor_id task_id) s (λ m' s'. AllOnward s s')
unfolding auto_confirm
auto_confirm-Onward m actor_id task_id s found ready_now = after _ _ (
    after_now (
      after_finish_milestone
        (record m { status = achieved; achieved_at = some (s.clock_readings s.draws) }) _ _ _ _ _ _
        {s = record s { draws = s.draws + 1 }} {Q = λ m' s'. AllOnward s s'}
        λ at s' k.
          (AllOnward-put_row s s' m _ found refl (is-ready-arrow m.status ready_now) refl k).0))
  where
    is-ready-arrow : (x : MilestoneStatus) → is_ready x ≡ true → Arrow x achieved
    is-ready-arrow ready_for_confirmation e = confirmed
    is-ready-arrow x e = absurd (ground (arith, e))

confirm_if_allowed-Onward :
    (m : Milestone) (target : MilestoneStatus) (contributors : List (TaskStatus × Bool))
    (actor_id task_id : ℕ) (s : Session)
    → IsRow s m
    → Ensures
        (confirm_if_allowed m target contributors actor_id task_id)
        s
        (λ m' s'. AllOnward s s')
unfolding confirm_if_allowed
confirm_if_allowed-Onward m target contributors actor_id task_id s found = after _ _ (
    after_asks _ (
      after_choose _ _ _ (λ b. auto_confirm-Onward m actor_id task_id s found (ground (arith, b)))
        (λ _. after_pure _ (AllOnward-refl s s refl))))

-- A target that differs from the current status is a derived move.
derive_target-legal :
    (current : MilestoneStatus) (contributors : List (TaskStatus × Bool))
    → milestone_status_eq (derive_target current contributors) current ≡ false
    → derived_legal current (derive_target current contributors) ≡ true
unfolding derive_target
derive_target-legal current contributors e = split current (wanted contributors) e
  where
    split :
        (x w : MilestoneStatus)
        → milestone_status_eq (if derived_legal x w then w else x) x ≡ false
        → derived_legal x (if derived_legal x w then w else x) ≡ true
    split x w d = elim (Bool-cases (derived_legal x w)) [
      | inl h ↦ ground (arith, h)
      | inr h ↦ absurd (ground (arith, same x, h, d))
    ]
      where
        same : (y : MilestoneStatus) → milestone_status_eq y y ≡ true
        same y = ground arith

recompute_live-Onward :
    (m : Milestone) (actor_id task_id : ℕ) (s : Session)
    → IsRow s m
    → Ensures (recompute_live m actor_id task_id) s (λ m' s'. AllOnward s s')
unfolding recompute_live
recompute_live-Onward m actor_id task_id s found = after _ _ (
    after_asks _ (
      after _ _ (
        after_choose _ _ _
          (λ _.
            after_pure _ (confirm_if_allowed-Onward _ _ (contributor_states s m.id) _ _ s found))
          (λ d.
            weaken _
              (derive_move-Onward m _ actor_id task_id s found
                (derive_target-legal m.status (contributor_states s m.id) d))
              λ moved t (p, here).
                weaken _ (confirm_if_allowed-Onward _ _ (contributor_states s m.id) _ _ t here)
                  λ _ u q. AllOnward-trans s t u p q))))

recompute_found-Onward :
    (found : Option Milestone) (actor_id task_id : ℕ) (s : Session)
    → ((m : Milestone) → found ≡ some m → IsRow s m)
    → Ensures (recompute_found found actor_id task_id) s (λ m' s'. AllOnward s s')
unfolding recompute_found
recompute_found-Onward none actor_id task_id s row = after_pure none (AllOnward-refl s s refl)
recompute_found-Onward (some m) actor_id task_id s row =
    after_choose (is_terminal m.status) _ _ (λ _. after_pure (some m) (AllOnward-refl s s refl))
      (λ _. after (recompute_live m actor_id task_id) _ (
        weaken _ (recompute_live-Onward m actor_id task_id s (row m refl))
          (λ m' t p. after_pure (some m') p)))

live-IsRow : (s : Session) (id : ℕ) (m : Milestone) → live_milestone s id ≡ some m → IsRow s m
unfolding live_milestone
live-IsRow s id m e =
    let found : get_row (λ r. r.id) id s.milestones ≡ some m = ground (arith, e) in
    ap (λ i. get_row (λ r. r.id) i s.milestones) (get_row-key (λ r. r.id) id s.milestones m found)
    ∙ found

recompute-Onward :
    (milestone_id actor_id task_id : ℕ) (s : Session)
    → Ensures (recompute milestone_id actor_id task_id) s (λ m' s'. AllOnward s s')
unfolding recompute
recompute-Onward milestone_id actor_id task_id s =
    after _ _
      (after_asks _ (recompute_found-Onward _ actor_id task_id s (live-IsRow s milestone_id)))

recompute_each-Onward :
    (ids : List ℕ) (actor_id task_id : ℕ) (s : Session)
    → Ensures (recompute_each ids actor_id task_id) s (λ _ s'. AllOnward s s')
unfolding recompute_each
recompute_each-Onward [] actor_id task_id s = after_pure tt (AllOnward-refl s s refl)
recompute_each-Onward (i ∷ ids) actor_id task_id s = after _ _ (
    weaken _ (recompute-Onward i actor_id task_id s) λ _ t p.
      weaken _ (recompute_each-Onward ids actor_id task_id t) λ _ u q. AllOnward-trans s t u p q)

on_task_changed-Ensures :
    (task_id actor_id : ℕ) (s : Session)
    → Ensures (on_task_changed task_id actor_id) s (λ _ s'. AllOnward s s')
unfolding on_task_changed
on_task_changed-Ensures task_id actor_id s =
    after _ _ (after_asks _ (recompute_each-Onward _ actor_id task_id s))

-- Where a Milestone cannot come from what it was: one that was ACHIEVED or MISSED keeps its whole row,
-- and one that was READY_FOR_CONFIRMATION keeps its row or is ACHIEVED with the version one higher.
pub record Settled (m m' : Milestone) : Type 0 where
  pub achieved_stays : m.status ≡ achieved → m' ≡ m
  pub missed_stays : m.status ≡ missed → m' ≡ m
  pub ready_waits :
      m.status ≡ ready_for_confirmation
      → (m' ≡ m) ⊎ ((m'.status ≡ achieved) × (m'.version ≡ m.version + 1))

from-achieved : {x y : MilestoneStatus} → Arrow x y → x ≡ achieved → ⊥
from-achieved begun e = grind (arith, e)
from-achieved threatened_early e = grind (arith, e)
from-achieved ready_at_once e = grind (arith, e)
from-achieved threatened e = grind (arith, e)
from-achieved made_ready e = grind (arith, e)
from-achieved recovered e = grind (arith, e)
from-achieved ready_after_risk e = grind (arith, e)
from-achieved confirmed e = grind (arith, e)

from-missed : {x y : MilestoneStatus} → Arrow x y → x ≡ missed → ⊥
from-missed begun e = grind (arith, e)
from-missed threatened_early e = grind (arith, e)
from-missed ready_at_once e = grind (arith, e)
from-missed threatened e = grind (arith, e)
from-missed made_ready e = grind (arith, e)
from-missed recovered e = grind (arith, e)
from-missed ready_after_risk e = grind (arith, e)
from-missed confirmed e = grind (arith, e)

from-ready : {x y : MilestoneStatus} → Arrow x y → x ≡ ready_for_confirmation → y ≡ achieved
from-ready begun e = absurd (grind (arith, e))
from-ready threatened_early e = absurd (grind (arith, e))
from-ready ready_at_once e = absurd (grind (arith, e))
from-ready threatened e = absurd (grind (arith, e))
from-ready made_ready e = absurd (grind (arith, e))
from-ready recovered e = absurd (grind (arith, e))
from-ready ready_after_risk e = absurd (grind (arith, e))
from-ready confirmed e = refl

Onward-Settled : (m m' : Milestone) → Onward m m' → Settled m m'
Onward-Settled m m' stays = record {
  achieved_stays = λ e. refl;
  missed_stays = λ e. refl;
  ready_waits = λ e. inl refl;
}
Onward-Settled m m' (moves {x} onward arrow bumped) =
    let before = Onward-Settled m x onward in
    record {
      achieved_stays =
          λ e. absurd (from-achieved arrow (ap (λ r. r.status) (before.achieved_stays e) ∙ e));
      missed_stays =
          λ e. absurd (from-missed arrow (ap (λ r. r.status) (before.missed_stays e) ∙ e));
      ready_waits = λ e. elim (before.ready_waits e) [
        | inl same ↦
            inr (
              from-ready arrow (ap (λ r. r.status) same ∙ e),
              bumped ∙ ap (λ r. r.version + 1) same,
            )
        | inr (over, _) ↦ absurd (from-achieved arrow over)
      ];
    }

-- After `on_task_changed` for any Task, every Milestone is still in the table, and its status came, from
-- what it was, by zero or more arrows of the Milestone's state machine, each with the version one higher;
-- where no move was made the whole row is unchanged. One that was ACHIEVED or MISSED is unchanged, and
-- one that was READY_FOR_CONFIRMATION is unchanged or ACHIEVED.
pub on_task_changed-Onward :
    (task_id actor_id : ℕ) (s s' : Session)
    → on_task_changed task_id actor_id s ≡ done tt s'
    → (id : ℕ) (m : Milestone) → get_row (λ r. r.id) id s.milestones ≡ some m
    → (m' : Milestone) × (get_row (λ r. r.id) id s'.milestones ≡ some m')
      × Onward m m'
      × Settled m m'
on_task_changed-Onward task_id actor_id s s' h id m found =
    let (m', found', onward) =
      (on_task_changed-Ensures task_id actor_id s).result tt s' h id m found in
    (m', found', onward, Onward-Settled m m' onward)
