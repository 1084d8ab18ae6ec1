-- ===== src/Issues/Machine.antt =====
-- The commands on Issues as one step relation.
use syntrix_dr.Prelude.{
  ℕ, ◌≡◌, refl, sym, ap, ◌∙◌, arith, String, Bool, true, false, Option, some, ◌==◌, ==_iff,
  Bool-cases, ◌⊎◌, inl, inr,
}
use syntrix_dr.Db.{
  Session, IssueFinding, IssueStatus, issue_resolved, issue_dismissed, get_row, get-put_row,
  get-append_row,
}
use syntrix_dr.Db.Writing.Steps.{done}
use syntrix_dr.Issues.{
  IssueCommand, to_review, to_resolve, to_dismiss, issue_legal_from, review, resolve_issue,
  dismiss_issue,
}
use syntrix_dr.Issues.Creation.{create_issue}
use syntrix_dr.Issues.Moves.{Apart, IssueMove, IssueAdded, review-Move, close-Move, create-Added}

-- One successful command on Issues.
pub data IssueStep (s s' : Session) : Type 0 where
  creates :
      (actor_id dr_event_id : ℕ) (item_type title description : String) (priority : Option String)
      (application stream task owner : Option ℕ) (i : IssueFinding)
      → create_issue actor_id dr_event_id item_type title description priority application stream
          task owner s
        ≡ done i s'
      → IssueStep s s'
  reviews :
      (actor_id issue_id version : ℕ) (i : IssueFinding)
      → review actor_id issue_id version s ≡ done i s'
      → IssueStep s s'
  resolves :
      (actor_id issue_id version : ℕ) (note : Option String) (i : IssueFinding)
      → resolve_issue actor_id issue_id version note s ≡ done i s'
      → IssueStep s s'
  dismisses :
      (actor_id issue_id version : ℕ) (note : Option String) (i : IssueFinding)
      → dismiss_issue actor_id issue_id version note s ≡ done i s'
      → IssueStep s s'

pub data IssueSteps (s : Session) : Session → Type 0 where
  none_yet : IssueSteps s s
  then_step : {t u : Session} → IssueSteps s t → IssueStep t u → IssueSteps s u

step-effect :
    (s s' : Session)
    → IssueStep s s'
    → ((i : IssueFinding) × IssueMove s i s') ⊎ ((i : IssueFinding) × IssueAdded s i s')
unfolding resolve_issue dismiss_issue
step-effect s s' (creates a e k t d p x w y o i h) =
    inr (i, (create-Added a e k t d p x w y o s).result i s' h)
step-effect s s' (reviews a id v i h) = inl (i, (review-Move a id v s).result i s' h)
step-effect s s' (resolves a id v n i h) =
    inl (i, (close-Move a id v n to_resolve _ _ s).result i s' h)
step-effect s s' (dismisses a id v n i h) =
    inl (i, (close-Move a id v n to_dismiss _ _ s).result i s' h)

-- A command on Issues, however it changes an Issue, changes no other table but the audit log and the
-- outbox: no Task, Event, Application, Milestone, Blocker or Validation.
pub IssueStep-Apart : (s s' : Session) → IssueStep s s' → Apart s s'
IssueStep-Apart s s' step = elim (step-effect s s' step) [
  | inl (i, move) ↦ move.alone
  | inr (i, added) ↦ added.alone
]

abbrev pub is_closed_issue : IssueStatus → Bool
is_closed_issue issue_resolved = true
is_closed_issue issue_dismissed = true
is_closed_issue _ = false

not-legal :
    (c : IssueCommand) (status : IssueStatus)
    → is_closed_issue status ≡ true
    → issue_legal_from c status ≡ false
unfolding issue_legal_from
not-legal to_review issue_resolved h = refl
not-legal to_review issue_dismissed h = refl
not-legal to_resolve issue_resolved h = refl
not-legal to_resolve issue_dismissed h = refl
not-legal to_dismiss issue_resolved h = refl
not-legal to_dismiss issue_dismissed h = refl
not-legal c status h = absurd (grind (arith, h))

one-step :
    (s s' : Session) (id : ℕ) (i : IssueFinding)
    → IssueStep s s'
    → get_row (λ r. r.id) id s.issues ≡ some i
    → is_closed_issue i.status ≡ true
    → get_row (λ r. r.id) id s'.issues ≡ some i
one-step s s' id i step found over = elim (step-effect s s' step) [
  | inl (j, move) ↦
      ap (get_row (λ r. r.id) id) move.written
      ∙ get-put_row (λ r. r.id) id j s.issues
      ∙ elim (Bool-cases (j.id == id)) [
        | inl same ↦ absurd (ended j move ((==_iff j.id id).0 same))
        | inr other ↦ ground (arith, other, found)
      ]
  | inr (j, added) ↦
      ap (get_row (λ r. r.id) id) added.written
      ∙ get-append_row (λ r. r.id) id j s.issues
      ∙ ground (arith, found)
]
  where
    ended : (j : IssueFinding) → IssueMove s j s' → j.id ≡ id → ⊥
    ended j move same =
        let e : some i ≡ some move.before =
          sym found ∙ ap (λ k. get_row (λ r. r.id) k s.issues) (sym same) ∙ move.found in
        let same_row : i ≡ move.before = grind (arith, e) in
        let status : i.status ≡ move.before.status = ap (λ r. r.status) same_row in
        ground (
          arith,
          move.legal,
          not-legal move.command move.before.status (ap is_closed_issue (sym status) ∙ over),
        )

-- A RESOLVED or DISMISSED Issue never changes again, whatever commands on Issues follow.
pub IssueSteps-closed :
    (s s' : Session) (id : ℕ) (i : IssueFinding)
    → IssueSteps s s'
    → get_row (λ r. r.id) id s.issues ≡ some i
    → is_closed_issue i.status ≡ true
    → get_row (λ r. r.id) id s'.issues ≡ some i
IssueSteps-closed s s' id i none_yet found over = found
IssueSteps-closed s s' id i (then_step {t} {u} steps step) found over =
    one-step t u id i step (IssueSteps-closed s t id i steps found over) over
