-- ===== src/Tasks/Lifecycle/Submissions.antt =====
-- Open submissions: a READY_FOR_VALIDATION Task has exactly one, any other Task has none.
use syntrix_dr.Prelude.{
  ℕ, ◌≡◌, refl, sym, ap, ◌∙◌, ◌+◌, ◌==◌, ==_iff, ◌⊎◌, inl, inr, arith, true, false, none, some,
  List, [], ◌∷◌, ◌++◌, subst, select, length, if◌then◌else◌, Memᴰ, mem-select, Bool-cases,
}
use syntrix_dr.Db.{
  Session, Task, TaskCommand, Validation, get_row, put_row, get_row-key, UniqueIds,
  UniqueIds-append, UniqueIds-put_row, length-select-put_row,
}
use syntrix_dr.Validations.{is_open_for, is_pending}
use syntrix_dr.Validations.Steps.{nothing_open, closes}
use syntrix_dr.Tasks.Loads.{live_task}
use syntrix_dr.Tasks.Lifecycle.{is_submitted}
use syntrix_dr.Tasks.Lifecycle.Changes.{
  Change, starts, blocks, resumes, submits, judges, cancels, Move,
}
use syntrix_dr.Tasks.Lifecycle.Machine.{
  ServiceSteps, none_yet, then_step, SomeMove, ServiceStep-SomeMove, Move-live_back,
}

-- The number of open submissions of a Task.
abbrev pub open_count : ℕ → List Validation → ℕ
open_count task_id vs = length (select (is_open_for task_id) vs)

abbrev pub expected : Task → ℕ
expected t = if is_submitted t.status then 1 else 0

-- Ids of Validations are unique, and a live Task has one open submission or none, as its status says.
abbrev pub SubmissionsFit : Session → Type 0
SubmissionsFit s =
    UniqueIds (λ r. r.id) s.validations
    × ((id : ℕ) (t : Task) → live_task s id ≡ some t → open_count t.id s.validations ≡ expected t)

open_count-append :
    (task_id : ℕ) (v : Validation) (vs : List Validation)
    → open_count task_id (vs ++ v ∷ [])
      ≡ open_count task_id vs + (if is_open_for task_id v then 1 else 0)
open_count-append task_id v [] = ground arith
open_count-append task_id v (x ∷ vs) = ground (arith, open_count-append task_id v vs)

-- Closing the one open submission of a Task.
open_count-close :
    (task_id : ℕ) (v v' : Validation) (vs : List Validation)
    → UniqueIds (λ r. r.id) vs
    → select (is_open_for task_id) vs ≡ v ∷ []
    → (v'.id ≡ v.id) × (is_pending v'.status ≡ false)
    → (other : ℕ)
    → open_count other (put_row (λ r. r.id) v' vs)
      ≡ (if other == task_id then 0 else open_count other vs)
open_count-close task_id v v' vs u one closed other =
    let (there, opened) =
      mem-select (is_open_for task_id) v vs (subst (Memᴰ v) (sym one) (Memᴰ.head refl)) in
    elim (Bool-cases (other == task_id)) [
      | inl h ↦
          subst
            (λ x.
              open_count x (put_row (λ r. r.id) v' vs)
              ≡ (if x == task_id then 0 else open_count x vs))
            (sym ((==_iff other task_id).0 h))
            (let count =
                length-select-put_row (λ r. r.id) (is_open_for task_id) v v' vs closed.0 u there in
              let before = ap length one in ground (arith, count, before, opened, closed.1))
      | inr h ↦
          let count =
            length-select-put_row (λ r. r.id) (is_open_for other) v v' vs closed.0 u there in
          ground (arith, count, opened, closed.1, h)
    ]

-- The open submissions after a change: `own` is the number of the Task's own.
abbrev Counts : Session → Session → ℕ → ℕ → Type 0
Counts s s' task_id own =
    UniqueIds (λ r. r.id) s'.validations
    × ((other : ℕ)
        → open_count other s'.validations
          ≡ (if other == task_id then own else open_count other s.validations))

kept-Counts :
    (s s' : Session) (task_id own : ℕ)
    → s'.validations ≡ s.validations
    → UniqueIds (λ r. r.id) s.validations
    → open_count task_id s.validations ≡ own
    → Counts s s' task_id own
kept-Counts s s' task_id own k u before = (
  subst (UniqueIds (λ r. r.id)) (sym k) u,
  λ other. elim (Bool-cases (other == task_id)) [
    | inl h ↦
        let e = (==_iff other task_id).0 h in
        let c = ap (open_count other) k ∙ ap (λ x. open_count x s.validations) e ∙ before in
        ground (arith, c, h)
    | inr h ↦ let c = ap (open_count other) k in ground (arith, c, h)
  ],
)

closed-Counts :
    (s s' : Session) (task_id : ℕ) (v v' : Validation)
    → UniqueIds (λ r. r.id) s.validations
    → select (is_open_for task_id) s.validations ≡ v ∷ []
    → (v'.id ≡ v.id) × (is_pending v'.status ≡ false)
    → s'.validations ≡ put_row (λ r. r.id) v' s.validations
    → Counts s s' task_id 0
closed-Counts s s' task_id v v' u one closed k = (
  subst (UniqueIds (λ r. r.id)) (sym k) (UniqueIds-put_row (λ r. r.id) v' s.validations u),
  λ other. ap (open_count other) k ∙ open_count-close task_id v v' s.validations u one closed other,
)

opened-Counts :
    (s s' : Session) (task_id : ℕ) (v : Validation)
    → UniqueIds (λ r. r.id) s.validations
    → open_count task_id s.validations ≡ 0
    → (v.target_id ≡ task_id)
      × (is_open_for task_id v ≡ true)
      × (get_row (λ r. r.id) v.id s.validations ≡ none)
    → s'.validations ≡ s.validations ++ v ∷ []
    → Counts s s' task_id 1
opened-Counts s s' task_id v u before (target, opened, fresh) k = (
  subst (UniqueIds (λ r. r.id)) (sym k) (UniqueIds-append (λ r. r.id) v s.validations fresh u),
  λ other.
      ap (open_count other) k
      ∙ open_count-append other v s.validations
      ∙ elim (Bool-cases (other == task_id)) [
        | inl h ↦
            let e = (==_iff other task_id).0 h in
            let c = ap (λ x. open_count x s.validations) e ∙ before in
            let o = ap (λ x. is_open_for x v) e ∙ opened in ground (arith, c, o, h)
        | inr h ↦ ground (arith, target, h)
      ],
)

Change-Counts :
    {c : TaskCommand} {a : ℕ} {s s' : Session} {t t' : Task}
    → Change a s s' t t' c
    → UniqueIds (λ r. r.id) s.validations
    → open_count t.id s.validations ≡ expected t
    → Counts s s' t.id (expected t')
Change-Counts {s} {s'} {t} {t'} (starts p q (_, k)) u before =
    kept-Counts s s' t.id (expected t') k u (ground (arith, p, q, before))
Change-Counts {s} {s'} {t} {t'} (blocks p q _ _ _ k) u before =
    kept-Counts s s' t.id (expected t') k u (ground (arith, p, q, before))
Change-Counts {s} {s'} {t} {t'} (resumes p q (_, k)) u before =
    kept-Counts s s' t.id (expected t') k u (ground (arith, p, q, before))
Change-Counts {s} {s'} {t} {t'} (submits p q v new k _) u before =
    subst (Counts s s' t.id) (ground (arith, q))
      (opened-Counts s s' t.id v u (ground (arith, p, before)) new k)
Change-Counts {s} {s'} {t} {t'} (judges p approve q v v' one _ closed k _) u before =
    subst (Counts s s' t.id) (ground (arith, q)) (closed-Counts s s' t.id v v' u one closed k)
Change-Counts {s} {s'} {t} {t'} (cancels p q (inl (idle, k)) _) u before =
    kept-Counts s s' t.id (expected t') k u (ground (arith, idle, q, before))
Change-Counts {s} {s'} {t} {t'} (cancels p q (inr (nothing_open empty k)) _) u before =
    let z = ap length empty in kept-Counts s s' t.id (expected t') k u (ground (arith, z, q))
Change-Counts {s} {s'} {t} {t'} (cancels p q (inr (closes v v' one closed k)) _) u before =
    subst (Counts s s' t.id) (ground (arith, q)) (closed-Counts s s' t.id v v' u one closed k)

live_task-id : (s : Session) (id : ℕ) (t : Task) → live_task s id ≡ some t → t.id ≡ id
unfolding live_task
live_task-id s id t e = ground (arith, e, get_row-key (λ r. r.id) id s.tasks t)

Move-SubmissionsFit :
    (c : TaskCommand) (a i : ℕ) (s s' : Session) (t' : Task)
    → Move c a i s t' s'
    → SubmissionsFit s
    → SubmissionsFit s'
Move-SubmissionsFit c a i s s' t' m (unique, fits) =
    let (unique', counts) = Change-Counts m.change unique (fits i m.before m.found) in
    (unique', λ id t e. split id t counts (Move-live_back c a i s t' s' m id t e))
  where
    split :
        (id : ℕ) (t : Task)
        → ((other : ℕ)
            → open_count other s'.validations
              ≡ (if other == m.before.id then expected t' else open_count other s.validations))
        → (id ≡ i) × (t ≡ t') ⊎ (live_task s id ≡ some t) × ((id == i) ≡ false)
        → open_count t.id s'.validations ≡ expected t
    split id t counts (inl (_, same)) =
        subst (λ x. open_count x.id s'.validations ≡ expected x) (sym same)
          (let c = counts t'.id in ground (arith, c, m.same.0))
    split id t counts (inr (old, apart)) =
        let c = counts t.id in
        let before = fits id t old in
        let here = live_task-id s id t old in
        let there = live_task-id s i m.before m.found in
        ground (arith, c, before, here, there, apart)

-- If the ids of the Validations are unique and every live Task has exactly one open (PENDING, not
-- deleted) submission where it is READY_FOR_VALIDATION and none where it is not, then all of this holds
-- after any sequence of successful commands of the Task service.
pub ServiceSteps-SubmissionsFit :
    (s s' : Session) → ServiceSteps s s' → SubmissionsFit s → SubmissionsFit s'
ServiceSteps-SubmissionsFit s s' none_yet fit = fit
ServiceSteps-SubmissionsFit s s' (then_step {t = u} before last) fit =
    split (ServiceStep-SomeMove u s' last) (ServiceSteps-SubmissionsFit s u before fit)
  where
    split : SomeMove u s' ⊎ (s' ≡ u) → SubmissionsFit u → SubmissionsFit s'
    split (inl (c, a, i, t', m)) = Move-SubmissionsFit c a i u s' t' m
    split (inr same) = subst SubmissionsFit (sym same)
