-- ===== src/Validations/Steps.antt =====
-- What holds after a Validation was opened or closed.
use syntrix_dr.Prelude.{
  ℕ, ◌≡◌, refl, sym, subst, arith, Bool, true, false, Option, none, some, String, List, [], ◌∷◌,
  ◌++◌, select,
}
use syntrix_dr.Db.{
  Session, ok, Validation, AuditEvent, add_row-append, add_row-fresh, get_row, put_row,
}
use syntrix_dr.Db.Reading.{scalar_one_or_none}
use syntrix_dr.Db.Writing.{query}
use syntrix_dr.Db.Writing.Steps.{
  Ensures, after, after_now, after_new_uuid, after_asks, after_query, after_guard, after_expect,
  after_modify, after_pure, after_write_audit,
}
use syntrix_dr.Validations.{
  is_open_for, is_pending, insert_validation, save_validation, open_task_validation,
  close_task_validation, close_for_cancelled_task, close_if_open,
  close_validation_for_cancelled_task, get_pending_task_validation,
}

pub after_insert_validation :
    (v : Validation) {s : Session} {Q : Unit {0} → Session → Type 0}
    → (get_row (λ r. r.id) v.id s.validations ≡ none
        → Q tt (record s { validations = s.validations ++ v ∷ [] }))
    → Ensures (insert_validation v) s Q
unfolding insert_validation
after_insert_validation v {s} {Q} h = after _ _ (
    after_asks _ (
      after _ _ (
        after_expect _ _ λ rows e. after_modify _ (
          subst (λ x. Q tt (record s { validations = x }))
            (sym (add_row-append (λ r. r.id) v _ rows e))
            (h (add_row-fresh (λ r. r.id) v _ rows e))))))

-- The new row is the Task's open submission.
pub after_open_task_validation :
    (task_id dr_event_id : ℕ) (note : Option String) (actor_id : ℕ) {s : Session}
    {Q : Validation → Session → Type 0}
    → ((v : Validation) (audit : List AuditEvent) (draws : ℕ)
        → (v.target_id ≡ task_id)
          × (is_open_for task_id v ≡ true)
          × (get_row (λ r. r.id) v.id s.validations ≡ none)
        → Q v (record s { validations = s.validations ++ v ∷ []; audit = audit; draws = draws }))
    → Ensures (open_task_validation task_id dr_event_id note actor_id) s Q
unfolding open_task_validation
after_open_task_validation task_id dr_event_id remark actor_id h = after _ _ (
    after_now (
      after _ _ (
        after_new_uuid (
          after _ _ (
            after_insert_validation _ λ fresh.
              (after _ _
                (after_write_audit _ (after_pure _ (h _ _ _ (refl, ground arith, fresh))))))))))

-- The row that is closed keeps its id and is pending no more.
pub after_close_task_validation :
    (v : Validation) (approve : Bool) (actor_id : ℕ) (note : Option String) (dr_event_id : ℕ)
    {s : Session} {Q : Validation → Session → Type 0}
    → ((v' : Validation) (audit : List AuditEvent) (draws : ℕ)
        → (v'.id ≡ v.id) × (is_pending v'.status ≡ false)
        → Q v' (record s {
          validations = put_row (λ r. r.id) v' s.validations;
          audit = audit;
          draws = draws;
        }))
    → Ensures (close_task_validation v approve actor_id note dr_event_id) s Q
unfolding close_task_validation save_validation
after_close_task_validation v approve actor_id remark dr_event_id h = after _ _ (
    after_guard _ _ λ _. after _ _ (
      after_now (
        after _ _ (
          after_modify _
            (after _ _ (after_write_audit _ (after_pure _ (h _ _ _ (refl, ground arith)))))))))

-- The one open row, if a query for it succeeds.
pub scalar-one :
    {A : Type 0} (xs : List A) (a : A) → scalar_one_or_none xs ≡ ok (some a) → xs ≡ a ∷ []
scalar-one [] a e = grind arith
scalar-one (x ∷ []) a e = grind arith
scalar-one (x ∷ y ∷ xs) a e = grind arith

pub scalar-none : {A : Type 0} (xs : List A) → scalar_one_or_none xs ≡ ok none → xs ≡ []
scalar-none [] e = refl
scalar-none (x ∷ []) e = grind arith
scalar-none (x ∷ y ∷ xs) e = grind arith

-- The close that a cancellation asks for: of the one open row, or of none.
pub data Closing (s : Session) (task_id : ℕ) (validations : List Validation) : Type 0 where
  nothing_open :
      select (is_open_for task_id) s.validations ≡ []
      → validations ≡ s.validations
      → Closing s task_id validations
  closes :
      (v v' : Validation)
      → select (is_open_for task_id) s.validations ≡ v ∷ []
      → (v'.id ≡ v.id) × (is_pending v'.status ≡ false)
      → validations ≡ put_row (λ r. r.id) v' s.validations
      → Closing s task_id validations

after_close_for_cancelled_task :
    (v : Validation) (actor_id : ℕ) (reason : String) (dr_event_id : ℕ) {s : Session}
    {Q : Validation → Session → Type 0}
    → ((v' : Validation) (audit : List AuditEvent) (draws : ℕ)
        → (v'.id ≡ v.id) × (is_pending v'.status ≡ false)
        → Q v' (record s {
          validations = put_row (λ r. r.id) v' s.validations;
          audit = audit;
          draws = draws;
        }))
    → Ensures (close_for_cancelled_task v actor_id reason dr_event_id) s Q
unfolding close_for_cancelled_task save_validation
after_close_for_cancelled_task v actor_id reason dr_event_id h = after _ _ (
    after_guard _ _ λ _. after _ _ (
      after_now (
        after _ _ (
          after_modify _
            (after _ _ (after_write_audit _ (after_pure _ (h _ _ _ (refl, ground arith)))))))))

after_close_if_open :
    (o : Option Validation) (task_id actor_id : ℕ) (reason : String) (dr_event_id : ℕ) {s : Session}
    {Q : Option Validation → Session → Type 0}
    → get_pending_task_validation task_id s ≡ ok o
    → ((o : Option Validation) (validations : List Validation) (audit : List AuditEvent) (draws : ℕ)
        → Closing s task_id validations
        → Q o (record s { validations = validations; audit = audit; draws = draws }))
    → Ensures (close_if_open o actor_id reason dr_event_id) s Q
unfolding get_pending_task_validation
after_close_if_open none task_id actor_id reason dr_event_id e h =
    after_pure _ (h _ _ _ _ (nothing_open (scalar-none _ e) refl))
after_close_if_open (some v) task_id actor_id reason dr_event_id e h = after _ _ (
    after_close_for_cancelled_task v actor_id reason dr_event_id
      λ v' _ _ closed. after_pure _ (h _ _ _ _ (closes v v' (scalar-one _ v e) closed refl)))

pub after_close_for_cancelled :
    (task_id actor_id : ℕ) (reason : String) (dr_event_id : ℕ) {s : Session}
    {Q : Option Validation → Session → Type 0}
    → ((o : Option Validation) (validations : List Validation) (audit : List AuditEvent) (draws : ℕ)
        → Closing s task_id validations
        → Q o (record s { validations = validations; audit = audit; draws = draws }))
    → Ensures (close_validation_for_cancelled_task task_id actor_id reason dr_event_id) s Q
unfolding close_validation_for_cancelled_task
after_close_for_cancelled task_id actor_id reason dr_event_id {s} {Q} h =
    after (query (get_pending_task_validation task_id)) _
      (after_query _ λ o e. after_close_if_open o task_id actor_id reason dr_event_id e h)
