-- ===== src/Blockers/Steps.antt =====
-- What holds after a Blocker was created.
use syntrix_dr.Prelude.{ℕ, ◌≡◌, sym, subst, arith, true, none, String, List, [], ◌∷◌, ◌++◌}
use syntrix_dr.Db.{Session, Blocker, AuditEvent, add_row-append, add_row-fresh, get_row}
use syntrix_dr.Db.Writing.Steps.{
  Ensures, after, after_now, after_new_uuid, after_asks, after_expect, after_modify, after_pure,
  after_write_audit,
}
use syntrix_dr.Blockers.{is_active_on, insert_blocker, create_blocker_for_task}

after_insert_blocker :
    (b : Blocker) {s : Session} {Q : Unit {0} → Session → Type 0}
    → (get_row (λ r. r.id) b.id s.blockers ≡ none
        → Q tt (record s { blockers = s.blockers ++ b ∷ [] }))
    → Ensures (insert_blocker b) s Q
unfolding insert_blocker
after_insert_blocker b {s} {Q} h = after _ _ (
    after_asks _ (
      after _ _ (
        after_expect _ _ λ rows e. after_modify _ (
          subst (λ x. Q tt (record s { blockers = x }))
            (sym (add_row-append (λ r. r.id) b _ rows e))
            (h (add_row-fresh (λ r. r.id) b _ rows e))))))

-- The new row is active on the Task.
pub after_create_blocker :
    (task_id dr_event_id : ℕ) (reason : String) (actor_id : ℕ) {s : Session}
    {Q : Blocker → Session → Type 0}
    → ((b : Blocker) (audit : List AuditEvent) (draws : ℕ)
        → (is_active_on task_id b ≡ true) × (get_row (λ r. r.id) b.id s.blockers ≡ none)
        → Q b (record s { blockers = s.blockers ++ b ∷ []; audit = audit; draws = draws }))
    → Ensures (create_blocker_for_task task_id dr_event_id reason actor_id) s Q
unfolding create_blocker_for_task
after_create_blocker task_id dr_event_id reason actor_id h = after _ _ (
    after_now (
      after _ _ (
        after_new_uuid (
          after _ _ (
            after_insert_blocker _ λ fresh.
              (after _ _ (after_write_audit _ (after_pure _ (h _ _ _ (ground arith, fresh))))))))))
