-- ===== src/Events/Lifecycle/Steps.antt =====
-- What holds after the parts of an Event command.
use syntrix_dr.Prelude.{
  ℕ, ◌+◌, ◌≡◌, refl, arith, String, true, Option, some, List, [], ◌∷◌, ◌++◌, ==_iff, select, is_nil,
  ◌⊎◌, inl, inr,
}
use syntrix_dr.Db.{
  Session, DrEvent, EventStatus, DrApplication, AuditEvent, OutboxEvent, Override, Payload, get_row,
  put_row, put_all,
}
use syntrix_dr.Db.Writing.Steps.{
  Ensures, after, after_now, after_asks, after_guard, after_expect, after_modify, after_pure,
  after_write_audit, after_write_outbox, after_choose, after_record_override,
}
use syntrix_dr.Prelude.Text.{clean}
use syntrix_dr.Access.Grants.{event_lifecycle_command, closure_exception_override}
use syntrix_dr.Access.Authorization.{can, no_scope}
use syntrix_dr.Events.Readiness.{ReadinessResult, is_non_overridable}
use syntrix_dr.Events.Lifecycle.{
  legal_event_move, require_lifecycle, load_event, begin_transition, save_event, finish_event,
  override_each, pass_hard_stops, save_application, move_application, move_each,
  record_closure_exception, pass_monitoring, closure_exception,
}

pub after_require_lifecycle :
    (actor_id : ℕ) {s : Session} {Q : Unit {0} → Session → Type 0}
    → (can s actor_id event_lifecycle_command no_scope ≡ true → Q tt s)
    → Ensures (require_lifecycle actor_id) s Q
unfolding require_lifecycle
after_require_lifecycle actor_id h = after _ _ (after_asks _ (after_guard _ _ h))

pub after_load_event :
    (event_id expected_version : ℕ) {s : Session} {Q : DrEvent → Session → Type 0}
    → ((e : DrEvent)
        → get_row (λ r. r.id) event_id s.events ≡ some e
        → e.version ≡ expected_version
        → Q e s)
    → Ensures (load_event event_id expected_version) s Q
unfolding load_event
after_load_event event_id expected_version h = after _ _ (
    after_asks _ (
      after _ _ (
        after_expect _ _
          λ e found. after _ _ (after_guard _ _ λ v. after_pure _ (h e found ((==_iff _ _).0 v))))))

pub after_begin_transition :
    (actor_id event_id expected_version : ℕ) (target : EventStatus) {s : Session}
    {Q : DrEvent → Session → Type 0}
    → ((e : DrEvent)
        → get_row (λ r. r.id) event_id s.events ≡ some e
        → e.version ≡ expected_version
        → legal_event_move e.status target ≡ true
        → Q e s)
    → Ensures (begin_transition actor_id event_id expected_version target) s Q
unfolding begin_transition
after_begin_transition actor_id event_id expected_version target {s} h =
    after (require_lifecycle actor_id) _ (
      after_require_lifecycle actor_id λ _. after (load_event event_id expected_version) _ (
        after_load_event event_id expected_version λ e found version.
          after _ _ (after_guard _ _ λ legal. after_pure _ (h e found version legal))))

pub after_finish_event :
    (e : DrEvent) (actor_id : ℕ) (before : Payload) (status : EventStatus) (action : String)
    (extra : Payload) {s : Session} {Q : DrEvent → Session → Type 0}
    → ((at draws : ℕ) (audit : List AuditEvent) (outbox : List OutboxEvent)
        → Q
            (record e { version = e.version + 1; updated_at = at })
            (record s {
              events =
                  put_row
                    (λ r. r.id)
                    (record e { version = e.version + 1; updated_at = at })
                    s.events;
              audit = audit;
              outbox = outbox;
              draws = draws;
            }))
    → Ensures (finish_event e actor_id before status action extra) s Q
unfolding finish_event save_event
after_finish_event e actor_id before status action extra h = after _ _ (
    after_now (
      after _ _ (
        after_modify _ (
          after _ _ (
            after_write_audit _
              (after _ _ (after_write_outbox _ _ _ _ _ (after_pure _ (h _ _ _ _)))))))))

after_override_each :
    (actor_id event_id : ℕ) (reason : String) (results : List ReadinessResult) {s : Session}
    {Q : Unit {0} → Session → Type 0}
    → ((overrides : List Override) (audit : List AuditEvent)
        → Q tt (record s { overrides = overrides; audit = audit }))
    → Ensures (override_each actor_id event_id reason results) s Q
unfolding override_each
after_override_each actor_id event_id reason [] h = after_pure _ (h _ _)
after_override_each actor_id event_id reason (r ∷ rs) h = after _ _ (
    after_record_override _ (
      after _ _
        (after_write_audit _ (after_override_each actor_id event_id reason rs λ o a. h o a))))

-- No failure of a key that takes no override gets past.
pub after_pass_hard_stops :
    (actor_id event_id : ℕ) (reason : Option String) (failed : List ReadinessResult) {s : Session}
    {Q : Unit {0} → Session → Type 0}
    → ((overrides : List Override) (audit : List AuditEvent)
        → is_nil (select (λ r. is_non_overridable r.key) failed) ≡ true
        → Q tt (record s { overrides = overrides; audit = audit }))
    → Ensures (pass_hard_stops actor_id event_id reason failed) s Q
unfolding pass_hard_stops
after_pass_hard_stops actor_id event_id reason failed h =
    after_choose _ _ _ (λ none_failed. after_pure _ (h _ _ (of_nil failed none_failed)))
      (λ _. after _ _ (
        after_expect _ _ λ text _. after _ _ (
          after_guard _ _ λ overridable.
            after_override_each actor_id event_id text failed λ o a. h o a overridable)))
  where
    of_nil :
        (rs : List ReadinessResult)
        → is_nil rs ≡ true
        → is_nil (select (λ r. is_non_overridable r.key) rs) ≡ true
    of_nil [] e = refl
    of_nil (r ∷ rs) e = ground (arith, e)

-- The updated Applications, one after the other.
pub after_move_each :
    (actor_id event_id : ℕ) (action : String) (move : DrApplication → DrApplication)
    (applications : List DrApplication) {s : Session} {Q : Unit {0} → Session → Type 0}
    → ((audit : List AuditEvent)
        → Q tt (record s {
          applications = put_all (λ r. r.id) move applications s.applications;
          audit = audit;
        }))
    → Ensures (move_each actor_id event_id action move applications) s Q
unfolding move_each move_application save_application put_all
after_move_each actor_id event_id action move [] h = after_pure _ (h _)
after_move_each actor_id event_id action move (a ∷ applications) h = after _ _ (
    after _ _ (
      after_modify _ (
        after_write_audit _
          (after_move_each actor_id event_id action move applications λ audit. h audit))))

-- Nothing is unfinished, or an actor who may do so gave an exception with a reason that is not blank, and
-- the override is recorded.
abbrev pub Excused :
    Session → (actor_id event_id : ℕ) (monitoring : List ℕ) (overrides : List Override) → Type 0
Excused s actor_id event_id monitoring overrides =
    (monitoring ≡ []) × (overrides ≡ s.overrides)
    ⊎ ((given reason : String) × (clean (some given) ≡ some reason)
        × (can s actor_id closure_exception_override no_scope ≡ true)
        × (overrides ≡ s.overrides ++ closure_exception actor_id event_id monitoring reason ∷ []))

pub after_pass_monitoring :
    (actor_id event_id : ℕ) (monitoring : List ℕ) (reason : Option String) {s : Session}
    {Q : Unit {0} → Session → Type 0}
    → ((overrides : List Override) (audit : List AuditEvent)
        → Excused s actor_id event_id monitoring overrides
        → Q tt (record s { overrides = overrides; audit = audit }))
    → Ensures (pass_monitoring actor_id event_id monitoring reason) s Q
unfolding pass_monitoring record_closure_exception
after_pass_monitoring actor_id event_id monitoring reason {s} h =
    after_choose _ _ _ (λ nothing. after_pure _ (h _ _ (inl (nil monitoring nothing, refl))))
      (λ _. after _ _ (
        after_expect _ _ λ given _. after _ _ (
          after_expect _ _ λ text cleaned. after _ _ (
            after_asks (λ s. can s actor_id closure_exception_override no_scope)
              (after _ _ (
                after_guard _ _ λ allowed. after _ _ (
                  after_record_override _
                    (after_write_audit _ (h _ _ (inr (given, text, cleaned, allowed, refl)))))))))))
  where
    nil : (xs : List ℕ) → is_nil xs ≡ true → xs ≡ []
    nil [] e = refl
    nil (x ∷ xs) e = grind arith
