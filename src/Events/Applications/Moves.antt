-- ===== src/Events/Applications/Moves.antt =====
-- What `submit_validation` and `validate` do to the DR Application, when they succeed.
use syntrix_dr.Prelude.{
  ℕ, ◌+◌, ◌≡◌, ◌≢◌, refl, sym, ap, ◌∙◌, arith, Bool, true, false, not, ◌||◌, Option, some, List, [],
  ◌∷◌, ◌++◌, ◌==◌, is_some, is_none, select, String,
}
use syntrix_dr.Prelude.Text.{clean}
use syntrix_dr.Db.{
  Session, DrApplication, ApplicationStatus, recovering, technical_validation, completed,
  Validation, AuditEvent, OutboxEvent, Override, Payload, TaskPhase, get_row, put_row, get_row-key,
  ok,
}
use syntrix_dr.Db.Writing.{query}
use syntrix_dr.Db.Writing.Steps.{
  Ensures, after, after_now, after_new_uuid, after_asks, after_query, after_guard, after_expect,
  after_modify, after_pure, after_write_audit, after_write_outbox, after_choose, after_when,
  after_record_override,
}
use syntrix_dr.Validations.Steps.{after_insert_validation, after_close_task_validation, scalar-one}
use syntrix_dr.Validations.Applications.{
  get_pending_application_validation, is_open_for_application, open_application_validation,
  close_application_validation, stripped_if_given,
}
use syntrix_dr.Events.Lifecycle.{save_application}
use syntrix_dr.Events.Applications.{
  actor_may_validate_application, visible_application, event_is_over, load_visible_application,
  begin_validation, finish_application, phase_for_submit, submitted_status, pass_unfinished,
  override_unfinished, submit_validation, is_validatable, verdict_status, judged_application,
  validate,
}

-- The state machine of a DR Application, as far as its own commands go.
pub data ApplicationArrow : ApplicationStatus → ApplicationStatus → Type 0 where
  submitted : ApplicationArrow recovering technical_validation
  failed_over_approved : ApplicationArrow technical_validation ApplicationStatus.failed_over
  completed_approved : ApplicationArrow technical_validation completed
  returned : ApplicationArrow technical_validation recovering
  failback_pending_still :
      ApplicationArrow ApplicationStatus.failback_in_progress ApplicationStatus.failback_in_progress
  failback_approved : ApplicationArrow ApplicationStatus.failback_in_progress completed

-- The live row `a`, whose Event is not over, became `a'`, by an arrow, with the version one higher.
pub record ApplicationMove (s : Session) (id : ℕ) (a a' : DrApplication) (s' : Session)
    : Type 0 where
  pub found : get_row (λ r. r.id) id s.applications ≡ some a
  pub live : is_none a.deleted_at ≡ true
  pub running : event_is_over s a.dr_event_id ≡ false
  pub same : a'.id ≡ id
  pub event : a'.dr_event_id ≡ a.dr_event_id
  pub arrow : ApplicationArrow a.status a'.status
  pub version : a'.version ≡ a.version + 1
  pub applications : s'.applications ≡ put_row (λ r. r.id) a' s.applications
  pub events : s'.events ≡ s.events

visible-row :
    (s : Session) (actor_id id : ℕ) (a : DrApplication)
    → visible_application s actor_id id ≡ some a
    → (get_row (λ r. r.id) id s.applications ≡ some a) × (is_none a.deleted_at ≡ true)
unfolding visible_application
visible-row s actor_id id a e = (ground (arith, e), ground (arith, e))

-- A loaded row: live, of an Event that is not over, and the actor may validate it.
pub after_begin_validation :
    (actor_id id expected_version : ℕ) {s : Session} {Q : DrApplication → Session → Type 0}
    → ((a : DrApplication)
        → get_row (λ r. r.id) id s.applications ≡ some a
        → is_none a.deleted_at ≡ true
        → event_is_over s a.dr_event_id ≡ false
        → actor_may_validate_application s actor_id a ≡ true
        → Q a s)
    → Ensures (begin_validation actor_id id expected_version) s Q
unfolding begin_validation load_visible_application
after_begin_validation actor_id id expected_version {s} h =
    after (load_visible_application actor_id id) _ (
      after _ _ (
        after_asks _ (
          after _ _ (
            after_expect _ _ λ a e. after _ _ (
              after_asks (λ s. event_is_over s a.dr_event_id)
                (after _ _ (
                  after_guard _ _ λ running. after_pure _ (
                    after _ _ (
                      after_asks (λ s. actor_may_validate_application s actor_id a)
                        (after _ _ (
                          after_guard _ _ λ allowed. after _ _ (
                            after_guard _ _ λ version.
                              let (found, live) = visible-row s actor_id id a e in
                              after_pure _
                                (h a found live (ground (arith, running)) allowed)))))))))))))

after_finish_application :
    (a : DrApplication) (actor_id : ℕ) (before : Payload) (action : String) (extra : Payload)
    (emit : Bool) {s : Session} {Q : DrApplication → Session → Type 0}
    → ((at draws : ℕ) (audit : List AuditEvent) (outbox : List OutboxEvent)
        → Q
            (record a { version = a.version + 1; updated_at = at })
            (record s {
              applications =
                  put_row
                    (λ r. r.id)
                    (record a { version = a.version + 1; updated_at = at })
                    s.applications;
              audit = audit;
              outbox = outbox;
              draws = draws;
            }))
    → Ensures (finish_application a actor_id before action extra emit) s Q
unfolding finish_application save_application
after_finish_application a actor_id before action extra emit h = after _ _ (
    after_now (
      after _ _ (
        after_modify _ (
          after _ _ (
            after_write_audit _ (
              after _ _ (
                after_when emit _ (λ _. after_write_outbox _ _ _ _ _ (after_pure _ (h _ _ _ _)))
                  (λ _. after_pure _ (h _ _ _ _)))))))))

after_pass_unfinished :
    (actor_id : ℕ) (a : DrApplication) (phase : TaskPhase) (unfinished : List ℕ)
    (reason : Option String) {s : Session} {Q : Unit {0} → Session → Type 0}
    → ((overrides : List Override) (audit : List AuditEvent)
        → Q tt (record s { overrides = overrides; audit = audit }))
    → Ensures (pass_unfinished actor_id a phase unfinished reason) s Q
unfolding pass_unfinished override_unfinished
after_pass_unfinished actor_id a phase unfinished reason h =
    after_choose _ _ _ (λ _. after_pure _ (h _ _))
      (λ _. after _ _ (
        after_expect _ _
          λ text _. after _ _ (after_record_override _ (after_write_audit _ (h _ _)))))

after_open_application_validation :
    (id dr_event_id : ℕ) (phase : TaskPhase) (actor_id : ℕ) {s : Session}
    {Q : Validation → Session → Type 0}
    → ((v : Validation) (audit : List AuditEvent) (draws : ℕ)
        → is_open_for_application id v ≡ true
        → v.created_by_user_id ≡ actor_id
        → Q v (record s { validations = s.validations ++ v ∷ []; audit = audit; draws = draws }))
    → Ensures (open_application_validation id dr_event_id phase actor_id) s Q
unfolding open_application_validation
after_open_application_validation id dr_event_id phase actor_id h = after _ _ (
    after_now (
      after _ _ (
        after_new_uuid (
          after _ _ (
            after_insert_validation _
              λ _. after _ _ (after_write_audit _ (after_pure _ (h _ _ _ (ground arith) refl))))))))

submit-arrow :
    (x : ApplicationStatus) (phase : TaskPhase)
    → phase_for_submit x ≡ some phase
    → ApplicationArrow x (submitted_status x)
submit-arrow recovering phase e = submitted
submit-arrow ApplicationStatus.failback_in_progress phase e = failback_pending_still
submit-arrow x phase e = absurd (ground (arith, e))

verdict-arrow :
    (approve required : Bool) (x : ApplicationStatus)
    → is_validatable x ≡ true
    → ApplicationArrow x (verdict_status approve required x)
verdict-arrow true required ApplicationStatus.failback_in_progress e = failback_approved
verdict-arrow true true technical_validation e = failed_over_approved
verdict-arrow true false technical_validation e = completed_approved
verdict-arrow false required ApplicationStatus.failback_in_progress e = failback_pending_still
verdict-arrow false required technical_validation e = returned
verdict-arrow approve required x e = absurd (ground (arith, e))

row-key :
    (s : Session) (id : ℕ) (a : DrApplication)
    → get_row (λ r. r.id) id s.applications ≡ some a
    → a.id ≡ id
row-key s id a found = get_row-key (λ r. r.id) id s.applications a found

pub submit-Move :
    (actor_id id expected_version : ℕ) (reason : Option String) (s : Session)
    → Ensures (submit_validation actor_id id expected_version reason) s (λ a' s'.
      (a : DrApplication) × (v : Validation) × ApplicationMove s id a a' s'
      × (is_open_for_application id v ≡ true)
      × (s'.validations ≡ s.validations ++ v ∷ []))
unfolding submit_validation
submit-Move actor_id id expected_version reason s =
    after (begin_validation actor_id id expected_version) _ (
      after_begin_validation actor_id id expected_version λ a found live running allowed.
        after _ _ (
          after_expect _ _ λ phase known.
            after (query (get_pending_application_validation a.id)) _ (
              after_query _ λ already _. after _ _ (
                after_guard _ _ λ _. after _ _ (
                  after_asks _ (
                    after _ _ (
                      after_pass_unfinished actor_id a phase _ _ λ overrides audit. after _ _ (
                        after_open_application_validation a.id a.dr_event_id phase actor_id
                          λ v audit' draws opens by.
                            after_finish_application
                              (record a { status = submitted_status a.status }) _ _ _ _ _
                              λ at draws' audit'' outbox. (
                                a,
                                v,
                                record {
                                  found = found;
                                  live = live;
                                  running = running;
                                  same = row-key s id a found;
                                  event = refl;
                                  arrow = submit-arrow a.status phase known;
                                  version = refl;
                                  applications = refl;
                                  events = refl;
                                },
                                sym (ap (λ i. is_open_for_application i v) (row-key s id a found))
                                    ∙ opens,
                                refl,
                              )))))))))

-- The verdict is on the one open submission, and somebody else made it.
pub validate-Move :
    (actor_id id expected_version : ℕ) (approve : Bool) (remark : Option String)
    (business_confirmed : Bool) (business_note : Option String) (s : Session)
    → Ensures
        (validate actor_id id expected_version approve remark business_confirmed business_note)
        s
        (λ a' s'.
          (a : DrApplication) × (v : Validation) × ApplicationMove s id a a' s'
          × (a'.status ≡ verdict_status approve a.failback_required a.status)
          × (select (is_open_for_application id) s.validations ≡ v ∷ [])
          × (v.created_by_user_id ≢ actor_id)
          × (actor_may_validate_application s actor_id a ≡ true)
          × ((approve || is_some (clean remark)) ≡ true))
unfolding validate get_pending_application_validation close_application_validation
validate-Move actor_id id expected_version approve remark business_confirmed business_note s =
    after _ _ (
      after_now (
        after (begin_validation actor_id id expected_version) _ (
          after_begin_validation actor_id id expected_version λ a found live running allowed.
            after _ _ (
              after_guard _ _ λ validatable.
                after (query (get_pending_application_validation a.id)) _ (
                  after_query _ λ o e. after _ _ (
                    after_expect _ _ λ v here. after _ _ (
                      after_guard _ _ λ another. after _ _ (
                        after_guard _ _ λ reasoned. after _ _ (
                          after_close_task_validation
                            (record v {
                              business_confirmed = business_confirmed;
                              business_confirmation_note = stripped_if_given business_note;
                            })
                            approve actor_id _ _
                            λ v' audit draws closed_row.
                              after_finish_application
                                (judged_application a approve (s.clock_readings s.draws)) _ _ _ _ _
                                λ at draws' audit' outbox. (
                                  a,
                                  v,
                                  record {
                                    found = found;
                                    live = live;
                                    running = running;
                                    same = row-key s id a found;
                                    event = refl;
                                    arrow =
                                        verdict-arrow approve a.failback_required a.status
                                          validatable;
                                    version = refl;
                                    applications = refl;
                                    events = refl;
                                  },
                                  refl,
                                  sym (
                                        ap (λ i. select (is_open_for_application i) s.validations)
                                          (row-key s id a found))
                                      ∙ scalar-one _ v (e ∙ ap ok here),
                                  (λ mine. absurd (not-own mine another)),
                                  allowed,
                                  reasoned,
                                ))))))))))
  where
    not-own : {m n : ℕ} → m ≡ n → not (m == n) ≡ true → ⊥
    not-own mine another = ground (arith, mine, another)
