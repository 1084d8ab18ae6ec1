-- ===== src/Blockers/Lifecycle/Moves.antt =====
-- What each Blocker command does, when it succeeds.
use syntrix_dr.Prelude.{
  ℕ, ◌+◌, ◌≡◌, refl, sym, ap, ◌∙◌, arith, Bool, true, false, ◌&&◌, Option, none, some, List, ◌==◌,
  String,
}
use syntrix_dr.Prelude.Text.{clean}
use syntrix_dr.Db.{
  Session, Task, resume, Blocker, BlockerStatus, open_blocker, assigned, in_progress, resolved,
  verified, closed, DrEventParticipant, Alert, AuditEvent, OutboxEvent, Payload, put_row,
  get_row-key, put-put_row,
}
use syntrix_dr.Db.Writing.{query, when}
use syntrix_dr.Db.Writing.Steps.{
  Ensures, after, after_now, after_asks, after_query, after_guard, after_expect, after_modify,
  after_pure, after_write_audit, after_write_outbox, after_choose, after_when, weaken,
}
use syntrix_dr.Access.Participants.{enrol_participant}
use syntrix_dr.Alerts.{resolve_escalations}
use syntrix_dr.Tasks.Loads.{live_task, get_visible_task}
use syntrix_dr.Tasks.Lifecycle.{is_blocked, resume_after_last_blocker}
use syntrix_dr.Tasks.Lifecycle.Changes.{Move}
use syntrix_dr.Tasks.Lifecycle.Moves.{resume_after-Move}
use syntrix_dr.Blockers.{count_active_blockers}
use syntrix_dr.Blockers.Policies.{
  actor_may_route_blocker, actor_may_start_blocker, actor_may_resolve_blocker,
  actor_may_verify_blocker,
}
use syntrix_dr.Blockers.Lifecycle.{
  live_blocker, load_blocker, save_blocker, finish_blocker, check_team, check_assignee, enrol_owner,
  assignable, startable, resolvable, verifiable, assign, start_blocker, resolve_blocker,
  resume_if_last, verify, is_open_status, claimant, or_kept,
}

-- The state machine of a Blocker; `verify` goes from RESOLVED through VERIFIED to CLOSED.
pub data BlockerArrow : BlockerStatus → BlockerStatus → Type 0 where
  assigned_first : BlockerArrow open_blocker assigned
  assigned_again : BlockerArrow assigned assigned
  work_started : BlockerArrow assigned in_progress
  work_done : BlockerArrow in_progress resolved
  checked : BlockerArrow resolved verified
  shut : BlockerArrow verified closed

-- Where a row came, by arrows, each with the version one higher.
pub data BlockerPath (b : Blocker) : Blocker → Type 0 where
  stays : BlockerPath b b
  moves :
      {x y : Blocker}
      → BlockerPath b x
      → BlockerArrow x.status y.status
      → y.version ≡ x.version + 1
      → BlockerPath b y

-- The live row `b` became `b'`; the table of Tasks did not change.
pub record BlockerMove (s : Session) (id : ℕ) (b b' : Blocker) (s' : Session) : Type 0 where
  pub found : live_blocker s id ≡ some b
  pub same : (b'.id ≡ b.id) × (b'.task_id ≡ b.task_id) × (b'.deleted_at ≡ b.deleted_at)
  pub path : BlockerPath b b'
  pub blockers : s'.blockers ≡ put_row (λ r. r.id) b' s.blockers
  pub tasks : s'.tasks ≡ s.tasks

-- The Blocker is live, and so is its Task.
pub after_load_blocker :
    (actor_id blocker_id : ℕ) {s : Session} {Q : Task × Blocker → Session → Type 0}
    → ((t : Task) (b : Blocker)
        → live_blocker s blocker_id ≡ some b
        → live_task s b.task_id ≡ some t
        → Q (t, b) s)
    → Ensures (load_blocker actor_id blocker_id) s Q
unfolding load_blocker get_visible_task
after_load_blocker actor_id blocker_id {s} h = after _ _ (
    after_asks _ (
      after _ _ (
        after_expect _ _ λ unlocked first. after _ _ (
          after_asks (λ s. get_visible_task s actor_id unlocked.task_id)
            (after _ _ (
              after_expect _ _ λ t seen. after _ _ (
                after_asks _ (
                  after _ _ (
                    after_expect _ _ λ b found. after_pure _ (
                      h t b found (
                        ap (λ o. live_task s o.task_id) (same (sym found ∙ first))
                        ∙ visible t unlocked.task_id seen)))))))))))
  where
    same : {a b : Blocker} → some a ≡ some b → a ≡ b
    same e = grind arith

    visible : (t : Task) (i : ℕ) → get_visible_task s actor_id i ≡ some t → live_task s i ≡ some t
    visible t i e = ground (arith, e)

pub after_finish_blocker :
    (b : Blocker) (t : Task) (actor_id : ℕ) (before : Payload) (action : String) {s : Session}
    {Q : Blocker → Session → Type 0}
    → ((at draws : ℕ) (audit : List AuditEvent) (outbox : List OutboxEvent)
        → Q
            (record b { version = b.version + 1; updated_at = at })
            (record s {
              blockers =
                  put_row
                    (λ r. r.id)
                    (record b { version = b.version + 1; updated_at = at })
                    s.blockers;
              audit = audit;
              outbox = outbox;
              draws = draws;
            }))
    → Ensures (finish_blocker b t actor_id before action) s Q
unfolding finish_blocker save_blocker
after_finish_blocker b t actor_id before action h = after _ _ (
    after_now (
      after _ _ (
        after_modify _ (
          after _ _ (
            after_write_audit _
              (after _ _ (after_write_outbox _ _ _ _ _ (after_pure _ (h _ _ _ _)))))))))

after_enrol_owner :
    (t : Task) (o : Option ℕ) {s : Session} {Q : Unit {0} → Session → Type 0}
    → ((participants : List DrEventParticipant) → Q tt (record s { participants = participants }))
    → Ensures (enrol_owner t o) s Q
unfolding enrol_owner enrol_participant
after_enrol_owner t none h = after_pure _ (h _)
after_enrol_owner t (some owner) h = after _ _ (
    after_query _
      λ existing _. after_choose _ _ _ (λ _. after_pure _ (h _)) (λ _. after_modify _ (h _)))

after_check_team :
    (o : Option ℕ) {s : Session} {Q : Unit {0} → Session → Type 0}
    → Q tt s
    → Ensures (check_team o) s Q
unfolding check_team
after_check_team none h = after_pure _ h
after_check_team (some i) h = after _ _ (after_asks _ (after_guard _ _ λ _. h))

after_check_assignee :
    (team o : Option ℕ) (at : ℕ) {s : Session} {Q : Unit {0} → Session → Type 0}
    → Q tt s
    → Ensures (check_assignee team o at) s Q
unfolding check_assignee
after_check_assignee team none at h = after_pure _ h
after_check_assignee team (some i) at h = after _ _ (
    after_asks _
      (after _ _ (after_guard _ _ λ _. after _ _ (after_asks _ (after_guard _ _ λ _. h)))))

after_leave_open :
    (is_open_now : Bool) (blocker_id at : ℕ) {s : Session} {Q : Unit {0} → Session → Type 0}
    → ((alerts : List Alert) → Q tt (record s { alerts = alerts }))
    → Ensures (when is_open_now (resolve_escalations blocker_id at)) s Q
unfolding resolve_escalations
after_leave_open is_open_now blocker_id at h =
    after_when is_open_now _ (λ _. after_modify _ (h _)) (λ _. h _)

assign-arrow : (x : BlockerStatus) → assignable x ≡ true → BlockerArrow x assigned
assign-arrow open_blocker e = assigned_first
assign-arrow assigned e = assigned_again
assign-arrow x e = absurd (ground (arith, e))

start-arrow : (x : BlockerStatus) → startable x ≡ true → BlockerArrow x in_progress
start-arrow assigned e = work_started
start-arrow x e = absurd (ground (arith, e))

resolve-arrow : (x : BlockerStatus) → resolvable x ≡ true → BlockerArrow x resolved
resolve-arrow in_progress e = work_done
resolve-arrow x e = absurd (ground (arith, e))

verify-arrow : (x : BlockerStatus) → verifiable x ≡ true → BlockerArrow x verified
verify-arrow resolved e = checked
verify-arrow x e = absurd (ground (arith, e))

task-key : (s : Session) (i : ℕ) (t : Task) → live_task s i ≡ some t → t.id ≡ i
unfolding live_task
task-key s i t e = get_row-key (λ r. r.id) i s.tasks t (ground (arith, e))

pub assign-Move :
    (actor_id id v : ℕ) (team assignee : Option ℕ) (s : Session)
    → Ensures
        (assign actor_id id v team assignee)
        s
        (λ b' s'. (b : Blocker) × BlockerMove s id b b' s' × (b'.status ≡ assigned))
unfolding assign
assign-Move actor_id id v team assignee s = after _ _ (
    after_now (
      after (load_blocker actor_id id) _ (
        after_load_blocker actor_id id λ t b found task_found.
          after
            (query (actor_may_route_blocker actor_id t b team assignee (s.clock_readings s.draws)))
            _
            (after_query _ λ allowed _. after _ _ (
              after_guard _ _ λ _. after _ _ (
                after_guard _ _ λ _. after _ _ (
                  after_guard _ _ λ legal. after _ _ (
                    after_guard _ _ λ _. after (check_team team) _ (
                      after_check_team team (
                        after (check_assignee team assignee _) _ (
                          after_check_assignee team assignee _ (
                            after _ _ (
                              after_leave_open (is_open_status b.status) b.id _ λ alerts.
                                after (enrol_owner t assignee) _ (
                                  after_enrol_owner t assignee λ participants.
                                    after_finish_blocker
                                      (record b {
                                        status = assigned;
                                        blocker_team_id = or_kept team b.blocker_team_id;
                                        blocker_owner_user_id = assignee;
                                      })
                                      t actor_id _ _
                                      λ at draws audit outbox. (
                                        b,
                                        record {
                                          found = found;
                                          same = (refl, refl, refl);
                                          path = moves stays (assign-arrow b.status legal) refl;
                                          blockers = refl;
                                          tasks = refl;
                                        },
                                        refl,
                                      )))))))))))))))

pub start_blocker-Move :
    (actor_id id v : ℕ) (s : Session)
    → Ensures
        (start_blocker actor_id id v)
        s
        (λ b' s'. (b : Blocker) × BlockerMove s id b b' s' × (b'.status ≡ in_progress))
unfolding start_blocker
start_blocker-Move actor_id id v s = after _ _ (
    after_now (
      after (load_blocker actor_id id) _ (
        after_load_blocker actor_id id λ t b found task_found.
          after (query (actor_may_start_blocker actor_id t b (s.clock_readings s.draws))) _ (
            after_query _ λ allowed _. after _ _ (
              after_guard _ _ λ _. after _ _ (
                after_guard _ _ λ _. after _ _ (
                  after_guard _ _ λ legal.
                    after (enrol_owner t (claimant b.blocker_owner_user_id actor_id)) _ (
                      after_enrol_owner t _ λ participants.
                        after_finish_blocker
                          (record b {
                            status = in_progress;
                            claimed_at = some (s.clock_readings s.draws);
                            blocker_owner_user_id = or_kept b.blocker_owner_user_id (some actor_id);
                          })
                          t actor_id _ _
                          λ at draws audit outbox. (
                            b,
                            record {
                              found = found;
                              same = (refl, refl, refl);
                              path = moves stays (start-arrow b.status legal) refl;
                              blockers = refl;
                              tasks = refl;
                            },
                            refl,
                          )))))))))

pub resolve_blocker-Move :
    (actor_id id v : ℕ) (remark : Option String) (s : Session)
    → Ensures
        (resolve_blocker actor_id id v remark)
        s
        (λ b' s'. (b : Blocker) × BlockerMove s id b b' s' × (b'.status ≡ resolved))
unfolding resolve_blocker
resolve_blocker-Move actor_id id v remark s = after _ _ (
    after_now (
      after (load_blocker actor_id id) _ (
        after_load_blocker actor_id id λ t b found task_found.
          after (query (actor_may_resolve_blocker actor_id t b (s.clock_readings s.draws))) _ (
            after_query _ λ allowed _. after _ _ (
              after_guard _ _ λ _. after _ _ (
                after_guard _ _ λ _. after _ _ (
                  after_guard _ _ λ legal.
                    after_finish_blocker
                      (record b {
                        status = resolved;
                        resolved_at = some (s.clock_readings s.draws);
                        resolution_note = clean remark;
                      })
                      t actor_id _ _
                      λ at draws audit outbox. (
                        b,
                        record {
                          found = found;
                          same = (refl, refl, refl);
                          path = moves stays (resolve-arrow b.status legal) refl;
                          blockers = refl;
                          tasks = refl;
                        },
                        refl,
                      ))))))))

-- What the end of `verify` does to the Task `t` of the Blocker, in the session `m` where the Blocker is
-- CLOSED: it resumes the Task if that was the last active Blocker of a BLOCKED Task, and nothing else.
pub data Resumption (actor_id : ℕ) (m : Session) (t : Task) (s' : Session) : Type 0 where
  resumes_task :
      (t' : Task)
      → (is_blocked t.status && (count_active_blockers m t.id == 0)) ≡ true
      → Move resume actor_id t.id m t' s'
      → Resumption actor_id m t s'
  leaves_task :
      (is_blocked t.status && (count_active_blockers m t.id == 0)) ≡ false
      → s' ≡ m
      → Resumption actor_id m t s'

after_resume_if_last :
    (t : Task) (actor_id blocker_id : ℕ) (s : Session)
    → live_task s t.id ≡ some t
    → Ensures (resume_if_last t actor_id blocker_id) s (λ _ s'. Resumption actor_id s t s')
unfolding resume_if_last
after_resume_if_last t actor_id blocker_id s live = after _ _ (
    after_asks (λ s. count_active_blockers s t.id)
      (after_choose _ _ _
        (λ last. after (resume_after_last_blocker t.id actor_id blocker_id) _ (
          weaken _ (resume_after-Move t.id actor_id blocker_id t s live last)
            λ t' s' move. after_pure _ (resumes_task t' last move)))
        (λ not_last. after_pure _ (leaves_task not_last refl))))

pub verify-Move :
    (actor_id id v : ℕ) (s : Session)
    → Ensures (verify actor_id id v) s (λ b' s'.
      (b : Blocker) × (t : Task) × (m : Session) × BlockerMove s id b b' m
      × (b.status ≡ resolved)
      × (b'.status ≡ closed)
      × (b'.version ≡ b.version + 2)
      × (live_task s b.task_id ≡ some t)
      × (t.id ≡ b.task_id)
      × Resumption actor_id m t s')
unfolding verify
verify-Move actor_id id v s = after _ _ (
    after_now (
      after (load_blocker actor_id id) _ (
        after_load_blocker actor_id id λ t b found task_found.
          after (query (actor_may_verify_blocker actor_id t b (s.clock_readings s.draws))) _ (
            after_query _ λ allowed _. after _ _ (
              after_guard _ _ λ _. after _ _ (
                after_guard _ _ λ _. after _ _ (
                  after_guard _ _ λ legal. after _ _ (
                    after_finish_blocker
                      (record b {
                        status = verified;
                        verified_at = some (s.clock_readings s.draws);
                      })
                      t actor_id _ _
                      λ at draws audit outbox. after _ _ (
                        after_finish_blocker
                          (record b {
                            status = closed;
                            verified_at = some (s.clock_readings s.draws);
                            closed_at = some (s.clock_readings s.draws);
                            version = b.version + 1;
                            updated_at = at;
                          })
                          t actor_id _ _
                          λ at' draws' audit' outbox'.
                            let key = task-key s b.task_id t task_found in
                            after (resume_if_last t actor_id _) _ (
                              weaken _
                                (after_resume_if_last t actor_id _ _
                                  (ap (live_task s) key ∙ task_found))
                                λ _ s' resumption. after_pure _ (
                                  b,
                                  t,
                                  _,
                                  record {
                                    found = found;
                                    same = (refl, refl, refl);
                                    path =
                                        moves
                                          (moves
                                            {y = record b {
                                              status = verified;
                                              verified_at = some (s.clock_readings s.draws);
                                              version = b.version + 1;
                                              updated_at = at;
                                            }}
                                            stays (verify-arrow b.status legal) refl)
                                          shut refl;
                                    blockers = put-put_row (λ r. r.id) _ _ s.blockers refl;
                                    tasks = refl;
                                  },
                                  only-resolved b.status legal,
                                  refl,
                                  omega arith,
                                  task_found,
                                  key,
                                  resumption,
                                )))))))))))
  where
    only-resolved : (x : BlockerStatus) → verifiable x ≡ true → x ≡ resolved
    only-resolved resolved e = refl
    only-resolved x e = absurd (ground (arith, e))
