-- ===== src/Issues/Moves.antt =====
-- How the status of an Issue moves.
use syntrix_dr.Prelude.{
  ℕ, ◌+◌, ◌≡◌, refl, sym, ap, ◌∙◌, subst, arith, String, true, Option, none, some, List, [], ◌∷◌,
  ◌++◌, is_none, if◌then◌else◌,
}
use syntrix_dr.Db.{
  Session, IssueFinding, IssueStatus, issue_in_review, get_row, put_row, get_row-key,
  add_row-append, add_row-fresh, AuditEvent, OutboxEvent, Payload,
}
use syntrix_dr.Db.Writing.Steps.{
  Ensures, after, after_asks, after_guard, after_expect, after_modify, after_pure, after_now,
  after_new_uuid, after_write_audit, after_write_outbox,
}
use syntrix_dr.Issues.{
  IssueCommand, to_review, issue_legal_from, lock_issue, load_issue, prepare_issue, save_issue,
  finish_issue, review, close_issue,
}
use syntrix_dr.Issues.Creation.{check_link, check_links, insert_issue, create_issue}

-- One row of the table of Issues is written or added; the audit log and the outbox grow; nothing else
-- changes.
pub record Apart (s s' : Session) : Type 0 where
  pub apart :
      s' ≡ record s { issues = s'.issues; audit = s'.audit; outbox = s'.outbox; draws = s'.draws }

-- What a command does to the table of Issues.
pub record IssueMove (s : Session) (i' : IssueFinding) (s' : Session) : Type 0 where
  pub before : IssueFinding
  pub command : IssueCommand
  pub found : get_row (λ r. r.id) i'.id s.issues ≡ some before
  pub legal : issue_legal_from command before.status ≡ true
  pub bumped : i'.version ≡ before.version + 1
  pub written : s'.issues ≡ put_row (λ r. r.id) i' s.issues
  pub alone : Apart s s'

lock-found :
    (s : Session) (id : ℕ) (i : IssueFinding)
    → lock_issue s id ≡ some i
    → get_row (λ r. r.id) id s.issues ≡ some i
unfolding lock_issue
lock-found s id i e = split (get_row (λ r. r.id) id s.issues) e
  where
    split :
        (o : Option IssueFinding)
        → (elim o [ none ↦ none | some i ↦ if is_none i.deleted_at then some i else none ]) ≡ some i
        → o ≡ some i
    split none e = absurd (grind (arith, e))
    split (some j) e = ground (arith, e)

after_prepare :
    (actor_id issue_id version : ℕ) (command : IssueCommand) {s : Session}
    {Q : IssueFinding → Session → Type 0}
    → ((i : IssueFinding)
        → get_row (λ r. r.id) i.id s.issues ≡ some i
        → issue_legal_from command i.status ≡ true
        → Q i s)
    → Ensures (prepare_issue actor_id issue_id version command) s Q
unfolding prepare_issue load_issue
after_prepare actor_id issue_id version command {s} h = after _ _ (
    after _ _ (
      after_asks _ (
        after _ _ (
          after_expect _ _ λ i e. after _ _ (
            after_asks _ (
              after _ _ (
                after_guard _ _ λ _. after_pure _ (
                  after _ _ (
                    after_asks _ (
                      after _ _ (
                        after_guard _ _ λ _. after _ _ (
                          after_guard _ _ λ _. after _ _ (
                            after_guard _ _ λ legal.
                              after_pure _
                                (h i (own i (lock-found s issue_id i e)) legal))))))))))))))
  where
    own :
        (i : IssueFinding)
        → get_row (λ r. r.id) issue_id s.issues ≡ some i
        → get_row (λ r. r.id) i.id s.issues ≡ some i
    own i e =
        ap (λ k. get_row (λ r. r.id) k s.issues) (get_row-key (λ r. r.id) issue_id s.issues i e) ∙ e

after_finish :
    (i : IssueFinding) (actor_id : ℕ) (before : Payload) (action : String) (extra : Payload)
    {s : Session} {Q : IssueFinding → Session → Type 0}
    → ((at : ℕ) (audit : List AuditEvent) (outbox : List OutboxEvent) (draws : ℕ)
        → Q
            (record i { version = i.version + 1; updated_at = at })
            (record s {
              issues =
                  put_row
                    (λ r. r.id)
                    (record i { version = i.version + 1; updated_at = at })
                    s.issues;
              audit = audit;
              outbox = outbox;
              draws = draws;
            }))
    → Ensures (finish_issue i actor_id before action extra) s Q
unfolding finish_issue save_issue
after_finish i actor_id before action extra h = after _ _ (
    after_now (
      after _ _ (
        after_modify _ (
          after _ _ (
            after_write_audit _
              (after _ _ (after_write_outbox _ _ _ _ _ (after_pure _ (h _ _ _ _)))))))))

pub review-Move :
    (actor_id issue_id version : ℕ) (s : Session)
    → Ensures (review actor_id issue_id version) s (IssueMove s)
unfolding review
review-Move actor_id issue_id version s = after _ _ (
    after_prepare _ _ _ to_review λ i found legal.
      after_finish (record i { status = issue_in_review }) _ _ _ _
        λ at audit outbox draws. record {
          before = i;
          command = to_review;
          found = found;
          legal = legal;
          bumped = refl;
          written = refl;
          alone = record { apart = refl };
        })

pub close-Move :
    (actor_id issue_id version : ℕ) (remark : Option String) (command : IssueCommand)
    (target : IssueStatus) (action : String) (s : Session)
    → Ensures (close_issue actor_id issue_id version remark command target action) s (IssueMove s)
unfolding close_issue
close-Move actor_id issue_id version remark command target action s = after _ _ (
    after_prepare _ _ _ command λ i found legal. after _ _ (
      after_expect _ _ λ clean_note _. after _ _ (
        after_now (
          after_finish
            (record i {
              status = target;
              resolution_note = some clean_note;
              resolved_at = some (s.clock_readings s.draws);
            })
            _ _ _ _
            λ at audit outbox draws. record {
              before = i;
              command = command;
              found = found;
              legal = legal;
              bumped = refl;
              written = refl;
              alone = record { apart = refl };
            }))))

-- A new Issue: a row of its own.
pub record IssueAdded (s : Session) (i : IssueFinding) (s' : Session) : Type 0 where
  pub fresh : get_row (λ r. r.id) i.id s.issues ≡ none
  pub written : s'.issues ≡ s.issues ++ i ∷ []
  pub alone : Apart s s'

after_check_link :
    (link row : Option ℕ) (dr_event_id : ℕ) (field : String) {s : Session}
    {Q : Unit {0} → Session → Type 0}
    → Q tt s
    → Ensures (check_link link row dr_event_id field) s Q
after_check_link none row dr_event_id field h = after_pure tt h
after_check_link (some link) row dr_event_id field h = after_guard _ _ λ _. h

after_check_links :
    (dr_event_id : ℕ) (application stream task owner : Option ℕ) {s : Session}
    {Q : Unit {0} → Session → Type 0}
    → Q tt s
    → Ensures (check_links dr_event_id application stream task owner) s Q
unfolding check_links
after_check_links dr_event_id application stream task owner h = after _ _ (
    after_asks _ (
      after _ _ (
        after_check_link _ _ _ _ (
          after _ _ (
            after_asks _ (
              after _ _ (
                after_check_link _ _ _ _ (
                  after _ _ (
                    after_asks _ (
                      after _ _ (
                        after_check_link _ _ _ _
                          (after _ _ (after_asks _ (after_guard _ _ λ _. h))))))))))))))

after_insert_issue :
    (i : IssueFinding) {s : Session} {Q : Unit {0} → Session → Type 0}
    → (get_row (λ r. r.id) i.id s.issues ≡ none → Q tt (record s { issues = s.issues ++ i ∷ [] }))
    → Ensures (insert_issue i) s Q
unfolding insert_issue
after_insert_issue i {s} {Q} h = after _ _ (
    after_asks _ (
      after _ _ (
        after_expect _ _ λ rows stored. after_modify _ (
          subst (λ x. Q tt (record s { issues = x }))
            (sym (add_row-append (λ r. r.id) i _ rows stored))
            (h (add_row-fresh (λ r. r.id) i _ rows stored))))))

pub create-Added :
    (actor_id dr_event_id : ℕ) (item_type title description : String) (priority : Option String)
    (application stream task owner : Option ℕ) (s : Session)
    → Ensures
        (create_issue actor_id dr_event_id item_type title description priority application stream
          task owner)
        s
        (IssueAdded s)
unfolding create_issue
create-Added actor_id dr_event_id item_type title description priority application stream task owner
      s =
    after _ _ (
      after_asks _ (
        after _ _ (
          after_expect _ _ λ event _. after _ _ (
            after_asks _ (
              after _ _ (
                after_guard _ _ λ _. after _ _ (
                  after_asks _ (
                    after _ _ (
                      after_guard _ _ λ _. after _ _ (
                        after_check_links _ _ _ _ _ (
                          after _ _ (
                            after_now (
                              after _ _ (
                                after_now (
                                  after _ _ (
                                    after_new_uuid (
                                      after _ _ (
                                        after_insert_issue _ λ fresh. after _ _ (
                                          after_write_audit _ (
                                            after _ _ (
                                              after_write_outbox _ _ _ _ _ (
                                                after_pure _ (record {
                                                  fresh = fresh;
                                                  written = refl;
                                                  alone = record { apart = refl };
                                                })))))))))))))))))))))))
