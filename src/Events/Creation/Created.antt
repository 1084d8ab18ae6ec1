-- ===== src/Events/Creation/Created.antt =====
-- What `create_event` checks, and what it leaves.
use syntrix_dr.Prelude.{
  ℕ, ◌≡◌, refl, sym, ap, subst, true, Option, none, some, List, [], ◌∷◌, ◌++◌, arith, String, Memᴰ,
  Memᴰ-cons, inl, inr, is_some,
}
use syntrix_dr.Prelude.Memᴰ
use syntrix_dr.Db.{
  Session, DrEvent, ApplicationOwner, application_scope, get_row, add_row-append, add_row-fresh,
}
use syntrix_dr.Db.Writing.Steps.{
  done, Ensures, after, after_asks, after_guard, after_expect, after_modify, after_pure, after_now,
  after_new_uuid, after_write_audit, after_write_outbox, weaken,
}
use syntrix_dr.Access.Grants.{Capability, create_planned_dr_event, manage_plans}
use syntrix_dr.Access.Authorization.{Scope, can, no_scope, typed_scope}
use syntrix_dr.Access.Visibility.{is_participant, user_can_see_event}
use syntrix_dr.Events.Creation.{
  list_application_owners, require, require_each, require_creation, require_plans, check_parent,
  insert_event, create_event, new_event,
}
use syntrix_dr.Events.Creation.Enrolled.{
  Grown, Grown-trans, same_people, owners_in, OwnersSee, enrol_participant-Enrolled,
  scope_applications-Enrolled, attach_plan-Grown,
}

after_require :
    (actor_id : ℕ) (capability : Capability) (scope : Scope) {s : Session}
    {Q : Unit {0} → Session → Type 0}
    → (can s actor_id capability scope ≡ true → Q tt s)
    → Ensures (require actor_id capability scope) s Q
unfolding require
after_require actor_id capability scope h = after _ _ (after_asks _ (after_guard _ _ h))

-- The actor may create Events for this Application.
abbrev pub MayScope : Session → (actor_id app_id : ℕ) → Type 0
MayScope s actor_id app_id =
    can s actor_id create_planned_dr_event (typed_scope application_scope (some app_id)) ≡ true

after_require_each :
    (actor_id : ℕ) (application_ids : List ℕ) {s : Session} {Q : Unit {0} → Session → Type 0}
    → (((app_id : ℕ) → Memᴰ app_id application_ids → MayScope s actor_id app_id) → Q tt s)
    → Ensures (require_each actor_id application_ids) s Q
unfolding require_each
after_require_each actor_id [] h = after_pure tt (h λ a m. absurd (Memᴰ.not-nil m))
after_require_each actor_id (app_id ∷ application_ids) {s} h = after _ _ (
    after_require actor_id create_planned_dr_event (typed_scope application_scope (some app_id))
      {s = s}
      λ first. after_require_each actor_id application_ids {s = s} λ rest. h λ a m.
        elim ((Memᴰ-cons a app_id application_ids).0 m) [
          | inl same ↦ subst (MayScope s actor_id) (sym same) first
          | inr later ↦ rest a later
        ])

-- The parent exists and the actor sees it.
abbrev pub SeesParent : Session → ℕ → Option ℕ → Type 0
SeesParent s actor_id parent =
    (p : ℕ)
    → parent ≡ some p
    → (is_some (get_row (λ e. e.id) p s.events) ≡ true) × (user_can_see_event s actor_id p ≡ true)

-- The checks of `create_event` passed.
pub record MayCreate (s : Session) (actor_id : ℕ) (application_ids : List ℕ)
    (plan_id parent_dr_event_id : Option ℕ) : Type 0 where
  pub globally : application_ids ≡ [] → can s actor_id create_planned_dr_event no_scope ≡ true
  pub for_each : (app_id : ℕ) → Memᴰ app_id application_ids → MayScope s actor_id app_id
  pub for_plan : is_some plan_id ≡ true → can s actor_id manage_plans no_scope ≡ true
  pub parent : SeesParent s actor_id parent_dr_event_id

-- The new Event, and those who see it.
pub record Created (s : Session) (actor_id : ℕ) (application_ids : List ℕ) (e : DrEvent)
    (s' : Session) : Type 0 where
  pub fresh : get_row (λ r. r.id) e.id s.events ≡ none
  pub appended : s'.events ≡ s.events ++ e ∷ []
  pub creator : user_can_see_event s' actor_id e.id ≡ true
  pub owners :
      (app_id : ℕ) (o : ApplicationOwner)
      → Memᴰ app_id application_ids
      → Memᴰ o (list_application_owners s app_id)
      → user_can_see_event s' o.user_id e.id ≡ true
  pub others :
      (event_id user_id : ℕ)
      → is_participant s event_id user_id ≡ true
      → user_can_see_event s' user_id event_id ≡ true

after_require_creation :
    (actor_id : ℕ) (application_ids : List ℕ) {s : Session} {Q : Unit {0} → Session → Type 0}
    → ((application_ids ≡ [] → can s actor_id create_planned_dr_event no_scope ≡ true)
        → ((app_id : ℕ) → Memᴰ app_id application_ids → MayScope s actor_id app_id)
        → Q tt s)
    → Ensures (require_creation actor_id application_ids) s Q
unfolding require_creation
after_require_creation actor_id [] h =
    after_require actor_id create_planned_dr_event no_scope
      λ may. h (λ e. may) (λ a m. absurd (Memᴰ.not-nil m))
after_require_creation actor_id (app_id ∷ application_ids) h =
    after_require_each actor_id (app_id ∷ application_ids)
      λ each. h (λ e. absurd (grind arith)) each

after_require_plans :
    (actor_id : ℕ) (plan_id : Option ℕ) {s : Session} {Q : Unit {0} → Session → Type 0}
    → ((is_some plan_id ≡ true → can s actor_id manage_plans no_scope ≡ true) → Q tt s)
    → Ensures (require_plans actor_id plan_id) s Q
unfolding require_plans
after_require_plans actor_id none h = after_pure tt (h λ e. absurd (grind arith))
after_require_plans actor_id (some plan_id) h =
    after_require actor_id manage_plans no_scope λ may. h λ e. may

after_check_parent :
    (actor_id : ℕ) (parent : Option ℕ) {s : Session} {Q : Unit {0} → Session → Type 0}
    → (SeesParent s actor_id parent → Q tt s)
    → Ensures (check_parent actor_id parent) s Q
unfolding check_parent
after_check_parent actor_id none h = after_pure tt (h λ p e. absurd (grind arith))
after_check_parent actor_id (some parent) {s} h = after _ _ (
    after_asks _ (
      after _ _ (
        after_expect _ _ λ e found. after _ _ (
          after_asks _ (
            after_guard _ _ λ seen. h λ p same.
              let q : parent ≡ p = grind (arith, same) in
              (
                subst (λ i. is_some (get_row (λ e. e.id) i s.events) ≡ true) q (ap is_some found),
                subst (λ i. user_can_see_event s actor_id i ≡ true) q seen,
              ))))))

after_insert_event :
    (e : DrEvent) {s : Session} {Q : Unit {0} → Session → Type 0}
    → (get_row (λ r. r.id) e.id s.events ≡ none → Q tt (record s { events = s.events ++ e ∷ [] }))
    → Ensures (insert_event e) s Q
unfolding insert_event
after_insert_event e {s} {Q} h = after _ _ (
    after_asks _ (
      after _ _ (
        after_expect _ _ λ rows stored. after_modify _ (
          subst (λ x. Q tt (record s { events = x }))
            (sym (add_row-append (λ r. r.id) e _ rows stored))
            (h (add_row-fresh (λ r. r.id) e _ rows stored))))))

sees :
    (s : Session) (user_id event_id : ℕ)
    → is_participant s event_id user_id ≡ true
    → user_can_see_event s user_id event_id ≡ true
unfolding user_can_see_event
sees s user_id event_id h = ground (arith, h)

-- The steps after the new row was stored, one after the other.
enrolled :
    (s : Session) (actor_id : ℕ) (application_ids : List ℕ) (e : DrEvent) {draws : ℕ}
    {s1 s2 s3 s' : Session}
    → get_row (λ r. r.id) e.id s.events ≡ none
    → Grown (record s { events = s.events ++ e ∷ []; draws = draws }) s1
    → is_participant s1 e.id actor_id ≡ true
    → Grown s1 s2
    → ((app_id : ℕ) → Memᴰ app_id application_ids → OwnersSee e.id app_id s1 s2)
    → Grown s2 s3
    → s'.participants ≡ s3.participants
    → s'.events ≡ s3.events
    → s'.directory ≡ s3.directory
    → Created s actor_id application_ids e s'
unfolding list_application_owners is_participant
enrolled s actor_id application_ids e {draws} {s1} {s2} {s3} {s'} fresh g1 creator g2 owners g3 p v
      d =
    let last : Grown s3 s' = same_people p v d in
    let after_owners : Grown s2 s' = Grown-trans g3 last in
    let all = Grown-trans g1 (Grown-trans g2 after_owners) in
    record {
      fresh = fresh;
      appended = all.events;
      creator = sees s' actor_id e.id ((Grown-trans g2 after_owners).keeps e.id actor_id creator);
      owners = λ app_id o m owns. sees s' o.user_id e.id (
          after_owners.keeps e.id o.user_id
            (owners app_id m o (subst (λ d. Memᴰ o (owners_in d app_id)) (sym g1.directory) owns)));
      others = λ event_id user_id h. sees s' user_id event_id (all.keeps event_id user_id h);
    }

create_event-Created :
    (actor_id : ℕ) (name event_type : String) (application_ids : List ℕ)
    (plan_id plan_version_id parent_dr_event_id : Option ℕ) (s : Session)
    → Ensures
        (create_event actor_id name event_type application_ids plan_id plan_version_id
          parent_dr_event_id)
        s
        λ e s'.
          (at : ℕ) × (e ≡ new_event e.id parent_dr_event_id at)
          × MayCreate s actor_id application_ids plan_id parent_dr_event_id
          × Created s actor_id application_ids e s'
unfolding create_event list_application_owners is_participant
create_event-Created actor_id name event_type application_ids plan_id plan_version_id
      parent_dr_event_id s =
    after _ _ (
      after_require_creation _ _ λ globally each. after _ _ (
        after_require_plans _ _ λ plans. after _ _ (
          after_check_parent _ _ λ parent. after _ _ (
            after_new_uuid (
              after _ _ (
                after_now (
                  after _ _ (
                    after_insert_event _ λ fresh. after _ _ (
                      weaken _ (enrol_participant-Enrolled _ actor_id "EXPLICIT" _)
                        λ _ s1 (g1, creator). after _ _ (
                          weaken _ (scope_applications-Enrolled _ _ _ _) λ _ s2 (g2, owners).
                            after _ _ (
                              weaken _ (attach_plan-Grown _ _ _ _ _) λ _ s3 g3. after _ _ (
                                after_write_audit _ (
                                  after _ _ (
                                    after_write_outbox _ _ _ _ _ (
                                      after_pure _ (
                                        _,
                                        refl,
                                        record {
                                          globally = globally;
                                          for_each = each;
                                          for_plan = plans;
                                          parent = parent;
                                        },
                                        enrolled s actor_id application_ids _ fresh g1 creator g2
                                            owners g3 refl refl refl,
                                      ))))))))))))))))

-- If `create_event` succeeds, the actor could create Events for each of the Applications, or, if none was
-- named, could create Events at all; with a Plan, the actor could manage Plans; and a parent that was
-- given exists and the actor sees it. The new Event is a PLANNED one of version 1 under that parent.
pub create_event-MayCreate :
    (actor_id : ℕ) (name event_type : String) (application_ids : List ℕ)
    (plan_id plan_version_id parent_dr_event_id : Option ℕ) (s s' : Session) (e : DrEvent)
    → create_event actor_id name event_type application_ids plan_id plan_version_id
        parent_dr_event_id s
      ≡ done e s'
    → (at : ℕ) × (e ≡ new_event e.id parent_dr_event_id at)
      × MayCreate s actor_id application_ids plan_id parent_dr_event_id
create_event-MayCreate actor_id name event_type application_ids plan_id plan_version_id
      parent_dr_event_id s s' e h =
    let (at, same, may, _) =
      (create_event-Created actor_id name event_type application_ids plan_id plan_version_id
          parent_dr_event_id s).result
        e s' h in
    (at, same, may)

-- If `create_event` succeeds, its Event has a new id and is the one row that the table of Events gained;
-- the creator sees it, and so does every live owner of each of its Applications; and whoever was a
-- participant of an Event before still sees that Event.
pub create_event-visible :
    (actor_id : ℕ) (name event_type : String) (application_ids : List ℕ)
    (plan_id plan_version_id parent_dr_event_id : Option ℕ) (s s' : Session) (e : DrEvent)
    → create_event actor_id name event_type application_ids plan_id plan_version_id
        parent_dr_event_id s
      ≡ done e s'
    → Created s actor_id application_ids e s'
create_event-visible actor_id name event_type application_ids plan_id plan_version_id
      parent_dr_event_id s s' e h =
    let (at, _, _, created) =
      (create_event-Created actor_id name event_type application_ids plan_id plan_version_id
          parent_dr_event_id s).result
        e s' h in
    created
