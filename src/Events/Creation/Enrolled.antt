-- ===== src/Events/Creation/Enrolled.antt =====
-- Who is a participant of an Event once `create_event` has made it.
use syntrix_dr.Prelude.{
  ℕ, ◌≡◌, refl, sym, ap, ◌∙◌, subst, Bool, true, Option, none, some, List, [], ◌∷◌, ◌++◌, any, ◌||◌,
  arith, is_some, select, mem-select, String, Memᴰ, Memᴰ-cons, inl, inr, ==_iff,
}
use syntrix_dr.Prelude.Memᴰ
use syntrix_dr.Db.{Session, ok, ApplicationOwner, DrApplication, Directory}
use syntrix_dr.Db.Reading.{scalar_one_or_none}
use syntrix_dr.Db.Writing.Steps.{
  Ensures, after, after_query, after_asks, after_guard, after_expect, after_modify, after_pure,
  after_now, after_new_uuid, after_write_audit, after_choose, weaken, raised,
}
use syntrix_dr.Access.Authorization.Laws.{any-Mem}
use syntrix_dr.Access.Visibility.{is_participant}
use syntrix_dr.Access.Participants.{enrol_participant, is_active_row, active_row}
use syntrix_dr.Plans.{instantiate_plan_into_event}
use syntrix_dr.Plans.Steps.{after_create_event_version}
use syntrix_dr.Events.Creation.{
  sort_owners, is_owner_row_of, list_application_owners, insert_application, enrol_owners,
  scope_application, scope_applications, attach_plan,
}

-- Nobody stops being a participant, and the Events and the catalog stay.
pub record Grown (s s' : Session) : Type 0 where
  pub keeps :
      (event_id user_id : ℕ)
      → is_participant s event_id user_id ≡ true
      → is_participant s' event_id user_id ≡ true
  pub events : s'.events ≡ s.events
  pub directory : s'.directory ≡ s.directory

pub Grown-refl : (s : Session) → Grown s s
Grown-refl s = record { keeps = λ e u h. h; events = refl; directory = refl }

pub Grown-trans : {s s' s'' : Session} → Grown s s' → Grown s' s'' → Grown s s''
Grown-trans g h = record {
  keeps = λ e u p. h.keeps e u (g.keeps e u p);
  events = h.events ∙ g.events;
  directory = h.directory ∙ g.directory;
}

-- The rows of another table do not matter.
pub same_people :
    {s s' : Session}
    → s'.participants ≡ s.participants
    → s'.events ≡ s.events
    → s'.directory ≡ s.directory
    → Grown s s'
unfolding is_participant
same_people p e d = record {
  keeps = λ event_id user_id h. ground (arith, h, p);
  events = e;
  directory = d;
}

any-append :
    {A : Type 0} (p : A → Bool) (xs ys : List A) → any p (xs ++ ys) ≡ (any p xs || any p ys)
any-append p [] ys = refl
any-append p (x ∷ xs) ys = ground (arith, any-append p xs ys)

-- A row that `scalar_one_or_none` found is among the selected ones.
found-any :
    {A : Type 0} (p q : A → Bool) (xs : List A) (o : Option A)
    → ((a : A) → p a ≡ true → q a ≡ true)
    → scalar_one_or_none (select p xs) ≡ ok o
    → is_some o ≡ true
    → any q xs ≡ true
found-any {A} p q xs o imp e there = split (select p xs) refl e
  where
    split : (rows : List A) → select p xs ≡ rows → scalar_one_or_none rows ≡ ok o → any q xs ≡ true
    split [] d e = absurd (grind (arith, e, there))
    split (a ∷ []) d e =
        let (m, k) = mem-select p a xs (subst (Memᴰ a) (sym d) (Memᴰ.head refl)) in
        any-Mem q a xs m (imp a k)
    split (a ∷ b ∷ rows) d e = absurd (raised e)

pub enrol_participant-Enrolled :
    (event_id user_id : ℕ) (source : String) (s : Session)
    → Ensures
        (enrol_participant event_id user_id source)
        s
        λ u s'. Grown s s' × (is_participant s' event_id user_id ≡ true)
unfolding enrol_participant active_row is_participant
enrol_participant-Enrolled event_id user_id source s = after _ _ (
    after_query _ λ o e.
      after_choose _ _ _
        (λ there. after_pure tt (
          Grown-refl s,
          found-any (is_active_row event_id user_id source) _ s.participants o
              (λ p h. ground (arith, h)) e there,
        ))
        (λ missing. after_modify _ (
          record {
            keeps = λ e u h. any-append _ s.participants _ ∙ ground (arith, h);
            events = refl;
            directory = refl;
          },
          any-append _ s.participants _
              ∙ ground (arith, (==_iff event_id event_id).1 refl, (==_iff user_id user_id).1 refl),
        )))

enrol_owners-Enrolled :
    (event_id : ℕ) (owners : List ApplicationOwner) (s : Session)
    → Ensures (enrol_owners event_id owners) s λ u s'.
      Grown s s'
      × ((o : ApplicationOwner) → Memᴰ o owners → is_participant s' event_id o.user_id ≡ true)
unfolding enrol_owners
enrol_owners-Enrolled event_id [] s = after_pure tt (Grown-refl s, λ o m. absurd (Memᴰ.not-nil m))
enrol_owners-Enrolled event_id (owner ∷ owners) s = after _ _ (
    weaken _ (enrol_participant-Enrolled event_id owner.user_id _ s) λ u s1 (g, first).
      weaken _ (enrol_owners-Enrolled event_id owners s1) λ u s2 (h, rest). (
        Grown-trans g h,
        λ o m. elim ((Memᴰ-cons o owner owners).0 m) [
          | inl same ↦
              ap (λ x. is_participant s2 event_id x.user_id) same
              ∙ h.keeps event_id owner.user_id first
          | inr later ↦ rest o later
        ],
      ))

after_insert_application :
    (a : DrApplication) {s : Session} {Q : Unit {0} → Session → Type 0}
    → ((rows : List DrApplication) → Q tt (record s { applications = rows }))
    → Ensures (insert_application a) s Q
unfolding insert_application
after_insert_application a h = after _ _ (
    after_asks _ (
      after _ _ (
        after_guard _ _ λ _.
          after _ _
            (after_asks _ (after _ _ (after_expect _ _ λ rows _. after_modify _ (h rows)))))))

-- The live owners of an Application of the catalog are participants.
abbrev pub OwnersSee : (event_id app_id : ℕ) → Session → Session → Type 0
OwnersSee event_id app_id s s' =
    (o : ApplicationOwner)
    → Memᴰ o (list_application_owners s app_id)
    → is_participant s' event_id o.user_id ≡ true

scope_application-Enrolled :
    (actor_id event_id app_id : ℕ) (s : Session)
    → Ensures
        (scope_application actor_id event_id app_id)
        s
        λ u s'. Grown s s' × OwnersSee event_id app_id s s'
unfolding scope_application list_application_owners
scope_application-Enrolled actor_id event_id app_id s = after _ _ (
    after_asks _ (
      after _ _ (
        after_expect _ _ λ application _. after _ _ (
          after_asks _ (
            after _ _ (
              after_expect _ _ λ tier _. after _ _ (
                after_new_uuid (
                  after _ _ (
                    after_now (
                      after _ _ (
                        after_insert_application _ λ rows. after _ _ (
                          after_write_audit _ (
                            after _ _ (
                              after_asks _ (
                                weaken _ (enrol_owners-Enrolled event_id _ _) λ u s' (g, seen).
                                  (Grown-trans (same_people refl refl refl) g, seen))))))))))))))))

-- The owners that `list_application_owners` reads in a directory.
abbrev pub owners_in : Directory → ℕ → List ApplicationOwner
owners_in d app_id = sort_owners (select (is_owner_row_of app_id) d.application_owners)

pub scope_applications-Enrolled :
    (actor_id event_id : ℕ) (application_ids : List ℕ) (s : Session)
    → Ensures (scope_applications actor_id event_id application_ids) s λ u s'.
      Grown s s' × ((app_id : ℕ) → Memᴰ app_id application_ids → OwnersSee event_id app_id s s')
unfolding scope_applications list_application_owners
scope_applications-Enrolled actor_id event_id [] s =
    after_pure tt (Grown-refl s, λ a m. absurd (Memᴰ.not-nil m))
scope_applications-Enrolled actor_id event_id (app_id ∷ application_ids) s = after _ _ (
    weaken _ (scope_application-Enrolled actor_id event_id app_id s) λ u s1 (g, first).
      weaken _ (scope_applications-Enrolled actor_id event_id application_ids s1) λ u s2 (h, rest).
        (
          Grown-trans g h,
          λ a m o owns. elim ((Memᴰ-cons a app_id application_ids).0 m) [
            | inl same ↦
                h.keeps event_id o.user_id
                  (first o (subst (λ i. Memᴰ o (list_application_owners s i)) same owns))
            | inr later ↦
                rest a later o (subst (λ d. Memᴰ o (owners_in d a)) (sym g.directory) owns)
          ],
        ))

pub attach_plan-Grown :
    (actor_id event_id : ℕ) (plan_id plan_version_id : Option ℕ) (s : Session)
    → Ensures (attach_plan actor_id event_id plan_id plan_version_id) s λ u s'. Grown s s'
unfolding attach_plan instantiate_plan_into_event
attach_plan-Grown actor_id event_id none plan_version_id s = after_pure tt (Grown-refl s)
attach_plan-Grown actor_id event_id (some plan_id) plan_version_id s = after _ _ (
    after_expect _ _ λ version _. after _ _ (
      after _ _ (
        after_asks _ (
          after _ _ (
            after_guard _ _ λ _. after _ _ (
              after_asks _ (
                after _ _ (
                  after_expect _ _ λ found e. after _ _ (
                    after_guard _ _ λ _.
                      after_create_event_version _ _ _ _ _ _ _
                        λ v audit draws _. after_pure tt (same_people refl refl refl))))))))))
