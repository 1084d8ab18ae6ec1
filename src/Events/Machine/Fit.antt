-- ===== src/Events/Machine/Fit.antt =====
-- The Applications of an Event keep up with it.
use syntrix_dr.Prelude.{
  ℕ, ◌≡◌, refl, sym, ap, ◌∙◌, subst, arith, Bool, true, not, ◌&&◌, ◌||◌, is_some, Option, none,
  some, List, ◌==◌, ==_iff, is_none, select, Bool-cases, inl, inr, if◌then◌else◌,
}
use syntrix_dr.Db.{
  Session, DrEvent, EventStatus, planned, active, failover_in_progress, closed, cancelled,
  DrApplication, ApplicationStatus, not_started, get_row, get-put_row, UniqueIds, UniqueIds-put_row,
  put_all, put_all-map, get-map_where, map_where, UniqueIds-map_where,
}
use syntrix_dr.Events.Queries.{in_event}
use syntrix_dr.Events.Lifecycle.{
  is_waiting, is_failed_over_application, recovering_at, failing_back_at,
}
use syntrix_dr.Events.Lifecycle.Moves.{
  EventArrow, activated, failover_started, marked_failed_over, failback_started, closed_directly,
  closed_after_failback, cancelled_early, EventMove,
}
use syntrix_dr.Events.Applications.Moves.{
  ApplicationArrow, submitted, failed_over_approved, completed_approved, returned,
  failback_pending_still, failback_approved, ApplicationMove,
}
use syntrix_dr.Events.Machine.{
  EventSteps, none_yet, then_step, Effect, event_alone, with_recovering, with_failing_back,
  application_alone, EventStep-Effect, move-row,
}

-- The times that an Event of this status has: of its network cut, and of the start of its failback.
unfoldable pub stamped : EventStatus → (cut failback : Bool) → Bool
stamped planned cut failback = not cut && not failback
stamped active cut failback = not cut && not failback
stamped failover_in_progress cut failback = cut && not failback
stamped EventStatus.failed_over cut failback = cut && not failback
stamped EventStatus.failback_in_progress cut failback = cut && failback
stamped closed cut failback = cut
stamped cancelled cut failback = cut || not failback

-- The statuses that a live Application can have under an Event with these times.
unfoldable pub fits : (cut failback : Bool) → ApplicationStatus → Bool
fits cut failback not_started = not cut
fits cut failback ApplicationStatus.failback_in_progress = cut && failback
fits cut failback _ = cut

abbrev pub IsStamped : DrEvent → Type 0
IsStamped e = stamped e.status (is_some e.network_cut_at) (is_some e.failback_started_at) ≡ true

abbrev pub Fits : DrEvent → ApplicationStatus → Type 0
Fits e x = fits (is_some e.network_cut_at) (is_some e.failback_started_at) x ≡ true

-- The primary key of the table of Applications; the times of every Event; and that every live Application
-- fits its Event.
pub record Aligned (s : Session) : Type 0 where
  pub unique : UniqueIds (λ r. r.id) s.applications
  pub times : (id : ℕ) (e : DrEvent) → get_row (λ r. r.id) id s.events ≡ some e → IsStamped e
  pub fitting :
      (id : ℕ) (a : DrApplication) (e : DrEvent)
      → get_row (λ r. r.id) id s.applications ≡ some a
      → is_none a.deleted_at ≡ true
      → get_row (λ r. r.id) a.dr_event_id s.events ≡ some e
      → Fits e a.status

-- What an arrow does to the times.
arrow-stamped :
    (x y : EventStatus) (c c' f f' : Bool)
    → EventArrow x y
    → ((y ≡ failover_in_progress → ⊥) → c' ≡ c)
    → (y ≡ failover_in_progress → c' ≡ true)
    → ((y ≡ EventStatus.failback_in_progress → ⊥) → f' ≡ f)
    → (y ≡ EventStatus.failback_in_progress → f' ≡ true)
    → stamped x c f ≡ true
    → stamped y c' f' ≡ true
unfolding stamped
arrow-stamped x y c c' f f' activated ck cs fk fs h =
    let p = ck (λ e. grind (arith, e)) in
    let q = fk (λ e. grind (arith, e)) in ground (arith, p, q, h)
arrow-stamped x y c c' f f' failover_started ck cs fk fs h =
    let p = cs refl in let q = fk (λ e. grind (arith, e)) in ground (arith, p, q, h)
arrow-stamped x y c c' f f' marked_failed_over ck cs fk fs h =
    let p = ck (λ e. grind (arith, e)) in
    let q = fk (λ e. grind (arith, e)) in ground (arith, p, q, h)
arrow-stamped x y c c' f f' failback_started ck cs fk fs h =
    let p = ck (λ e. grind (arith, e)) in let q = fs refl in ground (arith, p, q, h)
arrow-stamped x y c c' f f' closed_directly ck cs fk fs h =
    let p = ck (λ e. grind (arith, e)) in ground (arith, p, h)
arrow-stamped x y c c' f f' closed_after_failback ck cs fk fs h =
    let p = ck (λ e. grind (arith, e)) in ground (arith, p, h)
arrow-stamped x y c c' f f' (cancelled_early _) ck cs fk fs h =
    let p = ck (λ e. grind (arith, e)) in
    let q = fk (λ e. grind (arith, e)) in ground (arith, p, q, early x c f h)
  where
    early : (x : EventStatus) (c f : Bool) → stamped x c f ≡ true → c || not f ≡ true
    early x c f h = ground (arith, h)

move-IsStamped :
    (s s' : Session) (event_id : ℕ) (e e' : DrEvent)
    → EventMove s event_id e e' s'
    → ((id : ℕ) (x : DrEvent) → get_row (λ r. r.id) id s.events ≡ some x → IsStamped x)
    → (id : ℕ) (x : DrEvent) → get_row (λ r. r.id) id s'.events ≡ some x
    → IsStamped x
move-IsStamped s s' event_id e e' move all_stamped id x there =
    elim (move-row s s' event_id e e' move id) [
      | inl (here, now_there) ↦
          let is_x : e' ≡ x = some-eq (sym now_there ∙ there) in
          subst IsStamped is_x (
            arrow-stamped e.status e'.status (is_some e.network_cut_at) (is_some e'.network_cut_at)
              (is_some e.failback_started_at) (is_some e'.failback_started_at) move.arrow
              (λ n. ap is_some (move.stamps.cut_kept n)) move.stamps.cut_set
              (λ n. ap is_some (move.stamps.failback_kept n)) move.stamps.failback_set
              (all_stamped event_id e move.found))
      | inr (_, unchanged) ↦ all_stamped id x (sym unchanged ∙ there)
    ]
  where
    some-eq : {a b : DrEvent} → some a ≡ some b → a ≡ b
    some-eq e = grind arith

-- An Event that keeps its times keeps what fits.
kept-Fits :
    (e e' : DrEvent) (x : ApplicationStatus)
    → e'.network_cut_at ≡ e.network_cut_at
    → e'.failback_started_at ≡ e.failback_started_at
    → Fits e x
    → Fits e' x
kept-Fits e e' x c f h =
    ap (λ o. fits (is_some o) (is_some e'.failback_started_at) x) c
    ∙ ap (λ o. fits (is_some e.network_cut_at) (is_some o) x) f
    ∙ h

arrow-fits :
    (c f : Bool) (x y : ApplicationStatus)
    → ApplicationArrow x y
    → fits c f x ≡ true
    → fits c f y ≡ true
unfolding fits
arrow-fits c f x y submitted h = h
arrow-fits c f x y failed_over_approved h = h
arrow-fits c f x y completed_approved h = h
arrow-fits c f x y returned h = h
arrow-fits c f x y failback_pending_still h = h
arrow-fits c f x y failback_approved h = ground (arith, h)

-- The rows that start to recover, and the rest.
recovering-fits :
    (event_id cut_at at : ℕ) (a : DrApplication) (c f : Bool)
    → a.dr_event_id ≡ event_id
    → is_none a.deleted_at ≡ true
    → fits c f a.status ≡ true
    → fits true f
        (if in_event event_id a && is_waiting a.status then recovering_at cut_at at a else a).status
      ≡ true
unfolding fits
recovering-fits event_id cut_at at a c f here live h =
    let same = (==_iff a.dr_event_id event_id).1 here in ground (arith, same, live, h)

failing_back-fits :
    (event_id at : ℕ) (a : DrApplication) (c f : Bool)
    → fits c f a.status ≡ true
    → fits c true
        (if in_event event_id a && is_failed_over_application a.status && a.failback_required
          then failing_back_at at a
          else a).status
      ≡ true
unfolding fits
failing_back-fits event_id at a c f h = ground (arith, h)

-- An Event moves, and with it those of its Applications that `p` picks.
module _ (p : DrApplication → Bool) (move : DrApplication → DrApplication)
    (same_id : (a : DrApplication) → (move a).id ≡ a.id)
    (same_event : (a : DrApplication) → (move a).dr_event_id ≡ a.dr_event_id)
    (same_deletion : (a : DrApplication) → (move a).deleted_at ≡ a.deleted_at) where
  moved : DrApplication → DrApplication
  moved a = if p a then move a else a

  moved-event : (a : DrApplication) → (moved a).dr_event_id ≡ a.dr_event_id
  unfolding moved
  moved-event a = let e = same_event a in ground (arith, e)

  moved-deletion : (a : DrApplication) → (moved a).deleted_at ≡ a.deleted_at
  unfolding moved
  moved-deletion a = let e = same_deletion a in ground (arith, e)

  moved-row :
      (id : ℕ) (rows : List DrApplication) (b : DrApplication)
      → get_row (λ r. r.id) id (map_where p move rows) ≡ some b
      → (a : DrApplication) × (get_row (λ r. r.id) id rows ≡ some a) × (b ≡ moved a)
  unfolding moved
  moved-row id rows b e =
      from (get_row (λ r. r.id) id rows) refl
        (sym (get-map_where (λ r. r.id) move same_id p id rows) ∙ e)
    where
      from :
          (o : Option DrApplication)
          → get_row (λ r. r.id) id rows ≡ o
          → (elim o [ none ↦ none | some a ↦ some (if p a then move a else a) ]) ≡ some b
          → (a : DrApplication) × (get_row (λ r. r.id) id rows ≡ some a)
            × (b ≡ (if p a then move a else a))
      from none found h = absurd (grind arith)
      from (some a) found h = (a, found, sym (grind arith))

  moves-Aligned :
      (s s' : Session) (event_id : ℕ) (e e' : DrEvent)
      → EventMove s event_id e e' s'
      → s'.applications ≡ put_all (λ r. r.id) move (select p s.applications) s.applications
      → ((a : DrApplication) → p a ≡ true → a.dr_event_id ≡ event_id)
      → ((a : DrApplication)
          → a.dr_event_id ≡ event_id
          → is_none a.deleted_at ≡ true
          → Fits e a.status
          → Fits e' (moved a).status)
      → Aligned s
      → Aligned s'
  unfolding moved
  moves-Aligned s s' event_id e e' change apps only keeps ok =
      let apps' = apps ∙ put_all-map (λ r. r.id) move same_id p s.applications ok.unique in
      record {
        unique =
            subst (UniqueIds (λ r. r.id)) (sym apps')
              (UniqueIds-map_where (λ r. r.id) move same_id p s.applications ok.unique);
        times = move-IsStamped s s' event_id e e' change ok.times;
        fitting = λ id b x found live at_event.
            let (a, before, is_moved) =
              moved-row id s.applications b (sym (ap (get_row (λ r. r.id) id) apps') ∙ found) in
            let same_ev : b.dr_event_id ≡ a.dr_event_id =
              ap (λ y. y.dr_event_id) is_moved ∙ moved-event a in
            let live_a : is_none a.deleted_at ≡ true =
              ap is_none (sym (ap (λ y. y.deleted_at) is_moved ∙ moved-deletion a)) ∙ live in
            let status = ap (λ y. y.status) is_moved in
            elim (move-row s s' event_id e e' change a.dr_event_id) [
              | inl (here, now_there) ↦
                  let is_x : e' ≡ x = some-eq (
                    sym now_there
                    ∙ ap (λ i. get_row (λ r. r.id) i s'.events) (sym same_ev)
                    ∙ at_event) in
                  let was =
                    ok.fitting id a e before live_a
                      (ap (λ i. get_row (λ r. r.id) i s.events) here ∙ change.found) in
                  subst (λ y. Fits y b.status) is_x
                    (subst (Fits e') (sym status) (keeps a here live_a was))
              | inr (elsewhere, unchanged) ↦
                  let was = ok.fitting id a x before live_a (
                    sym unchanged
                    ∙ ap (λ i. get_row (λ r. r.id) i s'.events) (sym same_ev)
                    ∙ at_event) in
                  subst (Fits x) (sym (status ∙ ap (λ y. y.status) (stays a elsewhere))) was
            ];
      }
    where
      some-eq : {a b : DrEvent} → some a ≡ some b → a ≡ b
      some-eq e = grind arith

      stays : (a : DrApplication) → (a.dr_event_id ≡ event_id → ⊥) → moved a ≡ a
      stays a elsewhere = elim (Bool-cases (p a)) [
        | inl h ↦ absurd (elsewhere (only a h))
        | inr h ↦ ground (arith, h)
      ]

alone-Aligned :
    (s s' : Session) (event_id : ℕ) (e e' : DrEvent)
    → EventMove s event_id e e' s'
    → (e'.status ≡ failover_in_progress → ⊥)
    → (e'.status ≡ EventStatus.failback_in_progress → ⊥)
    → s'.applications ≡ s.applications
    → Aligned s
    → Aligned s'
alone-Aligned s s' event_id e e' change n m apps ok = record {
  unique = subst (UniqueIds (λ r. r.id)) (sym apps) ok.unique;
  times = move-IsStamped s s' event_id e e' change ok.times;
  fitting = λ id a x found live at_event.
      let before = sym (ap (get_row (λ r. r.id) id) apps) ∙ found in
      elim (move-row s s' event_id e e' change a.dr_event_id) [
        | inl (here, now_there) ↦
            let is_x : e' ≡ x = some-eq (sym now_there ∙ at_event) in
            let was =
              ok.fitting id a e before live
                (ap (λ i. get_row (λ r. r.id) i s.events) here ∙ change.found) in
            subst (λ y. Fits y a.status) is_x
              (kept-Fits e e' a.status (change.stamps.cut_kept n) (change.stamps.failback_kept m)
                was)
        | inr (_, unchanged) ↦ ok.fitting id a x before live (sym unchanged ∙ at_event)
      ];
}
  where
    some-eq : {a b : DrEvent} → some a ≡ some b → a ≡ b
    some-eq e = grind arith

application-Aligned :
    (s s' : Session) (id : ℕ) (a a' : DrApplication)
    → ApplicationMove s id a a' s'
    → Aligned s
    → Aligned s'
application-Aligned s s' id a a' change ok = record {
  unique =
      subst (UniqueIds (λ r. r.id)) (sym change.applications)
        (UniqueIds-put_row (λ r. r.id) a' s.applications ok.unique);
  times = λ i e there. ok.times i e (sym (ap (get_row (λ r. r.id) i) change.events) ∙ there);
  fitting = λ i b x found live at_event.
      let at =
        sym (
          ap (get_row (λ r. r.id) i) change.applications
          ∙ get-put_row (λ r. r.id) i a' s.applications)
        ∙ found in
      let event_before = sym (ap (get_row (λ r. r.id) b.dr_event_id) change.events) ∙ at_event in
      elim (Bool-cases (a'.id == i)) [
        | inl h ↦
            let here : id ≡ i = sym change.same ∙ (==_iff a'.id i).0 h in
            let there = ap (λ j. get_row (λ r. r.id) j s.applications) (sym here) ∙ change.found in
            let is_b : a' ≡ b = some-eq (ground (arith, at, h, there)) in
            let of_a : get_row (λ r. r.id) a.dr_event_id s.events ≡ some x =
              ap (λ j. get_row (λ r. r.id) j s.events)
                (sym change.event ∙ ap (λ y. y.dr_event_id) is_b)
              ∙ event_before in
            subst (λ y. Fits x y.status) is_b
              (arrow-fits (is_some x.network_cut_at) (is_some x.failback_started_at) a.status
                a'.status change.arrow (ok.fitting id a x change.found change.live of_a))
        | inr h ↦ ok.fitting i b x (ground (arith, at, h)) live event_before
      ];
}
  where
    some-eq : {a b : DrApplication} → some a ≡ some b → a ≡ b
    some-eq e = grind arith

neither : failover_in_progress ≡ EventStatus.failback_in_progress → ⊥
neither h = grind (arith, h)

abbrev recovering_row : (event_id cut_at at : ℕ) → DrApplication → DrApplication
recovering_row event_id cut_at at a =
    if in_event event_id a && is_waiting a.status then recovering_at cut_at at a else a

abbrev failing_back_row : (event_id at : ℕ) → DrApplication → DrApplication
failing_back_row event_id at a =
    if in_event event_id a && is_failed_over_application a.status && a.failback_required
    then failing_back_at at a
    else a

Effect-Aligned : (s s' : Session) → Effect s s' → Aligned s → Aligned s'
unfolding moved
Effect-Aligned s s' (event_alone event_id e e' change n m apps) ok =
    alone-Aligned s s' event_id e e' change n m apps ok
Effect-Aligned s s' (with_recovering event_id cut_at at e e' change (from, to) apps) ok =
    moves-Aligned (λ a. in_event event_id a && is_waiting a.status) (recovering_at cut_at at)
      (λ a. refl) (λ a. refl) (λ a. refl) s s' event_id e e' change apps
      (λ a h. (==_iff a.dr_event_id event_id).0 (ground (arith, h)))
      (λ a here live was.
        subst
          (λ c.
            fits c (is_some e'.failback_started_at) (recovering_row event_id cut_at at a).status
            ≡ true)
          (sym (change.stamps.cut_set to))
          (subst (λ f. fits true f (recovering_row event_id cut_at at a).status ≡ true)
            (sym (ap is_some (change.stamps.failback_kept (λ k. neither (sym to ∙ k)))))
            (recovering-fits event_id cut_at at a (is_some e.network_cut_at)
              (is_some e.failback_started_at) here live was)))
      ok
Effect-Aligned s s' (with_failing_back event_id at e e' change (from, to) apps) ok =
    moves-Aligned
      (λ a. in_event event_id a && is_failed_over_application a.status && a.failback_required)
      (failing_back_at at) (λ a. refl) (λ a. refl) (λ a. refl) s s' event_id e e' change apps
      (λ a h. (==_iff a.dr_event_id event_id).0 (ground (arith, h)))
      (λ a here live was.
        subst
          (λ f. fits (is_some e'.network_cut_at) f (failing_back_row event_id at a).status ≡ true)
          (sym (change.stamps.failback_set to))
          (subst (λ c. fits c true (failing_back_row event_id at a).status ≡ true)
            (sym (ap is_some (change.stamps.cut_kept (λ k. neither (sym k ∙ to)))))
            (failing_back-fits event_id at a (is_some e.network_cut_at)
              (is_some e.failback_started_at) was)))
      ok
Effect-Aligned s s' (application_alone id a a' change) ok =
    application-Aligned s s' id a a' change ok

-- If the following holds in a session, it holds in every session that successful commands of the Event and
-- Application services lead to from there. The ids of the Applications are unique. A PLANNED or ACTIVE
-- Event has neither the time of a network cut nor of a failback's start; one in FAILOVER_IN_PROGRESS or
-- FAILED_OVER has the first alone; one in FAILBACK_IN_PROGRESS has both; a CLOSED one has the first; a
-- CANCELLED one has not the second alone. A live Application of an Event is NOT_STARTED exactly if the
-- Event has no time of a network cut, and is in FAILBACK_IN_PROGRESS only if the Event has both times.
pub EventSteps-Aligned : (s s' : Session) → EventSteps s s' → Aligned s → Aligned s'
EventSteps-Aligned s s' none_yet ok = ok
EventSteps-Aligned s s' (then_step {t} steps step) ok =
    Effect-Aligned t s' (EventStep-Effect t s' step) (EventSteps-Aligned s t steps ok)
