-- ===== src/Blockers/Lifecycle/Machine.antt =====
-- The Task service and the Blocker service together: the state machine of a Blocker, and that no Task is
-- left BLOCKED without an active Blocker.
use syntrix_dr.Prelude.{
  ℕ, ◌+◌, ◌≤◌, ◌≡◌, refl, sym, ap, ◌∙◌, subst, arith, true, false, Option, none, some, [], ◌∷◌,
  ◌++◌, ◌==◌, ==_iff, is_none, String, ◌⊎◌, inl, inr, Bool-cases, length, select, if◌then◌else◌,
}
use syntrix_dr.Db.{
  Session, Task, TaskStatus, TaskCommand, resume, Blocker, BlockerStatus, resolved, closed, get_row,
  get_row-key, get_row-mem, UniqueIds, UniqueIds-append, UniqueIds-put_row, length-select-put_row,
  get-put_row,
}
use syntrix_dr.Db.Writing.Steps.{done}
use syntrix_dr.Tasks.Loads.{live_task}
use syntrix_dr.Tasks.Lifecycle.{is_blocked}
use syntrix_dr.Tasks.Lifecycle.Changes.{
  Change, starts, blocks, resumes, submits, judges, cancels, Move,
}
use syntrix_dr.Tasks.Lifecycle.Machine.{
  ServiceStep, SomeMove, ServiceStep-SomeMove, Move-live_back, Move-live_task,
}
use syntrix_dr.Tasks.Lifecycle.Blocked.{BlockedHaveBlockers, SomeMove-BlockedHaveBlockers}
use syntrix_dr.Blockers.{is_active_on, is_closed, count_active_blockers}
use syntrix_dr.Blockers.Lifecycle.{live_blocker, assign, start_blocker, resolve_blocker, verify}
use syntrix_dr.Blockers.Lifecycle.Moves.{
  BlockerMove, assign-Move, start_blocker-Move, resolve_blocker-Move, verify-Move, Resumption,
  resumes_task, leaves_task,
}

-- One successful command of either service.
pub data RecoveryStep (s s' : Session) : Type 0 where
  task_step : ServiceStep s s' → RecoveryStep s s'
  assigns :
      (actor_id id v : ℕ) (team assignee : Option ℕ) (b : Blocker)
      → assign actor_id id v team assignee s ≡ done b s'
      → RecoveryStep s s'
  starts_work :
      (actor_id id v : ℕ) (b : Blocker)
      → start_blocker actor_id id v s ≡ done b s'
      → RecoveryStep s s'
  resolves :
      (actor_id id v : ℕ) (remark : Option String) (b : Blocker)
      → resolve_blocker actor_id id v remark s ≡ done b s'
      → RecoveryStep s s'
  verifies :
      (actor_id id v : ℕ) (b : Blocker) → verify actor_id id v s ≡ done b s' → RecoveryStep s s'

pub data RecoverySteps (s : Session) : Session → Type 0 where
  none_yet : RecoverySteps s s
  then_step : {t u : Session} → RecoverySteps s t → RecoveryStep t u → RecoverySteps s u

-- The ids of the Blockers are unique, and every live BLOCKED Task has an active Blocker.
pub record Recoverable (s : Session) : Type 0 where
  pub unique : UniqueIds (λ r. r.id) s.blockers
  pub covered : BlockedHaveBlockers s

live-row :
    (s : Session) (id : ℕ) (b : Blocker)
    → live_blocker s id ≡ some b
    → (get_row (λ r. r.id) id s.blockers ≡ some b) × (is_none b.deleted_at ≡ true)
unfolding live_blocker
live-row s id b e = (ground (arith, e), ground (arith, e))

-- How a Blocker's move changes the number of active Blockers of the Task `i`.
move-count :
    (s m : Session) (id : ℕ) (b b' : Blocker)
    → UniqueIds (λ r. r.id) s.blockers
    → BlockerMove s id b b' m
    → (i : ℕ)
    → count_active_blockers m i + (if is_active_on i b then 1 else 0)
      ≡ count_active_blockers s i + (if is_active_on i b' then 1 else 0)
unfolding count_active_blockers
move-count s m id b b' unique move i =
    ap (λ x. length (select (is_active_on i) x) + (if is_active_on i b then 1 else 0)) move.blockers
    ∙ length-select-put_row (λ r. r.id) (is_active_on i) b b' s.blockers move.same.0 unique
        (get_row-mem (λ r. r.id) id b s.blockers (live-row s id b move.found).0)

-- A Blocker that is not closed counts as before, and a closed one only took itself away.
open-count :
    (s m : Session) (id : ℕ) (b b' : Blocker)
    → UniqueIds (λ r. r.id) s.blockers
    → BlockerMove s id b b' m
    → is_closed b'.status ≡ false
    → (i : ℕ) → count_active_blockers s i ≤ count_active_blockers m i
open-count s m id b b' unique move still i =
    let (_, same_task, same_deletion) = move.same in
    ground (arith, move-count s m id b b' unique move i, same_task, same_deletion, still)

closed-count :
    (s m : Session) (id : ℕ) (b b' : Blocker)
    → UniqueIds (λ r. r.id) s.blockers
    → BlockerMove s id b b' m
    → (i : ℕ) → (b.task_id == i) ≡ false
    → count_active_blockers s i ≡ count_active_blockers m i
closed-count s m id b b' unique move i other =
    let (_, same_task, _) = move.same in
    let other' : (b'.task_id == i) ≡ false = ap (λ x. x == i) same_task ∙ other in
    ground (arith, move-count s m id b b' unique move i, other, other')

move_unique :
    (s m : Session) (id : ℕ) (b b' : Blocker)
    → UniqueIds (λ r. r.id) s.blockers
    → BlockerMove s id b b' m
    → UniqueIds (λ r. r.id) m.blockers
move_unique s m id b b' unique move =
    subst (UniqueIds (λ r. r.id)) (sym move.blockers)
      (UniqueIds-put_row (λ r. r.id) b' s.blockers unique)

tasks-live : (s m : Session) → m.tasks ≡ s.tasks → (i : ℕ) → live_task m i ≡ live_task s i
unfolding live_task
tasks-live s m e i = let row = ap (get_row (λ t. t.id) i) e in ground (arith, row)

-- A Blocker that moved on but is not closed.
open-Recoverable :
    (s s' : Session) (id : ℕ) (b b' : Blocker)
    → BlockerMove s id b b' s'
    → is_closed b'.status ≡ false
    → Recoverable s
    → Recoverable s'
open-Recoverable s s' id b b' move still ok = record {
  unique = move_unique s s' id b b' ok.unique move;
  covered = λ i t found on.
      let before = ok.covered i t (sym (tasks-live s s' move.tasks i) ∙ found) on in
      omega (arith, before, open-count s s' id b b' ok.unique move still t.id);
}

live-key : (s : Session) (i : ℕ) (t : Task) → live_task s i ≡ some t → t.id ≡ i
unfolding live_task
live-key s i t e = get_row-key (λ r. r.id) i s.tasks t (ground (arith, e))

blocked-true : (x : TaskStatus) → x ≡ TaskStatus.blocked → is_blocked x ≡ true
blocked-true x e = ground (arith, e)

same-count :
    (s s' : Session)
    → s'.blockers ≡ s.blockers
    → (i : ℕ) → count_active_blockers s' i ≡ count_active_blockers s i
unfolding count_active_blockers
same-count s s' e i = ap (λ x. length (select (is_active_on i) x)) e

-- The Task of a verified Blocker is resumed with the last one.
verify-Recoverable :
    (s m s' : Session) (actor_id id : ℕ) (b b' : Blocker) (t : Task)
    → BlockerMove s id b b' m
    → live_task s b.task_id ≡ some t
    → t.id ≡ b.task_id
    → Resumption actor_id m t s'
    → Recoverable s
    → Recoverable s'
verify-Recoverable s m s' actor_id id b b' t move live key (leaves_task not_last same) ok =
    subst Recoverable (sym same) record {
      unique = move_unique s m id b b' ok.unique move;
      covered = λ i x found on.
          let in_s = sym (tasks-live s m move.tasks i) ∙ found in
          let x_key = live-key s i x in_s in
          elim (Bool-cases (b.task_id == x.id)) [
            | inl h ↦
                let here : i ≡ b.task_id = sym x_key ∙ sym ((==_iff b.task_id x.id).0 h) in
                let is_t : x ≡ t = same-task (sym in_s ∙ ap (live_task s) here ∙ live) in
                let on_t = blocked-true t.status (ap (λ y. y.status) (sym is_t) ∙ on) in
                let same_id = ap (λ y. count_active_blockers m y.id) is_t in
                ground (arith, not_last, on_t, same_id)
            | inr h ↦
                omega
                  (arith, ok.covered i x in_s on, closed-count s m id b b' ok.unique move x.id h)
          ];
    }
  where
    same-task : {a b : Task} → some a ≡ some b → a ≡ b
    same-task e = grind arith
verify-Recoverable s m s' actor_id id b b' t move live key (resumes_task t' last resumed) ok =
    record {
      unique =
          subst (UniqueIds (λ r. r.id)) (sym (kept resumed.change).0)
            (move_unique s m id b b' ok.unique move);
      covered = λ i x found on.
          elim (Move-live_back resume actor_id t.id m t' s' resumed i x found) [
            | inl (here, is_moved) ↦
                let moved_on = (kept resumed.change).1 in
                let status = ap (λ y. y.status) is_moved in
                absurd (grind (arith, moved_on, status, on))
            | inr (in_m, elsewhere) ↦
                let in_s = sym (tasks-live s m move.tasks i) ∙ in_m in
                let x_key = live-key s i x in_s in
                let other : (b.task_id == x.id) ≡ false = ground (arith, elsewhere, key, x_key) in
                omega (
                  arith,
                  ok.covered i x in_s on,
                  closed-count s m id b b' ok.unique move x.id other,
                  same-count m s' (kept resumed.change).0 x.id,
                )
          ];
    }
  where
    kept :
        {x y : Session} {t t' : Task}
        → Change actor_id x y t t' resume
        → (y.blockers ≡ x.blockers) × (t'.status ≡ TaskStatus.in_progress)
    kept (resumes p q (k, _)) = (k, q)

-- What a Task command does to the table of Blockers.
Change-rows :
    {c : TaskCommand} {a : ℕ} {s s' : Session} {t t' : Task}
    → Change a s s' t t' c
    → (s'.blockers ≡ s.blockers)
      ⊎ ((b : Blocker) × (get_row (λ r. r.id) b.id s.blockers ≡ none)
          × (s'.blockers ≡ s.blockers ++ b ∷ []))
Change-rows (starts p q (k, _)) = inl k
Change-rows (blocks p q b on k _) = inr (b, on.1, k)
Change-rows (resumes p q (k, _)) = inl k
Change-rows (submits p q _ _ _ k) = inl k
Change-rows (judges p approve q _ _ _ _ _ _ k) = inl k
Change-rows (cancels p q _ k) = inl k

task_unique :
    (s s' : Session)
    → SomeMove s s' ⊎ (s' ≡ s)
    → UniqueIds (λ r. r.id) s.blockers
    → UniqueIds (λ r. r.id) s'.blockers
task_unique s s' (inr same) unique = subst (λ x. UniqueIds (λ r. r.id) x.blockers) (sym same) unique
task_unique s s' (inl (c, a, i, t', m)) unique = elim (Change-rows m.change) [
  | inl k ↦ subst (UniqueIds (λ r. r.id)) (sym k) unique
  | inr (b, fresh, k) ↦
      subst (UniqueIds (λ r. r.id)) (sym k) (UniqueIds-append (λ r. r.id) b s.blockers fresh unique)
]

not-closed : {x y : BlockerStatus} → x ≡ y → is_closed y ≡ false → is_closed x ≡ false
not-closed e h = ap is_closed e ∙ h

pub RecoveryStep-Recoverable : (s s' : Session) → RecoveryStep s s' → Recoverable s → Recoverable s'
RecoveryStep-Recoverable s s' (task_step step) ok =
    let some_move = ServiceStep-SomeMove s s' step in
    record {
      unique = task_unique s s' some_move ok.unique;
      covered = SomeMove-BlockedHaveBlockers s s' some_move ok.covered;
    }
RecoveryStep-Recoverable s s' (assigns actor_id id v team assignee b' h) ok =
    let (b, move, to) = (assign-Move actor_id id v team assignee s).result b' s' h in
    open-Recoverable s s' id b b' move (not-closed to refl) ok
RecoveryStep-Recoverable s s' (starts_work actor_id id v b' h) ok =
    let (b, move, to) = (start_blocker-Move actor_id id v s).result b' s' h in
    open-Recoverable s s' id b b' move (not-closed to refl) ok
RecoveryStep-Recoverable s s' (resolves actor_id id v remark b' h) ok =
    let (b, move, to) = (resolve_blocker-Move actor_id id v remark s).result b' s' h in
    open-Recoverable s s' id b b' move (not-closed to refl) ok
RecoveryStep-Recoverable s s' (verifies actor_id id v b' h) ok =
    let (b, t, m, move, _, _, _, live, key, resumption) =
      (verify-Move actor_id id v s).result b' s' h in
    verify-Recoverable s m s' actor_id id b b' t move live key resumption ok

-- If the ids of the Blockers are unique and every live BLOCKED Task has a Blocker that is neither CLOSED
-- nor deleted, then both hold after any sequence of successful commands of the Task service and of the
-- Blocker service, in any order.
pub RecoverySteps-Recoverable :
    (s s' : Session) → RecoverySteps s s' → Recoverable s → Recoverable s'
RecoverySteps-Recoverable s s' none_yet ok = ok
RecoverySteps-Recoverable s s' (then_step {t} steps step) ok =
    RecoveryStep-Recoverable t s' step (RecoverySteps-Recoverable s t steps ok)

resumes-status :
    {a : ℕ} {s s' : Session} {t t' : Task}
    → Change a s s' t t' resume
    → t'.status ≡ TaskStatus.in_progress
resumes-status (resumes p q _) = q

-- The row of a Task that was resumed.
resumed-row :
    (actor_id : ℕ) (m s' : Session) (y t' t : Task)
    → Move resume actor_id y.id m t' s'
    → live_task m y.id ≡ some t
    → live_task s' y.id ≡ some t'
resumed-row actor_id m s' y t' t move in_m =
    elim (Move-live_task resume actor_id y.id m t' s' move y.id t in_m) [
      | inl (_, _, now) ↦ now
      | inr still ↦ elim (Move-live_back resume actor_id y.id m t' s' move y.id t still) [
        | inl (_, same) ↦ still ∙ ap some same
        | inr (_, apart) ↦ absurd (ground (arith, apart))
      ]
    ]

-- The moved row is the live row.
move-live :
    (s m : Session) (id : ℕ) (b b' : Blocker)
    → BlockerMove s id b b' m
    → live_blocker m id ≡ some b'
unfolding live_blocker
move-live s m id b b' move =
    let (row, live) = live-row s id b move.found in
    let key = move.same.0 ∙ get_row-key (λ r. r.id) id s.blockers b row in
    let at = ap (get_row (λ r. r.id) id) move.blockers ∙ get-put_row (λ r. r.id) id b' s.blockers in
    let still = ap is_none move.same.2 ∙ live in ground (arith, at, row, key, still)

-- The resumption of the Task leaves the Blockers.
Resumption-blockers :
    (actor_id : ℕ) (m s' : Session) (t : Task)
    → Resumption actor_id m t s'
    → s'.blockers ≡ m.blockers
Resumption-blockers actor_id m s' t (leaves_task not_last same) = ap (λ x. x.blockers) same
Resumption-blockers actor_id m s' t (resumes_task t' last resumed) = kept resumed.change
  where
    kept : {t t' : Task} → Change actor_id m s' t t' resume → s'.blockers ≡ m.blockers
    kept (resumes p q (k, _)) = k

live-same :
    (s s' : Session) (id : ℕ) → s'.blockers ≡ s.blockers → live_blocker s' id ≡ live_blocker s id
unfolding live_blocker
live-same s s' id e = let row = ap (get_row (λ r. r.id) id) e in ground (arith, row)

-- If `verify` succeeds, whatever becomes of the Task, the Blocker was live and RESOLVED, and the row that
-- it returns is the Blocker's live row afterwards, CLOSED and with the version two higher.
pub verify-closes :
    (actor_id id v : ℕ) (s s' : Session) (b' : Blocker)
    → verify actor_id id v s ≡ done b' s'
    → (b : Blocker) × (live_blocker s id ≡ some b)
      × (b.status ≡ resolved)
      × (live_blocker s' id ≡ some b')
      × (b'.status ≡ closed)
      × (b'.version ≡ b.version + 2)
verify-closes actor_id id v s s' b' h =
    let (b, t, m, move, was, to, bumped, live, key, resumption) =
      (verify-Move actor_id id v s).result b' s' h in
    (
      b,
      move.found,
      was,
      live-same m s' id (Resumption-blockers actor_id m s' t resumption)
          ∙ move-live s m id b b' move,
      to,
      bumped,
    )

-- If `verify` succeeds on a live Blocker whose Task is live and BLOCKED, with no other Blocker active on
-- it, and the ids of the Blockers are unique, then the Task is IN_PROGRESS afterwards with its version one
-- higher, and the Blocker went from RESOLVED to CLOSED with its version two higher.
pub verify-resumes :
    (actor_id id v : ℕ) (s s' : Session) (b b' : Blocker) (t : Task)
    → verify actor_id id v s ≡ done b' s'
    → UniqueIds (λ r. r.id) s.blockers
    → live_blocker s id ≡ some b
    → live_task s b.task_id ≡ some t
    → t.status ≡ TaskStatus.blocked
    → count_active_blockers s b.task_id ≡ 1
    → (t' : Task) × (live_task s' b.task_id ≡ some t')
      × (t'.status ≡ TaskStatus.in_progress)
      × (t'.version ≡ t.version + 1)
      × (b.status ≡ resolved)
      × (b'.status ≡ closed)
      × (b'.version ≡ b.version + 2)
verify-resumes actor_id id v s s' b b' t h unique found live on only =
    let (x, y, m, move, was, to, bumped, live_y, key, resumption) =
      (verify-Move actor_id id v s).result b' s' h in
    let is_b : x ≡ b = same-blocker (sym move.found ∙ found) in
    let is_t : y ≡ t = same-task (sym live_y ∙ ap (λ z. live_task s z.task_id) is_b ∙ live) in
    finish x y m move was to bumped live_y key is_b is_t resumption
  where
    same-task : {a b : Task} → some a ≡ some b → a ≡ b
    same-task e = grind arith

    same-blocker : {a b : Blocker} → some a ≡ some b → a ≡ b
    same-blocker e = grind arith

    active-then :
        (x : Blocker)
        → x.status ≡ resolved
        → is_none x.deleted_at ≡ true
        → is_active_on x.task_id x ≡ true
    active-then x was live_x = ground (arith, was, live_x)

    closed-now : (i : ℕ) → b'.status ≡ closed → is_active_on i b' ≡ false
    closed-now i to = ground (arith, to)

    finish :
        (x : Blocker) (y : Task) (m : Session)
        → BlockerMove s id x b' m
        → x.status ≡ resolved
        → b'.status ≡ closed
        → b'.version ≡ x.version + 2
        → live_task s x.task_id ≡ some y
        → y.id ≡ x.task_id
        → x ≡ b
        → y ≡ t
        → Resumption actor_id m y s'
        → (t' : Task) × (live_task s' b.task_id ≡ some t')
          × (t'.status ≡ TaskStatus.in_progress)
          × (t'.version ≡ t.version + 1)
          × (b.status ≡ resolved)
          × (b'.status ≡ closed)
          × (b'.version ≡ b.version + 2)
    finish x y m move was to bumped live_y key is_b is_t (resumes_task t' last resumed) =
        let at : y.id ≡ b.task_id = key ∙ ap (λ z. z.task_id) is_b in
        let in_m : live_task m y.id ≡ some t =
          tasks-live s m move.tasks y.id ∙ ap (live_task s) at ∙ live in
        let is_before : t ≡ resumed.before = same-task (sym in_m ∙ resumed.found) in
        (
          t',
          ap (live_task s') (sym at) ∙ resumed-row actor_id m s' y t' t resumed in_m,
          resumes-status resumed.change,
          resumed.version ∙ ap (λ z. z.version + 1) (sym is_before),
          sym (ap (λ z. z.status) is_b) ∙ was,
          to,
          bumped ∙ ap (λ z. z.version + 2) is_b,
        )
    finish x y m move was to bumped live_y key is_b is_t (leaves_task not_last same) =
        let (_, live_b) = live-row s id x move.found in
        let on_y = blocked-true y.status (ap (λ z. z.status) is_t ∙ on) in
        let count = move-count s m id x b' unique move x.task_id in
        let one : count_active_blockers s x.task_id ≡ 1 =
          ap (λ z. count_active_blockers s z.task_id) is_b ∙ only in
        let at = ap (count_active_blockers m) key in
        let was_active = active-then x was live_b in
        let is_not = closed-now x.task_id to in
        absurd (ground (arith, not_last, on_y, count, one, at, was_active, is_not))
