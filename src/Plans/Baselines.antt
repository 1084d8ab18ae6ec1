-- ===== src/Plans/Baselines.antt =====
-- A plan on its way into an Event and into the Event's baseline: the snapshot data of its Tasks,
-- dependencies and Milestones (plans_import/commands.py).
use syntrix_dr.Prelude.{
  ℕ, ◌≡◌, refl, sym, ap, ◌∙◌, subst, Bool, true, false, ◌&&◌, Option, none, some, List, [], ◌∷◌,
  ◌++◌, map, all, select, ◌==◌, ==_iff, is_some, opt_eq, leb, if◌then◌else◌, arith, Bool-cases, inl,
  inr,
}
use syntrix_dr.Db.{
  Session, PlanVersion, baseline, execution, SnapshotRow, get_row, get-append_row, get_row-key,
}
use syntrix_dr.Db.Writing.Steps.{
  done, Ensures, after, after_asks, after_guard, after_expect, after_pure,
}
use syntrix_dr.Plans.{
  SnapshotItem, copies, latest_version, execution_version, is_execution, capture_from,
  capture_baseline_snapshot, instantiate_plan_into_event,
}
use syntrix_dr.Plans.Steps.{after_create_event_version}

-- What a version holds in one of the three tables.
unfoldable pub items : ℕ → List SnapshotRow → List SnapshotItem
items version rows =
    map (λ r. (r.source_id, r.snapshot_data)) (select (λ r. r.plan_version_id == version) rows)

-- The foreign key of the three tables.
unfoldable pub refers : List PlanVersion → List SnapshotRow → Bool
refers versions rows = all (λ r. is_some (get_row (λ v. v.id) r.plan_version_id versions)) rows

items-append :
    (version : ℕ) (xs ys : List SnapshotRow)
    → items version (xs ++ ys) ≡ items version xs ++ items version ys
unfolding items
items-append version [] ys = refl
items-append version (x ∷ xs) ys = ground (arith, items-append version xs ys)

items-none :
    (version : ℕ) (versions : List PlanVersion) (rows : List SnapshotRow)
    → get_row (λ v. v.id) version versions ≡ none
    → refers versions rows ≡ true
    → items version rows ≡ []
unfolding items refers
items-none version versions [] free r = refl
items-none version versions (x ∷ rows) free r = elim (Bool-cases (x.plan_version_id == version)) [
  | inl h ↦
      let same : get_row (λ v. v.id) x.plan_version_id versions ≡ none =
        ap (λ i. get_row (λ v. v.id) i versions) ((==_iff x.plan_version_id version).0 h) ∙ free in
      absurd (ground (arith, r, same))
  | inr h ↦ ground (arith, h, r, items-none version versions rows free)
]

items-copies :
    (source target : ℕ) (rows : List SnapshotRow)
    → items target (copies source target rows) ≡ items source rows
unfolding items copies
items-copies source target [] = refl
items-copies source target (x ∷ rows) = elim (Bool-cases (x.plan_version_id == source)) [
  | inl h ↦
      let found : (target == target) ≡ true = (==_iff target target).1 refl in
      ground (arith, h, found, items-copies source target rows)
  | inr h ↦ ground (arith, h, items-copies source target rows)
]

refers-append :
    (versions : List PlanVersion) (xs ys : List SnapshotRow)
    → refers versions (xs ++ ys) ≡ (refers versions xs && refers versions ys)
unfolding refers
refers-append versions [] ys = refl
refers-append versions (x ∷ xs) ys = ground (arith, refers-append versions xs ys)

refers-more :
    (v : PlanVersion) (versions : List PlanVersion) (rows : List SnapshotRow)
    → refers versions rows ≡ true
    → refers (versions ++ v ∷ []) rows ≡ true
unfolding refers
refers-more v versions [] r = refl
refers-more v versions (x ∷ rows) r =
    ground (
      arith,
      r,
      refers-more v versions rows,
      get-append_row (λ v. v.id) x.plan_version_id v versions,
    )

refers-copies :
    (source : ℕ) (v : PlanVersion) (versions : List PlanVersion) (rows : List SnapshotRow)
    → refers (versions ++ v ∷ []) (copies source v.id rows) ≡ true
unfolding refers copies
refers-copies source v versions [] = refl
refers-copies source v versions (x ∷ rows) = elim (Bool-cases (x.plan_version_id == source)) [
  | inl h ↦
      let found : (v.id == v.id) ≡ true = (==_iff v.id v.id).1 refl in
      ground (
        arith,
        h,
        found,
        refers-copies source v versions rows,
        get-append_row (λ v. v.id) v.id v versions,
      )
  | inr h ↦ ground (arith, h, refers-copies source v versions rows)
]

-- The rows that a copy leaves behind.
copied-items :
    (source target : ℕ) (versions : List PlanVersion) (rows : List SnapshotRow)
    → get_row (λ v. v.id) target versions ≡ none
    → refers versions rows ≡ true
    → items target (rows ++ copies source target rows) ≡ items source rows
copied-items source target versions rows free r =
    items-append target rows (copies source target rows)
    ∙ ap (λ xs. xs ++ items target (copies source target rows))
        (items-none target versions rows free r)
    ∙ items-copies source target rows

copied-refers :
    (source : ℕ) (v : PlanVersion) (versions : List PlanVersion) (rows : List SnapshotRow)
    → refers versions rows ≡ true
    → refers (versions ++ v ∷ []) (rows ++ copies source v.id rows) ≡ true
copied-refers source v versions rows r =
    refers-append (versions ++ v ∷ []) rows (copies source v.id rows)
    ∙ ground (arith, refers-more v versions rows r, refers-copies source v versions rows)

abbrev is_execution_of : ℕ → PlanVersion → Bool
is_execution_of dr_event_id v =
    opt_eq v.dr_event_id (some dr_event_id) && is_execution v.version_type

latest_version-some :
    (v : PlanVersion) (vs : List PlanVersion) → is_some (latest_version (v ∷ vs)) ≡ true
unfolding latest_version
latest_version-some v vs = split (latest_version vs)
  where
    split :
        (o : Option PlanVersion)
        → is_some (elim o [
          | none ↦ some v
          | some w ↦ if leb w.created_at v.created_at then some v else some w
        ])
          ≡ true
    split none = refl
    split (some w) = ground arith

-- The only execution version of the Event is its latest one.
latest_version-alone :
    (p : PlanVersion → Bool) (v : PlanVersion) (vs : List PlanVersion)
    → p v ≡ true
    → latest_version (select p vs) ≡ none
    → latest_version (select p (vs ++ v ∷ [])) ≡ some v
unfolding latest_version
latest_version-alone p v [] holds empty = ground (arith, holds)
latest_version-alone p v (w ∷ vs) holds empty = elim (Bool-cases (p w)) [
  | inl h ↦
      let there : is_some (latest_version (if p w then w ∷ select p vs else select p vs)) ≡ true =
        ap (λ b. is_some (latest_version (if b then w ∷ select p vs else select p vs))) h
        ∙ latest_version-some w (select p vs) in
      absurd (false-not-true (sym (ap is_some empty) ∙ there))
  | inr h ↦
      ap (λ b. latest_version (if b then w ∷ select p (vs ++ v ∷ []) else select p (vs ++ v ∷ [])))
        h
      ∙ latest_version-alone p v vs holds
          (sym (ap (λ b. latest_version (if b then w ∷ select p vs else select p vs)) h) ∙ empty)
]
  where
    false-not-true : false ≡ true → ⊥
    false-not-true e = grind arith

-- The three tables of the snapshot data refer to versions that are there.
pub record SnapshotsRefer (s : Session) : Type 0 where
  pub tasks : refers s.plan_versions s.plan_version_tasks ≡ true
  pub dependencies : refers s.plan_versions s.plan_version_task_dependencies ≡ true
  pub milestones : refers s.plan_versions s.plan_version_milestones ≡ true

-- `target` holds in `s'` what `source` holds in `s`.
pub record HoldsTheSame (source : ℕ) (s : Session) (target : ℕ) (s' : Session) : Type 0 where
  pub tasks : items target s'.plan_version_tasks ≡ items source s.plan_version_tasks
  pub dependencies :
      items target s'.plan_version_task_dependencies ≡ items source s.plan_version_task_dependencies
  pub milestones : items target s'.plan_version_milestones ≡ items source s.plan_version_milestones

-- A version with the rows of another one.
record Copied (source : ℕ) (s : Session) (v : PlanVersion) (s' : Session) : Type 0 where
  fresh : get_row (λ r. r.id) v.id s.plan_versions ≡ none
  versions : s'.plan_versions ≡ s.plan_versions ++ v ∷ []
  tasks : s'.plan_version_tasks ≡ s.plan_version_tasks ++ copies source v.id s.plan_version_tasks
  dependencies :
      s'.plan_version_task_dependencies
      ≡ s.plan_version_task_dependencies ++ copies source v.id s.plan_version_task_dependencies
  milestones :
      s'.plan_version_milestones
      ≡ s.plan_version_milestones ++ copies source v.id s.plan_version_milestones

Copied-HoldsTheSame :
    (source : ℕ) (s : Session) (v : PlanVersion) (s' : Session)
    → SnapshotsRefer s
    → Copied source s v s'
    → HoldsTheSame source s v.id s'
Copied-HoldsTheSame source s v s' r c = record {
  tasks =
      ap (items v.id) c.tasks
      ∙ copied-items source v.id s.plan_versions s.plan_version_tasks c.fresh r.tasks;
  dependencies =
      ap (items v.id) c.dependencies
      ∙ copied-items source v.id s.plan_versions s.plan_version_task_dependencies c.fresh
          r.dependencies;
  milestones =
      ap (items v.id) c.milestones
      ∙ copied-items source v.id s.plan_versions s.plan_version_milestones c.fresh r.milestones;
}

refers-after :
    (source : ℕ) (v : PlanVersion) (versions : List PlanVersion) (rows : List SnapshotRow)
    {versions' : List PlanVersion} {rows' : List SnapshotRow}
    → versions' ≡ versions ++ v ∷ []
    → rows' ≡ rows ++ copies source v.id rows
    → refers versions rows ≡ true
    → refers versions' rows' ≡ true
refers-after source v versions rows {versions'} {rows'} e d r =
    ap (λ vs. refers vs rows') e
    ∙ ap (refers (versions ++ v ∷ [])) d
    ∙ copied-refers source v versions rows r

Copied-SnapshotsRefer :
    (source : ℕ) (s : Session) (v : PlanVersion) (s' : Session)
    → SnapshotsRefer s
    → Copied source s v s'
    → SnapshotsRefer s'
Copied-SnapshotsRefer source s v s' r c = record {
  tasks = refers-after source v _ _ c.versions c.tasks r.tasks;
  dependencies = refers-after source v _ _ c.versions c.dependencies r.dependencies;
  milestones = refers-after source v _ _ c.versions c.milestones r.milestones;
}

from_source :
    {source source' : ℕ} (s : Session) (v : PlanVersion) {s' : Session}
    → source ≡ source'
    → Copied source s v s'
    → Copied source' s v s'
from_source s v {s'} e = subst (λ i. Copied i s v s') e

instantiate-Copied :
    (actor_id plan_id plan_version_id dr_event_id : ℕ) (s : Session)
    → Ensures (instantiate_plan_into_event actor_id plan_id plan_version_id dr_event_id) s λ v s'.
      (v.dr_event_id ≡ some dr_event_id)
      × (v.version_type ≡ execution)
      × Copied plan_version_id s v s'
unfolding instantiate_plan_into_event
instantiate-Copied actor_id plan_id plan_version_id dr_event_id s = after _ _ (
    after_asks _ (
      after _ _ (
        after_guard _ _ λ _. after _ _ (
          after_asks _ (
            after _ _ (
              after_expect _ _ λ found e. after _ _ (
                after_guard _ _ λ _.
                  after_create_event_version _ _ _ _ _ _ _ λ v audit draws (event, _, kind, fresh).
                    (
                      event,
                      kind,
                      from_source s v
                          (get_row-key (λ r. r.id) plan_version_id s.plan_versions found e)
                          (record {
                            fresh = fresh;
                            versions = refl;
                            tasks = refl;
                            dependencies = refl;
                            milestones = refl;
                          }),
                    ))))))))

-- A baseline version of the Event with the rows of `v`.
abbrev BaselineOf : ℕ → Session → PlanVersion → Option PlanVersion → Session → Type 0
BaselineOf dr_event_id s v o s' =
    (w : PlanVersion) × (o ≡ some w)
    × (w.dr_event_id ≡ some dr_event_id)
    × (w.version_type ≡ baseline)
    × Copied v.id s w s'

capture-Copied :
    (actor_id dr_event_id : ℕ) (s : Session) (v : PlanVersion)
    → execution_version s dr_event_id ≡ some v
    → Ensures (capture_baseline_snapshot actor_id dr_event_id) s (BaselineOf dr_event_id s v)
unfolding capture_baseline_snapshot capture_from
capture-Copied actor_id dr_event_id s v found = after _ _ (
    after_asks _ (
      subst (λ o. Ensures (capture_from o actor_id dr_event_id) s (BaselineOf dr_event_id s v))
        (sym found)
        (after _ _ (
          after_create_event_version _ _ _ _ _ _ _ λ w audit draws (event, _, kind, fresh).
            after_pure _ (
              w,
              refl,
              event,
              kind,
              record {
                fresh = fresh;
                versions = refl;
                tasks = refl;
                dependencies = refl;
                milestones = refl;
              },
            )))))

-- If a Plan version is instantiated into an Event that has no execution version yet, and the baseline of
-- the Event is captured after that, then there is a baseline version of the Event, and it holds the source
-- ids and the snapshot data of the Plan version's Tasks, dependencies and Milestones, in the same order;
-- provided that every row of the three tables referred to a stored version, which then still holds.
pub capture-instantiate :
    (actor_id plan_id plan_version_id dr_event_id capturer_id : ℕ) (s s' s'' : Session)
    (v : PlanVersion) (o : Option PlanVersion)
    → instantiate_plan_into_event actor_id plan_id plan_version_id dr_event_id s ≡ done v s'
    → capture_baseline_snapshot capturer_id dr_event_id s' ≡ done o s''
    → execution_version s dr_event_id ≡ none
    → SnapshotsRefer s
    → (w : PlanVersion) × (o ≡ some w)
      × (w.dr_event_id ≡ some dr_event_id)
      × (w.version_type ≡ baseline)
      × HoldsTheSame plan_version_id s w.id s''
      × SnapshotsRefer s''
unfolding execution_version
capture-instantiate actor_id plan_id plan_version_id dr_event_id capturer_id s s' s'' v o first
      second empty r =
    let (event, kind, copied) =
      (instantiate-Copied actor_id plan_id plan_version_id dr_event_id s).result v s' first in
    let own : is_execution_of dr_event_id v ≡ true =
      ap (λ e. opt_eq e (some dr_event_id) && is_execution v.version_type) event
      ∙ ap (λ t. (dr_event_id == dr_event_id) && is_execution t) kind
      ∙ ground (arith, (==_iff dr_event_id dr_event_id).1 refl) in
    let latest : execution_version s' dr_event_id ≡ some v =
      ap (λ vs. latest_version (select (is_execution_of dr_event_id) vs)) copied.versions
      ∙ latest_version-alone (is_execution_of dr_event_id) v s.plan_versions own empty in
    let (w, some_w, of_event, is_baseline, again) =
      (capture-Copied capturer_id dr_event_id s' v latest).result o s'' second in
    let before = Copied-HoldsTheSame plan_version_id s v s' r copied in
    let refers' = Copied-SnapshotsRefer plan_version_id s v s' r copied in
    let after' = Copied-HoldsTheSame v.id s' w s'' refers' again in
    (
      w,
      some_w,
      of_event,
      is_baseline,
      record {
        tasks = after'.tasks ∙ before.tasks;
        dependencies = after'.dependencies ∙ before.dependencies;
        milestones = after'.milestones ∙ before.milestones;
      },
      Copied-SnapshotsRefer v.id s' w s'' refers' again,
    )
