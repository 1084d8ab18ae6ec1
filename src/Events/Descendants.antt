-- ===== src/Events/Descendants.antt =====
-- `list_descendant_event_ids` and `list_descendant_dr_applications` of dr_events/queries.py: a search down
-- the tree of Events, round by round.
use syntrix_dr.Prelude.{
  ℕ, zero, suc, ◌+◌, ◌≤◌, ◌≡◌, refl, sym, ap, ◌∙◌, subst, arith, Bool, true, false, not, ◌&&◌, ◌||◌,
  Option, none, some, List, [], ◌∷◌, ◌++◌, map, ◌==◌, ==_iff, is_none, select, contains, length,
  length-append, if◌then◌else◌, Bool-cases, ◌⊎◌, inl, inr, ◌↔◌, any, Memᴰ, Memᴰ-cons,
}
use syntrix_dr.Prelude.Distinct.{NoRepeats, Among, NoRepeats-select, contains-select, length-Among}
use syntrix_dr.Prelude.Memᴰ
use syntrix_dr.Access.Authorization.Laws.{any-found, any-Mem}
use syntrix_dr.Db.{Session, DrEvent, DrApplication, UniqueIds, get_row}

-- `DrEvent.parent_dr_event_id.in_(frontier), DrEvent.deleted_at.is_(None)`
abbrev pub is_under : List ℕ → DrEvent → Bool
is_under frontier e =
    (elim e.parent_dr_event_id [ none ↦ false | some p ↦ contains p frontier ])
    && is_none e.deleted_at

-- One round of the search: the ids of the children not yet seen.
unfoldable pub unseen_children : List DrEvent → (frontier seen : List ℕ) → List ℕ
unseen_children events frontier seen =
    select (λ i. not (contains i seen)) (map (λ e. e.id) (select (is_under frontier) events))

-- The loop, and the set `seen` as a list; `none` when the fuel is used up.
unfoldable pub descend : (fuel : ℕ) → List DrEvent → (frontier seen : List ℕ) → Option (List ℕ)
unfolding unseen_children
descend fuel events [] seen = some seen
descend zero events (x ∷ frontier) seen = none
descend (suc fuel) events (x ∷ frontier) seen =
    let next = unseen_children events (x ∷ frontier) seen in descend fuel events next (seen ++ next)

unfoldable pub list_descendant_event_ids : Session → ℕ → Option (List ℕ)
unfolding descend
list_descendant_event_ids s event_id =
    descend (length s.events + 1) s.events (event_id ∷ []) (event_id ∷ [])

unfoldable pub list_descendant_dr_applications : Session → ℕ → Option (List DrApplication)
unfolding list_descendant_event_ids
list_descendant_dr_applications s event_id = elim (list_descendant_event_ids s event_id) [
  | none ↦ none
  | some ids ↦
      some (select (λ a. contains a.dr_event_id ids && is_none a.deleted_at) s.applications)
]

-- A live Event below another one.
pub data Descends (events : List DrEvent) (root : ℕ) : ℕ → Type 0 where
  itself : Descends events root root
  child :
      {p : ℕ} (e : DrEvent)
      → Descends events root p
      → Memᴰ e events
      → e.parent_dr_event_id ≡ some p
      → e.deleted_at ≡ none
      → Descends events root e.id

contains-appends :
    (x : ℕ) (xs ys : List ℕ) → contains x (xs ++ ys) ≡ (contains x xs || contains x ys)
contains-appends x [] ys = refl
contains-appends x (y ∷ xs) ys = ground (arith, contains-appends x xs ys)

NoRepeats-appends :
    (xs ys : List ℕ)
    → NoRepeats xs
    → NoRepeats ys
    → ((y : ℕ) → contains y ys ≡ true → contains y xs ≡ false)
    → NoRepeats (xs ++ ys)
unfolding NoRepeats
NoRepeats-appends [] ys n m apart = m
NoRepeats-appends (x ∷ xs) ys (n, ns) m apart = (
  contains-appends x xs ys ∙ ground (arith, n, unlike (contains x ys) refl),
  NoRepeats-appends xs ys ns m λ y there. ground (arith, apart y there),
)
  where
    unlike : (b : Bool) → contains x ys ≡ b → contains x ys ≡ false
    unlike true there = absurd (ground (arith, apart x there))
    unlike false e = e

-- The ids of the rows with a property.
contains-ids :
    (x : ℕ) (p : DrEvent → Bool) (events : List DrEvent)
    → contains x (map (λ e. e.id) (select p events)) ≡ any (λ e. (x == e.id) && p e) events
contains-ids x p [] = refl
contains-ids x p (e ∷ events) = ground (arith, contains-ids x p events)

absent-ids :
    (x : ℕ) (p : DrEvent → Bool) (events : List DrEvent)
    → get_row (λ e. e.id) x events ≡ none
    → contains x (map (λ e. e.id) (select p events)) ≡ false
unfolding get_row
absent-ids x p [] absent = refl
absent-ids x p (e ∷ events) absent = ground (arith, absent, absent-ids x p events)

NoRepeats-ids :
    (p : DrEvent → Bool) (events : List DrEvent)
    → UniqueIds (λ e. e.id) events
    → NoRepeats (map (λ e. e.id) (select p events))
unfolding NoRepeats UniqueIds
NoRepeats-ids p [] u = tt
NoRepeats-ids p (e ∷ events) (u, us) = elim (Bool-cases (p e)) [
  | inl h ↦
      subst (λ b. NoRepeats (map (λ e. e.id) (if b then e ∷ select p events else select p events)))
        (sym h) (absent-ids e.id p events u, NoRepeats-ids p events us)
  | inr h ↦
      subst (λ b. NoRepeats (map (λ e. e.id) (if b then e ∷ select p events else select p events)))
        (sym h) (NoRepeats-ids p events us)
]

contains-unseen :
    (x : ℕ) (events : List DrEvent) (frontier seen : List ℕ)
    → contains x (unseen_children events frontier seen)
      ≡ (not (contains x seen) && any (λ e. (x == e.id) && is_under frontier e) events)
unfolding unseen_children
contains-unseen x events frontier seen =
    contains-select x (λ i. not (contains i seen))
      (map (λ e. e.id) (select (is_under frontier) events))
    ∙ ap (λ b. not (contains x seen) && b) (contains-ids x (is_under frontier) events)

-- The set of the Events at and below `root`.
abbrev pub Found : List DrEvent → ℕ → List ℕ → Type 0
Found events root ids = (x : ℕ) → (contains x ids ≡ true) ↔ Descends events root x

contains-map :
    (e : DrEvent) (events : List DrEvent)
    → Memᴰ e events
    → contains e.id (map (λ e. e.id) events) ≡ true
contains-map e [] m = absurd (Memᴰ.not-nil m)
contains-map e (f ∷ events) m = elim ((Memᴰ-cons e f events).0 m) [
  | inl same ↦
      let k : (e.id == f.id) ≡ true = (==_iff e.id f.id).1 (ap (λ r. r.id) same) in
      ground (arith, k)
  | inr later ↦ ground (arith, contains-map e events later)
]

module _ (events : List DrEvent) (root : ℕ) where
  -- The search so far.
  record Inv (frontier seen : List ℕ) : Type 0 where
    distinct : NoRepeats seen
    within : Among seen (root ∷ map (λ e. e.id) events)
    starts : contains root seen ≡ true
    sound : (x : ℕ) → contains x seen ≡ true → Descends events root x
    inside : Among frontier seen
    closed :
        (p : ℕ) (e : DrEvent)
        → contains p seen ≡ true
        → contains p frontier ≡ false
        → Memᴰ e events
        → e.parent_dr_event_id ≡ some p
        → e.deleted_at ≡ none
        → contains e.id seen ≡ true

  all-found :
      (seen : List ℕ) → Inv [] seen → (x : ℕ) → Descends events root x → contains x seen ≡ true
  all-found seen inv x itself = inv.starts
  all-found seen inv x (child {p} e d m parent live) =
      inv.closed p e (all-found seen inv p d) refl m parent live

  Inv-Found : (seen : List ℕ) → Inv [] seen → Found events root seen
  Inv-Found seen inv x = (inv.sound x, all-found seen inv x)

  under :
      (frontier : List ℕ) (p : ℕ) (e : DrEvent)
      → contains p frontier ≡ true
      → e.parent_dr_event_id ≡ some p
      → e.deleted_at ≡ none
      → is_under frontier e ≡ true
  under frontier p e m parent live = ground (arith, m, parent, live)

  above :
      (frontier : List ℕ) (e : DrEvent)
      → is_under frontier e ≡ true
      → (p : ℕ) × (e.parent_dr_event_id ≡ some p)
        × (contains p frontier ≡ true)
        × (e.deleted_at ≡ none)
  above frontier e h = split e.parent_dr_event_id e.deleted_at refl refl h
    where
      split :
          (o d : Option ℕ)
          → e.parent_dr_event_id ≡ o
          → e.deleted_at ≡ d
          → ((elim o [ none ↦ false | some p ↦ contains p frontier ]) && is_none d) ≡ true
          → (p : ℕ) × (e.parent_dr_event_id ≡ some p)
            × (contains p frontier ≡ true)
            × (e.deleted_at ≡ none)
      split none d q r k = absurd (grind (arith, k))
      split (some p) none q r k = (p, q, ground (arith, k), r)
      split (some p) (some t) q r k = absurd (ground (arith, k))

  -- A new id comes from a live child of the frontier.
  new-child :
      (frontier seen : List ℕ) (x : ℕ)
      → contains x (unseen_children events frontier seen) ≡ true
      → (e : DrEvent) × (x ≡ e.id) × Memᴰ e events × (is_under frontier e ≡ true)
  new-child frontier seen x h =
      let (e, m, k) =
        any-found (λ e. (x == e.id) && is_under frontier e) events
          (ground (arith, h, contains-unseen x events frontier seen)) in
      (e, (==_iff x e.id).0 (ground (arith, k)), m, ground (arith, k))

  -- A live child of the frontier is seen from now on.
  child-seen :
      (frontier seen : List ℕ) (e : DrEvent)
      → Memᴰ e events
      → is_under frontier e ≡ true
      → contains e.id (seen ++ unseen_children events frontier seen) ≡ true
  child-seen frontier seen e m h =
      let same : (e.id == e.id) ≡ true = (==_iff e.id e.id).1 refl in
      let there =
        any-Mem (λ f. (e.id == f.id) && is_under frontier f) e events m (ground (arith, same, h)) in
      contains-appends e.id seen (unseen_children events frontier seen)
      ∙ ground (arith, there, contains-unseen e.id events frontier seen)

  round :
      (frontier seen : List ℕ)
      → UniqueIds (λ e. e.id) events
      → Inv frontier seen
      → Inv (unseen_children events frontier seen) (seen ++ unseen_children events frontier seen)
  unfolding unseen_children
  round frontier seen unique inv =
      let next = unseen_children events frontier seen in
      record {
        distinct =
            NoRepeats-appends seen next inv.distinct
              (NoRepeats-select _ _ (NoRepeats-ids (is_under frontier) events unique))
              λ y there. ground (arith, there, contains-unseen y events frontier seen);
        within = λ x there. elim (either x there) [
          | inl old ↦ inv.within x old
          | inr new ↦
              let (e, same, m, h) = new-child frontier seen x new in
              ap (λ i. contains i (root ∷ map (λ e. e.id) events)) same
              ∙ ground (arith, contains-map e events m)
        ];
        starts = contains-appends root seen next ∙ ground (arith, inv.starts);
        sound = λ x there. elim (either x there) [
          | inl old ↦ inv.sound x old
          | inr new ↦
              let (e, same, m, h) = new-child frontier seen x new in
              let (p, parent, from, live) = above frontier e h in
              subst (Descends events root) (sym same)
                (child e (inv.sound p (inv.inside p from)) m parent live)
        ];
        inside = λ x new. contains-appends x seen next ∙ ground (arith, new);
        closed = λ p e there left m parent live. elim (Bool-cases (contains p frontier)) [
          | inl now ↦ child-seen frontier seen e m (under frontier p e now parent live)
          | inr before ↦ elim (either p there) [
            | inl old ↦
                contains-appends e.id seen next
                ∙ ground (arith, inv.closed p e old before m parent live)
            | inr new ↦ absurd (ground (arith, new, left))
          ]
        ];
      }
    where
      either :
          (x : ℕ)
          → contains x (seen ++ unseen_children events frontier seen) ≡ true
          → (contains x seen ≡ true) ⊎ (contains x (unseen_children events frontier seen) ≡ true)
      either x there = elim (Bool-cases (contains x seen)) [
        | inl old ↦ inl old
        | inr fresh ↦ inr (
            ground
              (arith, fresh, there, contains-appends x seen (unseen_children events frontier seen)))
      ]

  -- Enough fuel: a round with children adds to `seen`, which never holds more than all the ids.
  descend-Found :
      (fuel : ℕ) (frontier seen : List ℕ)
      → UniqueIds (λ e. e.id) events
      → Inv frontier seen
      → ((length frontier ≡ 0 → ⊥) → length (map (λ e. e.id) events) + 2 ≤ fuel + length seen)
      → (ids : List ℕ) × (descend fuel events frontier seen ≡ some ids) × Found events root ids
  unfolding descend
  descend-Found fuel [] seen unique inv enough = (seen, refl, Inv-Found seen inv)
  descend-Found zero (x ∷ frontier) seen unique inv enough =
      let most = length-Among seen (root ∷ map (λ e. e.id) events) inv.distinct inv.within in
      absurd (ground (arith, most, enough (λ e. grind arith)))
  descend-Found (suc fuel) (x ∷ frontier) seen unique inv enough =
      let next = unseen_children events (x ∷ frontier) seen in
      descend-Found fuel next (seen ++ next) unique (round (x ∷ frontier) seen unique inv)
        λ more. ground (arith, length-append seen next, more, enough (λ e. grind arith))

length-map : (events : List DrEvent) → length (map (λ e. e.id) events) ≡ length events
length-map [] = refl
length-map (e ∷ events) = omega (arith, length-map events)

start-Inv : (events : List DrEvent) (root : ℕ) → Inv events root (root ∷ []) (root ∷ [])
unfolding NoRepeats
start-Inv events root =
    let same : (root == root) ≡ true = (==_iff root root).1 refl in
    record {
      distinct = (refl, tt);
      within = λ x there. ground (arith, there);
      starts = ground (arith, same);
      sound = λ x there.
          subst (Descends events root) (sym ((==_iff x root).0 (ground (arith, there)))) itself;
      inside = λ x there. there;
      closed = λ p e there left m parent live. absurd (ground (arith, there, left));
    }

-- If the ids of the Events are unique, `list_descendant_event_ids` comes to an end, even if the parents
-- form a ring, and what it returns are the given id and the ids of all live Events below it, no others.
pub list_descendant_event_ids-Found :
    (s : Session) (event_id : ℕ)
    → UniqueIds (λ e. e.id) s.events
    → (ids : List ℕ) × (list_descendant_event_ids s event_id ≡ some ids)
      × Found s.events event_id ids
unfolding list_descendant_event_ids
list_descendant_event_ids-Found s event_id unique =
    descend-Found s.events event_id (length s.events + 1) (event_id ∷ []) (event_id ∷ []) unique
      (start-Inv s.events event_id) λ _. omega (arith, length-map s.events)
