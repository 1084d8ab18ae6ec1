-- ===== src/Tasks/Readiness/Correct.antt =====
-- Derived Ready on the upstream rows that were read.
use syntrix_dr.Prelude.{
  is_nil, ◌≡◌, refl, ap, ◌∙◌, ◌⊎◌, inl, inr, ◌↔◌, arith, true, false, ◌&&◌, List, [], ◌∷◌, map,
  select, Memᴰ, Memᴰ-cons, Bool-cases,
}
use syntrix_dr.Prelude.Memᴰ
use syntrix_dr.Db.{TaskStatus}
use syntrix_dr.Tasks.Readiness.{
  Upstream, is_hard, ready, before, is_blocking, insert_upstream, sort_upstream, derive_readiness,
  is_not_started,
}

mem-insert_upstream :
    (a u : Upstream) (vs : List Upstream) → Memᴰ a (insert_upstream u vs) ↔ ((a ≡ u) ⊎ Memᴰ a vs)
unfolding insert_upstream
mem-insert_upstream a u [] = Memᴰ-cons a u []
mem-insert_upstream a u (v ∷ vs) = elim (Bool-cases (before u.ref v.ref)) [
  | inl h ↦ ground (arith, h, Memᴰ-cons a u (v ∷ vs))
  | inr h ↦
      ground (
        arith,
        h,
        mem-insert_upstream a u vs,
        Memᴰ-cons a v vs,
        Memᴰ-cons a v (insert_upstream u vs),
      )
]

-- Sorting loses and adds no upstream.
mem-sort_upstream : (a : Upstream) (us : List Upstream) → Memᴰ a (sort_upstream us) ↔ Memᴰ a us
unfolding sort_upstream
mem-sort_upstream a [] = (λ m. m, λ m. m)
mem-sort_upstream a (u ∷ us) =
    ground
      (arith, mem-insert_upstream a u (sort_upstream us), mem-sort_upstream a us, Memᴰ-cons a u us)

-- No row is selected, if no row has the property; and the other way round.
none-selected :
    (us : List Upstream)
    → is_nil (map (λ u. u.ref) (select is_blocking us)) ≡ true
    → (u : Upstream) → Memᴰ u us
    → is_blocking u ≡ false
none-selected [] e u m = absurd (Memᴰ.not-nil m)
none-selected (x ∷ us) e u m = elim (Bool-cases (is_blocking x)) [
  | inl h ↦ absurd (ground (arith, e, h))
  | inr h ↦ elim ((Memᴰ-cons u x us).0 m) [
    | inl same ↦ ap is_blocking same ∙ h
    | inr rest ↦ none-selected us (ground (arith, e, h)) u rest
  ]
]

selected-none :
    (us : List Upstream)
    → ((u : Upstream) → Memᴰ u us → is_blocking u ≡ false)
    → is_nil (map (λ u. u.ref) (select is_blocking us)) ≡ true
selected-none [] free = refl
selected-none (x ∷ us) free =
    let h = free x (Memᴰ.head refl) in
    let rest = selected-none us (λ u m. free u (Memᴰ.tail m)) in ground (arith, h, rest)

-- The status and the HARD rows alone decide, in whatever order the rows are read.
pub derive_readiness-ready :
    (status : TaskStatus) (upstream : List Upstream)
    → (ready (derive_readiness status upstream) ≡ true) ↔ (
        (status ≡ TaskStatus.not_started)
        × ((u : Upstream) → Memᴰ u upstream → is_hard u.strength ≡ true → u.satisfied ≡ true))
unfolding ready derive_readiness
derive_readiness-ready status upstream = (to, from)
  where
    to :
        is_not_started status
            && is_nil (map (λ u. u.ref) (select is_blocking (sort_upstream upstream)))
          ≡ true
        → (status ≡ TaskStatus.not_started)
          × ((u : Upstream) → Memᴰ u upstream → is_hard u.strength ≡ true → u.satisfied ≡ true)
    to e = (
      ground (arith, e),
      λ u m hard_one.
          let free =
            none-selected (sort_upstream upstream) (ground (arith, e)) u
              ((mem-sort_upstream u upstream).1 m) in
          ground (arith, free, hard_one),
    )

    from :
        (status ≡ TaskStatus.not_started)
          × ((u : Upstream) → Memᴰ u upstream → is_hard u.strength ≡ true → u.satisfied ≡ true)
        → is_not_started status
            && is_nil (map (λ u. u.ref) (select is_blocking (sort_upstream upstream)))
          ≡ true
    from (fresh, met) =
        let nil =
          selected-none (sort_upstream upstream)
            λ u m. let h = met u ((mem-sort_upstream u upstream).0 m) in ground (arith, h) in
        ground (arith, fresh, nil)
