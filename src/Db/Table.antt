-- ===== src/Db/Table.antt =====
-- A table as a list of rows with a key: `session.get`, an UPDATE of one row, and an INSERT, which the
-- primary key refuses if the key is taken.
use syntrix_dr.Prelude.{
  ℕ, ◌+◌, ◌≡◌, refl, sym, ap, ◌∙◌, subst, inl, inr, Bool, false, Option, none, some, List, [], ◌∷◌,
  ◌++◌, arith, ◌==◌, ==_iff, if◌then◌else◌, is_some, Bool-cases, Memᴰ, Memᴰ-cons, select, length,
}
use syntrix_dr.Prelude.Memᴰ

module _ {A : Type 0} (key : A → ℕ) where
  unfoldable pub get_row : ℕ → List A → Option A
  get_row k [] = none
  get_row k (r ∷ rs) = if key r == k then some r else get_row k rs

  unfoldable pub put_row : A → List A → List A
  put_row a [] = []
  put_row a (r ∷ rs) = (if key r == key a then a else r) ∷ put_row a rs

  unfoldable pub add_row : A → List A → Option (List A)
  unfolding get_row
  add_row a rs = if is_some (get_row (key a) rs) then none else some (rs ++ a ∷ [])

  -- What a key leads to after an UPDATE.
  pub get-put_row :
      (k : ℕ) (a : A) (rs : List A)
      → get_row k (put_row a rs)
        ≡ (if key a == k then (if is_some (get_row k rs) then some a else none) else get_row k rs)
  unfolding get_row put_row
  get-put_row k a [] = ground arith
  get-put_row k a (r ∷ rs) = ground (arith, get-put_row k a rs)

  pub get_row-key : (k : ℕ) (rs : List A) (a : A) → get_row k rs ≡ some a → key a ≡ k
  unfolding get_row
  get_row-key k [] a e = ground arith
  get_row-key k (r ∷ rs) a e = ground (arith, get_row-key k rs a)

  pub get-append_row :
      (k : ℕ) (a : A) (rs : List A)
      → get_row k (rs ++ a ∷ [])
        ≡ (if is_some (get_row k rs) then get_row k rs else if key a == k then some a else none)
  unfolding get_row
  get-append_row k a [] = ground arith
  get-append_row k a (r ∷ rs) = ground (arith, get-append_row k a rs)

  -- An INSERT that succeeds appends the row.
  pub add_row-append :
      (a : A) (rs : List A) (rows : List A) → add_row a rs ≡ some rows → rows ≡ rs ++ a ∷ []
  unfolding add_row
  add_row-append a rs rows e = ground arith

  -- An INSERT that succeeds had a new id.
  pub add_row-fresh :
      (a : A) (rs rows : List A) → add_row a rs ≡ some rows → get_row (key a) rs ≡ none
  unfolding add_row
  add_row-fresh a rs rows e = ground (arith, e)

  -- The primary key: no two rows of the same id.
  unfoldable pub UniqueIds : List A → Type 0
  UniqueIds [] = Unit {0}
  UniqueIds (r ∷ rs) = (get_row (key r) rs ≡ none) × UniqueIds rs

  pub UniqueIds-append :
      (a : A) (rs : List A) → get_row (key a) rs ≡ none → UniqueIds rs → UniqueIds (rs ++ a ∷ [])
  unfolding UniqueIds get_row
  UniqueIds-append a [] fresh u = (refl, tt)
  UniqueIds-append a (r ∷ rs) fresh (u, us) = (
    get-append_row (key r) a rs ∙ ground (arith, u, fresh),
    UniqueIds-append a rs (ground (arith, fresh)) us,
  )

  pub UniqueIds-put_row : (a : A) (rs : List A) → UniqueIds rs → UniqueIds (put_row a rs)
  unfolding UniqueIds get_row put_row
  UniqueIds-put_row a [] u = tt
  UniqueIds-put_row a (r ∷ rs) (u, us) = (
    get-put_row (key (if key r == key a then a else r)) a rs ∙ ground (arith, u),
    UniqueIds-put_row a rs us,
  )

  -- An UPDATE of an id that is not there changes nothing.
  pub put_row-absent : (a : A) (rs : List A) → get_row (key a) rs ≡ none → put_row a rs ≡ rs
  unfolding get_row put_row
  put_row-absent a [] e = refl
  put_row-absent a (r ∷ rs) e = ground (arith, e, put_row-absent a rs)

  -- A row that is there is found by its id.
  pub mem-get_row : (a : A) (rs : List A) → Memᴰ a rs → get_row (key a) rs ≡ none → ⊥
  unfolding get_row
  mem-get_row a [] m e = absurd (Memᴰ.not-nil m)
  mem-get_row a (r ∷ rs) m e = elim ((Memᴰ-cons a r rs).0 m) [
    | inl same ↦ let k : key a ≡ key r = ap key same in ground (arith, e, k)
    | inr rest ↦ mem-get_row a rs rest (ground (arith, e))
  ]

  -- How an UPDATE of one row changes the number of rows with a property.
  pub length-select-put_row :
      (p : A → Bool) (a b : A) (rs : List A)
      → key b ≡ key a
      → UniqueIds rs
      → Memᴰ a rs
      → length (select p (put_row b rs)) + (if p a then 1 else 0)
        ≡ length (select p rs) + (if p b then 1 else 0)
  unfolding UniqueIds put_row
  length-select-put_row p a b [] e u m = absurd (Memᴰ.not-nil m)
  length-select-put_row p a b (r ∷ rs) e (u, us) m = elim ((Memᴰ-cons a r rs).0 m) [
    | inl same ↦
        let k : key a ≡ key r = ap key same in
        let pk : p a ≡ p r = ap p same in
        let rest = put_row-absent b rs (subst (λ x. get_row x rs ≡ none) (sym (e ∙ k)) u) in
        ground (arith, e, k, pk, rest)
    | inr there ↦
        let apart : (key r == key b) ≡ false = elim (Bool-cases (key r == key b)) [
          | inl h ↦ absurd (
              mem-get_row a rs there
                (subst (λ x. get_row x rs ≡ none) ((==_iff (key r) (key b)).0 h ∙ e) u))
          | inr h ↦ h
        ] in
        ground (arith, apart, length-select-put_row p a b rs e us there)
  ]

  -- A row that is found is in the table.
  pub get_row-mem : (k : ℕ) (a : A) (rs : List A) → get_row k rs ≡ some a → Memᴰ a rs
  unfolding get_row
  get_row-mem k a [] e = absurd (grind arith)
  get_row-mem k a (r ∷ rs) e = elim (Bool-cases (key r == k)) [
    | inl h ↦ Memᴰ.head (same (ground (arith, h, e)))
    | inr h ↦ Memᴰ.tail (get_row-mem k a rs (ground (arith, h, e)))
  ]
    where
      same : some r ≡ some a → a ≡ r
      same d = grind arith
