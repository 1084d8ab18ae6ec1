-- ===== src/Db/Updates.antt =====
-- UPDATEs of several rows of a table, and rows that are replaced in place.
use syntrix_dr.Prelude.{
  ℕ, ◌≡◌, refl, sym, ap, ◌∙◌, Bool, true, false, none, some, List, [], ◌∷◌, arith, if◌then◌else◌,
  Bool-cases, inl, inr, select,
}
use syntrix_dr.Db.Table.{get_row, put_row, UniqueIds, put_row-absent}

abbrev pub map_where : {A : Type 0} → (A → Bool) → (A → A) → List A → List A
map_where p move [] = []
map_where p move (r ∷ rs) = (if p r then move r else r) ∷ map_where p move rs

module _ {A : Type 0} (key : A → ℕ) where
  -- An UPDATE of several rows, one after the other.
  unfoldable pub put_all : (A → A) → List A → List A → List A
  unfolding put_row
  put_all move [] rs = rs
  put_all move (a ∷ rest) rs = put_all move rest (put_row key (move a) rs)

  module _ (move : A → A) (same : (a : A) → key (move a) ≡ key a) (p : A → Bool) where
    chosen : (r : A) (rs : List A) → p r ≡ true → select p (r ∷ rs) ≡ r ∷ select p rs
    chosen r rs h = ground (arith, h)

    dropped : (r : A) (rs : List A) → p r ≡ false → select p (r ∷ rs) ≡ select p rs
    dropped r rs h = ground (arith, h)

    -- A row in front whose id is not among the updated ones stays.
    put_all-head :
        (y : A) (rs zs : List A)
        → get_row key (key y) rs ≡ none
        → put_all move (select p rs) (y ∷ zs) ≡ y ∷ put_all move (select p rs) zs
    unfolding put_all get_row put_row
    put_all-head y [] zs e = refl
    put_all-head y (r ∷ rs) zs e =
        let rest : get_row key (key y) rs ≡ none = ground (arith, e) in
        elim (Bool-cases (p r)) [
          | inl h ↦
              let k = same r in
              let head : put_row key (move r) (y ∷ zs) ≡ y ∷ put_row key (move r) zs =
                ground (arith, e, k) in
              ap (λ xs. put_all move xs (y ∷ zs)) (chosen r rs h)
              ∙ ap (put_all move (select p rs)) head
              ∙ put_all-head y rs (put_row key (move r) zs) rest
              ∙ ap (λ xs. y ∷ put_all move xs zs) (sym (chosen r rs h))
          | inr h ↦
              ap (λ xs. put_all move xs (y ∷ zs)) (dropped r rs h)
              ∙ put_all-head y rs zs rest
              ∙ ap (λ xs. y ∷ put_all move xs zs) (sym (dropped r rs h))
        ]

    -- In a table with a primary key, the rows that a query chose are each updated once.
    pub put_all-map :
        (rs : List A) → UniqueIds key rs → put_all move (select p rs) rs ≡ map_where p move rs
    unfolding put_all get_row put_row UniqueIds
    put_all-map [] u = refl
    put_all-map (r ∷ rs) (u, us) = elim (Bool-cases (p r)) [
      | inl h ↦
          let k = same r in
          let gone : get_row key (key (move r)) rs ≡ none = ap (λ i. get_row key i rs) k ∙ u in
          let head : put_row key (move r) (r ∷ rs) ≡ move r ∷ rs =
            ground (arith, k, put_row-absent key (move r) rs gone) in
          ap (λ xs. put_all move xs (r ∷ rs)) (chosen r rs h)
          ∙ ap (put_all move (select p rs)) head
          ∙ put_all-head (move r) rs rs gone
          ∙ ap (λ xs. move r ∷ xs) (put_all-map rs us)
          ∙ ap (λ x. x ∷ map_where p move rs) (ground (arith, h))
      | inr h ↦
          ap (λ xs. put_all move xs (r ∷ rs)) (dropped r rs h)
          ∙ put_all-head r rs rs u
          ∙ ap (λ xs. r ∷ xs) (put_all-map rs us)
          ∙ ap (λ x. x ∷ map_where p move rs) (ground (arith, h))
    ]

    pub get-map_where :
        (k : ℕ) (rs : List A)
        → get_row key k (map_where p move rs)
          ≡ (elim (get_row key k rs) [ none ↦ none | some a ↦ some (if p a then move a else a) ])
    unfolding get_row
    get-map_where k [] = refl
    get-map_where k (r ∷ rs) = let e = same r in ground (arith, e, get-map_where k rs)

    pub UniqueIds-map_where : (rs : List A) → UniqueIds key rs → UniqueIds key (map_where p move rs)
    unfolding UniqueIds get_row
    UniqueIds-map_where [] u = tt
    UniqueIds-map_where (r ∷ rs) (u, us) = (
      get-map_where (key (if p r then move r else r)) rs ∙ (let e = same r in ground (arith, e, u)),
      UniqueIds-map_where rs us,
    )

  -- The second UPDATE of a row takes the place of the first.
  pub put-put_row :
      (a b : A) (rs : List A) → key b ≡ key a → put_row key b (put_row key a rs) ≡ put_row key b rs
  unfolding put_row
  put-put_row a b [] e = refl
  put-put_row a b (r ∷ rs) e = ground (arith, e, put-put_row a b rs e)
