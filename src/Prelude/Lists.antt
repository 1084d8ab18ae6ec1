-- ===== src/Prelude/Lists.antt =====
-- Lists measured by native numbers, and the list operations of Python that the program uses.
use Prim.Native.Nat.{ℕ, suc, ◌+◌}
use mathlib.Core.Path.{◌≡◌, refl, sym, ap, ◌∙◌, subst}
use mathlib.Core.Logic.{◌⊎◌, inl, inr, ◌↔◌, ⊎_elim}
use mathlib.Core.Bool.{Bool, true, false, ◌||◌, ◌&&◌}
use mathlib.Core.Option.{Option, none, some}
use mathlib.Core.List.{List, [], ◌∷◌, ◌++◌, Memᴰ}
use mathlib.Core.List.Memᴰ
use native.Mathlib.Omega.{arith}
use syntrix_dr.Prelude.Tests.{◌==◌, leb, if◌then◌else◌, Bool-cases}

module _ {ℓ} {A : Type ℓ} where
  abbrev pub length : List A → ℕ
  length [] = 0
  length (_ ∷ xs) = suc (length xs)

  pub length-append : (xs ys : List A) → length (xs ++ ys) ≡ length xs + length ys
  length-append [] ys = omega arith
  length-append (x ∷ xs) ys = omega (arith, length-append xs ys)

  pub List-cases : (xs : List A) → (xs ≡ []) ⊎ ((x : A) × (rest : List A) × (xs ≡ x ∷ rest))
  List-cases [] = inl refl
  List-cases (x ∷ xs) = inr (x, xs, refl)

  pub Memᴰ-cons : (a x : A) (xs : List A) → Memᴰ a (x ∷ xs) ↔ ((a ≡ x) ⊎ Memᴰ a xs)
  Memᴰ-cons a x xs = (Memᴰ.cases_cons, ⊎_elim Memᴰ.head Memᴰ.tail)

  pub Memᴰ-concat : (a x : A) (xs : List A) → Memᴰ a (xs ++ x ∷ []) ↔ (Memᴰ a xs ⊎ (a ≡ x))
  Memᴰ-concat a x xs = (
    λ m. ⊎_elim inl (λ last. inr (Memᴰ.eq_of_singleton last)) (Memᴰ.append_cases xs m),
    ⊎_elim (Memᴰ.append_left _) (λ e. Memᴰ.append_right xs (Memᴰ.head e)),
  )

  -- `not xs`
  abbrev pub is_nil : List A → Bool
  is_nil [] = true
  is_nil (x ∷ xs) = false

  -- `any(p(x) for x in xs)`
  abbrev pub any : (A → Bool) → List A → Bool
  any p [] = false
  any p (x ∷ xs) = p x || any p xs

  -- `all(p(x) for x in xs)`
  abbrev pub all : (A → Bool) → List A → Bool
  all p [] = true
  all p (x ∷ xs) = p x && all p xs

  -- `[x for x in xs if p(x)]`
  abbrev pub select : (A → Bool) → List A → List A
  select p [] = []
  select p (x ∷ xs) = let rest = select p xs in if p x then x ∷ rest else rest

  -- The first row that a query returns.
  abbrev pub first : (A → Bool) → List A → Option A
  first p [] = none
  first p (x ∷ xs) = let rest = first p xs in if p x then some x else rest

-- `x in xs`
abbrev pub contains : ℕ → List ℕ → Bool
contains x xs = any (λ y. x == y) xs

-- `sorted(xs, key=str)` on UUIDs: their texts are ordered as their numbers are.
abbrev pub insert_sorted : ℕ → List ℕ → List ℕ
insert_sorted x [] = x ∷ []
insert_sorted x (y ∷ ys) = if leb x y then x ∷ y ∷ ys else y ∷ insert_sorted x ys

unfoldable pub sorted : List ℕ → List ℕ
sorted [] = []
sorted (x ∷ xs) = insert_sorted x (sorted xs)

mem-insert_sorted : (a x : ℕ) (xs : List ℕ) → Memᴰ a (insert_sorted x xs) ↔ ((a ≡ x) ⊎ Memᴰ a xs)
mem-insert_sorted a x [] = Memᴰ-cons a x []
mem-insert_sorted a x (y ∷ ys) = ground (
  arith,
  mem-insert_sorted a x ys,
  Memᴰ-cons a x (y ∷ ys),
  Memᴰ-cons a y ys,
  Memᴰ-cons a y (insert_sorted x ys),
)

pub mem-sorted : (a : ℕ) (xs : List ℕ) → Memᴰ a (sorted xs) ↔ Memᴰ a xs
unfolding sorted
mem-sorted a [] = (λ m. m, λ m. m)
mem-sorted a (x ∷ xs) =
    ground (arith, mem-insert_sorted a x (sorted xs), mem-sorted a xs, Memᴰ-cons a x xs)

pub length-insert_sorted : (x : ℕ) (xs : List ℕ) → length (insert_sorted x xs) ≡ suc (length xs)
length-insert_sorted x [] = refl
length-insert_sorted x (y ∷ ys) = ground (arith, length-insert_sorted x ys)

-- A selected element is in the list, and passes the test.
pub mem-select :
    {A : Type 0} (p : A → Bool) (a : A) (xs : List A)
    → Memᴰ a (select p xs)
    → Memᴰ a xs × (p a ≡ true)
mem-select p a [] m = absurd (Memᴰ.not-nil m)
mem-select p a (x ∷ xs) m = elim (Bool-cases (p x)) [
  | inl h ↦
      elim ((Memᴰ-cons a x (select p xs)).0
        (subst (Memᴰ a) (ap (λ b. if b then x ∷ select p xs else select p xs) h) m)) [
          | inl same ↦ (Memᴰ.head same, ap p same ∙ h)
          | inr rest ↦ let (n, k) = mem-select p a xs rest in (Memᴰ.tail n, k)
        ]
  | inr h ↦
      let (n, k) =
        mem-select p a xs
          (subst (Memᴰ a) (ap (λ b. if b then x ∷ select p xs else select p xs) h) m) in
      (Memᴰ.tail n, k)
]

pub select-mem :
    {A : Type 0} (p : A → Bool) (a : A) (xs : List A)
    → Memᴰ a xs
    → p a ≡ true
    → Memᴰ a (select p xs)
select-mem p a [] m h = absurd (Memᴰ.not-nil m)
select-mem p a (x ∷ xs) m h = elim ((Memᴰ-cons a x xs).0 m) [
  | inl same ↦
      subst (Memᴰ a)
        (ap (λ b. if b then x ∷ select p xs else select p xs) (sym (ap p (sym same) ∙ h)))
        (Memᴰ.head same)
  | inr there ↦ elim (Bool-cases (p x)) [
    | inl k ↦
        subst (Memᴰ a) (ap (λ b. if b then x ∷ select p xs else select p xs) (sym k))
          (Memᴰ.tail (select-mem p a xs there h))
    | inr k ↦
        subst (Memᴰ a) (ap (λ b. if b then x ∷ select p xs else select p xs) (sym k))
          (select-mem p a xs there h)
  ]
]

-- What has an element is not empty.
pub mem-is_nil : {A : Type 0} (a : A) (xs : List A) → Memᴰ a xs → is_nil xs ≡ true → ⊥
mem-is_nil a [] m e = Memᴰ.not-nil m
mem-is_nil a (x ∷ xs) m e = grind arith
