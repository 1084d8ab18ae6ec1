-- ===== src/Prelude/Distinct.antt =====
-- Lists of numbers without repetitions, and how many there can be.
use Prim.Native.Nat.{ℕ, ◌+◌, ◌≤◌}
use mathlib.Core.Path.{◌≡◌, refl, sym, ap, ◌∙◌, subst}
use mathlib.Core.Logic.{◌⊎◌, inl, inr}
use mathlib.Core.Bool.{Bool, true, false, not, ◌&&◌, ◌||◌}
use mathlib.Core.List.{List, [], ◌∷◌, ◌++◌}
use native.Mathlib.Omega.{arith}
use syntrix_dr.Prelude.Tests.{◌==◌, ==_iff, if◌then◌else◌, Bool-cases}
use syntrix_dr.Prelude.Lists.{length, contains, select}

unfoldable pub NoRepeats : List ℕ → Type 0
NoRepeats [] = Unit {0}
NoRepeats (x ∷ xs) = (contains x xs ≡ false) × NoRepeats xs

-- Every element of `xs` is one of `ys`.
abbrev pub Among : List ℕ → List ℕ → Type 0
Among xs ys = (x : ℕ) → contains x xs ≡ true → contains x ys ≡ true

pub contains-append :
    (x y : ℕ) (xs : List ℕ) → contains x (xs ++ y ∷ []) ≡ (contains x xs || (x == y))
contains-append x y [] = ground arith
contains-append x y (z ∷ xs) = ground (arith, contains-append x y xs)

pub NoRepeats-append :
    (y : ℕ) (xs : List ℕ) → contains y xs ≡ false → NoRepeats xs → NoRepeats (xs ++ y ∷ [])
unfolding NoRepeats
NoRepeats-append y [] fresh n = (refl, tt)
NoRepeats-append y (x ∷ xs) fresh (n, ns) = (
  contains-append x y xs ∙ ground (arith, n, fresh),
  NoRepeats-append y xs (ground (arith, fresh)) ns,
)

pub contains-select :
    (x : ℕ) (p : ℕ → Bool) (xs : List ℕ) → contains x (select p xs) ≡ (p x && contains x xs)
contains-select x p [] = ground arith
contains-select x p (y ∷ xs) = elim (Bool-cases (x == y)) [
  | inl h ↦
      let e : p x ≡ p y = ap p ((==_iff x y).0 h) in ground (arith, h, e, contains-select x p xs)
  | inr h ↦ ground (arith, h, contains-select x p xs)
]

pub NoRepeats-select : (p : ℕ → Bool) (xs : List ℕ) → NoRepeats xs → NoRepeats (select p xs)
unfolding NoRepeats
NoRepeats-select p [] n = tt
NoRepeats-select p (x ∷ xs) (n, ns) = elim (Bool-cases (p x)) [
  | inl h ↦
      subst NoRepeats (sym (ap (λ b. if b then x ∷ select p xs else select p xs) h))
        (contains-select x p xs ∙ ground (arith, n), NoRepeats-select p xs ns)
  | inr h ↦
      subst NoRepeats (sym (ap (λ b. if b then x ∷ select p xs else select p xs) h))
        (NoRepeats-select p xs ns)
]

-- `ys` without `x`.
without : ℕ → List ℕ → List ℕ
without x [] = []
without x (y ∷ ys) = let rest = without x ys in if x == y then rest else y ∷ rest

contains-without :
    (z x : ℕ) (ys : List ℕ) → contains z (without x ys) ≡ (not (x == z) && contains z ys)
unfolding without
contains-without z x [] = ground arith
contains-without z x (y ∷ ys) = ground (arith, contains-without z x ys)

length-without :
    (x : ℕ) (ys : List ℕ) → length (without x ys) + (if contains x ys then 1 else 0) ≤ length ys
unfolding without
length-without x [] = ground arith
length-without x (y ∷ ys) = ground (arith, length-without x ys)

-- A list without repetitions is no longer than one that has all its elements.
pub length-Among : (xs ys : List ℕ) → NoRepeats xs → Among xs ys → length xs ≤ length ys
unfolding NoRepeats
length-Among [] ys n h = ground arith
length-Among (x ∷ xs) ys (n, ns) h =
    let here : contains x ys ≡ true = h x (ground arith) in
    let rest : length xs ≤ length (without x ys) =
      length-Among xs (without x ys) ns
        λ z m. contains-without z x ys ∙ kept z m (h z (ground (arith, m))) in
    ground (arith, rest, length-without x ys, here)
  where
    kept :
        (z : ℕ)
        → contains z xs ≡ true
        → contains z ys ≡ true
        → (not (x == z) && contains z ys) ≡ true
    kept z m k = elim (Bool-cases (x == z)) [
      | inl same ↦
          let e = ap (λ i. contains i xs) ((==_iff x z).0 same) in absurd (ground (arith, n, m, e))
      | inr other ↦ ground (arith, other, k)
    ]

-- If it is as long, it has them all.
pub Among-all : (xs ys : List ℕ) → NoRepeats xs → Among xs ys → length ys ≤ length xs → Among ys xs
unfolding NoRepeats
Among-all xs ys n h long y m = elim (Bool-cases (contains y xs)) [
  | inl there ↦ there
  | inr missing ↦
      let more =
        length-Among (y ∷ xs) ys (missing, n)
          λ z k. elim (Bool-cases (z == y)) [
            | inl same ↦ ap (λ i. contains i ys) ((==_iff z y).0 same) ∙ m
            | inr other ↦ h z (ground (arith, other, k))
          ] in
      absurd (ground (arith, more, long))
]

-- Either all are there, or there is one that is not.
pub Among-or-missing :
    (xs ys : List ℕ) → Among xs ys ⊎ ((x : ℕ) × (contains x xs ≡ true) × (contains x ys ≡ false))
Among-or-missing [] ys = inl (λ x m. absurd (grind arith))
Among-or-missing (x ∷ xs) ys = elim (Bool-cases (contains x ys)) [
  | inr out ↦ inr (x, ground arith, out)
  | inl there ↦ elim (Among-or-missing xs ys) [
    | inr (z, m, out) ↦ inr (z, ground (arith, m), out)
    | inl rest ↦ inl (λ z m. elim (Bool-cases (z == x)) [
      | inl h ↦ ap (λ i. contains i ys) ((==_iff z x).0 h) ∙ there
      | inr h ↦ rest z (ground (arith, h, m))
    ])
  ]
]
