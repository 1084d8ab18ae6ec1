-- ===== src/Db/Reading.antt =====
-- The monad of reads.
use syntrix_dr.Prelude.{Bool, true, false, Option, none, some, List, [], ◌∷◌}
use syntrix_dr.Db.Store.{Session}
use syntrix_dr.Db.Monad.{Error, Result, ok, err, multiple_results_found, Read}

abbrev pub pure : {A : Type 0} → A → Read A
pure a s = ok a

abbrev pub raise : {A : Type 0} → Error → Read A
raise e s = err e

abbrev pub asks : {A : Type 0} → (Session → A) → Read A
asks f s = ok (f s)

infixl 5 ◌>>=◌ ◌>>◌
abbrev pub ◌>>=◌ : {A B : Type 0} → Read A → (A → Read B) → Read B
◌>>=◌ r f s = elim (r s) [ ok a ↦ f a s | err e ↦ err e ]

abbrev pub ◌>>◌ : {A B : Type 0} → Read A → Read B → Read B
r >> q = r >>= λ _. q

-- `a or await b()`: the second read is made only if the first answers no.
abbrev pub or_read : Read Bool → Read Bool → Read Bool
or_read r q s = elim (r s) [ ok true ↦ ok true | ok false ↦ q s | err e ↦ err e ]

-- `a and await b()`
abbrev pub and_read : Read Bool → Read Bool → Read Bool
and_read r q s = elim (r s) [ ok true ↦ q s | ok false ↦ ok false | err e ↦ err e ]

-- `result.scalar_one_or_none()`: SQLAlchemy raises if more than one row came back.
abbrev pub scalar_one_or_none : {A : Type 0} → List A → Result (Option A)
scalar_one_or_none [] = ok none
scalar_one_or_none (a ∷ []) = ok (some a)
scalar_one_or_none (a ∷ b ∷ rows) = err multiple_results_found
