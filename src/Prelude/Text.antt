-- ===== src/Prelude/Text.antt =====
-- `str.strip` and the blank test of `_clean`.
use Prim.Native.Nat.{ℕ}
use Prim.Native.Char.{code}
use Prim.Native.String.{String, [], ◌∷◌}
use mathlib.Core.Bool.{Bool, ◌&&◌, ◌||◌}
use mathlib.Core.Option.{Option, none, some}
use syntrix_dr.Prelude.Tests.{◌==◌, leb, if◌then◌else◌}

-- `str.isspace` of one character.
unfoldable pub is_space : ℕ → Bool
is_space c =
    (leb 9 c && leb c 13)
    || (leb 28 c && leb c 32)
    || (c == 0x85)
    || (c == 0xa0)
    || (c == 0x1680)
    || (leb 0x2000 c && leb c 0x200a)
    || (c == 0x2028)
    || (c == 0x2029)
    || (c == 0x202f)
    || (c == 0x205f)
    || (c == 0x3000)

unfoldable pub lstrip : String → String
unfolding is_space
lstrip [] = []
lstrip (c ∷ s) = let rest = lstrip s in if is_space (code c) then rest else c ∷ s

unfoldable pub reverse_onto : String → String → String
reverse_onto [] acc = acc
reverse_onto (c ∷ s) acc = reverse_onto s (c ∷ acc)

-- `text.strip()`
unfoldable pub strip : String → String
unfolding lstrip reverse_onto
strip s = reverse_onto (lstrip (reverse_onto (lstrip s) [])) []

-- `stripped or None`: the empty text is falsy.
abbrev pub or_none : String → Option String
or_none [] = none
or_none (c ∷ s) = some (c ∷ s)

-- `_clean`: blank or whitespace-only counts as absent.
unfoldable pub clean : Option String → Option String
unfolding strip
clean none = none
clean (some text) = or_none (strip text)
