-- ===== src/Prelude/Text.antt =====
-- Texts as the program reads them: their code points, and the number that `int` reads where
-- `isdigit` holds of ASCII digits.
use Prim.Native.Nat.{ℕ, ◌+◌, ◌-◌, ◌*◌}
use Prim.Native.Char.{code}
use Prim.Native.String.{String}
use mathlib.Core.Bool.{Bool, ◌&&◌}
use mathlib.Core.List.{List, [], ◌∷◌}
use mathlib.Core.Option.{Option, none, some}
use obhod.Prelude.Tests.{leb, if◌then◌else◌}

abbrev pub codes : String → List ℕ
codes String.[] = []
codes (String.◌∷◌ c s) = code c ∷ codes s

abbrev pub is_digit : ℕ → Bool
is_digit c = leb 48 c && leb c 57

abbrev pub digits_value : ℕ → List ℕ → Option ℕ
digits_value value [] = some value
digits_value value (c ∷ cs) =
    let rest = digits_value (value * 10 + (c - 48)) cs in if is_digit c then rest else none

-- `int(text)`, for a text that is not empty and has digits only.
abbrev pub digits_of : List ℕ → Option ℕ
digits_of [] = none
digits_of (c ∷ cs) = digits_value 0 (c ∷ cs)

abbrev pub read_number : String → Option ℕ
read_number s = digits_of (codes s)
