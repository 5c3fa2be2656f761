-- ===== src/Ports.antt =====
-- The loop by which several modules read a list of ports: a number from 1 to 65535 that is not there
-- yet is appended, and the first `limit` of them are kept.
pub mod Laws
pub mod Ascending
use obhod.Prelude.{
  ℕ, Bool, List, [], ◌∷◌, ◌++◌, ◌&&◌, not, if◌then◌else◌, leb, take, elem, ℤ, pos, negsuc,
  number_key,
}

-- `1 <= value <= 65535`
abbrev pub is_port : ℕ → Bool
is_port n = leb 1 n && leb n 65535

-- `if 1 <= value <= 65535 and value not in out: out.append(value)`
unfoldable pub add_port : List ℕ → ℕ → List ℕ
add_port out n = if is_port n && not (elem n out) then out ++ n ∷ [] else out

unfoldable pub collect : List ℕ → List ℤ → List ℕ
collect out [] = out
collect out (pos n ∷ values) = collect (add_port out n) values
collect out (negsuc n ∷ values) = collect out values

unfoldable pub ports_upto : ℕ → List ℤ → List ℕ
unfolding collect
ports_upto limit values = take limit (collect [] values)
