-- ===== src/Chars/Cut.antt =====
-- Python's `lower`, `split(sep)` and `partition(sep)` on texts, equality of texts, and `in` on a few
-- words. `lower` is that of Latin-1, in which the server reads the line of a request.
use obhod.Prelude.{
  ℕ, ◌+◌, ◌≡◌, refl, ◌↔◌, Bool, true, false, ◌&&◌, ◌||◌, not, Option, none, some, List, [], ◌∷◌,
  ◌++◌, if◌then◌else◌, nat_beq, nat_beq_iff, map, Key, String, codes, arith,
}
use obhod.Chars.{Chars, between, is_blank}

abbrev pub lower_letter : ℕ → ℕ
lower_letter c = if between 65 90 c || between 192 222 c && not (nat_beq c 215) then c + 32 else c

abbrev pub lower : Chars → Chars
lower s = map lower_letter s

-- `split(sep)`, with the letters of the piece that has begun.
unfoldable pub pieces_from : ℕ → Chars → Chars → List Chars
pieces_from sep piece [] = piece ∷ []
pieces_from sep piece (c ∷ cs) =
    let rest = pieces_from sep (if nat_beq c sep then [] else piece ++ c ∷ []) cs in
    if nat_beq c sep then piece ∷ rest else rest

abbrev pub pieces : ℕ → Chars → List Chars
pieces sep s = pieces_from sep [] s

-- The first and the last part of `partition(sep)`.
unfoldable pub before : ℕ → Chars → Chars
before sep [] = []
before sep (c ∷ cs) = let rest = before sep cs in if nat_beq c sep then [] else c ∷ rest

unfoldable pub after : ℕ → Chars → Chars
after sep [] = []
after sep (c ∷ cs) = let rest = after sep cs in if nat_beq c sep then cs else rest

-- `[item for item in items if item]`
unfoldable pub filled : List Chars → List Chars
filled [] = []
filled (s ∷ items) = let rest = filled items in if is_blank s then rest else s ∷ rest

abbrev pub same_chars : Chars → Chars → Bool
same_chars [] [] = true
same_chars [] (d ∷ ds) = false
same_chars (c ∷ cs) [] = false
same_chars (c ∷ cs) (d ∷ ds) = nat_beq c d && same_chars cs ds

pub same_chars_iff : (s t : Chars) → (same_chars s t ≡ true) ↔ (s ≡ t)
same_chars_iff [] [] = (λ h. refl, λ h. refl)
same_chars_iff [] (d ∷ ds) = (λ h. absurd (ground arith), λ h. absurd (ground arith))
same_chars_iff (c ∷ cs) [] = (λ h. absurd (ground arith), λ h. absurd (ground arith))
same_chars_iff (c ∷ cs) (d ∷ ds) = (
  λ h. ground (arith, nat_beq_iff c d, same_chars_iff cs ds),
  λ h. ground (arith, nat_beq_iff c d, same_chars_iff cs ds),
)

instance unfoldable pub chars_key : Key Chars
chars_key = record { same = same_chars; same_iff = same_chars_iff }

-- `s in {...}`
abbrev pub among : Chars → List String → Bool
among s [] = false
among s (w ∷ words) = same_chars s (codes w) || among s words

-- What stands after the first `sep`, if there is one.
unfoldable pub rest_after : ℕ → Chars → Option Chars
rest_after sep [] = none
rest_after sep (c ∷ cs) = let rest = rest_after sep cs in if nat_beq c sep then some cs else rest

-- `text.rsplit(sep, 1)[-1]`
unfoldable pub last_piece : ℕ → Chars → Chars
last_piece sep [] = []
last_piece sep (c ∷ cs) =
    let rest = last_piece sep cs in elim (rest_after sep (c ∷ cs)) [ none ↦ c ∷ cs | some t ↦ rest ]

-- Every letter is of the kind.
abbrev pub every : (ℕ → Bool) → Chars → Bool
every p [] = true
every p (c ∷ cs) = p c && every p cs
