-- ===== src/Chars.antt =====
-- A text as the list of its code points, and Python's `strip`, `split`, `splitlines` and
-- `startswith` on it. Where a carriage return and a line
-- feed end one line, `split_lines` has an empty line more, which every caller skips.
pub mod Laws
pub mod Cut
pub mod Bytes
pub mod Read
use obhod.Prelude.{
  ℕ, Bool, true, false, ◌&&◌, ◌||◌, not, List, [], ◌∷◌, ◌++◌, if◌then◌else◌, leb, nat_beq,
}

abbrev pub Chars : Type 0
Chars = List ℕ

abbrev pub between : ℕ → ℕ → ℕ → Bool
between low high c = leb low c && leb c high

abbrev pub is_space : ℕ → Bool
is_space c =
    between 9 13 c
    || between 28 32 c
    || nat_beq c 133
    || nat_beq c 160
    || nat_beq c 5760
    || between 8192 8202 c
    || between 8232 8233 c
    || nat_beq c 8239
    || nat_beq c 8287
    || nat_beq c 12288

abbrev pub is_line_end : ℕ → Bool
is_line_end c = between 10 13 c || between 28 30 c || nat_beq c 133 || between 8232 8233 c

abbrev pub is_blank : Chars → Bool
is_blank [] = true
is_blank (c ∷ cs) = false

unfoldable pub lstrip : Chars → Chars
lstrip [] = []
lstrip (c ∷ cs) = let rest = lstrip cs in if is_space c then rest else c ∷ cs

unfoldable pub rstrip : Chars → Chars
rstrip [] = []
rstrip (c ∷ cs) = let rest = rstrip cs in if is_blank rest && is_space c then [] else c ∷ rest

unfoldable pub strip : Chars → Chars
unfolding lstrip rstrip
strip s = rstrip (lstrip s)

unfoldable pub begins : Chars → Chars → Bool
begins [] s = true
begins (c ∷ cs) [] = false
begins (c ∷ cs) (d ∷ s) = let rest = begins cs s in nat_beq c d && rest

-- A word that is not empty, in front of the others.
abbrev pub flush : Chars → List Chars → List Chars
flush [] words = words
flush (c ∷ cs) words = (c ∷ cs) ∷ words

-- `split`, with the letters of the word that has begun.
unfoldable pub words_from : Chars → Chars → List Chars
words_from word [] = flush word []
words_from word (c ∷ cs) =
    let rest = words_from (if is_space c then [] else word ++ c ∷ []) cs in
    if is_space c then flush word rest else rest

unfoldable pub split : Chars → List Chars
split s = words_from [] s

-- `splitlines`, with the letters of the line that has begun.
unfoldable pub lines_from : Chars → Chars → List Chars
lines_from line [] = flush line []
lines_from line (c ∷ cs) =
    let rest = lines_from (if is_line_end c then [] else line ++ c ∷ []) cs in
    if is_line_end c then line ∷ rest else rest

unfoldable pub split_lines : Chars → List Chars
split_lines s = lines_from [] s
