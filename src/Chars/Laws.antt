-- ===== src/Chars/Laws.antt =====
-- Lines and words of texts that are put together.
use obhod.Prelude.{
  ℕ, ◌≡◌, refl, false, List, [], ◌∷◌, ◌++◌, arith, All, All-append, Bool-cases, inl, inr,
  append_assoc, ◌∙◌, ap, sym,
}
use mathlib.Core.List.{append-nil}
use obhod.Chars.{
  Chars, is_space, is_line_end, is_blank, lstrip, rstrip, strip, flush, words_from, lines_from,
}

-- A line that has ended does not reach into the text that follows.
pub lines_from-append :
    (line xs ys : Chars)
    → lines_from line (xs ++ 10 ∷ ys) ≡ lines_from line (xs ++ 10 ∷ []) ++ lines_from [] ys
unfolding lines_from
lines_from-append line [] ys = refl
lines_from-append line (x ∷ xs) ys = elim (Bool-cases (is_line_end x)) [
  | inl e ↦ rw e (ap (◌∷◌ line) (lines_from-append [] xs ys))
  | inr e ↦ rw e (lines_from-append (line ++ x ∷ []) xs ys)
]

abbrev pub NoEnd : Chars → Type 0
NoEnd s = All (λ c. is_line_end c ≡ false) s

-- A text without a line end is a line of its own.
pub lines_from_line :
    (line key : Chars) → NoEnd key → lines_from line (key ++ 10 ∷ []) ≡ (line ++ key) ∷ []
unfolding lines_from
lines_from_line line [] h = ap (λ (l : Chars). l ∷ []) (sym (append-nil line))
lines_from_line line (c ∷ key) h = rw h.0 (
    lines_from_line (line ++ c ∷ []) key h.1
    ∙ ap (λ (l : Chars). l ∷ []) (append_assoc line (c ∷ []) key))

abbrev pub NoSpace : Chars → Type 0
NoSpace s = All (λ c. is_space c ≡ false) s

pub NoSpace-NoEnd : (s : Chars) → NoSpace s → NoEnd s
NoSpace-NoEnd [] h = tt
NoSpace-NoEnd (c ∷ s) h = (ground arith, NoSpace-NoEnd s h.1)

flush-NoSpace :
    (word : Chars) (words : List Chars)
    → NoSpace word
    → All NoSpace words
    → All NoSpace (flush word words)
flush-NoSpace [] words h k = k
flush-NoSpace (c ∷ cs) words h k = (h, k)

-- No word has a space in it.
pub words_from-NoSpace : (word s : Chars) → NoSpace word → All NoSpace (words_from word s)
unfolding words_from
words_from-NoSpace word [] h = flush-NoSpace word [] h tt
words_from-NoSpace word (c ∷ cs) h = elim (Bool-cases (is_space c)) [
  | inl e ↦ rw e (flush-NoSpace word (words_from [] cs) h (words_from-NoSpace [] cs tt))
  | inr e ↦ rw e (words_from-NoSpace (word ++ c ∷ []) cs (All-append _ word (c ∷ []) h (e, tt)))
]

-- The first letter of the first word, or 0.
abbrev pub first_letter : List Chars → ℕ
first_letter [] = 0
first_letter ([] ∷ words) = 0
first_letter ((c ∷ cs) ∷ words) = c

pub words_from-first_letter : (c : ℕ) (word s : Chars) → first_letter (words_from (c ∷ word) s) ≡ c
unfolding words_from
words_from-first_letter c word [] = refl
words_from-first_letter c word (d ∷ s) = elim (Bool-cases (is_space d)) [
  | inl e ↦ rw e refl
  | inr e ↦ rw e (words_from-first_letter c (word ++ d ∷ []) s)
]

-- A text that begins with a letter keeps it when it is stripped.
pub strip-first : (c : ℕ) (s : Chars) → is_space c ≡ false → strip (c ∷ s) ≡ c ∷ rstrip s
unfolding strip lstrip rstrip
strip-first c s h =
    rw h (elim (Bool-cases (is_blank (rstrip s))) [ inl e ↦ rw (e, h) refl | inr e ↦ rw e refl ])
