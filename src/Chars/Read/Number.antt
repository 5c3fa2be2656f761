-- ===== src/Chars/Read/Number.antt =====
-- The decimals of a number read back as the number, also behind a `:` with spaces around.
use obhod.Prelude.{
  ℕ, zero, suc, ◌+◌, ◌-◌, ◌*◌, ◌/◌, ◌%◌, ◌<◌, ◌≡◌, refl, sym, subst, ap, ◌∙◌, true, false, none,
  some, [], ◌∷◌, ◌++◌, arith, All, All-append, Bool-cases, inl, inr, is_digit, digits_value,
  digits_of, ltb, nat_beq, ◌&&◌,
}
use obhod.Chars.{Chars, is_space, is_blank, lstrip, rstrip, strip}
use obhod.Chars.Laws.{NoSpace}
use obhod.Chars.Cut.{rest_after, last_piece}
use obhod.Chars.Bytes.{decimals, decimal}

digits_value-append :
    (v m d : ℕ) (xs : Chars)
    → digits_value v xs ≡ some m
    → is_digit d ≡ true
    → digits_value v (xs ++ d ∷ []) ≡ some (m * 10 + (d - 48))
digits_value-append v m d [] h k = ground arith
digits_value-append v m d (x ∷ xs) h k = elim (Bool-cases (is_digit x)) [
  | inl digit ↦ rw digit (digits_value-append (v * 10 + (x - 48)) m d xs (rw digit at h) k)
  | inr other ↦ absurd (let wrong : none ≡ some m = rw other at h in cc)
]

decimals_last : (fuel n : ℕ) → ltb n 10 ≡ true → decimals (suc fuel) n ≡ (48 + n) ∷ []
unfolding decimals
decimals_last fuel n h = rw (h, decimals) refl

decimals_more :
    (fuel n : ℕ)
    → ltb n 10 ≡ false
    → decimals (suc fuel) n ≡ decimals fuel (n / 10) ++ (48 + n % 10) ∷ []
unfolding decimals
decimals_more fuel n h = rw (h, decimals) refl

one_digit : (n : ℕ) → n < 10 → digits_value 0 ((48 + n) ∷ []) ≡ some n
one_digit n h = ground arith

digits_value-decimals : (fuel n : ℕ) → n < fuel → digits_value 0 (decimals fuel n) ≡ some n
digits_value-decimals zero n h = absurd (omega arith)
digits_value-decimals (suc fuel) n h = elim (Bool-cases (ltb n 10)) [
  | inl last ↦ ap (digits_value 0) (decimals_last fuel n last) ∙ one_digit n (ground arith)
  | inr more ↦
      let sum : n / 10 * 10 + ((48 + n % 10) - 48) ≡ n = omega arith in
      ap (digits_value 0) (decimals_more fuel n more)
      ∙ digits_value-append 0 (n / 10) (48 + n % 10) (decimals fuel (n / 10))
          (digits_value-decimals fuel (n / 10) (ground arith)) (ground arith)
      ∙ ap some sum
]

-- One digit and the others.
pub record IsNumber (s : Chars) : Type 0 where
  pub filled : is_blank s ≡ false
  pub digits : All (λ c. is_digit c ≡ true) s

append_filled : (s : Chars) (c : ℕ) → is_blank (s ++ c ∷ []) ≡ false
append_filled [] c = refl
append_filled (d ∷ s) c = refl

decimals-IsNumber : (fuel n : ℕ) → n < fuel → IsNumber (decimals fuel n)
decimals-IsNumber zero n h = absurd (omega arith)
decimals-IsNumber (suc fuel) n h = elim (Bool-cases (ltb n 10)) [
  | inl last ↦
      subst IsNumber (sym (decimals_last fuel n last))
        (record { filled = refl; digits = (ground arith, tt) })
  | inr more ↦ subst IsNumber (sym (decimals_more fuel n more)) (record {
    filled = append_filled (decimals fuel (n / 10)) (48 + n % 10);
    digits =
        All-append _ (decimals fuel (n / 10)) ((48 + n % 10) ∷ [])
          (decimals-IsNumber fuel (n / 10) (ground arith)).digits (ground arith, tt);
  })
]

pub decimal-IsNumber : (n : ℕ) → IsNumber (decimal n)
unfolding decimal
decimal-IsNumber n = decimals-IsNumber (suc n) n (omega arith)

digits_of_filled : (s : Chars) → is_blank s ≡ false → digits_of s ≡ digits_value 0 s
digits_of_filled [] h = absurd (ground arith)
digits_of_filled (c ∷ s) h = refl

-- The fuel of `decimal` is enough: every digit is there.
pub digits_of-decimal : (n : ℕ) → digits_of (decimal n) ≡ some n
unfolding decimal
digits_of-decimal n =
    digits_of_filled (decimals (suc n) n) (decimals-IsNumber (suc n) n (omega arith)).filled
    ∙ digits_value-decimals (suc n) n (omega arith)

-- Behind the last separator.

pub no_rest :
    (sep : ℕ) (s : Chars)
    → is_digit sep ≡ false
    → All (λ c. is_digit c ≡ true) s
    → rest_after sep s ≡ none
unfolding rest_after
no_rest sep [] h a = refl
no_rest sep (c ∷ s) h a =
    let other : nat_beq c sep ≡ false = ground arith in rw other (no_rest sep s h a.1)

last_piece_whole : (sep : ℕ) (s : Chars) → rest_after sep s ≡ none → last_piece sep s ≡ s
unfolding last_piece
last_piece_whole sep [] h = refl
last_piece_whole sep (c ∷ s) h = rw (h, last_piece) refl

some_rest : (sep : ℕ) (xs s : Chars) → (t : Chars) × (rest_after sep (xs ++ sep ∷ s) ≡ some t)
unfolding rest_after
some_rest sep [] s = (s, let same : nat_beq sep sep ≡ true = ground arith in rw same refl)
some_rest sep (x ∷ xs) s = elim (Bool-cases (nat_beq x sep)) [
  | inl here ↦ (xs ++ sep ∷ s, rw here refl)
  | inr other ↦ let (t, e) = some_rest sep xs s in (t, rw other e)
]

pub last_piece-append :
    (sep : ℕ) (xs s : Chars) → rest_after sep s ≡ none → last_piece sep (xs ++ sep ∷ s) ≡ s
unfolding last_piece
last_piece-append sep [] s h =
    let (t, e) = some_rest sep [] s in rw (e, last_piece) (last_piece_whole sep s h)
last_piece-append sep (x ∷ xs) s h =
    let (t, e) = some_rest sep (x ∷ xs) s in rw (e, last_piece) (last_piece-append sep xs s h)

append_blank : (xs s : Chars) → is_blank s ≡ false → is_blank (xs ++ s) ≡ false
append_blank [] s h = h
append_blank (x ∷ xs) s h = refl

lstrip-append :
    (sep : ℕ) (xs s : Chars) → is_space sep ≡ false → lstrip (xs ++ sep ∷ s) ≡ lstrip xs ++ sep ∷ s
unfolding lstrip
lstrip-append sep [] s h = rw h refl
lstrip-append sep (x ∷ xs) s h = elim (Bool-cases (is_space x)) [
  | inl space ↦ rw space (lstrip-append sep xs s h)
  | inr other ↦ rw other refl
]

pub rstrip_solid : (s : Chars) → NoSpace s → rstrip s ≡ s
unfolding rstrip
rstrip_solid [] a = refl
rstrip_solid (c ∷ s) a =
    let solid : (is_blank s && is_space c) ≡ false = ground arith in
    rw (rstrip_solid s a.1, solid) refl

rstrip-append : (xs s : Chars) → is_blank (rstrip s) ≡ false → rstrip (xs ++ s) ≡ xs ++ rstrip s
unfolding rstrip
rstrip-append [] s h = refl
rstrip-append (x ∷ xs) s h =
    let filled : is_blank (xs ++ rstrip s) ≡ false = append_blank xs (rstrip s) h in
    rw (rstrip-append xs s h, filled) refl

pub digits-NoSpace : (s : Chars) → All (λ c. is_digit c ≡ true) s → NoSpace s
digits-NoSpace [] a = tt
digits-NoSpace (c ∷ s) a = (ground arith, digits-NoSpace s a.1)

-- The number behind the last `:` of a text that is stripped.
pub number_behind :
    (host : Chars) (n : ℕ) → digits_of (last_piece 58 (strip (host ++ 58 ∷ decimal n))) ≡ some n
unfolding strip
number_behind host n =
    let number : IsNumber (decimal n) = decimal-IsNumber n in
    let solid : rstrip (58 ∷ decimal n) ≡ 58 ∷ decimal n =
      rstrip_solid (58 ∷ decimal n) (refl, digits-NoSpace (decimal n) number.digits) in
    let stripped : rstrip (lstrip (host ++ 58 ∷ decimal n)) ≡ lstrip host ++ 58 ∷ decimal n =
      ap rstrip (lstrip-append 58 host (decimal n) refl)
      ∙ rstrip-append (lstrip host) (58 ∷ decimal n) (ap is_blank solid)
      ∙ ap (◌++◌ (lstrip host)) solid in
    ap (λ t. digits_of (last_piece 58 t)) stripped
    ∙ ap digits_of
        (last_piece-append 58 (lstrip host) (decimal n) (no_rest 58 (decimal n) refl number.digits))
    ∙ digits_of-decimal n
