-- ===== src/Chars/Read/Utf8.antt =====
-- What was encoded in UTF-8 decodes back.
use obhod.Prelude.{
  ℕ, suc, ◌≤◌, none, ◌+◌, ◌-◌, ◌*◌, ◌/◌, ◌%◌, ◌<◌, ◌≡◌, refl, true, false, ◌&&◌, Option, some, List,
  [], ◌∷◌, ◌++◌, arith, All, Bool-cases, inl, inr, nat_beq, leb, ltb, ◌∙◌, ap, All-append,
}
use obhod.Chars.{Chars, between}
use obhod.Chars.Bytes.{utf8, bytes_of}
use obhod.Chars.Read.{
  is_scalar, Partial, fresh, begun, next, put_out, and_then, utf8_from, from_utf8,
}
use obhod.Chars.Read.Base64.{IsByte}

abbrev pub AreScalars : Chars → Type 0
AreScalars s = All (λ c. is_scalar c ≡ true) s

put_out_nil : (o : Option Chars) → put_out [] o ≡ o
put_out_nil none = refl
put_out_nil (some s) = refl

begun_small : (c : ℕ) → c < 128 → begun c ≡ some (fresh, c ∷ [])
begun_small c h = ground arith

begun_two :
    (q : ℕ) → q < 32 → begun (192 + q) ≡ some (record { left = 1; least = 128; bits = q }, [])
begun_two q h = let e : (192 + q) - 192 ≡ q = omega arith in ground (arith, e)

begun_three :
    (q : ℕ) → q < 16 → begun (224 + q) ≡ some (record { left = 2; least = 2048; bits = q }, [])
begun_three q h = let e : (224 + q) - 224 ≡ q = omega arith in ground (arith, e)

begun_four :
    (q : ℕ) → q < 8 → begun (240 + q) ≡ some (record { left = 3; least = 65536; bits = q }, [])
begun_four q h = let e : (240 + q) - 240 ≡ q = omega arith in ground (arith, e)

next_last :
    (least bits r c : ℕ)
    → r < 64
    → bits * 64 + r ≡ c
    → (leb least c && is_scalar c) ≡ true
    → next (record { left = 1; least = least; bits = bits }) (128 + r) ≡ some (fresh, c ∷ [])
next_last least bits r c small value whole =
    let v : bits * 64 + ((128 + r) - 128) ≡ c = omega (arith, value) in
    let in_range : between 128 191 (128 + r) ≡ true = ground arith in rw (in_range, v, whole) refl

next_more :
    (left least bits r : ℕ)
    → 1 ≤ left
    → r < 64
    → next (record { left = suc left; least = least; bits = bits }) (128 + r)
      ≡ some (record { left = left; least = least; bits = bits * 64 + r }, [])
next_more left least bits r some_left small =
    let v : (128 + r) - 128 ≡ r = omega arith in
    let w : suc left - 1 ≡ left = omega arith in
    let in_range : between 128 191 (128 + r) ≡ true = ground arith in
    let more : ltb 1 (suc left) ≡ true = ground arith in
    let going : nat_beq (suc left) 0 ≡ false = ground arith in rw (in_range, v, w, more, going) refl

going_on :
    (p p' : Partial) (b : ℕ) (bytes : List ℕ)
    → next p b ≡ some (p', [])
    → utf8_from p (b ∷ bytes) ≡ utf8_from p' bytes
unfolding utf8_from
going_on p p' b bytes h =
    ap (λ o. and_then o (λ q. utf8_from q bytes)) h ∙ put_out_nil (utf8_from p' bytes)

ending :
    (p : Partial) (b c : ℕ) (bytes : List ℕ)
    → next p b ≡ some (fresh, c ∷ [])
    → utf8_from p (b ∷ bytes) ≡ put_out (c ∷ []) (utf8_from fresh bytes)
unfolding utf8_from
ending p b c bytes h = ap (λ o. and_then o (λ q. utf8_from q bytes)) h

code_point :
    (c : ℕ) (rest : List ℕ)
    → is_scalar c ≡ true
    → utf8_from fresh (bytes_of c ++ rest) ≡ put_out (c ∷ []) (utf8_from fresh rest)
code_point c rest scalar = elim (Bool-cases (ltb c 128)) [
  | inl small ↦ rw small (ending fresh c c rest (begun_small c (ground arith)))
  | inr beyond ↦ elim (Bool-cases (ltb c 2048)) [
    | inl small ↦
        rw (beyond, small)
          (going_on fresh _ _ _ (begun_two (c / 64) (ground arith))
            ∙ ending _ _ c rest
                (next_last 128 (c / 64) (c % 64) c (omega arith) (omega arith) (ground arith)))
    | inr further ↦ elim (Bool-cases (ltb c 65536)) [
      | inl small ↦
          rw (beyond, further, small)
            (going_on fresh _ _ _ (begun_three (c / 4096) (ground arith))
              ∙ going_on _ _ _ _
                  (next_more 1 2048 (c / 4096) (c / 64 % 64) (omega arith) (omega arith))
              ∙ ending _ _ c rest (
                  next_last 2048 (c / 4096 * 64 + c / 64 % 64) (c % 64) c (omega arith)
                    (omega arith) (ground arith)))
      | inr large ↦
          rw (beyond, further, large)
            (going_on fresh _ _ _ (begun_four (c / 262144) (ground arith))
              ∙ going_on _ _ _ _
                  (next_more 2 65536 (c / 262144) (c / 4096 % 64) (omega arith) (omega arith))
              ∙ going_on _ _ _ _ (
                  next_more 1 65536 (c / 262144 * 64 + c / 4096 % 64) (c / 64 % 64) (omega arith)
                    (omega arith))
              ∙ ending _ _ c rest (
                  next_last 65536 ((c / 262144 * 64 + c / 4096 % 64) * 64 + c / 64 % 64) (c % 64) c
                    (omega arith) (omega arith) (ground arith)))
    ]
  ]
]

utf8_from-utf8 : (s : Chars) → AreScalars s → utf8_from fresh (utf8 s) ≡ some s
unfolding utf8_from utf8
utf8_from-utf8 [] all = refl
utf8_from-utf8 (c ∷ s) all =
    code_point c (utf8 s) all.0 ∙ ap (put_out (c ∷ [])) (utf8_from-utf8 s all.1)

pub from_utf8-utf8 : (s : Chars) → AreScalars s → from_utf8 (utf8 s) ≡ some s
unfolding from_utf8
from_utf8-utf8 s all = utf8_from-utf8 s all

bytes_of-IsByte : (c : ℕ) → is_scalar c ≡ true → All IsByte (bytes_of c)
bytes_of-IsByte c scalar = ground arith

pub utf8-IsByte : (s : Chars) → AreScalars s → All IsByte (utf8 s)
unfolding utf8
utf8-IsByte [] all = tt
utf8-IsByte (c ∷ s) all =
    All-append IsByte (bytes_of c) (utf8 s) (bytes_of-IsByte c all.0) (utf8-IsByte s all.1)
