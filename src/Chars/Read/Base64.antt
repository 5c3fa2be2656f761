-- ===== src/Chars/Read/Base64.antt =====
-- What was written in Base64 reads back.
use obhod.Prelude.{
  ℕ, ◌+◌, ◌*◌, ◌/◌, ◌%◌, ◌<◌, ◌≡◌, refl, false, Option, some, List, [], ◌∷◌, arith, All, nat_beq,
  ap,
}
use obhod.Chars.Bytes.{base64, base64_letter}
use obhod.Chars.Read.{letter_value, from_base64}

letter_value-base64_letter : (n : ℕ) → n < 64 → letter_value (base64_letter n) ≡ some n
letter_value-base64_letter n h = ground arith

letter_no_pad : (n : ℕ) → n < 64 → nat_beq (base64_letter n) 61 ≡ false
letter_no_pad n h = ground arith

first : (a b : ℕ) → a < 256 → b < 256 → a / 4 * 4 + (a % 4 * 16 + b / 16) / 16 ≡ a
first a b h k = omega arith

second :
    (a b c : ℕ)
    → a < 256
    → b < 256
    → c < 256
    → (a % 4 * 16 + b / 16) % 16 * 16 + (b % 16 * 4 + c / 64) / 4 ≡ b
second a b c h k l = omega arith

third : (b c : ℕ) → b < 256 → c < 256 → (b % 16 * 4 + c / 64) % 4 * 64 + c % 64 ≡ c
third b c h k = omega arith

same_two :
    {a a' b b' : ℕ}
    → a ≡ a'
    → b ≡ b'
    → Path (Option (List ℕ)) (some (a ∷ b ∷ [])) (some (a' ∷ b' ∷ []))
same_two h k = cc

same_three :
    {a a' b b' c c' : ℕ} (rest : List ℕ)
    → a ≡ a'
    → b ≡ b'
    → c ≡ c'
    → Path (Option (List ℕ)) (some (a ∷ b ∷ c ∷ rest)) (some (a' ∷ b' ∷ c' ∷ rest))
same_three rest h k l = cc

abbrev pub IsByte : ℕ → Type 0
IsByte n = n < 256

pub from_base64-base64 :
    (bytes : List ℕ) → All IsByte bytes → from_base64 (base64 bytes) ≡ some bytes
unfolding from_base64 base64
from_base64-base64 [] all = refl
from_base64-base64 (a ∷ []) all =
    rw
      (
        letter_value-base64_letter (a / 4) (omega (arith, all.0)),
        letter_value-base64_letter (a % 4 * 16) (omega arith),
      )
      (ap (λ n. some (n ∷ [])) (let e : a / 4 * 4 + a % 4 * 16 / 16 ≡ a = omega arith in e))
from_base64-base64 (a ∷ b ∷ []) all =
    rw
      (
        letter_no_pad (b % 16 * 4) (omega arith),
        letter_value-base64_letter (a / 4) (omega (arith, all.0)),
        letter_value-base64_letter (a % 4 * 16 + b / 16) (omega (arith, all.1.0)),
        letter_value-base64_letter (b % 16 * 4) (omega arith),
      )
      (same_two (first a b all.0 all.1.0) (
        let e : (a % 4 * 16 + b / 16) % 16 * 16 + b % 16 * 4 / 4 ≡ b = omega (arith, all.1.0) in e))
from_base64-base64 (a ∷ b ∷ c ∷ bytes) all =
    rw
      (
        letter_no_pad (c % 64) (omega arith),
        letter_value-base64_letter (a / 4) (omega (arith, all.0)),
        letter_value-base64_letter (a % 4 * 16 + b / 16) (omega (arith, all.1.0)),
        letter_value-base64_letter (b % 16 * 4 + c / 64) (omega (arith, all.1.1.0)),
        letter_value-base64_letter (c % 64) (omega arith),
        from_base64-base64 bytes all.1.1.1,
      )
      (same_three bytes (first a b all.0 all.1.0) (second a b c all.0 all.1.0 all.1.1.0)
        (third b c all.1.0 all.1.1.0))
