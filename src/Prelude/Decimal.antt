-- ===== src/Prelude/Decimal.antt =====
-- `str` of an integer.
use Prim.Native.Nat.{ℕ, zero, suc, ◌+◌, ◌/◌, ◌%◌}
use Prim.Native.String.{String, slice, ◌++◌ as ◌<>◌}
use mathlib.Core.Path.{◌≡◌}
use mathlib.Core.Logic.{◌↔◌}
use mathlib.Core.Bool.{Bool, true, false}
use native.Mathlib.Omega.{arith}
use obhod.Prelude.Int.{ℤ, pos, negsuc}
use obhod.Prelude.Tests.{ltb, nat_beq, nat_beq_iff}
use obhod.Prelude.Classes.{Key}

abbrev pub digit_text : ℕ → String
digit_text n = slice "0123456789" n (n + 1)

-- The digits of a number below 10 ^ the fuel.
unfoldable pub digits_text : ℕ → ℕ → String
digits_text zero n = ""
digits_text (suc fuel) n = elim (ltb n 10) [
  | true ↦ digit_text n
  | false ↦ digits_text fuel (n / 10) <> digit_text (n % 10)
]

-- A number has no more digits than one more than itself.
unfoldable pub int_text : ℤ → String
unfolding digits_text
int_text (pos n) = digits_text (suc n) n
int_text (negsuc n) = "-" <> digits_text (suc (suc n)) (suc n)

abbrev pub int_beq : ℤ → ℤ → Bool
int_beq (pos m) (pos n) = nat_beq m n
int_beq (pos m) (negsuc n) = false
int_beq (negsuc m) (pos n) = false
int_beq (negsuc m) (negsuc n) = nat_beq m n

pub int_beq_iff : (x y : ℤ) → (int_beq x y ≡ true) ↔ (x ≡ y)
int_beq_iff (pos m) (pos n) =
    (λ h. ground (arith, nat_beq_iff m n), λ h. ground (arith, nat_beq_iff m n))
int_beq_iff (pos m) (negsuc n) = (λ h. absurd (ground arith), λ h. absurd (ground arith))
int_beq_iff (negsuc m) (pos n) = (λ h. absurd (ground arith), λ h. absurd (ground arith))
int_beq_iff (negsuc m) (negsuc n) =
    (λ h. ground (arith, nat_beq_iff m n), λ h. ground (arith, nat_beq_iff m n))

instance unfoldable pub int_key : Key ℤ
int_key = record { same = int_beq; same_iff = int_beq_iff }
