-- ===== src/Prelude/Classes.antt =====
-- Python's `==` on the keys of a dictionary, as an interface with its law, and membership in a list.
use Prim.Native.Nat.{ℕ}
use Prim.Native.String.{String}
use mathlib.Core.Path.{◌≡◌, refl}
use mathlib.Core.Logic.{◌↔◌}
use mathlib.Core.Bool.{Bool, true, false, ◌&&◌, ◌||◌}
use mathlib.Core.List.{List, [], ◌∷◌, ◌++◌}
use native.Mathlib.Omega.{arith}
use text.Mathlib.Text.{◌==◌ as text_beq}
use text.Mathlib.TextEquality.{eq_iff as text_beq_iff}
use obhod.Prelude.Tests.{nat_beq, nat_beq_iff}

-- `same a b` is the source's `a == b`, and it decides equality.
pub record Key {ℓ} (K : Type ℓ) : Type ℓ where
  pub same : K → K → Bool
  pub same_iff : (x y : K) → (same x y ≡ true) ↔ (x ≡ y)

instance abbrev pub number_key : Key ℕ
number_key = record { same = nat_beq; same_iff = nat_beq_iff }

instance unfoldable pub text_key : Key String
text_key = record { same = text_beq; same_iff = text_beq_iff }

abbrev pub pair_beq : String × String → String × String → Bool
pair_beq x y = text_beq x.0 y.0 && text_beq x.1 y.1

pub pair_beq_iff : (x y : String × String) → (pair_beq x y ≡ true) ↔ (x ≡ y)
pair_beq_iff (a, c) (b, d) = (
  λ h. ground (arith, text_beq_iff a b, text_beq_iff c d),
  λ h. ground (arith, text_beq_iff a b, text_beq_iff c d),
)

-- Tuples of two texts are the keys of the limiter and of the notification centre.
instance unfoldable pub pair_key : Key (String × String)
pair_key = record { same = pair_beq; same_iff = pair_beq_iff }

infix 50 ◌==◌
abbrev pub ◌==◌ {ℓ} : {K : Type ℓ} ⦃key : Key K⦄ → K → K → Bool
◌==◌ ⦃key⦄ x y = key.same x y

module _ {ℓ} {K : Type ℓ} ⦃key : Key K⦄ where
  -- `x in xs`
  abbrev pub elem : K → List K → Bool
  elem x [] = false
  elem x (y ∷ ys) = y == x || elem x ys

  pub same_refl : (x : K) → (x == x) ≡ true
  same_refl x = (key.same_iff x x).1 refl

  pub same_sym : (x y : K) → (x == y) ≡ false → (y == x) ≡ false
  same_sym x y h = ground (arith, key.same_iff x y, key.same_iff y x)

  pub elem-append : (x y : K) (xs : List K) → elem x (xs ++ y ∷ []) ≡ (elem x xs || y == x)
  elem-append x y [] = ground arith
  elem-append x y (z ∷ xs) = ground (arith, elem-append x y xs)
