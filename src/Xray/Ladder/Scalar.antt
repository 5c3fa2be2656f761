-- ===== src/Xray/Ladder/Scalar.antt =====
-- The number that a clamped scalar stands for, numbers as bytes, and what `x25519` returns.
use native.Mathlib.Nat.{mod-lt}
use obhod.Prelude.{
  ℕ, zero, suc, ◌+◌, ◌-◌, ◌*◌, ◌/◌, ◌%◌, ◌^◌, ◌≤◌, ◌<◌, ◌≡◌, refl, ap, ◌∙◌, false, some, List, [],
  ◌∷◌, arith, length, All,
}
use obhod.Xray.Ladder.{
  Rung, prime, from_little, to_little, update_at, clamped, clamp_scalar, affine, bottom, ladder,
  x25519,
}
use obhod.Xray.Ladder.Power.{affine-power}
use obhod.Xray.Ladder.Halving.{multiples, ladder-bottom, positive}

power_suc : (n : ℕ) → 256 ^ suc n ≡ 256 * 256 ^ n
power_suc n = omega arith

-- The last byte decides between which powers the number lies.
from_little-last :
    (f : ℕ → ℕ) (n : ℕ) (bytes : List ℕ)
    → ((b : ℕ) → (64 ≤ f b) × (f b < 128))
    → length bytes ≡ suc n
    → All (λ b. b < 256) bytes
    → (64 * 256 ^ n ≤ from_little (update_at n f bytes))
      × (from_little (update_at n f bytes) < 128 * 256 ^ n)
unfolding from_little update_at
from_little-last f n [] range size small = absurd (omega arith)
from_little-last f zero (b ∷ []) range size small =
    let (low, high) = range b in (omega (arith, low), omega (arith, high))
from_little-last f zero (b ∷ c ∷ bytes) range size small = absurd (omega arith)
from_little-last f (suc n) (b ∷ bytes) range size small =
    let (low, high) = from_little-last f n bytes range (omega arith) small.1 in
    let q : ℕ = 256 ^ n in
    let e : 256 ^ suc n ≡ 256 * q = power_suc n in
    (omega (arith, low, e), omega (arith, high, e, small.0))

All-update_at :
    (f : ℕ → ℕ) (n : ℕ) (bytes : List ℕ)
    → ((b : ℕ) → b < 256 → f b < 256)
    → All (λ b. b < 256) bytes
    → All (λ b. b < 256) (update_at n f bytes)
unfolding update_at
All-update_at f n [] h a = tt
All-update_at f zero (b ∷ bytes) h a = (h b a.0, a.1)
All-update_at f (suc n) (b ∷ bytes) h a = (a.0, All-update_at f n bytes h a.1)

length-update_at :
    (f : ℕ → ℕ) (n : ℕ) (bytes : List ℕ) → length (update_at n f bytes) ≡ length bytes
unfolding update_at
length-update_at f n [] = refl
length-update_at f zero (b ∷ bytes) = refl
length-update_at f (suc n) (b ∷ bytes) = ap suc (length-update_at f n bytes)

clamp_scalar_multiple : (bytes : List ℕ) → clamp_scalar bytes % 8 ≡ 0
unfolding clamp_scalar clamped update_at from_little
clamp_scalar_multiple [] = refl
clamp_scalar_multiple (b ∷ bytes) = omega arith

clamp_scalar_range :
    (bytes : List ℕ)
    → length bytes ≡ 32
    → All (λ b. b < 256) bytes
    → (2 ^ 254 ≤ clamp_scalar bytes) × (clamp_scalar bytes < 2 ^ 255)
unfolding clamp_scalar clamped
clamp_scalar_range bytes size small =
    let first : List ℕ = update_at 0 (λ b. b / 8 * 8) bytes in
    from_little-last (λ b. b % 64 + 64) 31 first (λ b. (omega arith, omega arith))
      (length-update_at (λ b. b / 8 * 8) 0 bytes ∙ size)
      (All-update_at (λ b. b / 8 * 8) 0 bytes (λ b h. omega (arith, h)) small)

from_little-to_little : (size n : ℕ) → n < 256 ^ size → from_little (to_little size n) ≡ n
unfolding from_little to_little
from_little-to_little zero n h = omega arith
from_little-to_little (suc size) n h =
    let rest : from_little (to_little size (n / 256)) ≡ n / 256 =
      from_little-to_little size (n / 256)
        (let e : 256 ^ suc size ≡ 256 * 256 ^ size = power_suc size in omega (arith, e)) in
    omega (arith, rest)

length-to_little : (size n : ℕ) → length (to_little size n) ≡ size
unfolding to_little
length-to_little zero n = refl
length-to_little (suc size) n = ap suc (length-to_little size (n / 256))

fits : (n : ℕ) → n < prime → n < 256 ^ 32
fits n h = omega arith

module _ (scalar point : List ℕ) where
  -- The coordinate that the key is computed from, and the one that comes out.
  abbrev pub coordinate : ℕ
  coordinate = from_little point % 2 ^ 255

  abbrev pub shared : ℕ
  shared =
      let p = (multiples 255 coordinate (clamp_scalar scalar)).low in
      p.x * p.z ^ (prime - 2) % prime

  -- For keys of 32 bytes the clamped scalar is a multiple of 8 from 2 ^ 254 to 2 ^ 255 - 1, and the
  -- bytes that come out are 32 that stand for the coordinate, below 2 ^ 255 - 19, of that multiple of
  -- the point, computed by halving the scalar with no swap, with the formulas of doubling and of
  -- differential addition for the curve y² = x³ + 486662 x² + x, and divided by Fermat's power.
  pub x25519-multiples :
      length scalar ≡ 32
      → length point ≡ 32
      → All (λ b. b < 256) scalar
      → (clamp_scalar scalar % 8 ≡ 0)
        × (2 ^ 254 ≤ clamp_scalar scalar)
        × (clamp_scalar scalar < 2 ^ 255)
        × ((key : List ℕ) × (x25519 scalar point ≡ some key)
            × (length key ≡ 32)
            × (from_little key ≡ shared)
            × (shared < prime))
  unfolding x25519
  x25519-multiples size point_size small =
      let (low, high) = clamp_scalar_range scalar size small in
      let climbed : ladder 255 (clamp_scalar scalar) coordinate false (bottom coordinate)
          ≡ multiples 255 coordinate (clamp_scalar scalar) =
        ladder-bottom 255 (clamp_scalar scalar) coordinate in
      let top : Rung = multiples 255 coordinate (clamp_scalar scalar) in
      let divided : affine top.low ≡ shared = affine-power top.low in
      let below : shared < prime = mod-lt (top.low.x * top.low.z ^ (prime - 2)) positive in
      (
        clamp_scalar_multiple scalar,
        low,
        high,
        (
          to_little 32 shared,
          rw (size, point_size)
              (ap (λ (r : Rung). some (to_little 32 (affine r.low))) climbed
                ∙ ap (λ n. some (to_little 32 n)) divided),
          length-to_little 32 shared,
          from_little-to_little 32 shared (fits shared below),
          below,
        ),
      )
