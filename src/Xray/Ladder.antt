-- ===== src/Xray/Ladder.antt =====
-- BOT/xray.py, `x25519`: the Montgomery ladder on the curve of RFC 7748, over bytes in little-endian
-- order. Python's `%` of a difference is that of a number that is not negative; `pow` with three
-- arguments squares and multiplies.
pub mod Curve
pub mod Halving
mod Modular
pub mod Power
pub mod Scalar
mod Tests
use obhod.Prelude.{
  ℕ, zero, suc, ◌+◌, ◌-◌, ◌*◌, ◌/◌, ◌%◌, ◌^◌, Bool, true, false, Option, none, some, List, [], ◌∷◌,
  ◌&&◌, ◌||◌, not, if◌then◌else◌, nat_beq, length,
}

abbrev pub prime : ℕ
prime = 2 ^ 255 - 19

abbrev pub a24 : ℕ
a24 = 121665

abbrev pub is_odd : ℕ → Bool
is_odd n = nat_beq (n % 2) 1

-- `(a - b) % P`
unfoldable pub minus : ℕ → ℕ → ℕ
minus a b = (a + (prime - b % prime)) % prime

-- `pow(a, 2, P)`
unfoldable pub square : ℕ → ℕ
square a = a * a % prime

-- `pow(base, exponent, P)` for an exponent below 2 ^ the fuel.
unfoldable pub power : ℕ → ℕ → ℕ → ℕ
power zero base exponent = 1
power (suc fuel) base exponent =
    let half = power fuel (base * base % prime) (exponent / 2) in
    if is_odd exponent then base * half % prime else half

-- `int.from_bytes(data, "little")`
unfoldable pub from_little : List ℕ → ℕ
from_little [] = 0
from_little (b ∷ bytes) = b + 256 * from_little bytes

-- `n.to_bytes(size, "little")`, for a number that fits.
unfoldable pub to_little : ℕ → ℕ → List ℕ
to_little zero n = []
to_little (suc size) n = n % 256 ∷ to_little size (n / 256)

-- `k[index] = f(k[index])`
unfoldable pub update_at : ℕ → (ℕ → ℕ) → List ℕ → List ℕ
update_at index f [] = []
update_at zero f (b ∷ bytes) = f b ∷ bytes
update_at (suc index) f (b ∷ bytes) = b ∷ update_at index f bytes

-- On a byte, `&= 248` clears the three low bits; `&= 127` and `|= 64` leave the six low bits and 64.
unfoldable pub clamped : List ℕ → List ℕ
clamped bytes = update_at 31 (λ b. b % 64 + 64) (update_at 0 (λ b. b / 8 * 8) bytes)

unfoldable pub clamp_scalar : List ℕ → ℕ
clamp_scalar bytes = from_little (clamped bytes)

-- A point by its two coordinates `x` and `z`.
pub record Point : Type 0 where
  pub x : ℕ
  pub z : ℕ

-- (x2, z2) and (x3, z3)
pub record Rung : Type 0 where
  pub low : Point
  pub high : Point

abbrev pub swapped : Rung → Rung
swapped r = record { low = r.high; high = r.low }

abbrev pub swap_if : Bool → Rung → Rung
swap_if swap r = if swap then swapped r else r

-- The new (x2, z2), from the old one.
unfoldable pub double : Point → Point
double p =
    let a = (p.x + p.z) % prime in
    let aa = a * a % prime in
    let b = minus p.x p.z in
    let bb = b * b % prime in
    let e = minus aa bb in record { x = aa * bb % prime; z = e * ((aa + a24 * e) % prime) % prime }

-- The new (x3, z3), from both old ones and the coordinate `u` of their difference.
unfoldable pub add_points : ℕ → Point → Point → Point
add_points u p q =
    let a = (p.x + p.z) % prime in
    let b = minus p.x p.z in
    let c = (q.x + q.z) % prime in
    let d = minus q.x q.z in
    let da = d * a % prime in
    let cb = c * b % prime in
    record { x = square ((da + cb) % prime); z = u * square (minus da cb) % prime }

unfoldable pub climb : ℕ → Rung → Rung
climb u r = record { low = double r.low; high = add_points u r.low r.high }

-- `swap ^= bit`
abbrev pub differs : Bool → Bool → Bool
differs swap bit = swap && not bit || not swap && bit

-- The loop `for t in range(254, -1, -1)` with `t` rounds to go, and the swap behind it.
unfoldable pub ladder : ℕ → ℕ → ℕ → Bool → Rung → Rung
ladder zero k u swap r = swap_if swap r
ladder (suc t) k u swap r =
    let bit = is_odd (k / 2 ^ t) in ladder t k u bit (climb u (swap_if (differs swap bit) r))

abbrev pub bottom : ℕ → Rung
bottom u = record { low = record { x = 1; z = 0 }; high = record { x = u; z = 1 } }

-- `x2 * pow(z2, P - 2, P) % P`
unfoldable pub affine : Point → ℕ
unfolding power
affine p = p.x * power 255 p.z (prime - 2) % prime

-- `none` is the error for keys that are not 32 bytes long.
unfoldable pub x25519 : List ℕ → List ℕ → Option (List ℕ)
unfolding from_little to_little clamp_scalar ladder affine
x25519 scalar point =
    let u = from_little point % 2 ^ 255 in
    let r = ladder 255 (clamp_scalar scalar) u false (bottom u) in
    if not (nat_beq (length scalar) 32) || not (nat_beq (length point) 32)
    then none
    else some (to_little 32 (affine r.low))
