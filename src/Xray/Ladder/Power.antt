-- ===== src/Xray/Ladder/Power.antt =====
-- `power` is the remainder of the power.
use native.Mathlib.Nat.{add-mul-mod_self_left, mod-add-div, mul_comm, pow-zero, pow-succ'}
use obhod.Prelude.{
  ℕ, zero, suc, ◌+◌, ◌-◌, ◌*◌, ◌/◌, ◌%◌, ◌^◌, ◌<◌, ◌≡◌, sym, ap, ◌∙◌, arith, Bool-cases, inl, inr,
}
use obhod.Xray.Ladder.{prime, is_odd, power, Point, affine}

shift : (r m q b : ℕ) → (r + m * q) * b ≡ r * b + m * (q * b)
shift r m q b = grind arith

mul-mod : (a b m : ℕ) → a % m * b % m ≡ a * b % m
mul-mod a b m =
    sym (add-mul-mod_self_left (a % m * b) m (a / m * b))
    ∙ ap (λ n. n % m) (sym (shift (a % m) m (a / m) b))
    ∙ ap (λ n. n * b % m) (mod-add-div a m)

mod-mul : (a b m : ℕ) → a * (b % m) % m ≡ a * b % m
mod-mul a b m =
    ap (λ n. n % m) (mul_comm a (b % m)) ∙ mul-mod b a m ∙ ap (λ n. n % m) (mul_comm b a)

pow_next : (a n : ℕ) → a ^ suc n ≡ a * a ^ n
pow_next a n = pow-succ' a n

mod-pow : (a n m : ℕ) → (a % m) ^ n % m ≡ a ^ n % m
mod-pow a zero m = ap (λ k. k % m) (pow-zero (a % m) ∙ sym (pow-zero a))
mod-pow a (suc n) m =
    ap (λ k. k % m) (pow_next (a % m) n)
    ∙ mul-mod a ((a % m) ^ n) m
    ∙ sym (mod-mul a ((a % m) ^ n) m)
    ∙ ap (λ k. a * k % m) (mod-pow a n m)
    ∙ mod-mul a (a ^ n) m
    ∙ ap (λ k. k % m) (sym (pow_next a n))

four : (a s d : ℕ) → s ≡ d → a * a * s ≡ a * (a * d)
four a s d h = grind arith

square-pow : (a n : ℕ) → (a * a) ^ n ≡ a ^ (2 * n)
square-pow a zero =
    let nothing : 2 * 0 ≡ 0 = omega arith in
    pow-zero (a * a) ∙ sym (ap (λ k. a ^ k) nothing ∙ pow-zero a)
square-pow a (suc n) =
    let two_more : 2 * suc n ≡ suc (suc (2 * n)) = omega arith in
    pow_next (a * a) n
    ∙ four a ((a * a) ^ n) (a ^ (2 * n)) (square-pow a n)
    ∙ sym
        (ap (λ k. a ^ k) two_more ∙ pow_next a (suc (2 * n)) ∙ ap (λ k. a * k) (pow_next a (2 * n)))

power_exact :
    (fuel base exponent : ℕ)
    → exponent < 2 ^ fuel
    → power fuel base exponent ≡ base ^ exponent % prime
unfolding power
power_exact zero base exponent h =
    let none_left : exponent ≡ 0 = omega arith in
    let one : base ^ 0 ≡ 1 = pow-zero base in
    let small : 1 % prime ≡ 1 = omega arith in
    sym (ap (λ k. base ^ k % prime) none_left ∙ ap (λ k. k % prime) one ∙ small)
power_exact (suc fuel) base exponent h =
    let q : ℕ = exponent / 2 in
    let half : power fuel (base * base % prime) q ≡ base ^ (2 * q) % prime =
      power_exact fuel (base * base % prime) q (omega arith)
      ∙ mod-pow (base * base) q prime
      ∙ ap (λ k. k % prime) (square-pow base q) in
    elim (Bool-cases (is_odd exponent)) [
      | inl odd ↦
          let whole : exponent ≡ suc (2 * q) = ground arith in
          rw odd (
            ap (λ k. base * k % prime) half
            ∙ mod-mul base (base ^ (2 * q)) prime
            ∙ ap (λ k. k % prime) (sym (ap (λ k. base ^ k) whole ∙ pow_next base (2 * q))))
      | inr even ↦
          let whole : exponent ≡ 2 * q = ground arith in
          rw even (half ∙ ap (λ k. base ^ k % prime) (sym whole))
    ]

-- The division of the coordinates, by Fermat's power.
pub affine-power : (p : Point) → affine p ≡ p.x * p.z ^ (prime - 2) % prime
unfolding affine
affine-power p =
    let below : prime - 2 < 2 ^ 255 = omega arith in
    ap (λ k. p.x * k % prime) (power_exact 255 p.z (prime - 2) below)
    ∙ mod-mul p.x (p.z ^ (prime - 2)) prime
