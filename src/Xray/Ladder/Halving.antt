-- ===== src/Xray/Ladder/Halving.antt =====
-- The ladder, with its swaps, against the multiple of a point by halving its factor, with the formulas of
-- the curve.
use native.Mathlib.Nat.{
  add-mul-mod_self_left, mul_comm, mod-eq_of_lt, add-mod_right, mod-add-mod, mod-lt,
  div-div-eq-div-mul,
}
use obhod.Prelude.{
  ℕ, zero, suc, ◌+◌, ◌-◌, ◌*◌, ◌/◌, ◌%◌, ◌^◌, ◌≡◌, ◌<◌, ◌⊎◌, refl, sym, ap, ◌∙◌, true, false, Bool,
  if◌then◌else◌, arith, Bool-cases, inl, inr,
}
use obhod.Xray.Ladder.{
  Point, Rung, prime, is_odd, minus, square, swap_if, differs, add_points, climb, ladder, bottom,
}
use obhod.Xray.Ladder.Curve.{curve_double, curve_add, double-curve_double, add_points-curve_add}

-- The multiples `k` and `k + 1` of the point with coordinate `u`, for `k` below 2 ^ `bits`: from
-- those of `k / 2`, one by the doubling of the curve and the other by its addition.
unfoldable pub multiples : ℕ → ℕ → ℕ → Rung
multiples zero u k = bottom u
multiples (suc bits) u k =
    let half = multiples bits u (k / 2) in
    if is_odd k
    then record { low = curve_add u half.low half.high; high = curve_double half.high }
    else record { low = curve_double half.low; high = curve_add u half.low half.high }

pub positive : 0 < prime
positive = omega arith

compare_cases : (p q : ℕ) → (p < q) ⊎ ((p ≡ q) ⊎ (q < p))
compare_cases p q = ground arith

sum_square : (a b : ℕ) → a * a + (a + b) * b ≡ b * b + (a + b) * a
sum_square a b = grind arith

-- Opposite remainders have the same square.
square_opposite : (a b m : ℕ) → a + b ≡ m → a * a % m ≡ b * b % m
square_opposite a b m h =
    sym (add-mul-mod_self_left (a * a) m b)
    ∙ ap (λ n. n % m) (ap (λ n. a * a + n * b) (sym h) ∙ sum_square a b ∙ ap (λ n. b * b + n * a) h)
    ∙ add-mul-mod_self_left (b * b) m a

gap : (m p q : ℕ) → p < q → q < m → (p + (m - q)) % m + (q + (m - p)) % m ≡ m
gap m p q h k =
    let first : (p + (m - q)) % m ≡ p + (m - q) = mod-eq_of_lt (omega arith) in
    let second : (q + (m - p)) % m ≡ q - p =
      ap (λ n. n % m) (let e : q + (m - p) ≡ (q - p) + m = omega arith in e)
      ∙ add-mod_right (q - p) m
      ∙ mod-eq_of_lt (omega arith) in
    omega (arith, first, second)

-- The difference one way round has the square of the difference the other way round.
square_gap :
    (m p q : ℕ)
    → p < m
    → q < m
    → (p + (m - q)) % m * ((p + (m - q)) % m) % m ≡ (q + (m - p)) % m * ((q + (m - p)) % m) % m
square_gap m p q h k = elim (compare_cases p q) [
  | inl less ↦ square_opposite ((p + (m - q)) % m) ((q + (m - p)) % m) m (gap m p q less k)
  | inr (inl same) ↦ rw same refl
  | inr (inr more) ↦
      sym (square_opposite ((q + (m - p)) % m) ((p + (m - q)) % m) m (gap m q p more h))
]

square-minus : (a b : ℕ) → square (minus a b) ≡ square (minus b a)
unfolding square minus
square-minus a b =
    let reduced : (c d : ℕ)
        → (c + (prime - d % prime)) % prime ≡ (c % prime + (prime - d % prime)) % prime =
      λ c d. sym (mod-add-mod c prime (prime - d % prime)) in
    ap (λ n. n * n % prime) (reduced a b)
    ∙ square_gap prime (a % prime) (b % prime) (mod-lt a positive) (mod-lt b positive)
    ∙ ap (λ n. n * n % prime) (sym (reduced b a))

-- Adding does not depend on which of the two points comes first.
add_points_comm : (u : ℕ) (p q : Point) → add_points u p q ≡ add_points u q p
unfolding add_points
add_points_comm u p q =
    let a : ℕ = (p.x + p.z) % prime in
    let b : ℕ = minus p.x p.z in
    let c : ℕ = (q.x + q.z) % prime in
    let d : ℕ = minus q.x q.z in
    let cross : d * a % prime ≡ a * d % prime = ap (λ n. n % prime) (mul_comm d a) in
    let other : c * b % prime ≡ b * c % prime = ap (λ n. n % prime) (mul_comm c b) in
    rw (cross, other, square-minus (a * d % prime) (b * c % prime))
      (ap
        (λ (n : ℕ).
          let p' : Point = record {
            x = square (n % prime);
            z = u * square (minus (b * c % prime) (a * d % prime)) % prime;
          } in
          p')
        (omega arith))

swap_twice :
    (swap bit : Bool) (r : Rung) → swap_if (differs swap bit) r ≡ swap_if bit (swap_if swap r)
swap_twice true true r = refl
swap_twice true false r = refl
swap_twice false true r = refl
swap_twice false false r = refl

rungs :
    {p q p' q' : Point}
    → p ≡ p'
    → q ≡ q'
    → (let r : Rung = record { low = p; high = q } in r) ≡ record { low = p'; high = q' }
rungs {p} {q} {p'} {q'} h h' =
    ap (λ (x : Point). let r : Rung = record { low = x; high = q } in r) h
    ∙ ap (λ (x : Point). let r : Rung = record { low = p'; high = x } in r) h'

-- One round on the multiples of `k / 2` leaves those of `k`, swapped if `k` is odd.
climb-multiples :
    (bits u k : ℕ)
    → swap_if (is_odd k) (climb u (swap_if (is_odd k) (multiples bits u (k / 2))))
      ≡ multiples (suc bits) u k
unfolding multiples climb
climb-multiples bits u k =
    let half : Rung = multiples bits u (k / 2) in
    elim (Bool-cases (is_odd k)) [
      | inl odd ↦ rw odd (
          rungs (add_points_comm u half.high half.low ∙ add_points-curve_add u half.low half.high)
            (double-curve_double half.high))
      | inr even ↦
          rw even (rungs (double-curve_double half.low) (add_points-curve_add u half.low half.high))
    ]

-- A ladder of `t` rounds goes from the multiples of the high bits of `k` to those of `k`.
ladder-multiples :
    (t bits k u : ℕ) (swap : Bool) (r : Rung)
    → swap_if swap r ≡ multiples bits u (k / 2 ^ t)
    → ladder t k u swap r ≡ multiples (t + bits) u k
unfolding ladder
ladder-multiples zero bits k u swap r h =
    let whole : k / 2 ^ 0 ≡ k = omega arith in
    let rounds : bits ≡ 0 + bits = omega arith in
    h ∙ ap (multiples bits u) whole ∙ ap (λ m. multiples m u k) rounds
ladder-multiples (suc t) bits k u swap r h =
    let n : ℕ = k / 2 ^ t in
    let halved : n / 2 ≡ k / 2 ^ suc t =
      div-div-eq-div-mul k (2 ^ t) 2 ∙ ap (λ m. k / m) (omega arith) in
    let r' : Rung = climb u (swap_if (differs swap (is_odd n)) r) in
    let above : swap_if swap r ≡ multiples bits u (n / 2) =
      h ∙ ap (multiples bits u) (sym halved) in
    let round : swap_if (is_odd n) r' ≡ multiples (suc bits) u n =
      ap (λ s. swap_if (is_odd n) (climb u s))
        (swap_twice swap (is_odd n) r ∙ ap (swap_if (is_odd n)) above)
      ∙ climb-multiples bits u n in
    ladder-multiples t (suc bits) k u (is_odd n) r' round ∙ ap (λ m. multiples m u k) (omega arith)

-- The whole ladder, from the multiples 0 and 1.
pub ladder-bottom : (bits k u : ℕ) → ladder bits k u false (bottom u) ≡ multiples bits u k
unfolding multiples
ladder-bottom bits k u =
    let rounds : bits + 0 ≡ bits = omega arith in
    ladder-multiples bits 0 k u false (bottom u) refl ∙ ap (λ m. multiples m u k) rounds
