-- ===== src/Xray/Ladder/Curve.antt =====
-- The step of the ladder against the formulas of the curve y² = x³ + 486662 x² + x over the prime: the
-- doubling of a point, and the sum of two points whose difference has the coordinate `u`.
use native.Mathlib.Nat.{mod-mod}
use obhod.Prelude.{ℕ, ◌+◌, ◌-◌, ◌*◌, ◌%◌, ◌≡◌, refl, sym, ap, ◌∙◌}
use obhod.Xray.Ladder.{Point, prime, minus, square, double, add_points}
use obhod.Xray.Ladder.Modular.{
  plus, less, times, same_times, double_x, double_gap, double_z, add_x, add_z, twice_squared,
}

-- `- b` modulo the prime.
abbrev pub opposite : ℕ → ℕ
opposite b = (prime - 1) * b

abbrev point : ℕ → ℕ → Point
point x z = record { x = x; z = z }

-- (x² - z²)² and 4 x z (x² + 486662 x z + z²)
unfoldable pub curve_double : Point → Point
curve_double p =
    let s = p.x * p.x + opposite (p.z * p.z) in
    record {
      x = s * s % prime;
      z = 4 * (p.x * p.z) * (p.x * p.x + 486662 * (p.x * p.z) + p.z * p.z) % prime;
    }

-- 4 (x x' - z z')² and 4 u (x' z - z' x)²
unfoldable pub curve_add : ℕ → Point → Point → Point
curve_add u p q =
    let s = p.x * q.x + opposite (p.z * q.z) in
    let d = q.x * p.z + opposite (q.z * p.x) in
    record { x = 4 * (s * s) % prime; z = u * (4 * (d * d)) % prime }

abbrev below : ℕ
below = prime - 2

-- The step that doubles is the doubling of the curve.
pub double-curve_double : (p : Point) → double p ≡ curve_double p
unfolding double curve_double minus
double-curve_double p =
    let e : ℕ =
      less below (times below (plus below p.x p.z) (plus below p.x p.z))
        (times below (less below p.x p.z) (less below p.x p.z)) in
    let first : (double p).x ≡ (curve_double p).x =
      sym (mod-mod _ prime) ∙ double_x below p.x p.z in
    let second : (double p).z ≡ (curve_double p).z =
      sym (mod-mod _ prime) ∙ double_z below p.x p.z e (double_gap below p.x p.z) in
    ap (λ n. point n (double p).z) first ∙ ap (λ n. point (curve_double p).x n) second

-- The step that adds is the sum of the curve.
pub add_points-curve_add : (u : ℕ) (p q : Point) → add_points u p q ≡ curve_add u p q
unfolding add_points curve_add minus square
add_points-curve_add u p q =
    let first : (add_points u p q).x ≡ (curve_add u p q).x =
      sym (mod-mod _ prime)
      ∙ twice_squared below _ (p.x * q.x + opposite (p.z * q.z)) (add_x below p.x p.z q.x q.z) in
    let second : (add_points u p q).z ≡ (curve_add u p q).z =
      sym (mod-mod _ prime)
      ∙ same_times below u u _ _ refl (
          twice_squared below _ (q.x * p.z + opposite (q.z * p.x)) (add_z below p.x p.z q.x q.z)) in
    ap (λ n. point n (add_points u p q).z) first ∙ ap (λ n. point (curve_add u p q).x n) second
