-- ===== src/Xray/Ladder/Modular.antt =====
-- The sums and products of a step of the ladder, modulo `k + 2`, where `- b` is `(k + 1) * b`.
use native.Mathlib.Nat.{
  add-mul-mod_self_left, mod-mod, mod-add-mod, add-mod-mod, mod-lt, mod-add-div,
}
use obhod.Prelude.{ℕ, ◌+◌, ◌-◌, ◌*◌, ◌/◌, ◌%◌, ◌≡◌, ◌<◌, refl, sym, ap, ◌∙◌, arith}

product : (n q r s t : ℕ) → (r + n * q) * (t + n * s) ≡ r * t + n * (q * (t + n * s) + r * s)
product n q r s t = grind arith

negated : (k q r : ℕ) → (k + 1) * (r + (k + 2) * q) + r ≡ (k + 2) * (r + (k + 1) * q)
negated k q r = grind arith

cross_even :
    (k x z : ℕ) → (x + z) * (x + (k + 1) * z) ≡ (x * x + (k + 1) * (z * z)) + (k + 2) * (x * z)
cross_even k x z = grind arith

gap_four :
    (k x z : ℕ)
    → (x + z) * (x + z) + (k + 1) * ((x + (k + 1) * z) * (x + (k + 1) * z))
      ≡ 4 * (x * z) + (k + 2) * (x * x + 2 * (x * z) * k + (z * z) * ((k + 1) * k + 1))
gap_four k x z = grind arith

curve_sum :
    (x z : ℕ) → (x + z) * (x + z) + 121665 * (4 * (x * z)) ≡ x * x + 486662 * (x * z) + z * z
curve_sum x z = grind arith

sum_two :
    (k x z x' z' : ℕ)
    → (x' + (k + 1) * z') * (x + z) + (x' + z') * (x + (k + 1) * z)
      ≡ 2 * (x * x' + (k + 1) * (z * z')) + (k + 2) * (x' * z + z' * x)
sum_two k x z x' z' = grind arith

gap_two :
    (k x z x' z' : ℕ)
    → (x' + (k + 1) * z') * (x + z) + (k + 1) * ((x' + z') * (x + (k + 1) * z))
      ≡ 2 * (x' * z + (k + 1) * (z' * x)) + (k + 2) * (x' * x + (k + 1) * (z' * z) + k * (x' * z))
gap_two k x z x' z' = grind arith

shift : (n r x y : ℕ) → x + r ≡ y → r < n → n - r + y ≡ x + n * 1
shift n r x y h small = omega (arith, h, small)

regroup : (a b : ℕ) → a * a * (b * b) ≡ a * b * (a * b)
regroup a b = grind arith

twice_square : (a : ℕ) → 2 * a * (2 * a) ≡ 4 * (a * a)
twice_square a = grind arith

module _ (k : ℕ) where
  abbrev pub Congruent : ℕ → ℕ → Type 0
  Congruent a b = a % (k + 2) ≡ b % (k + 2)

  same_mod : (a : ℕ) → Congruent (a % (k + 2)) a
  same_mod a = mod-mod a (k + 2)

  same_drop : (a b c : ℕ) → a ≡ b + (k + 2) * c → Congruent a b
  same_drop a b c h = ap (λ m. m % (k + 2)) h ∙ add-mul-mod_self_left b (k + 2) c

  same_add : (a b c d : ℕ) → Congruent a b → Congruent c d → Congruent (a + c) (b + d)
  same_add a b c d h h' =
      sym (mod-add-mod a (k + 2) c)
      ∙ ap (λ m. (m + c) % (k + 2)) h
      ∙ mod-add-mod b (k + 2) c
      ∙ sym (add-mod-mod b c (k + 2))
      ∙ ap (λ m. (b + m) % (k + 2)) h'
      ∙ add-mod-mod b d (k + 2)

  same_product : (a c : ℕ) → Congruent (a * c) (a % (k + 2) * (c % (k + 2)))
  same_product a c =
      let q : ℕ = a / (k + 2) in
      let s : ℕ = c / (k + 2) in
      let r : ℕ = a % (k + 2) in
      let t : ℕ = c % (k + 2) in
      same_drop (a * c) (r * t) (q * (t + (k + 2) * s) + r * s) (
        ap (λ m. m * c) (sym (mod-add-div a (k + 2)))
        ∙ ap (λ m. (r + (k + 2) * q) * m) (sym (mod-add-div c (k + 2)))
        ∙ product (k + 2) q r s t)

  same_mul : (a b c d : ℕ) → Congruent a b → Congruent c d → Congruent (a * c) (b * d)
  same_mul a b c d h h' =
      same_product a c
      ∙ ap (λ m. m * (c % (k + 2)) % (k + 2)) h
      ∙ ap (λ m. b % (k + 2) * m % (k + 2)) h'
      ∙ sym (same_product b d)

  same_opposite : (b : ℕ) → Congruent (k + 2 - b % (k + 2)) ((k + 1) * b)
  same_opposite b =
      let r : ℕ = b % (k + 2) in
      let q : ℕ = b / (k + 2) in
      let small : r < k + 2 = mod-lt b (omega arith) in
      let whole : (k + 1) * b + r ≡ (k + 2) * (r + (k + 1) * q) =
        ap (λ m. (k + 1) * m + r) (sym (mod-add-div b (k + 2))) ∙ negated k q r in
      sym (same_drop ((k + 2 - r) + (k + 2) * (r + (k + 1) * q)) (k + 2 - r) (r + (k + 1) * q) refl)
      ∙ ap (λ m. m % (k + 2))
          (shift (k + 2) r ((k + 1) * b) ((k + 2) * (r + (k + 1) * q)) whole small)
      ∙ same_drop ((k + 1) * b + (k + 2) * 1) ((k + 1) * b) 1 refl

  same_minus : (a b : ℕ) → Congruent (a + (k + 2 - b % (k + 2))) (a + (k + 1) * b)
  same_minus a b = same_add a a (k + 2 - b % (k + 2)) ((k + 1) * b) refl (same_opposite b)

  abbrev pub plus : ℕ → ℕ → ℕ
  plus a b = (a + b) % (k + 2)

  abbrev pub less : ℕ → ℕ → ℕ
  less a b = (a + (k + 2 - b % (k + 2))) % (k + 2)

  abbrev pub times : ℕ → ℕ → ℕ
  times a b = a * b % (k + 2)

  same_plus : (a b : ℕ) → Congruent (plus a b) (a + b)
  same_plus a b = same_mod (a + b)

  same_less : (a b : ℕ) → Congruent (less a b) (a + (k + 1) * b)
  same_less a b = same_mod (a + (k + 2 - b % (k + 2))) ∙ same_minus a b

  pub same_times : (a b c d : ℕ) → Congruent a b → Congruent c d → Congruent (times a c) (b * d)
  same_times a b c d h h' = same_mod (a * c) ∙ same_mul a b c d h h'

  pub double_x :
      (x z : ℕ)
      → Congruent
          (times (times (plus x z) (plus x z)) (times (less x z) (less x z)))
          ((x * x + (k + 1) * (z * z)) * (x * x + (k + 1) * (z * z)))
  double_x x z =
      let a : ℕ = x + z in
      let b : ℕ = x + (k + 1) * z in
      let s : ℕ = x * x + (k + 1) * (z * z) in
      let cross : Congruent (a * b) s = same_drop (a * b) s (x * z) (cross_even k x z) in
      same_times (times (plus x z) (plus x z)) (a * a) (times (less x z) (less x z)) (b * b)
        (same_times (plus x z) a (plus x z) a (same_plus x z) (same_plus x z))
        (same_times (less x z) b (less x z) b (same_less x z) (same_less x z))
      ∙ ap (λ m. m % (k + 2)) (regroup a b)
      ∙ same_mul (a * b) s (a * b) s cross cross

  pub double_gap :
      (x z : ℕ)
      → Congruent (less (times (plus x z) (plus x z)) (times (less x z) (less x z))) (4 * (x * z))
  double_gap x z =
      let a : ℕ = x + z in
      let b : ℕ = x + (k + 1) * z in
      let aa : ℕ = times (plus x z) (plus x z) in
      let bb : ℕ = times (less x z) (less x z) in
      same_less aa bb
      ∙ same_add aa (a * a) ((k + 1) * bb) ((k + 1) * (b * b))
          (same_times (plus x z) a (plus x z) a (same_plus x z) (same_plus x z))
          (same_mul (k + 1) (k + 1) bb (b * b) refl
            (same_times (less x z) b (less x z) b (same_less x z) (same_less x z)))
      ∙ same_drop (a * a + (k + 1) * (b * b)) (4 * (x * z))
          (x * x + 2 * (x * z) * k + (z * z) * ((k + 1) * k + 1)) (gap_four k x z)

  pub double_z :
      (x z e : ℕ)
      → Congruent e (4 * (x * z))
      → Congruent
          (times e (plus (times (plus x z) (plus x z)) (121665 * e)))
          (4 * (x * z) * (x * x + 486662 * (x * z) + z * z))
  double_z x z e h =
      let aa : ℕ = times (plus x z) (plus x z) in
      same_times e (4 * (x * z)) (plus aa (121665 * e)) (x * x + 486662 * (x * z) + z * z) h (
        same_plus aa (121665 * e)
        ∙ same_add aa ((x + z) * (x + z)) (121665 * e) (121665 * (4 * (x * z)))
            (same_times (plus x z) (x + z) (plus x z) (x + z) (same_plus x z) (same_plus x z))
            (same_mul 121665 121665 e (4 * (x * z)) refl h)
        ∙ ap (λ m. m % (k + 2)) (curve_sum x z))

  pub add_x :
      (x z x' z' : ℕ)
      → Congruent
          (plus (times (less x' z') (plus x z)) (times (plus x' z') (less x z)))
          (2 * (x * x' + (k + 1) * (z * z')))
  add_x x z x' z' =
      let da : ℕ = times (less x' z') (plus x z) in
      let cb : ℕ = times (plus x' z') (less x z) in
      let da' : ℕ = (x' + (k + 1) * z') * (x + z) in
      let cb' : ℕ = (x' + z') * (x + (k + 1) * z) in
      same_plus da cb
      ∙ same_add da da' cb cb'
          (same_times (less x' z') (x' + (k + 1) * z') (plus x z) (x + z) (same_less x' z')
            (same_plus x z))
          (same_times (plus x' z') (x' + z') (less x z) (x + (k + 1) * z) (same_plus x' z')
            (same_less x z))
      ∙ same_drop (da' + cb') (2 * (x * x' + (k + 1) * (z * z'))) (x' * z + z' * x)
          (sum_two k x z x' z')

  pub add_z :
      (x z x' z' : ℕ)
      → Congruent
          (less (times (less x' z') (plus x z)) (times (plus x' z') (less x z)))
          (2 * (x' * z + (k + 1) * (z' * x)))
  add_z x z x' z' =
      let da : ℕ = times (less x' z') (plus x z) in
      let cb : ℕ = times (plus x' z') (less x z) in
      let da' : ℕ = (x' + (k + 1) * z') * (x + z) in
      let cb' : ℕ = (x' + z') * (x + (k + 1) * z) in
      same_less da cb
      ∙ same_add da da' ((k + 1) * cb) ((k + 1) * cb')
          (same_times (less x' z') (x' + (k + 1) * z') (plus x z) (x + z) (same_less x' z')
            (same_plus x z))
          (same_mul (k + 1) (k + 1) cb cb' refl (
            same_times (plus x' z') (x' + z') (less x z) (x + (k + 1) * z) (same_plus x' z')
              (same_less x z)))
      ∙ same_drop (da' + (k + 1) * cb') (2 * (x' * z + (k + 1) * (z' * x)))
          (x' * x + (k + 1) * (z' * z) + k * (x' * z)) (gap_two k x z x' z')

  pub twice_squared : (n a : ℕ) → Congruent n (2 * a) → Congruent (times n n) (4 * (a * a))
  twice_squared n a h = same_times n (2 * a) n (2 * a) h h ∙ ap (λ m. m % (k + 2)) (twice_square a)
