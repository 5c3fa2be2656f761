-- ===== src/Xray/Ladder/Tests.antt =====
-- `x25519` on the first test vector of RFC 7748.
use obhod.Prelude.{ℕ, ◌≡◌, refl, ◌≤◌, ◌<◌, ◌%◌, ◌^◌, none, some, List, [], ◌∷◌, All, arith, length}
use obhod.Xray.Ladder.{
  clamp_scalar, from_little, to_little, minus, square, power, update_at, clamped, double,
  add_points, climb, ladder, affine, x25519, prime,
}
use obhod.Xray.Ladder.Scalar.{shared, x25519-multiples}

abbrev vector_scalar : List ℕ
vector_scalar =
    165 ∷ 70 ∷ 227 ∷ 107 ∷ 240 ∷ 82 ∷ 124 ∷ 157 ∷ 59 ∷ 22 ∷ 21 ∷ 75 ∷ 130 ∷ 70 ∷ 94 ∷ 221 ∷ 98 ∷ 20
    ∷ 76 ∷ 10 ∷ 193 ∷ 252 ∷ 90 ∷ 24 ∷ 80 ∷ 106 ∷ 34 ∷ 68 ∷ 186 ∷ 68 ∷ 154 ∷ 196 ∷ []

abbrev vector_point : List ℕ
vector_point =
    230 ∷ 219 ∷ 104 ∷ 103 ∷ 88 ∷ 48 ∷ 48 ∷ 219 ∷ 53 ∷ 148 ∷ 193 ∷ 164 ∷ 36 ∷ 177 ∷ 95 ∷ 124 ∷ 114
    ∷ 102 ∷ 36 ∷ 236 ∷ 38 ∷ 179 ∷ 53 ∷ 59 ∷ 16 ∷ 169 ∷ 3 ∷ 166 ∷ 208 ∷ 171 ∷ 28 ∷ 76 ∷ []

abbrev vector_key : List ℕ
vector_key =
    195 ∷ 218 ∷ 85 ∷ 55 ∷ 157 ∷ 233 ∷ 198 ∷ 144 ∷ 142 ∷ 148 ∷ 234 ∷ 77 ∷ 242 ∷ 141 ∷ 8 ∷ 79 ∷ 50
    ∷ 236 ∷ 207 ∷ 3 ∷ 73 ∷ 28 ∷ 113 ∷ 247 ∷ 84 ∷ 180 ∷ 7 ∷ 85 ∷ 119 ∷ 162 ∷ 133 ∷ 82 ∷ []

x25519_vector : x25519 vector_scalar vector_point ≡ some vector_key
unfolding x25519 clamp_scalar clamped from_little to_little minus square power update_at double
    add_points climb ladder affine
x25519_vector = refl

x25519_short : x25519 (1 ∷ []) vector_point ≡ none
unfolding x25519
x25519_short = refl

vector_bytes : All (λ b. b < 256) vector_scalar
vector_bytes = ground arith

x25519-multiples_example :
    (clamp_scalar vector_scalar % 8 ≡ 0)
    × (2 ^ 254 ≤ clamp_scalar vector_scalar)
    × (clamp_scalar vector_scalar < 2 ^ 255)
    × ((key : List ℕ) × (x25519 vector_scalar vector_point ≡ some key)
        × (length key ≡ 32)
        × (from_little key ≡ shared vector_scalar vector_point)
        × (shared vector_scalar vector_point < prime))
x25519-multiples_example = x25519-multiples vector_scalar vector_point refl refl vector_bytes
