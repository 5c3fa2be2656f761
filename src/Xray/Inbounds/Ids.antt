-- ===== src/Xray/Inbounds/Ids.antt =====
-- The number that `next_id` finds is free, and so no two inbounds share a number or a port.
use obhod.Prelude.{
  ℕ, zero, suc, ◌+◌, ◌≤◌, ◌<◌, ◌≡◌, ◌≢◌, refl, true, false, List, [], ◌∷◌, arith, elem, number_key,
  nat_beq, length, if◌then◌else◌, Bool-cases, inl, inr, nat_cases, ◌⊎◌, ◌∙◌,
}
use obhod.Xray.Inbounds.{Inbound, ids, next_free, next_id}

-- The numbers in use without one of them.
abbrev strike : ℕ → List ℕ → List ℕ
strike n [] = []
strike n (m ∷ used) = let rest = strike n used in if nat_beq m n then used else m ∷ rest

length-strike :
    (n : ℕ) (used : List ℕ) → elem n used ≡ true → suc (length (strike n used)) ≡ length used
length-strike n [] h = ground arith
length-strike n (m ∷ used) h = ground (arith, length-strike n used)

elem-strike : (n m : ℕ) (used : List ℕ) → n ≢ m → elem m (strike n used) ≡ elem m used
elem-strike n m [] h = refl
elem-strike n m (k ∷ used) h = ground (arith, elem-strike n m used)

-- Numbers that all are in use are no more than those in use.
full_run :
    (n from : ℕ) (used : List ℕ)
    → ((k : ℕ) → from ≤ k → k < from + n → elem k used ≡ true)
    → n ≤ length used
full_run zero from used h = omega arith
full_run (suc n) from used h =
    let first : elem from used ≡ true = h from (omega arith) (omega arith) in
    let rest : n ≤ length (strike from used) =
      full_run n (from + 1) (strike from used)
        (λ k low high. elem-strike from k used (ground arith) ∙ h k (omega arith) (omega arith)) in
    omega (arith, rest, length-strike from used first)

-- Either the search ends at a free number, or it went through numbers that all are in use.
next_free-cases :
    (fuel value : ℕ) (used : List ℕ)
    → ((value ≤ next_free fuel value used) × (elem (next_free fuel value used) used ≡ false))
      ⊎ ((k : ℕ) → value ≤ k → k < value + fuel → elem k used ≡ true)
unfolding next_free
next_free-cases zero value used = inr (λ k low high. absurd (omega arith))
next_free-cases (suc fuel) value used = elim (Bool-cases (elem value used)) [
  | inl taken ↦ elim (next_free-cases fuel (value + 1) used) [
    | inl found ↦ rw taken (inl (omega (arith, found.0), found.1))
    | inr run ↦ inr (λ k low high. elim (nat_cases k value) [
      | inl same ↦ rw same taken
      | inr other ↦ run k (omega arith) (omega arith)
    ])
  ]
  | inr open_id ↦ rw open_id (inl (omega arith, open_id))
]

pub next_id_free :
    (inbounds : List Inbound)
    → (1 ≤ next_id inbounds) × (elem (next_id inbounds) (ids inbounds) ≡ false)
unfolding next_id
next_id_free inbounds = elim (next_free-cases (suc (length (ids inbounds))) 1 (ids inbounds)) [
  | inl found ↦ found
  | inr run ↦ absurd (omega (arith, full_run (suc (length (ids inbounds))) 1 (ids inbounds) run))
]
