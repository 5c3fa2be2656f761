-- ===== src/Portguard/Free.antt =====
-- What `free_port` hands out.
use obhod.Prelude.{
  ℕ, zero, suc, ◌+◌, ◌≤◌, ◌<◌, ◌≡◌, ◌≢◌, refl, max, true, false, Option, none, some, List, ℤ, arith,
  number_key, Option-cases, Bool-cases, leb, nat_cases, pos, negsuc, inl, inr, sym, ◌∙◌,
}
use obhod.Ports.{is_port}
use obhod.Portguard.{
  is_refused, first_near, first_low, low_steps, reserved_low, start_of, free_port,
}

-- The first port that is not refused, of the `steps` from `from` on that are not above 65535.
record IsFirst (taken : List ℕ) (from steps p : ℕ) : Type 0 where
  pub above : from ≤ p
  pub within : p < from + steps
  pub a_port : p ≤ 65535
  pub free : is_refused taken p ≡ false
  pub least : (c : ℕ) → from ≤ c → c < p → is_refused taken c ≡ true

first_near-some :
    (taken : List ℕ) (steps from p : ℕ)
    → first_near steps from taken ≡ some p
    → IsFirst taken from steps p
unfolding first_near
first_near-some taken zero from p h = absurd (let wrong : none ≡ some p = h in cc)
first_near-some taken (suc steps) from p h = elim (Bool-cases (leb 65536 from)) [
  | inl past ↦ absurd (let wrong : none ≡ some p = rw past at h in cc)
  | inr near ↦ elim (Bool-cases (is_refused taken from)) [
    | inl refused ↦
        let r : IsFirst taken (from + 1) steps p =
          first_near-some taken steps (from + 1) p (rw (near, refused) at h) in
        record {
          above = omega (arith, r.above);
          within = omega (arith, r.within);
          a_port = r.a_port;
          free = r.free;
          least = λ c low high. elim (nat_cases c from) [
            | inl same ↦ rw same refused
            | inr other ↦ r.least c (omega arith) high
          ];
        }
    | inr open_port ↦
        let same : from ≡ p = let found : some from ≡ some p = rw (near, open_port) at h in cc in
        record {
          above = omega arith;
          within = omega arith;
          a_port = ground arith;
          free = rw (sym same) open_port;
          least = λ c low high. absurd (omega arith);
        }
  ]
]

first_near-none :
    (taken : List ℕ) (steps from : ℕ)
    → first_near steps from taken ≡ none
    → (c : ℕ) → from ≤ c
    → c < from + steps
    → c ≤ 65535
    → is_refused taken c ≡ true
unfolding first_near
first_near-none taken zero from h c low high top = absurd (omega arith)
first_near-none taken (suc steps) from h c low high top =
    elim (Bool-cases (is_refused taken from)) [
      | inl refused ↦ elim (nat_cases c from) [
        | inl same ↦ rw same refused
        | inr other ↦
            first_near-none taken steps (from + 1)
              (let next : leb 65536 from ≡ false = ground arith in rw (next, refused) at h) c
              (omega arith) (omega arith) top
      ]
      | inr open_port ↦ absurd (
          let next : leb 65536 from ≡ false = ground arith in
          let wrong : some from ≡ none = rw (next, open_port) at h in cc)
    ]

-- Below 65536 the test that ends the first loop never holds, so the second loop is the same.
first_low-eq-first_near :
    (taken : List ℕ) (steps from : ℕ)
    → from + steps ≤ 65536
    → first_low steps from taken ≡ first_near steps from taken
unfolding first_low first_near
first_low-eq-first_near taken zero from h = refl
first_low-eq-first_near taken (suc steps) from h =
    ground (arith, first_low-eq-first_near taken steps (from + 1))

start_of_positive : (preferred : ℤ) → 1 ≤ start_of preferred
start_of_positive (pos n) = ground arith
start_of_positive (negsuc n) = omega arith

module _ (preferred : ℤ) (taken : List ℕ) (span : ℕ) where
  abbrev near : Option ℕ
  near = first_near (max 1 span) (start_of preferred) taken

  abbrev low : Option ℕ
  low = first_low low_steps (reserved_low + 1) taken

  low_is_near : low ≡ first_near low_steps (reserved_low + 1) taken
  low_is_near = first_low-eq-first_near taken low_steps (reserved_low + 1) (omega arith)

  start_positive : 1 ≤ start_of preferred
  start_positive = start_of_positive preferred

  free_port_usable :
      free_port preferred taken span ≢ 0
      → (is_port (free_port preferred taken span) ≡ true)
        × (is_refused taken (free_port preferred taken span) ≡ false)
  unfolding free_port
  free_port_usable found = elim (Option-cases near) [
    | inl nothing ↦ elim (Option-cases low) [
      | inl no_low ↦ absurd (found (rw (nothing, no_low) refl))
      | inr (p, e) ↦
          let r : IsFirst taken (reserved_low + 1) low_steps p =
            first_near-some taken low_steps (reserved_low + 1) p (sym low_is_near ∙ e) in
          rw (nothing, e) (ground (arith, r.above, r.a_port), r.free)
    ]
    | inr (p, e) ↦
        let r : IsFirst taken (start_of preferred) (max 1 span) p =
          first_near-some taken (max 1 span) (start_of preferred) p e in
        rw e (ground (arith, r.above, r.a_port, start_positive), r.free)
  ]

  -- A port that is free among the first candidates is not passed over: what is handed out lies
  -- between the preferred port and it.
  pub free_port_nearest :
      (c : ℕ)
      → start_of preferred ≤ c
      → c < start_of preferred + max 1 span
      → c ≤ 65535
      → is_refused taken c ≡ false
      → (start_of preferred ≤ free_port preferred taken span) × (free_port preferred taken span ≤ c)
  unfolding free_port
  free_port_nearest c from within top open_port = elim (Option-cases near) [
    | inl nothing ↦ absurd (
        let refused : is_refused taken c ≡ true =
          first_near-none taken (max 1 span) (start_of preferred) nothing c from within top in
        cc)
    | inr (p, e) ↦
        let r : IsFirst taken (start_of preferred) (max 1 span) p =
          first_near-some taken (max 1 span) (start_of preferred) p e in
        rw e (r.above, ground (arith, r.least c from))
  ]

  free_port_exhausted :
      (c : ℕ)
      → free_port preferred taken span ≡ 0
      → 1025 ≤ c
      → c ≤ 65534
      → is_refused taken c ≡ true
  unfolding free_port
  free_port_exhausted c h from top = elim (Option-cases near) [
    | inl nothing ↦ elim (Option-cases low) [
      | inl no_low ↦
          first_near-none taken low_steps (reserved_low + 1) (sym low_is_near ∙ no_low) c from
            (omega arith) (omega arith)
      | inr (p, e) ↦
          let r : IsFirst taken (reserved_low + 1) low_steps p =
            first_near-some taken low_steps (reserved_low + 1) p (sym low_is_near ∙ e) in
          absurd (let zero_port : p ≡ 0 = rw (nothing, e) at h in omega (arith, r.above))
    ]
    | inr (p, e) ↦
        let r : IsFirst taken (start_of preferred) (max 1 span) p =
          first_near-some taken (max 1 span) (start_of preferred) p e in
        absurd (let zero_port : p ≡ 0 = rw e at h in omega (arith, r.above, start_positive))
  ]

  -- While one port from 1025 to 65534 is not taken and not one of SSH's, a port is handed out, and
  -- it is one that is not taken, not one of SSH's and from 1 to 65535.
  pub free_port_found :
      (c : ℕ)
      → 1025 ≤ c
      → c ≤ 65534
      → is_refused taken c ≡ false
      → (is_port (free_port preferred taken span) ≡ true)
        × (is_refused taken (free_port preferred taken span) ≡ false)
  free_port_found c from top open_port =
      free_port_usable
        (λ h. let refused : is_refused taken c ≡ true = free_port_exhausted c h from top in cc)
