-- ===== src/Notify/Centre/Outcome.antt =====
-- Every branch of `Centre.observe`: what it counts, and what it hands to `Centre.deliver`.
use obhod.Prelude.{
  ℕ, ◌≡◌, ◌⊎◌, refl, List, [], ◌∷◌, String, ◌==◌, text_key, pair_key, Bool-cases, inl, inr, ltb,
  length, elem, zero, suc,
}
use obhod.Dict.{Dict}
use obhod.Notify.Centre.{
  Event, Observation, Centre, deliver, scan, bruteforce, honeypot, direct, observe, touched,
  marks_of,
}

-- The two centres differ in their counts of ports and failures at most.
pub record Alike (c d : Centre) : Type 0 where
  pub settings : d.settings ≡ c.settings
  pub seen : d.seen ≡ c.seen
  pub source : d.source ≡ c.source
  pub queue : d.queue ≡ c.queue

-- A step either counts without an event, or hands one event to `deliver`.
abbrev pub Outcome : ℕ → ℕ → Centre → Centre × List Event → Type 0
Outcome second now c r =
    ((d : Centre) × Alike c d × (r ≡ (d, [])))
    ⊎ ((e : Event) × (d : Centre) × Alike c d × (r ≡ deliver second e now d))

alike : {c : Centre} → Alike c c
alike = record { settings = refl; seen = refl; source = refl; queue = refl }

same :
    {c : Centre} {ports : Dict String (Dict ℕ ℕ)} {fails : Dict String (List ℕ)}
    → Alike c (record c { ports = ports; fails = fails })
same = record { settings = refl; seen = refl; source = refl; queue = refl }

scan-Outcome :
    (second : ℕ) (address : String) (port now : ℕ) (c : Centre)
    → Outcome second now c (scan second address port now c)
unfolding scan
scan-Outcome second address zero now c = inl (c, alike, refl)
scan-Outcome second address (suc p) now c =
    elim (Bool-cases (ltb (length (touched second address (suc p) now c)) 12)) [
      | inl few ↦ rw few (inl (_, same, refl))
      | inr many ↦ rw many (inr (_, _, same, refl))
    ]

bruteforce-Outcome :
    (second : ℕ) (address : String) (now : ℕ) (c : Centre)
    → Outcome second now c (bruteforce second address now c)
unfolding bruteforce
bruteforce-Outcome second address now c =
    elim (Bool-cases (ltb (length (marks_of second address now c)) 10)) [
      | inl few ↦ rw few (inl (_, same, refl))
      | inr many ↦ rw many (inr (_, _, same, refl))
    ]

-- What holds of each branch holds of the handler.
pub observe-all :
    (P : Centre × List Event → Type 0) (second : ℕ) (obs : Observation) (now : ℕ) (c : Centre)
    → P (c, [])
    → P (scan second obs.address obs.port now c)
    → P (bruteforce second obs.address now c)
    → P (honeypot second obs.address obs.port obs.detail now c)
    → P (direct second obs.kind obs.address obs.detail now c)
    → P (observe second obs now c)
unfolding observe
observe-all P second obs now c quiet scanned failed touched_decoy forwarded =
    elim (Bool-cases (obs.address == "")) [
      | inl e ↦ rw e quiet
      | inr e ↦ rw e (elim (Bool-cases (obs.kind == "portscan")) [
        | inl k ↦ rw k scanned
        | inr k ↦ rw k (elim (Bool-cases (obs.kind == "ssh_brute")) [
          | inl k ↦ rw k failed
          | inr k ↦ rw k (elim (Bool-cases (obs.kind == "honeypot")) [
            | inl k ↦ rw k touched_decoy
            | inr k ↦
                rw k
                  (elim (Bool-cases
                    (elem obs.kind ("fail2ban" ∷ "sub_abuse" ∷ "core" ∷ "ddos" ∷ []))) [
                      | inl k ↦ rw k forwarded
                      | inr k ↦ rw k quiet
                    ])
          ])
        ])
      ])
    ]

pub observe-Outcome :
    (second : ℕ) (obs : Observation) (now : ℕ) (c : Centre)
    → Outcome second now c (observe second obs now c)
unfolding honeypot direct
observe-Outcome second obs now c =
    observe-all (Outcome second now c) second obs now c (inl (c, alike, refl))
      (scan-Outcome second obs.address obs.port now c) (bruteforce-Outcome second obs.address now c)
      (inr (_, _, same, refl)) (inr (_, c, alike, refl))
