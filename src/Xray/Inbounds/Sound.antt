-- ===== src/Xray/Inbounds/Sound.antt =====
-- Whatever is added and removed, no two inbounds share a number or a port.
use obhod.Prelude.{
  ℕ, ◌≡◌, refl, false, List, [], ◌∷◌, ◌++◌, arith, elem, number_key, nat_beq, map, Bool-cases,
  elem-append, inl, inr, subst, sym, ap,
}
use obhod.Ports.Laws.{Unique, Unique-append}
use obhod.Xray.Inbounds.{
  Inbound, ids, ports, next_id, add, without, remove, Change, adds, removes, change, changes,
}
use obhod.Xray.Inbounds.Ids.{next_id_free}

-- The numbers differ, and so do the ports; no number is 0.
pub record IsSound (inbounds : List Inbound) : Type 0 where
  pub unique_ids : Unique (ids inbounds)
  pub unique_ports : Unique (ports inbounds)
  pub no_zero : elem 0 (ids inbounds) ≡ false

module _ (field : Inbound → ℕ) where
  map-append :
      (inbounds : List Inbound) (i : Inbound)
      → map field (inbounds ++ i ∷ []) ≡ map field inbounds ++ field i ∷ []
  map-append [] i = refl
  map-append (j ∷ inbounds) i = ap (◌∷◌ (field j)) (map-append inbounds i)

  Unique-map_append :
      (inbounds : List Inbound) (i : Inbound)
      → elem (field i) (map field inbounds) ≡ false
      → Unique (map field inbounds)
      → Unique (map field (inbounds ++ i ∷ []))
  Unique-map_append inbounds i h u =
      subst Unique (sym (map-append inbounds i)) (Unique-append (field i) (map field inbounds) h u)

  elem-without :
      (n key : ℕ) (inbounds : List Inbound)
      → elem n (map field inbounds) ≡ false
      → elem n (map field (without key inbounds)) ≡ false
  unfolding without
  elem-without n key [] h = h
  elem-without n key (i ∷ inbounds) h = ground (arith, elem-without n key inbounds)

  Unique-without :
      (key : ℕ) (inbounds : List Inbound)
      → Unique (map field inbounds)
      → Unique (map field (without key inbounds))
  unfolding without
  Unique-without key [] u = u
  Unique-without key (i ∷ inbounds) u = elim (Bool-cases (nat_beq i.id key)) [
    | inl found ↦ rw found u.1
    | inr other ↦
        rw other (elem-without (field i) key inbounds u.0, Unique-without key inbounds u.1)
  ]

add-IsSound :
    (inbound : Inbound) (inbounds : List Inbound)
    → IsSound inbounds
    → IsSound (change (adds inbound) inbounds)
unfolding change add
add-IsSound inbound inbounds s =
    let (positive, free) = next_id_free inbounds in
    let new : Inbound = record inbound { id = next_id inbounds } in
    elim (Bool-cases (elem inbound.port (ports inbounds))) [
      | inl used ↦
          let same : change (adds inbound) inbounds ≡ inbounds = rw used refl in
          subst IsSound (sym same) s
      | inr open_port ↦
          let more : change (adds inbound) inbounds ≡ inbounds ++ new ∷ [] = rw open_port refl in
          subst IsSound (sym more) (record {
            unique_ids = Unique-map_append (λ i. i.id) inbounds new free s.unique_ids;
            unique_ports = Unique-map_append (λ i. i.port) inbounds new open_port s.unique_ports;
            no_zero =
                subst (λ numbers. elem 0 numbers ≡ false)
                  (sym (map-append (λ i. i.id) inbounds new))
                  (rw (elem-append 0 (next_id inbounds) (ids inbounds))
                    (ground (arith, s.no_zero)));
          })
    ]

remove-IsSound :
    (key : ℕ) (inbounds : List Inbound) → IsSound inbounds → IsSound (change (removes key) inbounds)
unfolding change remove
remove-IsSound key inbounds s = elim (Bool-cases (elem key (ids inbounds))) [
  | inl there ↦
      let fewer : (remove key inbounds).0 ≡ without key inbounds = rw there refl in
      subst IsSound (sym fewer) (record {
        unique_ids = Unique-without (λ i. i.id) key inbounds s.unique_ids;
        unique_ports = Unique-without (λ i. i.port) key inbounds s.unique_ports;
        no_zero = elem-without (λ i. i.id) 0 key inbounds s.no_zero;
      })
  | inr absent ↦
      let same : (remove key inbounds).0 ≡ inbounds = rw absent refl in subst IsSound (sym same) s
]

-- Whatever is added and removed, with errors or without, no two inbounds share a number or a port,
-- and none has the number 0; in particular the search for a free number ends.
pub changes-IsSound :
    (later : List Change) (inbounds : List Inbound)
    → IsSound inbounds
    → IsSound (changes later inbounds)
unfolding changes
changes-IsSound [] inbounds s = s
changes-IsSound (adds inbound ∷ later) inbounds s =
    changes-IsSound later (change (adds inbound) inbounds) (add-IsSound inbound inbounds s)
changes-IsSound (removes key ∷ later) inbounds s =
    changes-IsSound later (change (removes key) inbounds) (remove-IsSound key inbounds s)
