-- ===== src/Verdict/Blocked.antt =====
-- A target that is found blocked is given one of the four names as its verdict.
use obhod.Prelude.{
  ℕ, suc, ◌+◌, ◌≤◌, ◌≡◌, refl, true, List, [], ◌∷◌, String, arith, text_key, elem, All, map,
  nat_beq, Bool-cases, inl, inr,
}
use obhod.Dict.{Dict}
use obhod.Verdict.{
  Probe, votes_of, count_in, counts, meets, blocking, blocked, blocking_names, insert_kind,
  comes_first, sort_kinds, counted_kinds, name_of, blocking_kinds, dominant_of, dominant, verdict,
}
use obhod.Verdict.Votes.{given, counts-given, meets-times}

-- How often the four names were given, together.
abbrev blocking_votes : List Probe → ℕ
blocking_votes results =
    given "tspu_block" results
    + given "sni_block" results
    + given "dns_spoofing" results
    + given "cdn_block" results

blocking-le : (results : List Probe) → blocking results ≤ blocking_votes results
unfolding blocking
blocking-le [] = omega arith
blocking-le (p ∷ results) = elim (Bool-cases (meets (votes_of p))) [
  | inl yes_meets ↦
      rw yes_meets (omega (arith, blocking-le results, meets-times (votes_of p) yes_meets))
  | inr apart ↦ rw apart (omega (arith, blocking-le results))
]

abbrev AreKinds : List (ℕ × String) → Type 0
AreKinds found = All (λ (a : ℕ × String). elem a.1 blocking_names ≡ true) found

insert_kind-AreKinds :
    (a : ℕ × String) (found : List (ℕ × String))
    → elem a.1 blocking_names ≡ true
    → AreKinds found
    → AreKinds (insert_kind a found)
unfolding insert_kind
insert_kind-AreKinds a [] h k = (h, tt)
insert_kind-AreKinds a (b ∷ found) h k = elim (Bool-cases (comes_first a b)) [
  | inl first ↦ rw first (h, k)
  | inr later ↦ rw later (k.0, insert_kind-AreKinds a found h k.1)
]

sort_kinds-AreKinds : (found : List (ℕ × String)) → AreKinds found → AreKinds (sort_kinds found)
unfolding sort_kinds
sort_kinds-AreKinds [] k = tt
sort_kinds-AreKinds (a ∷ found) k =
    insert_kind-AreKinds a (sort_kinds found) k.0 (sort_kinds-AreKinds found k.1)

counted_kinds-AreKinds :
    (d : Dict String ℕ) (names : List String)
    → All (λ name. elem name blocking_names ≡ true) names
    → AreKinds (counted_kinds d names)
unfolding counted_kinds
counted_kinds-AreKinds d [] k = tt
counted_kinds-AreKinds d (name ∷ names) k = elim (Bool-cases (nat_beq (count_in d name) 0)) [
  | inl absent ↦ rw absent (counted_kinds-AreKinds d names k.1)
  | inr counted ↦ rw counted (k.0, counted_kinds-AreKinds d names k.1)
]

-- How often the names are counted, together.
abbrev sum_in : Dict String ℕ → List String → ℕ
sum_in d [] = 0
sum_in d (name ∷ names) = count_in d name + sum_in d names

abbrev size : List (ℕ × String) → ℕ
size [] = 0
size (a ∷ found) = suc (size found)

size-insert_kind : (a : ℕ × String) (found : List (ℕ × String)) → 1 ≤ size (insert_kind a found)
unfolding insert_kind
size-insert_kind a [] = omega arith
size-insert_kind a (b ∷ found) = ground arith

size-sort_kinds : (found : List (ℕ × String)) → 1 ≤ size found → 1 ≤ size (sort_kinds found)
unfolding sort_kinds
size-sort_kinds [] h = h
size-sort_kinds (a ∷ found) h = size-insert_kind a (sort_kinds found)

size-counted_kinds :
    (d : Dict String ℕ) (names : List String)
    → 1 ≤ sum_in d names
    → 1 ≤ size (counted_kinds d names)
unfolding counted_kinds
size-counted_kinds d [] h = h
size-counted_kinds d (name ∷ names) h = ground (arith, size-counted_kinds d names)

dominant_of_kinds :
    (found : List (ℕ × String)) (d : Dict String ℕ)
    → 1 ≤ size found
    → AreKinds found
    → elem (dominant_of (map name_of found) d) blocking_names ≡ true
dominant_of_kinds [] d h k = ground arith
dominant_of_kinds (a ∷ found) d h k = k.0

dominant-blocking :
    (results : List Probe) → 1 ≤ blocking results → elem (dominant results) blocking_names ≡ true
unfolding dominant blocking_kinds text_key
dominant-blocking results h =
    let found : List (ℕ × String) = counted_kinds (counts results) blocking_names in
    let some_found : 1 ≤ size found = size-counted_kinds (counts results) blocking_names (
      omega (
        arith,
        blocking-le results,
        counts-given "tspu_block" results,
        counts-given "sni_block" results,
        counts-given "dns_spoofing" results,
        counts-given "cdn_block" results,
      )) in
    let kinds : AreKinds found =
      counted_kinds-AreKinds (counts results) blocking_names (refl, (refl, (refl, (refl, tt)))) in
    dominant_of_kinds (sort_kinds found) (counts results) (size-sort_kinds found some_found)
      (sort_kinds-AreKinds found kinds)

-- A target of which at least three in ten probes, and at least one, report a block gets one of the
-- four names of a block as its verdict.
pub verdict-blocked :
    (results : List Probe) → blocked results ≡ true → elem (verdict results) blocking_names ≡ true
unfolding verdict blocked blocking
verdict-blocked [] h = ground arith
verdict-blocked (p ∷ results) h = rw h (dominant-blocking (p ∷ results) (ground arith))
