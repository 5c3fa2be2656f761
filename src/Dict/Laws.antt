-- ===== src/Dict/Laws.antt =====
-- Reads after writes, for one key and for a list of keys.
use obhod.Prelude.{
  ◌+◌, ◌≤◌, ◌≡◌, refl, Bool, true, false, ◌||◌, Option, none, some, [], ◌∷◌, if◌then◌else◌, Key,
  ◌==◌, length, arith, Bool-cases, inl, inr, ◌∙◌, same_sym,
}
use obhod.Dict.{Dict, get, has, put, pop, pops, select, prune, Distinct}

module _ {ℓ κ} {K : Type ℓ} {V : Type κ} ⦃e : Key K⦄ where
  pub has-eq-false : (k : K) (d : Dict K V) → has k d ≡ false → get k d ≡ none
  unfolding has get
  has-eq-false k [] h = refl
  has-eq-false k ((j, v) ∷ d) h = ground (arith, has-eq-false k d)

  pub has-of_get : (k : K) (d : Dict K V) {v : V} → get k d ≡ some v → has k d ≡ true
  unfolding has get
  has-of_get k [] h = ground arith
  has-of_get k ((j, w) ∷ d) {v} h = ground (arith, has-of_get k d {v = v})

  pub has-eq-false_of_none : (k : K) (d : Dict K V) → get k d ≡ none → has k d ≡ false
  unfolding has get
  has-eq-false_of_none k [] h = refl
  has-eq-false_of_none k ((j, v) ∷ d) h = ground (arith, has-eq-false_of_none k d)

  pub get-put :
      (k j : K) (v : V) (d : Dict K V) → get j (put k v d) ≡ (if k == j then some v else get j d)
  unfolding get put
  get-put k j v [] = refl
  get-put k j v ((i, w) ∷ d) =
      ground (arith, e.same_iff k j, e.same_iff i k, e.same_iff i j, get-put k j v d)

  pub has-put : (k j : K) (v : V) (d : Dict K V) → has j (put k v d) ≡ (k == j || has j d)
  unfolding has put
  has-put k j v [] = refl
  has-put k j v ((i, w) ∷ d) =
      ground (arith, e.same_iff k j, e.same_iff i k, e.same_iff i j, has-put k j v d)

  pub Distinct-put : (k : K) (v : V) (d : Dict K V) → Distinct d → Distinct (put k v d)
  unfolding put has
  Distinct-put k v [] h = ground arith
  Distinct-put k v ((i, w) ∷ d) h = elim (Bool-cases (i == k)) [
    | inl same ↦ rw same h
    | inr other ↦ rw other (ground (arith, has-put k i v d, same_sym i k), Distinct-put k v d h.1)
  ]

  pub length-put-le : (k : K) (v : V) (d : Dict K V) → length (put k v d) ≤ length d + 1
  unfolding put
  length-put-le k v [] = omega arith
  length-put-le k v ((i, w) ∷ d) = ground (arith, length-put-le k v d)

  pub length-put_present :
      (k : K) (v w : V) (d : Dict K V) → get k d ≡ some w → length (put k v d) ≡ length d
  unfolding put get
  length-put_present k v w [] h = ground arith
  length-put_present k v w ((i, x) ∷ d) h = ground (arith, length-put_present k v w d)

  pub get-pop : (k j : K) (d : Dict K V) → get j (pop k d) ≡ (if k == j then none else get j d)
  unfolding get pop
  get-pop k j [] = ground arith
  get-pop k j ((i, v) ∷ d) =
      ground (arith, e.same_iff k j, e.same_iff i k, e.same_iff i j, get-pop k j d)

  pub has-pop : (k j : K) (d : Dict K V) → has j (pop k d) ≡ (if k == j then false else has j d)
  unfolding has pop
  has-pop k j [] = ground arith
  has-pop k j ((i, v) ∷ d) =
      ground (arith, e.same_iff k j, e.same_iff i k, e.same_iff i j, has-pop k j d)

  pub Distinct-pop : (k : K) (d : Dict K V) → Distinct d → Distinct (pop k d)
  unfolding pop
  Distinct-pop k [] h = h
  Distinct-pop k ((i, v) ∷ d) h = ground (arith, has-pop k i d, Distinct-pop k d h.1)

  pop_absent : (k : K) (d : Dict K V) → has k d ≡ false → pop k d ≡ d
  unfolding has pop
  pop_absent k [] h = refl
  pop_absent k ((i, v) ∷ d) h = ground (arith, pop_absent k d)

  pub length-pop-le : (k : K) (d : Dict K V) → length (pop k d) ≤ length d
  unfolding pop
  length-pop-le k [] = omega arith
  length-pop-le k ((j, v) ∷ d) = ground (arith, length-pop-le k d)

  -- Writing a key that is then dropped leaves no more than there was.
  pub length-pop-put : (k : K) (v : V) (d : Dict K V) → length (pop k (put k v d)) ≤ length d
  unfolding pop put
  length-pop-put k v [] = ground (arith, e.same_iff k k)
  length-pop-put k v ((j, w) ∷ d) =
      ground (arith, e.same_iff k j, length-pop-put k v d, length-pop-le k d)

  length-pop :
      (k : K) (d : Dict K V) → Distinct d → has k d ≡ true → length (pop k d) + 1 ≡ length d
  unfolding has pop
  length-pop k [] h m = ground arith
  length-pop k ((i, v) ∷ d) h m = ground (arith, e.same_iff i k, pop_absent k d, length-pop k d h.1)

  pub get-pops : (l d : Dict K V) (j : K) → get j (pops l d) ≡ (if has j l then none else get j d)
  unfolding pops has
  get-pops [] d j = refl
  get-pops ((k, v) ∷ l) d j = ground (arith, get-pops l (pop k d) j, get-pop k j d)

  pub Distinct-pops : (l d : Dict K V) → Distinct d → Distinct (pops l d)
  unfolding pops
  Distinct-pops [] d h = h
  Distinct-pops ((k, v) ∷ l) d h = Distinct-pops l (pop k d) (Distinct-pop k d h)

  still_there :
      (k j : K) (v : V) (l d : Dict K V)
      → has k l ≡ false
      → ((i : K) → has i ((k, v) ∷ l) ≡ true → has i d ≡ true)
      → has j l ≡ true
      → has j (pop k d) ≡ true
  unfolding has
  still_there k j v l d fresh m h = ground (arith, has-pop k j d, m j, e.same_iff k j)

  -- Each of the listed keys takes one entry away, if they stand in the dictionary.
  pub length-pops :
      (l d : Dict K V)
      → Distinct l
      → Distinct d
      → ((j : K) → has j l ≡ true → has j d ≡ true)
      → length (pops l d) + length l ≡ length d
  unfolding pops has
  length-pops [] d u h m = omega arith
  length-pops ((k, v) ∷ l) d u h m = omega (
    arith,
    length-pops l (pop k d) u.1 (Distinct-pop k d h) (λ j. still_there k j v l d u.0 m),
    length-pop k d h (m k (ground (arith, e.same_iff k k))),
  )

abbrev pub holds {κ} : {V : Type κ} → (V → Bool) → Option V → Bool
holds p none = false
holds p (some v) = p v

module _ {ℓ κ} {K : Type ℓ} {V : Type κ} ⦃e : Key K⦄ (p : V → Bool) where
  has-select_absent : (k : K) (d : Dict K V) → has k d ≡ false → has k (select p d) ≡ false
  unfolding has select
  has-select_absent k [] h = refl
  has-select_absent k ((j, v) ∷ d) h = ground (arith, has-select_absent k d)

  has-select : (k : K) (d : Dict K V) → Distinct d → has k (select p d) ≡ holds p (get k d)
  unfolding has get select
  has-select k [] h = refl
  has-select k ((j, v) ∷ d) h =
      ground (arith, e.same_iff j k, has-select k d h.1, has-select_absent k d)

  -- A pruned dictionary has lost the entries that pass the test, and only those.
  pub get-prune :
      (d : Dict K V) (k : K)
      → Distinct d
      → get k (prune p d) ≡ (if holds p (get k d) then none else get k d)
  unfolding prune
  get-prune d k h = get-pops (select p d) d k ∙ ground (arith, has-select k d h)

  pub Distinct-prune : (d : Dict K V) → Distinct d → Distinct (prune p d)
  unfolding prune
  Distinct-prune d h = Distinct-pops (select p d) d h

  length-pops-le : (l d : Dict K V) → length (pops l d) ≤ length d
  unfolding pops
  length-pops-le [] d = omega arith
  length-pops-le ((k, v) ∷ l) d = omega (arith, length-pops-le l (pop k d), length-pop-le k d)

  pub length-prune-le : (d : Dict K V) → length (prune p d) ≤ length d
  unfolding prune
  length-prune-le d = length-pops-le (select p d) d
