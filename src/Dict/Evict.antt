-- ===== src/Dict/Evict.antt =====
-- Dropping the lowest entries of a dictionary that has grown past its limit.
use obhod.Prelude.{
  ℕ, zero, suc, ◌-◌, ◌≤◌, ◌≡◌, refl, true, false, none, some, [], ◌∷◌, Key, length, take, arith,
  ◌∙◌, sym, Bool-cases, inl, inr, length-take,
}
use obhod.Dict.{Dict, get, has, sort_by, drop_oldest, Distinct}
use obhod.Dict.Laws.{get-pops, Distinct-pops, length-pops, has-eq-false}
use obhod.Dict.Sorted.{Ascending-sort, length-sort, has-sort, Distinct-sort, get-sort, take_lowest}

module _ {ℓ κ} {K : Type ℓ} {V : Type κ} ⦃e : Key K⦄ where
  has-take : (n : ℕ) (l : Dict K V) (k : K) → has k (take n l) ≡ true → has k l ≡ true
  unfolding has
  has-take zero l k h = cc
  has-take (suc n) [] k h = h
  has-take (suc n) ((j, v) ∷ l) k h = ground (arith, has-take n l k)

  has-take_absent : (n : ℕ) (l : Dict K V) (k : K) → has k l ≡ false → has k (take n l) ≡ false
  has-take_absent n l k h = elim (Bool-cases (has k (take n l))) [
    | inl t ↦ cc (has-take n l k t)
    | inr f ↦ f
  ]

  Distinct-take : (n : ℕ) (l : Dict K V) → Distinct l → Distinct (take n l)
  Distinct-take zero l h = tt
  Distinct-take (suc n) [] h = tt
  Distinct-take (suc n) ((k, v) ∷ l) h = (has-take_absent n l k h.0, Distinct-take n l h.1)

  get-take : (n : ℕ) (l : Dict K V) (k : K) → has k (take n l) ≡ true → get k (take n l) ≡ get k l
  unfolding get has
  get-take zero l k h = cc
  get-take (suc n) [] k h = refl
  get-take (suc n) ((j, w) ∷ l) k h = ground (arith, get-take n l k)

  module _ (score : V → ℕ) (limit : ℕ) (d : Dict K V) (unique : Distinct d) where
    -- The entries that are dropped when the limit is passed.
    abbrev lowest : Dict K V
    lowest = take (length d - limit) (sort_by score d)

    has-lowest : (k : K) → has k lowest ≡ true → has k d ≡ true
    has-lowest k h = sym (has-sort score k d) ∙ has-take (length d - limit) (sort_by score d) k h

    pub Distinct-drop_oldest : Distinct (drop_oldest score limit d)
    unfolding drop_oldest
    Distinct-drop_oldest = ground (arith, Distinct-pops lowest d unique)

    -- No more than the limit is left.
    pub length-drop_oldest : length (drop_oldest score limit d) ≤ limit
    unfolding drop_oldest
    length-drop_oldest = ground (
      arith,
      length-pops lowest d (Distinct-take _ _ (Distinct-sort score d unique)) unique has-lowest,
      length-take (length d - limit) (sort_by score d),
      length-sort score d,
    )

    -- An entry is either as it was or gone.
    pub get-drop_oldest :
        (k : K) {b : V} → get k (drop_oldest score limit d) ≡ some b → get k d ≡ some b
    unfolding drop_oldest
    get-drop_oldest k h = ground (arith, get-pops lowest d k)

    -- What was dropped scores no more than what was kept.
    pub drop_oldest_lowest :
        (j k : K) (b c : V)
        → get j d ≡ some c
        → get j (drop_oldest score limit d) ≡ none
        → get k (drop_oldest score limit d) ≡ some b
        → score c ≤ score b
    unfolding drop_oldest
    drop_oldest_lowest j k b c hj gone kept =
        let n = length d - limit in
        let sorted = sort_by score d in
        ground (
          arith,
          get-pops lowest d j,
          get-pops lowest d k,
          get-take n sorted j,
          get-sort score d j unique,
          get-sort score d k unique,
          has-eq-false k lowest,
          take_lowest score n sorted j k b c (Ascending-sort score d),
        )

  -- A dictionary within its limit is left alone.
  pub drop_oldest_within :
      (score : V → ℕ) (limit : ℕ) (d : Dict K V) → length d ≤ limit → drop_oldest score limit d ≡ d
  unfolding drop_oldest
  drop_oldest_within score limit d h = ground arith
