-- ===== src/Dict/Sorted.antt =====
-- Sorting a dictionary by a score keeps its entries and puts the lowest first.
use obhod.Prelude.{
  ℕ, zero, suc, ◌≤◌, ◌≡◌, refl, false, ◌||◌, none, some, [], ◌∷◌, if◌then◌else◌, Key, ◌==◌, length,
  take, arith, ◌∙◌,
}
use obhod.Dict.{Dict, get, has, insert_by, sort_by, Distinct}

module _ {ℓ κ} {K : Type ℓ} {V : Type κ} (score : V → ℕ) where
  -- Every later entry scores at least `n`.
  abbrev AtLeast : ℕ → Dict K V → Type 0
  AtLeast n [] = Unit
  AtLeast n ((k, v) ∷ d) = (n ≤ score v) × AtLeast n d

  abbrev pub Ascending : Dict K V → Type 0
  Ascending [] = Unit
  Ascending ((k, v) ∷ d) = AtLeast (score v) d × Ascending d

  AtLeast-weaken : (n m : ℕ) (d : Dict K V) → n ≤ m → AtLeast m d → AtLeast n d
  AtLeast-weaken n m [] h a = tt
  AtLeast-weaken n m ((k, v) ∷ d) h a = (omega arith, AtLeast-weaken n m d h a.1)

  AtLeast-insert :
      (n : ℕ) (x : K × V) (d : Dict K V)
      → n ≤ score x.1
      → AtLeast n d
      → AtLeast n (insert_by score x d)
  unfolding insert_by
  AtLeast-insert n (j, w) [] h a = (h, tt)
  AtLeast-insert n (j, w) ((k, v) ∷ d) h a = ground (arith, AtLeast-insert n (j, w) d h a.1)

  Ascending-insert : (x : K × V) (d : Dict K V) → Ascending d → Ascending (insert_by score x d)
  unfolding insert_by
  Ascending-insert (j, w) [] a = (tt, tt)
  Ascending-insert (j, w) ((k, v) ∷ d) a = ground (
    arith,
    Ascending-insert (j, w) d a.1,
    AtLeast-insert (score v) (j, w) d,
    AtLeast-weaken (score w) (score v) d,
  )

  pub Ascending-sort : (d : Dict K V) → Ascending (sort_by score d)
  unfolding sort_by
  Ascending-sort [] = tt
  Ascending-sort (x ∷ d) = Ascending-insert x (sort_by score d) (Ascending-sort d)

  length-insert : (x : K × V) (d : Dict K V) → length (insert_by score x d) ≡ suc (length d)
  unfolding insert_by
  length-insert x [] = refl
  length-insert x (y ∷ d) = ground (arith, length-insert x d)

  pub length-sort : (d : Dict K V) → length (sort_by score d) ≡ length d
  unfolding sort_by
  length-sort [] = refl
  length-sort (x ∷ d) = omega (arith, length-insert x (sort_by score d), length-sort d)

  module _ ⦃e : Key K⦄ where
    has-insert :
        (k : K) (x : K × V) (d : Dict K V) → has k (insert_by score x d) ≡ (x.0 == k || has k d)
    unfolding insert_by has
    has-insert k x [] = refl
    has-insert k x (y ∷ d) = ground (arith, has-insert k x d)

    pub has-sort : (k : K) (d : Dict K V) → has k (sort_by score d) ≡ has k d
    unfolding sort_by has
    has-sort k [] = refl
    has-sort k (x ∷ d) = ground (arith, has-insert k x (sort_by score d), has-sort k d)

    Distinct-insert :
        (k : K) (v : V) (d : Dict K V)
        → has k d ≡ false
        → Distinct d
        → Distinct (insert_by score (k, v) d)
    unfolding insert_by has
    Distinct-insert k v [] f h = (refl, tt)
    Distinct-insert k v ((j, w) ∷ d) f h =
        ground (arith, Distinct-insert k v d, has-insert j (k, v) d, e.same_iff k j, e.same_iff j k)

    pub Distinct-sort : (d : Dict K V) → Distinct d → Distinct (sort_by score d)
    unfolding sort_by
    Distinct-sort [] h = tt
    Distinct-sort ((k, v) ∷ d) h =
        Distinct-insert k v (sort_by score d) (has-sort k d ∙ h.0) (Distinct-sort d h.1)

    get-insert :
        (k j : K) (v : V) (d : Dict K V)
        → has k d ≡ false
        → get j (insert_by score (k, v) d) ≡ (if k == j then some v else get j d)
    unfolding insert_by get has
    get-insert k j v [] f = refl
    get-insert k j v ((i, w) ∷ d) f =
        ground (arith, get-insert k j v d, e.same_iff k j, e.same_iff i j, e.same_iff i k)

    pub get-sort : (d : Dict K V) (j : K) → Distinct d → get j (sort_by score d) ≡ get j d
    unfolding sort_by get
    get-sort [] j h = refl
    get-sort ((k, v) ∷ d) j h =
        ground (arith, get-insert k j v (sort_by score d), has-sort k d, get-sort d j h.1)

    AtLeast-get :
        (n : ℕ) (k : K) (v : V) (d : Dict K V) → AtLeast n d → get k d ≡ some v → n ≤ score v
    unfolding get
    AtLeast-get n k v [] a h = ground arith
    AtLeast-get n k v ((j, w) ∷ d) a h = ground (arith, AtLeast-get n k v d a.1)

    -- What stands among the first `n` of an ascending dictionary scores no more than what does not.
    pub take_lowest :
        (n : ℕ) (d : Dict K V) (j k : K) (b c : V)
        → Ascending d
        → get j (take n d) ≡ some c
        → get k (take n d) ≡ none
        → get k d ≡ some b
        → score c ≤ score b
    unfolding get
    take_lowest zero d j k b c a hj hk h = ground arith
    take_lowest (suc n) [] j k b c a hj hk h = ground arith
    take_lowest (suc n) ((i, w) ∷ d) j k b c a hj hk h =
        ground (arith, AtLeast-get (score w) k b d a.0, take_lowest n d j k b c a.1)
