-- ===== src/Dict/Clean.antt =====
-- The clean-up of both limiters: the entries that pass a test go, then the lowest above a limit.
use obhod.Prelude.{
  ℕ, ◌+◌, ◌≤◌, ◌≡◌, Bool, true, false, Option, none, some, if◌then◌else◌, Key, ◌==◌, length, arith,
  Option-cases, inl, inr, ◌∙◌, ap,
}
use obhod.Dict.{Dict, get, put, prune, drop_oldest, Distinct}
use obhod.Dict.Laws.{
  get-put, Distinct-put, length-put-le, holds, get-prune, Distinct-prune, length-prune-le,
}
use obhod.Dict.Evict.{Distinct-drop_oldest, length-drop_oldest, get-drop_oldest, drop_oldest_within}

module _ {ℓ κ} {K : Type ℓ} {V : Type κ} ⦃key : Key K⦄ (score : V → ℕ) (limit : ℕ)
    (p : V → Bool) where
  abbrev pub clean : Dict K V → Dict K V
  clean d = drop_oldest score limit (prune p d)

  pub Distinct-clean : (d : Dict K V) → Distinct d → Distinct (clean d)
  Distinct-clean d h = Distinct-drop_oldest score limit (prune p d) (Distinct-prune p d h)

  pub length-clean : (d : Dict K V) → Distinct d → length (clean d) ≤ limit
  length-clean d h = length-drop_oldest score limit (prune p d) (Distinct-prune p d h)

  -- An entry that is left was there before, and does not pass the test.
  pub get-clean :
      (d : Dict K V) (k : K) (v : V)
      → Distinct d
      → get k (clean d) ≡ some v
      → (get k d ≡ some v) × (p v ≡ false)
  get-clean d k v h g = ground (
    arith,
    get-drop_oldest score limit (prune p d) (Distinct-prune p d h) k {b = v},
    get-prune p d k h,
  )

  -- An entry that passes the test is gone.
  pub get-clean_gone :
      (d : Dict K V) (k : K) (v : V)
      → Distinct d
      → get k d ≡ some v
      → p v ≡ true
      → get k (clean d) ≡ none
  get-clean_gone d k v h g t = elim (Option-cases (get k (clean d))) [
    | inl gone ↦ gone
    | inr (w, left) ↦ absurd (ground (arith, get-clean d k w h left))
  ]

  module _ (k : K) (v : V) (d : Dict K V) (unique : Distinct d) (room : length d + 1 ≤ limit) where
    pub length-clean-put : length (clean (put k v d)) ≤ length d + 1
    length-clean-put =
        rw
          (drop_oldest_within score limit (prune p (put k v d))
            (omega (arith, length-prune-le p (put k v d), length-put-le k v d)))
          (omega (arith, length-prune-le p (put k v d), length-put-le k v d))

    -- After a write where there is room for one more entry, only entries that pass the test go.
    pub get-clean-put :
        (j : K) (o : Option V)
        → (if k == j then some v else get j d) ≡ o
        → get j (clean (put k v d)) ≡ (if holds p o then none else o)
    get-clean-put j o e =
        ap (get j) (
          drop_oldest_within score limit (prune p (put k v d))
            (omega (arith, length-prune-le p (put k v d), length-put-le k v d)))
        ∙ get-prune p (put k v d) j (Distinct-put k v d unique)
        ∙ ap (λ (o : Option V). if holds p o then none else o) (get-put k j v d ∙ e)
