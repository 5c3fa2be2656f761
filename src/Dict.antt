-- ===== src/Dict.antt =====
-- Python's `dict`, which keeps the order of insertion: an association list with unique keys, and
-- the two clean-ups that the limiters and the notification centre run over one.
pub mod Laws
pub mod Sorted
pub mod Evict
pub mod Clean
use obhod.Prelude.{
  ℕ, zero, suc, ◌-◌, ◌≡◌, Bool, true, false, ◌||◌, Option, none, some, List, [], ◌∷◌, if◌then◌else◌,
  Key, ◌==◌, length, take, leb, ltb,
}

abbrev pub Dict {ℓ κ} : Type ℓ → Type κ → Type (ℓ ⊔ κ)
Dict K V = List (K × V)

module _ {ℓ κ} {K : Type ℓ} {V : Type κ} where
  -- `sorted(d.items(), key=...)`: ascending and stable.
  unfoldable pub insert_by : (V → ℕ) → K × V → Dict K V → Dict K V
  insert_by score e [] = e ∷ []
  insert_by score e (f ∷ d) =
      if leb (score e.1) (score f.1) then e ∷ f ∷ d else f ∷ insert_by score e d

  unfoldable pub sort_by : (V → ℕ) → Dict K V → Dict K V
  unfolding insert_by
  sort_by score [] = []
  sort_by score (e ∷ d) = insert_by score e (sort_by score d)

  -- `[... for key, value in d.items() if p(value)]`
  unfoldable pub select : (V → Bool) → Dict K V → Dict K V
  select p [] = []
  select p ((k, v) ∷ d) = let rest = select p d in if p v then (k, v) ∷ rest else rest

module _ {ℓ κ} {K : Type ℓ} {V : Type κ} ⦃e : Key K⦄ where
  -- `d.get(k)`
  unfoldable pub get : K → Dict K V → Option V
  get k [] = none
  get k ((j, v) ∷ d) = if j == k then some v else get k d

  -- `k in d`
  unfoldable pub has : K → Dict K V → Bool
  has k [] = false
  has k ((j, v) ∷ d) = j == k || has k d

  -- `d[k] = v`: in place, or at the end for a new key.
  unfoldable pub put : K → V → Dict K V → Dict K V
  put k v [] = (k, v) ∷ []
  put k v ((j, w) ∷ d) = if j == k then (j, v) ∷ d else (j, w) ∷ put k v d

  -- `d.pop(k, None)`
  unfoldable pub pop : K → Dict K V → Dict K V
  pop k [] = []
  pop k ((j, v) ∷ d) = let rest = pop k d in if j == k then rest else (j, v) ∷ rest

  -- `for key, _value in l: d.pop(key, None)`
  unfoldable pub pops : Dict K V → Dict K V → Dict K V
  unfolding pop
  pops [] d = d
  pops ((k, v) ∷ l) d = pops l (pop k d)

  -- `for key in [key for key, value in d.items() if p(value)]: d.pop(key, None)`
  unfoldable pub prune : (V → Bool) → Dict K V → Dict K V
  unfolding select pops
  prune p d = pops (select p d) d

  -- `if len(d) > limit:` drop the lowest by `score` until `limit` are left.
  unfoldable pub drop_oldest : (V → ℕ) → ℕ → Dict K V → Dict K V
  unfolding sort_by pops
  drop_oldest score limit d =
      if ltb limit (length d) then pops (take (length d - limit) (sort_by score d)) d else d

  -- No key stands twice.
  abbrev pub Distinct : Dict K V → Type 0
  Distinct [] = Unit
  Distinct ((k, v) ∷ d) = (has k d ≡ false) × Distinct d
