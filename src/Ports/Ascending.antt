-- ===== src/Ports/Ascending.antt =====
-- `sorted(set(ports))`: the numbers in strictly ascending order.
use obhod.Prelude.{
  ℕ, ◌<◌, ◌≡◌, refl, ◌||◌, List, [], ◌∷◌, if◌then◌else◌, ltb, nat_beq, elem, number_key, arith, All,
}

unfoldable pub insert_port : ℕ → List ℕ → List ℕ
insert_port p [] = p ∷ []
insert_port p (q ∷ ports) =
    let rest = insert_port p ports in
    if ltb p q then p ∷ q ∷ ports else if nat_beq p q then q ∷ ports else q ∷ rest

unfoldable pub sort_set : List ℕ → List ℕ
unfolding insert_port
sort_set [] = []
sort_set (p ∷ ports) = insert_port p (sort_set ports)

elem-insert_port :
    (x p : ℕ) (ports : List ℕ) → elem x (insert_port p ports) ≡ (nat_beq p x || elem x ports)
unfolding insert_port
elem-insert_port x p [] = ground arith
elem-insert_port x p (q ∷ ports) = ground (arith, elem-insert_port x p ports)

pub elem-sort_set : (x : ℕ) (ports : List ℕ) → elem x (sort_set ports) ≡ elem x ports
unfolding sort_set
elem-sort_set x [] = refl
elem-sort_set x (p ∷ ports) =
    ground (arith, elem-insert_port x p (sort_set ports), elem-sort_set x ports)

abbrev pub Ascending : List ℕ → Type 0
Ascending [] = Unit
Ascending (p ∷ ports) = All (λ q. p < q) ports × Ascending ports

All-above :
    (x p : ℕ) (ports : List ℕ)
    → x < p
    → All (λ q. x < q) ports
    → All (λ q. x < q) (insert_port p ports)
unfolding insert_port
All-above x p [] h a = (h, tt)
All-above x p (q ∷ ports) h a = ground (arith, All-above x p ports h a.1)

Above-weaken : (x y : ℕ) (ports : List ℕ) → x < y → All (λ q. y < q) ports → All (λ q. x < q) ports
Above-weaken x y [] h a = tt
Above-weaken x y (p ∷ ports) h a = (omega arith, Above-weaken x y ports h a.1)

Ascending-insert_port : (p : ℕ) (ports : List ℕ) → Ascending ports → Ascending (insert_port p ports)
unfolding insert_port
Ascending-insert_port p [] a = (tt, tt)
Ascending-insert_port p (q ∷ ports) a =
    ground (arith, Ascending-insert_port p ports a.1, All-above q p ports, Above-weaken p q ports)

pub Ascending-sort_set : (ports : List ℕ) → Ascending (sort_set ports)
unfolding sort_set
Ascending-sort_set [] = tt
Ascending-sort_set (p ∷ ports) = Ascending-insert_port p (sort_set ports) (Ascending-sort_set ports)
