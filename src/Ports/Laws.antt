-- ===== src/Ports/Laws.antt =====
-- A list of ports that was read is a list of distinct ports within the limit, and reads as itself.
use obhod.Prelude.{
  ℕ, zero, suc, ◌≤◌, ◌≡◌, refl, true, false, ◌||◌, List, [], ◌∷◌, ◌++◌, ◌&&◌, not, take, elem, ℤ,
  pos, negsuc, number_key, arith, length, All, map, Bool-cases, inl, inr, length-take, ◌∙◌, ap, sym,
  nat_beq, take_of_length-le,
}
use mathlib.Core.List.{append-nil, append_assoc}
use obhod.Ports.{is_port, add_port, collect, ports_upto}

abbrev pub Unique : List ℕ → Type 0
Unique [] = Unit
Unique (x ∷ xs) = (elem x xs ≡ false) × Unique xs

-- Distinct numbers from 1 to 65535.
abbrev pub ArePorts : List ℕ → Type 0
ArePorts xs = Unique xs × All (λ n. is_port n ≡ true) xs

elem-append : (x y : ℕ) (xs : List ℕ) → elem x (xs ++ y ∷ []) ≡ (elem x xs || nat_beq y x)
elem-append x y [] = ground arith
elem-append x y (z ∷ xs) = ground (arith, elem-append x y xs)

pub Unique-append : (x : ℕ) (xs : List ℕ) → elem x xs ≡ false → Unique xs → Unique (xs ++ x ∷ [])
Unique-append x [] h u = (refl, tt)
Unique-append x (y ∷ xs) h u = ground (arith, elem-append y x xs, Unique-append x xs)

All-append :
    (x : ℕ) (xs : List ℕ)
    → is_port x ≡ true
    → All (λ n. is_port n ≡ true) xs
    → All (λ n. is_port n ≡ true) (xs ++ x ∷ [])
All-append x [] h a = (h, tt)
All-append x (y ∷ xs) h a = (a.0, All-append x xs h a.1)

add_port-ArePorts : (out : List ℕ) (n : ℕ) → ArePorts out → ArePorts (add_port out n)
unfolding add_port
add_port-ArePorts out n a = elim (Bool-cases (is_port n && not (elem n out))) [
  | inl new ↦ rw new (Unique-append n out (ground arith) a.0, All-append n out (ground arith) a.1)
  | inr old ↦ rw old a
]

collect-ArePorts : (out : List ℕ) (values : List ℤ) → ArePorts out → ArePorts (collect out values)
unfolding collect
collect-ArePorts out [] a = a
collect-ArePorts out (pos n ∷ values) a =
    collect-ArePorts (add_port out n) values (add_port-ArePorts out n a)
collect-ArePorts out (negsuc n ∷ values) a = collect-ArePorts out values a

elem-take : (n x : ℕ) (xs : List ℕ) → elem x xs ≡ false → elem x (take n xs) ≡ false
elem-take zero x xs h = refl
elem-take (suc n) x [] h = refl
elem-take (suc n) x (y ∷ xs) h = ground (arith, elem-take n x xs)

ArePorts-take : (n : ℕ) (xs : List ℕ) → ArePorts xs → ArePorts (take n xs)
ArePorts-take zero xs a = (tt, tt)
ArePorts-take (suc n) [] a = (tt, tt)
ArePorts-take (suc n) (x ∷ xs) a =
    let (u, p) = ArePorts-take n xs (a.0.1, a.1.1) in ((elem-take n x xs a.0.0, u), (a.1.0, p))

pub ports_upto-ArePorts :
    (limit : ℕ) (values : List ℤ)
    → ArePorts (ports_upto limit values) × (length (ports_upto limit values) ≤ limit)
unfolding ports_upto
ports_upto-ArePorts limit values = (
  ArePorts-take limit (collect [] values) (collect-ArePorts [] values (tt, tt)),
  omega (arith, length-take limit (collect [] values)),
)

-- The numbers that come next are none of those that are there.
abbrev Apart : List ℕ → List ℕ → Type 0
Apart out xs = All (λ n. elem n out ≡ false) xs

Apart-append :
    (out xs : List ℕ) (n : ℕ) → elem n xs ≡ false → Apart out xs → Apart (out ++ n ∷ []) xs
Apart-append out [] n h a = tt
Apart-append out (x ∷ xs) n h a =
    (ground (arith, elem-append x n out), Apart-append out xs n (ground arith) a.1)

add_port_new :
    (out : List ℕ) (n : ℕ) → is_port n ≡ true → elem n out ≡ false → add_port out n ≡ out ++ n ∷ []
unfolding add_port
add_port_new out n h k = rw (h, k) refl

collect_ports :
    (out xs : List ℕ) → ArePorts xs → Apart out xs → collect out (map pos xs) ≡ out ++ xs
unfolding collect
collect_ports out [] a h = sym (append-nil out)
collect_ports out (x ∷ xs) a h =
    ap (λ (o : List ℕ). collect o (map pos xs)) (add_port_new out x a.1.0 h.0)
    ∙ collect_ports (out ++ x ∷ []) xs (a.0.1, a.1.1) (Apart-append out xs x a.0.0 h.1)
    ∙ append_assoc out (x ∷ []) xs

Apart-nil : (xs : List ℕ) → Apart [] xs
Apart-nil [] = tt
Apart-nil (x ∷ xs) = (refl, Apart-nil xs)

-- Distinct ports within the limit are read as they are.
pub ports_upto_self :
    (limit : ℕ) (xs : List ℕ) → ArePorts xs → length xs ≤ limit → ports_upto limit (map pos xs) ≡ xs
unfolding ports_upto
ports_upto_self limit xs a h =
    ap (take limit) (collect_ports [] xs a (Apart-nil xs)) ∙ take_of_length-le limit xs h
