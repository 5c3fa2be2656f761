-- ===== src/Xray/Moves/Clear.antt =====
-- Where the ports are when `resolve_ports` is done.
use obhod.Prelude.{ℕ, ◌≤◌, ◌≡◌, refl, false, ◌||◌, List, [], ◌∷◌, ◌++◌, elem, number_key, arith}
use obhod.Chars.{Chars}
use obhod.Portguard.{is_refused}
use obhod.Xray.Moves.{Listening, Round, metric_parts, resolve_ports}

pub elem-both : (x : ℕ) (xs ys : List ℕ) → elem x (xs ++ ys) ≡ (elem x xs || elem x ys)
elem-both x [] ys = refl
elem-both x (y ∷ xs) ys = ground (arith, elem-both x xs ys)

-- A port that is free for every taker of the round.
record IsOpen (r : Round) (c : ℕ) : Type 0 where
  pub low : 1025 ≤ c
  pub high : c ≤ 65534
  pub free : is_refused (r.own ++ r.taken) c ≡ false

-- Nobody of the round is on the port.
abbrev IsFree : Round → ℕ → Type 0
IsFree r p = (elem p r.taken ≡ false) × (elem p r.own ≡ false)

-- A round leaves its takers in place and may add one.
abbrev Grows : Round → Round → Type 0
Grows r r' = (x : ℕ) → IsFree r' x → IsFree r x

abbrev pub metric_port : Listening → ℕ
metric_port s = (metric_parts s).1

module _ (used : List ℕ) (s : Listening) where
  abbrev pub at_start : Round
  at_start = record { settings = s; taken = used; own = s.inbounds; moves = [] }

  abbrev pub done : Round
  done = resolve_ports used s

  -- Neither a stranger nor an inbound is on the port.
  abbrev pub IsClear : ℕ → Type 0
  IsClear p = (elem p used ≡ false) × (elem p s.inbounds ≡ false)
