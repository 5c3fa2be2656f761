-- ===== src/Limiter/Tests.antt =====
-- The limiter at concrete inputs.
use obhod.Prelude.{ℕ, ◌≤◌, ◌<◌, ◌≡◌, refl, true, List, [], ◌∷◌, String, min, arith, pair_key}
use obhod.Dict.{Distinct, has, get, prune, drop_oldest, put}
use obhod.Limiter.{Bucket, Limiter, Call, allow, is_stale}
use obhod.Limiter.Sweep.{IsValid, allow-IsValid}
use obhod.Limiter.Window.{InWindow, attempts, granted, granted-eq-min}

abbrev fresh : Limiter
fresh = record { limit = 2; window = 60; max_entries = 4; buckets = [] }

abbrev call : String → ℕ → Call
call key now = record { key = key; scope = "any"; limit = 0; window = 0; now = now }

abbrev first_bucket : Bucket
first_bucket = record { window = 100; count = 2; seen = 130 }

abbrev second_bucket : Bucket
second_bucket = record { window = 110; count = 1; seen = 110 }

abbrev full : Limiter
full = record fresh {
  max_entries = 1;
  buckets = (("any", "7"), first_bucket) ∷ (("any", "8"), second_bucket) ∷ [];
}

abbrev later_calls : List Call
later_calls = call "8" 101 ∷ call "7" 110 ∷ call "7" 159 ∷ []

three_calls : granted ("any", "7") fresh (call "7" 100 ∷ later_calls) ≡ 2
unfolding granted allow get put prune drop_oldest is_stale pair_key
three_calls = refl

next_window : (allow (record full { max_entries = 4 }) (call "7" 160)).1 ≡ true
unfolding allow get put pair_key
next_window = refl

fresh-IsValid : IsValid fresh
fresh-IsValid = record { unique = tt; bounded = omega arith }

full_unique : Distinct full.buckets
unfolding has pair_key
full_unique = (refl, (refl, tt))

allow-IsValid_example : IsValid (allow fresh (call "7" 100)).0
allow-IsValid_example = allow-IsValid fresh (call "7" 100) fresh-IsValid

inside :
    (key : String) (now : ℕ)
    → 100 ≤ now
    → now < 160
    → InWindow 2 60 ("any", "7") 2 60 100 (call key now)
inside key now h k = record {
  after = h;
  before = omega arith;
  cap_eq = λ _. refl;
  span_eq = λ _. refl;
}

granted-eq-min_example : granted ("any", "7") fresh (call "7" 100 ∷ later_calls) ≡ min 3 2
unfolding get attempts pair_key
granted-eq-min_example =
    granted-eq-min fresh (call "7" 100) later_calls 2 60 fresh-IsValid tt (omega arith)
      (omega arith)
      (
        inside "7" 100 (omega arith) (omega arith),
        (
          inside "8" 101 (omega arith) (omega arith),
          (
            inside "7" 110 (omega arith) (omega arith),
            (inside "7" 159 (omega arith) (omega arith), tt),
          ),
        ),
      )
