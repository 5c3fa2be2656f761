-- ===== src/Traffic/Tests.antt =====
-- The counts at concrete inputs: a day has 100 ticks.
use obhod.Prelude.{ℕ, ◌/◌, ◌-◌, ◌≡◌, refl, max, some, [], ◌∷◌, arith, false, text_key}
use obhod.Traffic.{Peer, Usage, Client, Traffic, new_usage, no_rate, day_rx, day_tx}
use obhod.Traffic.Days.{Poll, polled, highest, polled_day}

abbrev day : ℕ → ℕ
day now = now / 100

abbrev client : Client
client = record { name = "anna"; pub_key = "k"; owner = false }

abbrev peer : ℕ → ℕ → Peer
peer rx tx = record { pub_key = "k"; endpoint = ""; hs = 1; rx = rx; tx = tx }

abbrev poll : ℕ → ℕ → ℕ → Poll
poll now rx tx = record { now = now; peer = some (peer rx tx); speeds = (no_rate, no_rate) }

abbrev stored : Usage
stored = record new_usage { rx = 500; tx = 50; day_at = 150; rx0 = 400; tx0 = 50 }

polled_day_example :
    (day_rx (polled day client stored (poll 210 600 60 ∷ poll 220 900 70 ∷ []))
      ≡ highest (λ p. p.rx) 500 (poll 210 600 60 ∷ poll 220 900 70 ∷ []) - max 600 500)
    × (day_tx (polled day client stored (poll 210 600 60 ∷ poll 220 900 70 ∷ []))
        ≡ highest (λ p. p.tx) 50 (poll 210 600 60 ∷ poll 220 900 70 ∷ []) - max 60 50)
polled_day_example =
    polled_day day client (poll 210 600 60) (poll 220 900 70 ∷ []) stored (ground arith)
      (ground arith) (refl, tt)

abbrev traffic : Traffic
traffic = record { peers = ("k", peer 600 60) ∷ []; samples = [] }
