-- ===== src/Traffic/Days.antt =====
-- The counts of one client over many polls, each of which reads the history that the last one left.
use obhod.Prelude.{ℕ, ◌≤◌, ◌-◌, ◌≡◌, ◌≢◌, refl, max, Option, List, [], ◌∷◌, arith, All, ap, ◌∙◌}
use obhod.Traffic.{Peer, Usage, Client, Rate, day_base, from_peer, row_of, day_rx, day_tx}

-- A poll: its time, what the interface says of the client, and the speeds.
pub record Poll : Type 0 where
  pub now : ℕ
  pub peer : Option Peer
  pub speeds : Rate × Rate

unfoldable pub polled : (ℕ → ℕ) → Client → Usage → List Poll → Usage
polled day_of client stored [] = stored
polled day_of client stored (p ∷ polls) =
    polled day_of client (row_of day_of p.now client stored p.peer p.speeds) polls

-- The highest of the counters that the polls read.
abbrev pub highest : (Peer → ℕ) → ℕ → List Poll → ℕ
highest field start [] = start
highest field start (p ∷ polls) = highest field (max (from_peer 0 field p.peer) start) polls

-- After any number of polls the two counts are the highest that were stored or read.
pub polled-highest :
    (day_of : ℕ → ℕ) (client : Client) (stored : Usage) (polls : List Poll)
    → ((polled day_of client stored polls).rx ≡ highest (λ p. p.rx) stored.rx polls)
      × ((polled day_of client stored polls).tx ≡ highest (λ p. p.tx) stored.tx polls)
unfolding polled row_of
polled-highest day_of client stored [] = (refl, refl)
polled-highest day_of client stored (p ∷ polls) =
    polled-highest day_of client (row_of day_of p.now client stored p.peer p.speeds) polls

highest_low :
    (field : Peer → ℕ) (start : ℕ) (polls : List Poll)
    → All (λ (p : Poll). from_peer 0 field p.peer ≤ start) polls
    → highest field start polls ≡ start
highest_low field start [] low = refl
highest_low field start (p ∷ polls) low =
    let same : max (from_peer 0 field p.peer) start ≡ start = omega (arith, low.0) in
    ap (λ n. highest field n polls) same ∙ highest_low field start polls low.1

-- The day began at `at`, with these two counts.
record Began (at rx tx : ℕ) (u : Usage) : Type 0 where
  pub since : u.day_at ≡ at
  pub base_rx : u.rx0 ≡ rx
  pub base_tx : u.tx0 ≡ tx
  pub above_rx : rx ≤ u.rx
  pub above_tx : tx ≤ u.tx

module _ (day_of : ℕ → ℕ) (client : Client) where
  row_of-Began :
      (p : Poll) (stored : Usage) (at rx tx : ℕ)
      → at ≢ 0
      → day_of p.now ≡ day_of at
      → Began at rx tx stored
      → Began at rx tx (row_of day_of p.now client stored p.peer p.speeds)
  unfolding row_of day_base
  row_of-Began p stored at rx tx started same b =
      let today : day_of stored.day_at ≡ day_of p.now = rw (b.since, same) refl in
      record {
        since = ground (arith, b.since, b.base_rx, b.base_tx, b.above_rx, b.above_tx);
        base_rx = ground (arith, b.since, b.base_rx, b.base_tx, b.above_rx, b.above_tx);
        base_tx = ground (arith, b.since, b.base_rx, b.base_tx, b.above_rx, b.above_tx);
        above_rx = omega (arith, b.above_rx, b.above_tx);
        above_tx = omega (arith, b.above_rx, b.above_tx);
      }

  polled-Began :
      (stored : Usage) (polls : List Poll) (at rx tx : ℕ)
      → at ≢ 0
      → All (λ (p : Poll). day_of p.now ≡ day_of at) polls
      → Began at rx tx stored
      → Began at rx tx (polled day_of client stored polls)
  unfolding polled
  polled-Began stored [] at rx tx started days b = b
  polled-Began stored (p ∷ polls) at rx tx started days b =
      polled-Began (row_of day_of p.now client stored p.peer p.speeds) polls at rx tx started days.1
        (row_of-Began p stored at rx tx started days.0 b)

  first-Began :
      (p : Poll) (stored : Usage)
      → day_of stored.day_at ≢ day_of p.now
      → Began p.now
          (max (from_peer 0 (λ p. p.rx) p.peer) stored.rx)
          (max (from_peer 0 (λ p. p.tx) p.peer) stored.tx)
          (row_of day_of p.now client stored p.peer p.speeds)
  unfolding row_of day_base
  first-Began p stored other = record {
    since = ground arith;
    base_rx = ground arith;
    base_tx = ground arith;
    above_rx = omega arith;
    above_tx = omega arith;
  }

  polled_first :
      (p : Poll) (polls : List Poll) (stored : Usage)
      → p.now ≢ 0
      → day_of stored.day_at ≢ day_of p.now
      → All (λ (q : Poll). day_of q.now ≡ day_of p.now) polls
      → Began p.now
          (max (from_peer 0 (λ p. p.rx) p.peer) stored.rx)
          (max (from_peer 0 (λ p. p.tx) p.peer) stored.tx)
          (polled day_of client stored (p ∷ polls))
  unfolding polled
  polled_first p polls stored started other days =
      polled-Began (row_of day_of p.now client stored p.peer p.speeds) polls p.now _ _ started days
        (first-Began p stored other)

  -- After the polls of one day, of which the first finds the history of another day, the traffic of
  -- the day is what the counts have grown by since that first poll.
  pub polled_day :
      (p : Poll) (polls : List Poll) (stored : Usage)
      → p.now ≢ 0
      → day_of stored.day_at ≢ day_of p.now
      → All (λ (q : Poll). day_of q.now ≡ day_of p.now) polls
      → (day_rx (polled day_of client stored (p ∷ polls))
          ≡ highest (λ p. p.rx) stored.rx (p ∷ polls)
            - max (from_peer 0 (λ p. p.rx) p.peer) stored.rx)
        × (day_tx (polled day_of client stored (p ∷ polls))
            ≡ highest (λ p. p.tx) stored.tx (p ∷ polls)
              - max (from_peer 0 (λ p. p.tx) p.peer) stored.tx)
  polled_day p polls stored started other days =
      let (rx, tx) = polled-highest day_of client stored (p ∷ polls) in
      let b : Began p.now (max (from_peer 0 (λ p. p.rx) p.peer) stored.rx)
          (max (from_peer 0 (λ p. p.tx) p.peer) stored.tx)
          (polled day_of client stored (p ∷ polls)) =
        polled_first p polls stored started other days in
      (rw (rx, b.base_rx) refl, rw (tx, b.base_tx) refl)

  -- A counter that starts again from 0 adds nothing to the count until it has passed the stored one.
  pub restart_lost :
      (stored : Usage) (polls : List Poll)
      → All (λ (p : Poll). from_peer 0 (λ p. p.rx) p.peer ≤ stored.rx) polls
      → (polled day_of client stored polls).rx ≡ stored.rx
  restart_lost stored polls low =
      (polled-highest day_of client stored polls).0 ∙ highest_low (λ p. p.rx) stored.rx polls low
