-- ===== src/Traffic.antt =====
-- BOT/traffic.py: what each client has sent and received, from the counters of the interface and
-- the history that the last poll left. A counter is a natural number of bytes; a speed is the bytes
-- with the ticks that they took. `second` ticks make a second, and `day_of` gives the date of a
-- time, from the calendar of Python's `time`. The rows are those before they are sorted.
pub mod Days
pub mod Rows
mod Tests
use obhod.Prelude.{
  ℕ, zero, suc, ◌+◌, ◌-◌, max, Bool, true, false, ◌||◌, not, Option, none, some, List, [], ◌∷◌,
  ◌++◌, String, ltb, nat_beq, if◌then◌else◌, text_key, elem, map,
}
use obhod.Dict.{Dict, get, put, pop}

pub record Peer : Type 0 where
  pub pub_key : String
  pub endpoint : String
  pub hs : ℕ
  pub rx : ℕ
  pub tx : ℕ

pub record Sample : Type 0 where
  pub at : ℕ
  pub rx : ℕ
  pub tx : ℕ

pub record Rate : Type 0 where
  pub bytes : ℕ
  pub span : ℕ

abbrev pub no_rate : Rate
no_rate = record { bytes = 0; span = 1 }

pub record Usage : Type 0 where
  pub name : String
  pub pub_key : String
  pub rx : ℕ
  pub tx : ℕ
  pub hs : ℕ
  pub endpoint : String
  pub down : Rate
  pub up : Rate
  pub first_at : ℕ
  pub owner : Bool
  pub day_at : ℕ
  pub rx0 : ℕ
  pub tx0 : ℕ

abbrev pub new_usage : Usage
new_usage = record {
  name = "";
  pub_key = "";
  rx = 0;
  tx = 0;
  hs = 0;
  endpoint = "";
  down = no_rate;
  up = no_rate;
  first_at = 0;
  owner = false;
  day_at = 0;
  rx0 = 0;
  tx0 = 0;
}

-- `day_rx` and `day_tx`, where the subtraction stops at 0.
abbrev pub day_rx : Usage → ℕ
day_rx u = u.rx - u.rx0

abbrev pub day_tx : Usage → ℕ
day_tx u = u.tx - u.tx0

pub record Client : Type 0 where
  pub name : String
  pub pub_key : String
  pub owner : Bool

pub record Traffic : Type 0 where
  pub peers : Dict String Peer
  pub samples : Dict String Sample

-- The two speeds since the last sample, which must be a second old.
abbrev pub rates : ℕ → ℕ → Peer → Option Sample → Rate × Rate
rates second now peer none = (no_rate, no_rate)
rates second now peer (some previous) =
    if ltb now (previous.at + second) then (no_rate, no_rate) else (
      record { bytes = peer.rx - previous.rx; span = now - previous.at },
      record { bytes = peer.tx - previous.tx; span = now - previous.at },
    )

unfoldable pub sample_peer : ℕ → ℕ → String → Option Peer → Traffic → Traffic × (Rate × Rate)
sample_peer second now key none t = (record t { samples = pop key t.samples }, (no_rate, no_rate))
sample_peer second now key (some peer) t = (
  record t { samples = put key (record { at = now; rx = peer.rx; tx = peer.tx }) t.samples },
  rates second now peer (get key t.samples),
)

unfoldable pub sample : ℕ → ℕ → String → Traffic → Traffic × (Rate × Rate)
unfolding sample_peer
sample second now key t = sample_peer second now key (get key t.peers) t

-- The start of the day's count: the time, and the two counters at that time.
unfoldable pub day_base : (ℕ → ℕ) → ℕ → Usage → ℕ → ℕ → ℕ × ℕ × ℕ
day_base day_of now stored rx tx =
    let stale = not (nat_beq (day_of stored.day_at) (day_of now)) in
    let rolled = ltb rx stored.rx0 || ltb tx stored.tx0 in
    if stale || rolled || nat_beq stored.day_at 0
    then (now, rx, tx)
    else (stored.day_at, stored.rx0, stored.tx0)

-- `peer.x if peer else default`
abbrev pub from_peer {ℓ} : {A : Type ℓ} → A → (Peer → A) → Option Peer → A
from_peer default field none = default
from_peer default field (some peer) = field peer

-- The row of a client, from the stored one, the peer if it is there, and the speeds.
unfoldable pub row_of : (ℕ → ℕ) → ℕ → Client → Usage → Option Peer → Rate × Rate → Usage
unfolding day_base
row_of day_of now client stored peer speeds =
    let rx = max (from_peer 0 (λ p. p.rx) peer) stored.rx in
    let tx = max (from_peer 0 (λ p. p.tx) peer) stored.tx in
    let base = day_base day_of now stored rx tx in
    record {
      name = client.name;
      pub_key = client.pub_key;
      rx = rx;
      tx = tx;
      hs = from_peer stored.hs (λ p. p.hs) peer;
      endpoint = from_peer "" (λ p. p.endpoint) peer;
      down = speeds.0;
      up = speeds.1;
      first_at =
          if nat_beq stored.first_at 0 then from_peer 0 (λ p. p.hs) peer else stored.first_at;
      owner = client.owner;
      day_at = base.0;
      rx0 = base.1;
      tx0 = base.2;
    }

abbrev pub stored_of : Option Usage → Usage
stored_of none = new_usage
stored_of (some u) = u

-- One round of the first loop of `usage`.
unfoldable pub client_row : (ℕ → ℕ) → ℕ → ℕ → Dict String Usage → Client → Traffic → Traffic × Usage
unfolding row_of
client_row day_of second now saved client t =
    let step = sample second now client.pub_key t in
    let stored = stored_of (get client.name saved) in
    let peer = get client.pub_key t.peers in
    let sampled = from_peer (t, (no_rate, no_rate)) (λ p. step) peer in
    (sampled.0, row_of day_of now client stored peer sampled.1)

unfoldable pub client_rows :
    (ℕ → ℕ) → ℕ → ℕ → Dict String Usage → List Client → Traffic → Traffic × List Usage
unfolding client_row
client_rows day_of second now saved [] t = (t, [])
client_rows day_of second now saved (client ∷ clients) t =
    let step = client_row day_of second now saved client t in
    let rest = client_rows day_of second now saved clients step.0 in (rest.0, step.1 ∷ rest.1)
