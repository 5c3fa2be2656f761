-- ===== src/SubServer/Throttle.antt =====
-- Storage/remote/sub_server.py, from `Bucket` to `reset_buckets`: the throttle in front of every
-- request. The global BUCKETS is the state. Readings of `time.monotonic()` are arguments in ticks,
-- and `Config.second` is the number of ticks in a second. RATE_LIMIT and BLOCKING come from the
-- environment. An entry that the source mutates in place is written back by `put`.
pub mod Entry
pub mod Blocks
pub mod Forgets
mod Tests
use obhod.Prelude.{
  ℕ, zero, suc, ◌+◌, ◌-◌, ◌*◌, ◌^◌, min, Bool, true, false, Option, none, some, List, [], ◌∷◌,
  String, if◌then◌else◌, leb, ltb, text_key,
}
use obhod.Dict.{Dict, get, put, prune, drop_oldest}

pub record Config : Type 0 where
  pub second : ℕ
  pub rate_limit : ℕ
  pub blocking : Bool

pub record Bucket : Type 0 where
  pub window : ℕ
  pub count : ℕ
  pub seen : ℕ
  pub blocked_until : ℕ
  pub misses : ℕ
  pub offences : ℕ

pub data Reason : Type 0 where
  sub_rate sub_miss : Reason

abbrev pub Buckets : Type 0
Buckets = Dict String Bucket

abbrev pub bucket_limit : ℕ
bucket_limit = 4096

abbrev pub not_found_step : ℕ
not_found_step = 10

abbrev pub rate_window : Config → ℕ
rate_window cfg = 60 * cfg.second

-- `Bucket(now)`
abbrev pub new_bucket : ℕ → Bucket
new_bucket now = record {
  window = now;
  count = 0;
  seen = now;
  blocked_until = 0;
  misses = 0;
  offences = 0;
}

-- `entry = BUCKETS.get(ip)`, or a new one.
unfoldable pub entry_of : Option Bucket → ℕ → Bucket
entry_of none now = new_bucket now
entry_of (some b) now = b

-- What `throttle_state` does to the entry.
unfoldable pub count_request : Config → ℕ → Bucket → Bucket
count_request cfg now b =
    if leb (b.window + rate_window cfg) now
    then record b { window = now; count = 1; seen = now }
    else record b { count = b.count + 1; seen = now }

unfoldable pub is_stale : Config → ℕ → Bucket → Bool
is_stale cfg now b = ltb (b.seen + rate_window cfg * 2) now

unfoldable pub sweep : Config → ℕ → Buckets → Buckets
sweep cfg now d = drop_oldest (λ b. b.seen) bucket_limit (prune (is_stale cfg now) d)

unfoldable pub penalty_of : Config → Bucket → ℕ
penalty_of cfg b = min (3600 * cfg.second) (60 * cfg.second * 2 ^ (b.offences - 1))

unfoldable pub block_for : Config → ℕ → Bucket → Bucket
unfolding penalty_of
block_for cfg now b =
    let b' = record b { offences = min 8 (b.offences + 1) } in
    record b' { blocked_until = now + penalty_of cfg b' }

-- The two tests of `throttled`, for an entry that is not blocked.
unfoldable pub judge : Config → ℕ → Bucket → Bucket × Option Reason
unfolding block_for
judge cfg now b =
    if ltb cfg.rate_limit b.count
    then (if cfg.blocking then block_for cfg now b else b, some sub_rate)
    else if leb not_found_step b.misses
    then (if cfg.blocking then record (block_for cfg now b) { misses = 0 } else b, some sub_miss)
    else (b, none)

abbrev pub is_some {ℓ} : {A : Type ℓ} → Option A → Bool
is_some none = false
is_some (some a) = true

-- The entry of the address after `throttle_state`.
unfoldable pub counted : Config → String → ℕ → Buckets → Bucket
unfolding count_request entry_of
counted cfg ip now d = count_request cfg now (entry_of (get ip d) now)

-- The buckets, whether the request is refused, and the reason that is written to the security log.
unfoldable pub throttled : Config → String → ℕ → Buckets → Buckets × Bool × Option Reason
throttled cfg ip now d =
    let entry = counted cfg ip now d in
    let (entry', reason) = judge cfg now entry in
    if ltb now entry.blocked_until
    then (put ip entry d, true, none)
    else (sweep cfg now (put ip entry' d), is_some reason, if cfg.blocking then reason else none)

-- What `record_miss` does to the entry.
unfoldable pub miss_entry : Config → Bool → ℕ → Bucket → Bucket
miss_entry cfg true now b = record b { seen = now; misses = b.misses + 1 }
miss_entry cfg false now b =
    if leb b.count cfg.rate_limit
    then record b { seen = now; offences = 0; misses = 0 }
    else record b { seen = now }

unfoldable pub record_miss : Config → String → Bool → ℕ → Buckets → Buckets
record_miss cfg ip missing now d = put ip (miss_entry cfg missing now (entry_of (get ip d) now)) d

unfoldable pub reset_buckets : Buckets → Buckets
reset_buckets d = []
