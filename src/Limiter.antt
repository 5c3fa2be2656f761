-- ===== src/Limiter.antt =====
-- BOT/ratelimit.py: the fixed-window limiter of the chat front end. `Limiter` is the class with its
-- fields, `allow` and `sweep` its methods. A reading of `time.monotonic()` is an argument, a natural
-- number of ticks; `now - t >= span` is written `t + span <= now`, which needs no signed numbers.
-- The bucket object that `allow` mutates after it stands in the dictionary is written back by `put`.
pub mod Sweep
pub mod Window
mod Tests
use obhod.Prelude.{
  ℕ, zero, suc, ◌+◌, ◌*◌, Bool, Option, none, some, List, [], ◌∷◌, String, if◌then◌else◌, leb, ltb,
  pair_key, nat_beq,
}
use obhod.Dict.{Dict, get, put, prune, drop_oldest}

pub record Bucket : Type 0 where
  pub window : ℕ
  pub count : ℕ
  pub seen : ℕ

pub record Limiter : Type 0 where
  pub limit : ℕ
  pub window : ℕ
  pub max_entries : ℕ
  pub buckets : Dict (String × String) Bucket

-- `int(limit or self.limit)` and `float(window or self.window)`
abbrev pub or_default : ℕ → ℕ → ℕ
or_default given default = if nat_beq given 0 then default else given

-- `sweep`: first the stale buckets go, then the least recently seen ones above `max_entries`.
unfoldable pub is_stale : ℕ → ℕ → Bucket → Bool
is_stale window now b = ltb (b.seen + window * 2) now

unfoldable pub sweep : Limiter → ℕ → Limiter
sweep l now = record l {
  buckets = drop_oldest (λ b. b.seen) l.max_entries (prune (is_stale l.window now) l.buckets);
}

-- The bucket of a name, or a new one.
unfoldable pub bucket_of : Option Bucket → ℕ → Bucket
bucket_of none now = record { window = now; count = 0; seen = now }
bucket_of (some b) now = b

-- One more call in the bucket, in a new window if the old one has passed.
unfoldable pub touch : ℕ → ℕ → Bucket → Bucket
touch span now b =
    if leb (b.window + span) now
    then record { window = now; count = 1; seen = now }
    else record { window = b.window; count = b.count + 1; seen = now }

pub record Call : Type 0 where
  pub key : String
  pub scope : String
  pub limit : ℕ
  pub window : ℕ
  pub now : ℕ

abbrev pub name_of : Call → String × String
name_of c = (c.scope, c.key)

-- The bucket after a call, as `allow` reads it for its answer.
unfoldable pub bucket_after : Limiter → Call → Bucket
unfolding touch bucket_of
bucket_after l c =
    touch (or_default c.window l.window) c.now (bucket_of (get (name_of c) l.buckets) c.now)

unfoldable pub allow : Limiter → Call → Limiter × Bool
unfolding bucket_after sweep
allow l c =
    let bucket = bucket_after l c in
    (
      sweep (record l { buckets = put (name_of c) bucket l.buckets }) c.now,
      leb bucket.count (or_default c.limit l.limit),
    )
