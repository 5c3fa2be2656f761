-- ===== src/SubServer/Throttle/Entry.antt =====
-- What the throttle decides about one entry.
use obhod.Prelude.{
  ℕ, suc, ◌+◌, ◌-◌, ◌*◌, ◌^◌, min, if◌then◌else◌, leb, ltb, ◌≤◌, ◌≡◌, arith, ◌||◌, ◌&&◌, ap,
}
use native.Mathlib.Nat.{mul-le-mul_left, one-le-pow, pow-suc}
use obhod.SubServer.Throttle.{Config, Bucket, judge, penalty_of, not_found_step}

-- A penalty lasts from one minute to one hour.
pub penalty_of_bounds :
    (cfg : Config) (b : Bucket)
    → (60 * cfg.second ≤ penalty_of cfg b) × (penalty_of cfg b ≤ 3600 * cfg.second)
unfolding penalty_of
penalty_of_bounds cfg b =
    let grown : 60 * cfg.second * 1 ≤ 60 * cfg.second * 2 ^ (b.offences - 1) =
      mul-le-mul_left (60 * cfg.second) (one-le-pow (b.offences - 1) 2 (omega arith)) in
    (omega arith, omega arith)

penalty_of-suc :
    (cfg : Config) (b : Bucket) (n : ℕ)
    → b.offences ≡ suc n
    → penalty_of cfg b ≡ min (3600 * cfg.second) (60 * cfg.second * 2 ^ n)
unfolding penalty_of
penalty_of-suc cfg b n e =
    let k : b.offences - 1 ≡ n = omega arith in
    ap (λ (i : ℕ). min (3600 * cfg.second) (60 * cfg.second * 2 ^ i)) k

-- One more offence doubles the penalty, until it is an hour.
pub penalty_of_double :
    (cfg : Config) (b b' : Bucket) (n : ℕ)
    → b.offences ≡ suc n
    → b'.offences ≡ suc (suc n)
    → penalty_of cfg b' ≡ min (3600 * cfg.second) (2 * penalty_of cfg b)
penalty_of_double cfg b b' n e e' =
    rw (penalty_of-suc cfg b' (suc n) e', penalty_of-suc cfg b n e, pow-suc) (omega arith)

-- For an entry that is not blocked at the moment: with blocking on, a request above the rate limit
-- or after ten misses blocks the address until `now` and the penalty of one more offence (eight at
-- most), and any other request, or any request with blocking off, leaves `blocked_until` alone.
pub judge_blocks :
    (cfg : Config) (now : ℕ) (b : Bucket)
    → (judge cfg now b).0.blocked_until ≡ (
        if cfg.blocking && (ltb cfg.rate_limit b.count || leb not_found_step b.misses)
        then now + penalty_of cfg (record b { offences = min 8 (b.offences + 1) })
        else b.blocked_until)
unfolding judge
judge_blocks cfg now b = ground arith
