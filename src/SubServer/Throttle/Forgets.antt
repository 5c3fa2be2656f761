-- ===== src/SubServer/Throttle/Forgets.antt =====
-- What the sweep and the switch of OBHOD_SUB_BLOCK do to blocks and misses, and the size of the
-- table.
use obhod.Prelude.{
  ℕ, ◌+◌, ◌*◌, ◌≤◌, ◌<◌, ◌≡◌, refl, true, false, none, some, List, [], ◌∷◌, String, ◌==◌, text_key,
  arith, length, Bool-cases, Option-cases, inl, inr, ltb, ◌∙◌, lt→ltb, subst, sym, ap, map,
  same_refl,
}
use obhod.Dict.{get, put, Distinct}
use obhod.Dict.Laws.{get-put, Distinct-put, length-put_present}
use obhod.Dict.Clean.{length-clean, get-clean_gone, get-clean-put}
use obhod.SubServer.Throttle.{
  Config, Bucket, Buckets, counted, judge, is_stale, sweep, throttled, rate_window, bucket_limit,
  is_some, not_found_step,
}
use obhod.SubServer.Throttle.Blocks.{
  request, counted_there, step, served, throttled_refused, throttled_judged, step-Distinct,
  length-step,
}

counted_new :
    (cfg : Config) (ip : String) (now : ℕ) (d : Buckets)
    → get ip d ≡ none
    → ((counted cfg ip now d).blocked_until ≡ 0)
      × ((counted cfg ip now d).count ≡ 1)
      × ((counted cfg ip now d).misses ≡ 0)
unfolding counted
counted_new cfg ip now d h = rw h (ground arith)

-- An address that has no entry is served, if the rate limit is at least one.
new_served :
    (cfg : Config) (ip : String) (now : ℕ) (d : Buckets)
    → 1 ≤ cfg.rate_limit
    → get ip d ≡ none
    → (throttled cfg ip now d).1 ≡ false
unfolding throttled judge
new_served cfg ip now d few h =
    let (never, once, clean) = counted_new cfg ip now d h in ground arith

-- A block is forgotten: once an address has not been seen for two rate windows, the next request
-- of another address that is not itself blocked sweeps its entry, whatever its `blocked_until` is,
-- and its own next request, at any time, is served, if the rate limit is at least one.
pub block_forgotten :
    (cfg : Config) (ip j : String) (now later : ℕ) (d : Buckets) (b : Bucket)
    → 1 ≤ cfg.rate_limit
    → Distinct d
    → get ip d ≡ some b
    → b.seen + rate_window cfg * 2 < now
    → (j == ip) ≡ false
    → (counted cfg j now d).blocked_until ≤ now
    → (throttled cfg ip later (throttled cfg j now d).0).1 ≡ false
unfolding sweep is_stale
block_forgotten cfg ip j now later d b few h there silent other free =
    let swept = put j (judge cfg now (counted cfg j now d)).0 d in
    let gone : get ip (throttled cfg j now d).0 ≡ none =
      ap (get ip) (throttled_judged cfg j now d (ground arith))
      ∙ get-clean_gone (λ (c : Bucket). c.seen) bucket_limit (is_stale cfg now) swept ip b
          (Distinct-put j (judge cfg now (counted cfg j now d)).0 d h)
          (rw (get-put j ip (judge cfg now (counted cfg j now d)).0 d, other) there)
          (lt→ltb _ _ silent) in
    new_served cfg ip later (throttled cfg j now d).0 few gone

refused_there :
    (cfg : Config) (ip : String) (now : ℕ) (d : Buckets)
    → ltb now (counted cfg ip now d).blocked_until ≡ true
    → (b : Bucket) × (get ip d ≡ some b)
refused_there cfg ip now d h = elim (Option-cases (get ip d)) [
  | inl fresh ↦ absurd (ground (arith, (counted_new cfg ip now d fresh).0))
  | inr found ↦ found
]

throttled_small :
    (cfg : Config) (ip : String) (now : ℕ) (d : Buckets)
    → Distinct d
    → length d ≤ bucket_limit
    → length (throttled cfg ip now d).0 ≤ bucket_limit
unfolding sweep
throttled_small cfg ip now d h small =
    elim (Bool-cases (ltb now (counted cfg ip now d).blocked_until)) [
      | inl blocked ↦
          let (b, found) = refused_there cfg ip now d blocked in
          let kept = length-put_present ip (counted cfg ip now d) b d found in
          subst (λ (r : Buckets). length r ≤ bucket_limit)
            (sym (throttled_refused cfg ip now d blocked)) (omega (arith, kept))
      | inr free ↦
          subst (λ (r : Buckets). length r ≤ bucket_limit)
            (sym (throttled_judged cfg ip now d free))
            (length-clean (λ (c : Bucket). c.seen) bucket_limit (is_stale cfg now)
              (put ip (judge cfg now (counted cfg ip now d)).0 d)
              (Distinct-put ip (judge cfg now (counted cfg ip now d)).0 d h))
    ]

-- A request keeps the keys unique and at most `bucket_limit` entries in the table.
pub length-throttled :
    (cfg : Config) (ip : String) (now : ℕ) (d : Buckets)
    → Distinct d
    → length d ≤ bucket_limit
    → Distinct (throttled cfg ip now d).0 × (length (throttled cfg ip now d).0 ≤ bucket_limit)
unfolding step
length-throttled cfg ip now d h small =
    (step-Distinct cfg (request ip now) d h, throttled_small cfg ip now d h small)

-- The entry of the address has at least ten misses.
pub record IsMissing (ip : String) (d : Buckets) : Type 0 where
  pub entry : Bucket
  pub there : get ip d ≡ some entry
  pub many : not_found_step ≤ entry.misses

judge_missing :
    (cfg : Config) (now : ℕ) (b : Bucket)
    → cfg.blocking ≡ false
    → not_found_step ≤ b.misses
    → ((judge cfg now b).0 ≡ b) × (is_some (judge cfg now b).1 ≡ true)
unfolding judge
judge_missing cfg now b off many = ground arith

miss_step :
    (cfg : Config) (ip : String) (now : ℕ) (d : Buckets)
    → cfg.blocking ≡ false
    → Distinct d
    → length d + 1 ≤ bucket_limit
    → IsMissing ip d
    → IsMissing ip (throttled cfg ip now d).0 × ((throttled cfg ip now d).1 ≡ true)
unfolding throttled sweep is_stale
miss_step cfg ip now d off h room m =
    let (_, seen, misses) = counted_there cfg ip now d m.entry m.there in
    let (same_entry, refused) =
      judge_missing cfg now (counted cfg ip now d) off (omega (arith, misses, m.many)) in
    elim (Bool-cases (ltb now (counted cfg ip now d).blocked_until)) [
      | inl blocked ↦ rw blocked (
        record {
          entry = counted cfg ip now d;
          there = rw (get-put ip ip (counted cfg ip now d) d, same_refl ip) refl;
          many = omega (arith, misses, m.many);
        },
        refl,
      )
      | inr free ↦ rw free (
        record {
          entry = counted cfg ip now d;
          there =
              get-clean-put (λ (c : Bucket). c.seen) bucket_limit (is_stale cfg now) ip
                (judge cfg now (counted cfg ip now d)).0 d h room ip (some (counted cfg ip now d))
                (rw (same_refl ip, same_entry) refl)
              ∙ ground (arith, seen);
          many = omega (arith, misses, m.many);
        },
        refused,
      )
    ]

-- With blocking off, an address that has ten misses is refused for good: none of its requests is
-- served, at any times, as long as the table has room.
pub misses_lock_out :
    (cfg : Config) (ip : String) (times : List ℕ) (d : Buckets)
    → cfg.blocking ≡ false
    → Distinct d
    → length d + length times ≤ bucket_limit
    → IsMissing ip d
    → served cfg ip d (map (request ip) times) ≡ 0
unfolding served step
misses_lock_out cfg ip [] d off h room m = refl
misses_lock_out cfg ip (now ∷ times) d off h room m =
    let (kept, refused) = miss_step cfg ip now d off h (omega arith) m in
    rw (same_refl ip, refused)
      (misses_lock_out cfg ip times (throttled cfg ip now d).0 off
        (step-Distinct cfg (request ip now) d h)
        (omega (arith, length-step cfg (request ip now) d h (omega arith))) kept)
