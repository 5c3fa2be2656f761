-- ===== src/SubServer/Throttle/Blocks.antt =====
-- A block holds: until it ends, and for two rate windows, its address gets nothing but refusals.
use obhod.Prelude.{
  ℕ, suc, ◌+◌, ◌*◌, ◌≤◌, ◌<◌, ◌≡◌, refl, Bool, true, false, some, List, [], ◌∷◌, String,
  if◌then◌else◌, ◌==◌, text_key, arith, length, All, Bool-cases, inl, inr, ltb, not, ◌&&◌,
  same_refl, ◌∙◌, lt→ltb, subst, sym,
}
use obhod.Dict.{get, put, Distinct}
use obhod.Dict.Laws.{get-put, Distinct-put, length-put-le}
use obhod.Dict.Clean.{Distinct-clean, get-clean-put, length-clean-put}
use obhod.SubServer.Throttle.{
  Config, Bucket, Buckets, counted, judge, is_stale, sweep, throttled, record_miss, rate_window,
  bucket_limit, miss_entry, entry_of,
}

-- What happens to the throttle: a request of an address, or a reply that `send_plain` records.
pub data Event : Type 0 where
  request : String → ℕ → Event
  reply : String → Bool → ℕ → Event

abbrev pub time : Event → ℕ
time (request ip now) = now
time (reply ip missing now) = now

unfoldable pub step : Config → Event → Buckets → Buckets
step cfg (request ip now) d = (throttled cfg ip now d).0
step cfg (reply ip missing now) d = record_miss cfg ip missing now d

-- The event is a request of the address, and it is not refused.
unfoldable pub is_served : Config → String → Event → Buckets → Bool
is_served cfg ip (request j now) d = j == ip && not (throttled cfg j now d).1
is_served cfg ip (reply j missing now) d = false

-- The requests of the address that are not refused, when the events happen in turn.
unfoldable pub served : Config → String → Buckets → List Event → ℕ
unfolding step is_served
served cfg ip d [] = 0
served cfg ip d (event ∷ events) =
    let rest = served cfg ip (step cfg event d) events in
    if is_served cfg ip event d then suc rest else rest

-- Until `until`, and seen no earlier than `since`.
pub record IsBlocked (ip : String) (since until : ℕ) (d : Buckets) : Type 0 where
  pub entry : Bucket
  pub there : get ip d ≡ some entry
  pub ends : entry.blocked_until ≡ until
  pub later : since ≤ entry.seen

pub counted_there :
    (cfg : Config) (ip : String) (now : ℕ) (d : Buckets) (b : Bucket)
    → get ip d ≡ some b
    → ((counted cfg ip now d).blocked_until ≡ b.blocked_until)
      × ((counted cfg ip now d).seen ≡ now)
      × ((counted cfg ip now d).misses ≡ b.misses)
unfolding counted
counted_there cfg ip now d b h = rw h (ground arith)

miss_entry_there :
    (cfg : Config) (ip : String) (missing : Bool) (now : ℕ) (d : Buckets) (b : Bucket)
    → get ip d ≡ some b
    → ((miss_entry cfg missing now (entry_of (get ip d) now)).blocked_until ≡ b.blocked_until)
      × ((miss_entry cfg missing now (entry_of (get ip d) now)).seen ≡ now)
unfolding miss_entry entry_of
miss_entry_there cfg ip missing now d b h = rw h (ground arith)

module _ (cfg : Config) (ip : String) (since until : ℕ) where
  abbrev pub Inside : ℕ → Type 0
  Inside now = (since ≤ now) × (now < until) × (now ≤ since + rate_window cfg * 2)

  put_own :
      (d : Buckets) (b : Bucket)
      → b.blocked_until ≡ until
      → since ≤ b.seen
      → IsBlocked ip since until (put ip b d)
  put_own d b e h = record {
    entry = b;
    there = rw (get-put ip ip b d, same_refl ip) refl;
    ends = e;
    later = h;
  }

  put_other :
      (d : Buckets) (j : String) (c : Bucket)
      → (j == ip) ≡ false
      → IsBlocked ip since until d
      → IsBlocked ip since until (put j c d)
  put_other d j c other b = record {
    entry = b.entry;
    there = rw (get-put j ip c d, other) b.there;
    ends = b.ends;
    later = b.later;
  }

  module _ (d : Buckets) (now : ℕ) (i : Inside now) (b : IsBlocked ip since until d) where
    own_request :
        IsBlocked ip since until (throttled cfg ip now d).0 × ((throttled cfg ip now d).1 ≡ true)
    unfolding throttled
    own_request =
        let (ends, seen, _) = counted_there cfg ip now d b.entry b.there in
        let blocked : ltb now (counted cfg ip now d).blocked_until ≡ true =
          lt→ltb now (counted cfg ip now d).blocked_until (omega (arith, ends, b.ends)) in
        rw blocked (put_own d (counted cfg ip now d) (ends ∙ b.ends) (omega (arith, seen)), refl)

    other_request :
        (j : String)
        → Distinct d
        → length d + 1 ≤ bucket_limit
        → (j == ip) ≡ false
        → IsBlocked ip since until (throttled cfg j now d).0
    unfolding throttled sweep is_stale
    other_request j unique room other =
        elim (Bool-cases (ltb now (counted cfg j now d).blocked_until)) [
          | inl blocked ↦ rw blocked (put_other d j (counted cfg j now d) other b)
          | inr open_ ↦ rw open_ (record {
            entry = b.entry;
            there =
                get-clean-put (λ (c : Bucket). c.seen) bucket_limit (is_stale cfg now) j
                  (judge cfg now (counted cfg j now d)).0 d unique room ip (some b.entry)
                  (rw other b.there)
                ∙ ground (arith, b.later);
            ends = b.ends;
            later = b.later;
          })
        ]

    own_reply : (missing : Bool) → IsBlocked ip since until (record_miss cfg ip missing now d)
    unfolding record_miss
    own_reply missing =
        let (ends, seen) = miss_entry_there cfg ip missing now d b.entry b.there in
        put_own d (miss_entry cfg missing now (entry_of (get ip d) now)) (ends ∙ b.ends)
          (omega (arith, seen))

    any_reply :
        (j : String) (missing : Bool) → IsBlocked ip since until (record_miss cfg j missing now d)
    unfolding record_miss
    any_reply j missing = elim (Bool-cases (j == ip)) [
      | inl own ↦ rw ((text_key.same_iff j ip).0 own) (own_reply missing)
      | inr other ↦ put_other d j (miss_entry cfg missing now (entry_of (get j d) now)) other b
    ]

pub throttled_refused :
    (cfg : Config) (ip : String) (now : ℕ) (d : Buckets)
    → ltb now (counted cfg ip now d).blocked_until ≡ true
    → (throttled cfg ip now d).0 ≡ put ip (counted cfg ip now d) d
unfolding throttled
throttled_refused cfg ip now d h = rw h refl

pub throttled_judged :
    (cfg : Config) (ip : String) (now : ℕ) (d : Buckets)
    → ltb now (counted cfg ip now d).blocked_until ≡ false
    → (throttled cfg ip now d).0 ≡ sweep cfg now (put ip (judge cfg now (counted cfg ip now d)).0 d)
unfolding throttled
throttled_judged cfg ip now d h = rw h refl

pub step-Distinct :
    (cfg : Config) (event : Event) (d : Buckets) → Distinct d → Distinct (step cfg event d)
unfolding step sweep record_miss
step-Distinct cfg (request ip now) d h =
    elim (Bool-cases (ltb now (counted cfg ip now d).blocked_until)) [
      | inl blocked ↦
          subst Distinct (sym (throttled_refused cfg ip now d blocked))
            (Distinct-put ip (counted cfg ip now d) d h)
      | inr free ↦ subst Distinct (sym (throttled_judged cfg ip now d free)) (
          Distinct-clean (λ (c : Bucket). c.seen) bucket_limit (is_stale cfg now)
            (put ip (judge cfg now (counted cfg ip now d)).0 d)
            (Distinct-put ip (judge cfg now (counted cfg ip now d)).0 d h))
    ]
step-Distinct cfg (reply ip missing now) d h =
    Distinct-put ip (miss_entry cfg missing now (entry_of (get ip d) now)) d h

pub length-step :
    (cfg : Config) (event : Event) (d : Buckets)
    → Distinct d
    → length d + 1 ≤ bucket_limit
    → length (step cfg event d) ≤ length d + 1
unfolding step sweep record_miss
length-step cfg (request ip now) d h room =
    elim (Bool-cases (ltb now (counted cfg ip now d).blocked_until)) [
      | inl blocked ↦
          subst (λ (r : Buckets). length r ≤ length d + 1)
            (sym (throttled_refused cfg ip now d blocked))
            (length-put-le ip (counted cfg ip now d) d)
      | inr free ↦
          subst (λ (r : Buckets). length r ≤ length d + 1)
            (sym (throttled_judged cfg ip now d free))
            (length-clean-put (λ (c : Bucket). c.seen) bucket_limit (is_stale cfg now) ip
              (judge cfg now (counted cfg ip now d)).0 d h room)
    ]
length-step cfg (reply ip missing now) d h room =
    length-put-le ip (miss_entry cfg missing now (entry_of (get ip d) now)) d

step-IsBlocked :
    (cfg : Config) (ip : String) (since until : ℕ) (event : Event) (d : Buckets)
    → Distinct d
    → length d + 1 ≤ bucket_limit
    → Inside cfg ip since until (time event)
    → IsBlocked ip since until d
    → IsBlocked ip since until (step cfg event d) × (is_served cfg ip event d ≡ false)
unfolding step is_served
step-IsBlocked cfg ip since until (request j now) d h room i b = elim (Bool-cases (j == ip)) [
  | inl own ↦
      let (kept, refused) = own_request cfg ip since until d now i b in
      rw ((text_key.same_iff j ip).0 own) (kept, rw (refused, same_refl ip) refl)
  | inr other ↦ (other_request cfg ip since until d now i b j h room other, rw other refl)
]
step-IsBlocked cfg ip since until (reply j missing now) d h room i b =
    (any_reply cfg ip since until d now i b j missing, refl)

-- If an address is blocked until `until` and was seen at `since`, then no request of it is served
-- at the times up to `until` and up to two rate windows after `since`, whatever requests and
-- replies of any address come in between, as long as the table has room for all of them.
pub block_holds :
    (cfg : Config) (ip : String) (since until : ℕ) (events : List Event) (d : Buckets)
    → Distinct d
    → length d + length events ≤ bucket_limit
    → All (λ event. Inside cfg ip since until (time event)) events
    → IsBlocked ip since until d
    → served cfg ip d events ≡ 0
unfolding served
block_holds cfg ip since until [] d h room i b = refl
block_holds cfg ip since until (event ∷ events) d h room i b =
    let (kept, refused) = step-IsBlocked cfg ip since until event d h (omega arith) i.0 b in
    rw refused (
      block_holds cfg ip since until events (step cfg event d) (step-Distinct cfg event d h)
        (omega (arith, length-step cfg event d h (omega arith))) i.1 kept)
