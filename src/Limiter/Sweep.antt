-- ===== src/Limiter/Sweep.antt =====
-- What a call of the limiter leaves of its dictionary.
use obhod.Prelude.{
  ℕ, ◌+◌, ◌*◌, ◌≤◌, ◌<◌, ◌≡◌, refl, Option, none, some, String, if◌then◌else◌, pair_key, ◌==◌,
  arith, length, ◌∙◌, ap,
}
use obhod.Dict.{get, put, prune, Distinct}
use obhod.Dict.Laws.{
  get-put, Distinct-put, length-put-le, get-prune, Distinct-prune, length-prune-le, holds,
}
use obhod.Dict.Evict.{
  Distinct-drop_oldest, length-drop_oldest, get-drop_oldest, drop_oldest_lowest, drop_oldest_within,
}
use obhod.Limiter.{Bucket, Limiter, Call, name_of, is_stale, sweep, bucket_after, allow}

pub record IsValid (l : Limiter) : Type 0 where
  pub unique : Distinct l.buckets
  pub bounded : length l.buckets ≤ l.max_entries

-- A sweep of a dictionary with unique keys keeps them unique and leaves at most `max_entries`.
pub sweep-IsValid : (l : Limiter) (now : ℕ) → Distinct l.buckets → IsValid (sweep l now)
unfolding sweep
sweep-IsValid l now h =
    let kept = prune (is_stale l.window now) l.buckets in
    let unique : Distinct kept = Distinct-prune (is_stale l.window now) l.buckets h in
    record {
      unique = Distinct-drop_oldest (λ b. b.seen) l.max_entries kept unique;
      bounded = length-drop_oldest (λ b. b.seen) l.max_entries kept unique;
    }

-- Every call keeps the keys unique and the dictionary within `max_entries`.
pub allow-IsValid : (l : Limiter) (c : Call) → IsValid l → IsValid (allow l c).0
unfolding allow
allow-IsValid l c v =
    sweep-IsValid (record l { buckets = put (name_of c) (bucket_after l c) l.buckets }) c.now
      (Distinct-put (name_of c) (bucket_after l c) l.buckets v.unique)

-- A sweep changes no bucket: what is there after it was there before, and is not stale.
pub sweep_kept :
    (l : Limiter) (now : ℕ) (name : String × String) {b : Bucket}
    → Distinct l.buckets
    → get name (sweep l now).buckets ≡ some b
    → (get name l.buckets ≡ some b) × (now ≤ b.seen + l.window * 2)
unfolding sweep is_stale
sweep_kept l now name {b} h g =
    let stale = is_stale l.window now in
    ground (
      arith,
      get-drop_oldest (λ (b : Bucket). b.seen) l.max_entries (prune stale l.buckets)
          (Distinct-prune stale l.buckets h) name {b = b},
      get-prune stale l.buckets name h,
    )

-- Of two buckets that a sweep does not find stale, the one that it drops was seen no later than the
-- one that it keeps.
pub sweep_drops_oldest :
    (l : Limiter) (now : ℕ) (dropped kept : String × String) (b c : Bucket)
    → Distinct l.buckets
    → get dropped l.buckets ≡ some c
    → now ≤ c.seen + l.window * 2
    → get dropped (sweep l now).buckets ≡ none
    → get kept (sweep l now).buckets ≡ some b
    → c.seen ≤ b.seen
unfolding sweep is_stale
sweep_drops_oldest l now dropped kept b c h there fresh gone stays =
    let stale = is_stale l.window now in
    let live = prune stale l.buckets in
    drop_oldest_lowest (λ (b : Bucket). b.seen) l.max_entries live
      (Distinct-prune stale l.buckets h) dropped kept b c
      (ground (arith, get-prune stale l.buckets dropped h)) gone stays

-- Where there is room, a sweep takes away the stale buckets and no other.
get-sweep_room :
    (l : Limiter) (now : ℕ) (name : String × String)
    → Distinct l.buckets
    → length l.buckets ≤ l.max_entries
    → get name (sweep l now).buckets
      ≡ (if holds (is_stale l.window now) (get name l.buckets) then none else get name l.buckets)
unfolding sweep
get-sweep_room l now name h room =
    let stale = is_stale l.window now in
    rw (
      drop_oldest_within (λ b. b.seen) l.max_entries (prune stale l.buckets)
          (omega (arith, length-prune-le stale l.buckets)),
      get-prune stale l.buckets name h,
    )

length-sweep_room :
    (l : Limiter) (now : ℕ)
    → length l.buckets ≤ l.max_entries
    → length (sweep l now).buckets ≤ length l.buckets
unfolding sweep
length-sweep_room l now room =
    let stale = is_stale l.window now in
    rw
      (drop_oldest_within (λ b. b.seen) l.max_entries (prune stale l.buckets)
        (omega (arith, length-prune-le stale l.buckets)))
      (length-prune-le stale l.buckets)

module _ (l : Limiter) (c : Call) (room : length l.buckets < l.max_entries) where
  room-put : length (put (name_of c) (bucket_after l c) l.buckets) ≤ l.max_entries
  room-put = omega (arith, length-put-le (name_of c) (bucket_after l c) l.buckets)

  -- A call adds at most one bucket.
  pub length-allow : length (allow l c).0.buckets ≤ length l.buckets + 1
  unfolding allow
  length-allow = omega (
    arith,
    length-sweep_room (record l { buckets = put (name_of c) (bucket_after l c) l.buckets }) c.now
        room-put,
    length-put-le (name_of c) (bucket_after l c) l.buckets,
  )

  -- The bucket of a name after a call, where there is room for one more.
  pub get-allow :
      (j : String × String) (o : Option Bucket)
      → Distinct l.buckets
      → (if name_of c == j then some (bucket_after l c) else get j l.buckets) ≡ o
      → get j (allow l c).0.buckets ≡ (if holds (is_stale l.window c.now) o then none else o)
  unfolding allow
  get-allow j o h e =
      get-sweep_room (record l { buckets = put (name_of c) (bucket_after l c) l.buckets }) c.now j
        (Distinct-put (name_of c) (bucket_after l c) l.buckets h) room-put
      ∙ ap (λ (o : Option Bucket). if holds (is_stale l.window c.now) o then none else o)
          (get-put (name_of c) j (bucket_after l c) l.buckets ∙ e)

-- A call leaves the settings as they are.
pub allow-settings :
    (l : Limiter) (c : Call)
    → ((allow l c).0.limit ≡ l.limit)
      × ((allow l c).0.window ≡ l.window)
      × ((allow l c).0.max_entries ≡ l.max_entries)
unfolding allow
allow-settings l c = (refl, refl, refl)
