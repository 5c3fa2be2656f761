-- ===== src/Limiter/Window.antt =====
-- The limiter against a fixed-window counter: of the calls of one name in one window, the first
-- `cap` are granted and the others are not.
use obhod.Prelude.{
  ℕ, suc, ◌+◌, ◌*◌, ◌≤◌, ◌<◌, ◌≡◌, refl, true, false, Option, none, some, String, List, [], ◌∷◌,
  if◌then◌else◌, min, pair_key, ◌==◌, arith, leb, ◌∙◌, ap, length, All, same_refl, Bool-cases, inl,
  inr,
}
use obhod.Dict.{get, Distinct}
use obhod.Limiter.{
  Bucket, Limiter, Call, name_of, is_stale, touch, bucket_of, bucket_after, allow, or_default,
}
use obhod.Limiter.Sweep.{IsValid, allow-IsValid, allow-settings, length-allow, get-allow}

-- The number of calls of a name, and how many of them are granted when all calls are made in turn.
unfoldable pub attempts : String × String → List Call → ℕ
attempts name [] = 0
attempts name (c ∷ calls) =
    let rest = attempts name calls in if name_of c == name then suc rest else rest

unfoldable pub granted : String × String → Limiter → List Call → ℕ
granted name l [] = 0
granted name l (c ∷ calls) =
    let (l', allowed) = allow l c in
    let rest = granted name l' calls in
    if name_of c == name then (if allowed then suc rest else rest) else rest

-- A call inside the window that opened at `w`; those of `name` use the limit `cap` and the window
-- `span`.
pub record InWindow (limit window : ℕ) (name : String × String) (cap span w : ℕ) (c : Call)
    : Type 0 where
  pub after : w ≤ c.now
  pub before : c.now < w + span
  pub cap_eq : (name_of c == name) ≡ true → or_default c.limit limit ≡ cap
  pub span_eq : (name_of c == name) ≡ true → or_default c.window window ≡ span

lt→leb : (a b : ℕ) → b < a → leb a b ≡ false
lt→leb a b h = ground arith

module _ (name : String × String) (limit window cap span w : ℕ) (wide : span ≤ window * 2) where
  -- The bucket of `name` is the one of this window.
  pub record IsOpen (l : Limiter) (b : Bucket) : Type 0 where
    pub limit_eq : l.limit ≡ limit
    pub window_eq : l.window ≡ window
    pub there : get name l.buckets ≡ some b
    pub opened : b.window ≡ w
    pub later : w ≤ b.seen

  -- The bucket after a call of the name: the window stays, and the count is one higher.
  bucket_after_own :
      (l : Limiter) (b : Bucket) (c : Call)
      → InWindow limit window name cap span w c
      → (name_of c == name) ≡ true
      → IsOpen l b
      → bucket_after l c ≡ record { window = w; count = b.count + 1; seen = c.now }
  unfolding bucket_after
  bucket_after_own l b c i own o =
      let e =
        ap (λ (n : String × String). get n l.buckets)
          ((pair_key.same_iff (name_of c) name).0 own) in
      rw (e, o.there, o.window_eq, i.span_eq own, o.opened, lt→leb (w + span) c.now i.before) refl

  own_call :
      (l : Limiter) (b : Bucket) (c : Call)
      → Distinct l.buckets
      → length l.buckets < l.max_entries
      → InWindow limit window name cap span w c
      → (name_of c == name) ≡ true
      → IsOpen l b
      → IsOpen (allow l c).0 (record { window = w; count = b.count + 1; seen = c.now })
        × ((allow l c).1 ≡ leb (b.count + 1) cap)
  unfolding allow is_stale
  own_call l b c h room i own o =
      let e = bucket_after_own l b c i own o in
      (
        record {
          limit_eq = (allow-settings l c).0 ∙ o.limit_eq;
          window_eq = (allow-settings l c).1 ∙ o.window_eq;
          there =
              get-allow l c room name
                (some (record { window = w; count = b.count + 1; seen = c.now })) h (rw (own, e))
              ∙ ground arith;
          opened = refl;
          later = i.after;
        },
        rw (e, o.limit_eq, i.cap_eq own) refl,
      )

  other_call :
      (l : Limiter) (b : Bucket) (c : Call)
      → Distinct l.buckets
      → length l.buckets < l.max_entries
      → InWindow limit window name cap span w c
      → (name_of c == name) ≡ false
      → IsOpen l b
      → IsOpen (allow l c).0 b
  unfolding is_stale
  other_call l b c h room i other o = record {
    limit_eq = (allow-settings l c).0 ∙ o.limit_eq;
    window_eq = (allow-settings l c).1 ∙ o.window_eq;
    there =
        get-allow l c room name (some b) h (rw (other, o.there))
        ∙ ground (arith, o.later, o.window_eq, i.before);
    opened = o.opened;
    later = o.later;
  }

  -- While the window is open, the calls that are still granted are those up to the limit.
  granted_open :
      (calls : List Call) (l : Limiter) (b : Bucket)
      → IsValid l
      → length l.buckets + length calls ≤ l.max_entries
      → All (InWindow limit window name cap span w) calls
      → IsOpen l b
      → granted name l calls + min b.count cap ≡ min (b.count + attempts name calls) cap
  unfolding granted attempts
  granted_open [] l b v room i o = omega arith
  granted_open (c ∷ calls) l b v room i o =
      let rest : (next : Bucket)
          → IsOpen (allow l c).0 next
          → granted name (allow l c).0 calls + min next.count cap
            ≡ min (next.count + attempts name calls) cap =
        λ next o'.
          granted_open calls (allow l c).0 next (allow-IsValid l c v)
            (omega (arith, length-allow l c (omega arith), (allow-settings l c).2)) i.1 o' in
      elim (Bool-cases (name_of c == name)) [
        | inl own ↦
            let (o', answer) = own_call l b c v.unique (omega arith) i.0 own o in
            rw own (
              ground
                (arith, answer, rest (record { window = w; count = b.count + 1; seen = c.now }) o'))
        | inr other ↦ rw other (rest b (other_call l b c v.unique (omega arith) i.0 other o))
      ]

-- The next call of the name opens a window: there is no bucket, or the one that is there has passed.
abbrev pub Opens : ℕ → ℕ → Option Bucket → Type 0
Opens span now none = Unit
Opens span now (some b) = b.window + span ≤ now

touch-Opens :
    (span now : ℕ) (o : Option Bucket)
    → Opens span now o
    → touch span now (bucket_of o now) ≡ record { window = now; count = 1; seen = now }
unfolding touch bucket_of
touch-Opens span now none h = ground arith
touch-Opens span now (some b) h = ground arith

module _ (l : Limiter) (c : Call) (calls : List Call) (cap span : ℕ) (v : IsValid l)
    (opens : Opens span c.now (get (name_of c) l.buckets)) (wide : span ≤ l.window * 2)
    (room : length l.buckets + length calls + 1 ≤ l.max_entries)
    (inside : All (InWindow l.limit l.window (name_of c) cap span c.now) (c ∷ calls)) where
  abbrev first : Bucket
  first = record { window = c.now; count = 1; seen = c.now }

  first_call :
      IsOpen (name_of c) l.limit l.window cap span c.now wide (allow l c).0 first
      × ((allow l c).1 ≡ leb 1 cap)
  unfolding allow bucket_after is_stale
  first_call =
      let own = same_refl (name_of c) in
      let e : bucket_after l c ≡ first =
        rw (inside.0.span_eq own) (touch-Opens span c.now (get (name_of c) l.buckets) opens) in
      (
        record {
          limit_eq = refl;
          window_eq = refl;
          there =
              get-allow l c (omega arith) (name_of c) (some first) v.unique (rw (own, e))
              ∙ ground arith;
          opened = refl;
          later = omega arith;
        },
        rw (e, inside.0.cap_eq own) refl,
      )

  -- Where the dictionary has room for all calls and the span is at most twice the sweeping window,
  -- a window that opens with the call `c` grants exactly the first `cap` calls of its name that are
  -- made before `c.now + span`, whatever calls of other names come between.
  pub granted-eq-min :
      granted (name_of c) l (c ∷ calls) ≡ min (attempts (name_of c) (c ∷ calls)) cap
  unfolding granted attempts
  granted-eq-min = rw (same_refl (name_of c)) (
      ground (
        arith,
        first_call.1,
        granted_open (name_of c) l.limit l.window cap span c.now wide calls (allow l c).0 first
            (allow-IsValid l c v)
            (omega (arith, length-allow l c (omega arith), (allow-settings l c).2)) inside.1
            first_call.0,
      ))
