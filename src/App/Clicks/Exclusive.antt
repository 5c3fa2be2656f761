-- ===== src/App/Clicks/Exclusive.antt =====
-- The flag of the running action: who takes it, and that no action takes it while it is held.
use obhod.Prelude.{
  ℕ, suc, ◌+◌, ◌*◌, ◌≡◌, ◌<◌, refl, Bool, true, false, ◌&&◌, ◌||◌, not, ◌⊎◌, inl, inr, List, [],
  ◌∷◌, String, arith, Bool-cases, if◌then◌else◌, ◌∙◌, int_text, All, lt→ltb,
}
use obhod.App.Front.{
  Config, Front, Event, Guarded, passed, ignored, denied, guard_admin, claim, deny, allowed, quiet,
  is_busy, busy_begin, busy_ttl,
}
use obhod.App.Clicks.{
  Click, Notice, turned_away, refused, started, hush, start, take_flag, spend, navigate, clicked,
  if_passed, on_callback, first_time, is_expensive, is_navigation, is_confirm, rate, busy, repeat,
  rate_name, starts_with, handle_message, if_heard, heard, held, handle_inline, end_action,
}

-- The flag is as it was.
abbrev pub IsKept : Front → Front → Type 0
IsKept f g = (g.busy ≡ f.busy) × (g.busy_until ≡ f.busy_until)

quiet-IsKept : (name : String) (span now : ℕ) (f : Front) → IsKept f (quiet name span now f).0
unfolding quiet
quiet-IsKept name span now f = ground arith

first_time-IsKept :
    (cfg : Config) (evt : Event) (now : ℕ) (f : Front) → IsKept f (first_time cfg evt now f).0
unfolding first_time
first_time-IsKept cfg evt now f = ground arith

guard_admin-IsKept :
    (cfg : Config) (now : ℕ) (evt : Event) (f : Front) → IsKept f (guard_admin cfg now evt f).0
unfolding guard_admin claim deny allowed
guard_admin-IsKept cfg now evt f = ground arith

abbrev pub takes : Click → Bool
takes (turned_away g) = false
takes (refused notice shown) = false
takes (started flag loading) = flag

abbrev pub starts : Click → Bool
starts (turned_away g) = false
starts (refused notice shown) = false
starts (started flag loading) = true

-- What a click may do: keep the flag, and start a navigation at most, or take the flag that nobody holds.
unfoldable IsLawful : Config → Event → ℕ → Front → Front × Click → Type 0
IsLawful cfg evt now f r =
    (IsKept f r.0 × (takes r.1 ≡ false) × (starts r.1 ≡ true → is_navigation evt.action ≡ true))
    ⊎ ((is_busy now f ≡ false)
        × (takes r.1 ≡ true)
        × (r.0.busy ≡ true)
        × (r.0.busy_until ≡ now + busy_ttl cfg))

-- A step that keeps the flag may go before.
after-IsLawful :
    (cfg : Config) (evt : Event) (now : ℕ) (f g : Front) (r : Front × Click)
    → IsKept f g
    → IsLawful cfg evt now g r
    → IsLawful cfg evt now f r
unfolding IsLawful
after-IsLawful cfg evt now f g r (b, u) (inl ((b', u'), t, s)) = inl ((b' ∙ b, u' ∙ u), t, s)
after-IsLawful cfg evt now f g r (b, u) (inr (free, t, held, until)) =
    inr (ground arith, t, held, until)

-- A click that starts nothing.
idle-IsLawful :
    (cfg : Config) (evt : Event) (now : ℕ) (f : Front) (r : Front × Click)
    → IsKept f r.0
    → starts r.1 ≡ false
    → IsLawful cfg evt now f r
unfolding IsLawful
idle-IsLawful cfg evt now f (g, turned_away u) kept h =
    inl (kept, refl, λ k. absurd (ground (arith, k)))
idle-IsLawful cfg evt now f (g, refused n shown) kept h =
    inl (kept, refl, λ k. absurd (ground (arith, k)))
idle-IsLawful cfg evt now f (g, started flag l) kept h = absurd (ground (arith, h))

hush-IsLawful :
    (cfg : Config) (evt : Event) (name : String) (span : ℕ) (notice : Notice) (now : ℕ) (f : Front)
    → IsLawful cfg evt now f (hush name span notice now f)
unfolding hush
hush-IsLawful cfg evt name span notice now f =
    idle-IsLawful cfg evt now f (hush name span notice now f) (quiet-IsKept name span now f) refl

cheap_navigates : (evt : Event) → is_expensive evt.action ≡ false → is_navigation evt.action ≡ true
unfolding is_expensive is_navigation
cheap_navigates evt h = ground arith

taken :
    (cfg : Config) (now : ℕ) (f : Front)
    → (busy_begin cfg now f).1 ≡ true
    → (is_busy now f ≡ false)
      × ((busy_begin cfg now f).0.busy ≡ true)
      × ((busy_begin cfg now f).0.busy_until ≡ now + busy_ttl cfg)
unfolding busy_begin
taken cfg now f h = ground arith

start-IsLawful :
    (cfg : Config) (evt : Event) (now : ℕ) (f : Front)
    → is_navigation evt.action ≡ true
    → IsLawful cfg evt now f (start cfg evt false now f)
unfolding start IsLawful
start-IsLawful cfg evt now f nav = inl (quiet-IsKept "click" (2 * cfg.second) now f, refl, λ h. nav)

start_taken-IsLawful :
    (cfg : Config) (evt : Event) (now : ℕ) (f : Front)
    → (busy_begin cfg now f).1 ≡ true
    → IsLawful cfg evt now f (start cfg evt true now (busy_begin cfg now f).0)
unfolding start IsLawful
start_taken-IsLawful cfg evt now f ok =
    let (free, held, until) = taken cfg now f ok in
    let (b, u) = quiet-IsKept "click" (2 * cfg.second) now (busy_begin cfg now f).0 in
    inr (free, refl, b ∙ held, u ∙ until)

take_flag-IsLawful :
    (cfg : Config) (evt : Event) (now : ℕ) (f : Front)
    → IsLawful cfg evt now f (take_flag cfg evt now f)
unfolding take_flag
take_flag-IsLawful cfg evt now f =
    let nav : is_expensive evt.action ≡ false → is_navigation evt.action ≡ true =
      cheap_navigates evt in
    let dead : (f.busy
          && not (is_expensive evt.action)
          && not (is_navigation evt.action)
          && not (is_confirm evt.action))
        ≡ false =
      ground (arith, nav) in
    elim (Bool-cases (is_expensive evt.action || is_confirm evt.action)) [
      | inr cheap ↦ rw (dead, cheap) (start-IsLawful cfg evt now f (nav (ground (arith, cheap))))
      | inl dear ↦ elim (Bool-cases (busy_begin cfg now f).1) [
        | inl ok ↦ rw (dead, dear, ok) (start_taken-IsLawful cfg evt now f ok)
        | inr over ↦
            rw (dead, dear, over) (hush-IsLawful cfg evt "busy" (5 * cfg.second) busy now f)
      ]
    ]

spend-IsLawful :
    (cfg : Config) (evt : Event) (now : ℕ) (f : Front)
    → IsLawful cfg evt now f (spend cfg evt now f)
unfolding spend
spend-IsLawful cfg evt now f =
    let seen = (first_time cfg evt now f).0 in
    let (paid, ok) =
      allowed (int_text evt.from_id) "expensive" cfg.expensive_limit (120 * cfg.second) now seen in
    let kept = first_time-IsKept cfg evt now f in
    elim (Bool-cases (is_expensive evt.action)) [
      | inr cheap ↦ rw cheap (take_flag-IsLawful cfg evt now f)
      | inl dear ↦ elim (Bool-cases (first_time cfg evt now f).1) [
        | inr again ↦
            rw (dear, again) (idle-IsLawful cfg evt now f (seen, refused repeat true) kept refl)
        | inl fresh ↦ elim (Bool-cases ok) [
          | inr over ↦
              rw (dear, fresh, over)
                (after-IsLawful cfg evt now f paid _ kept
                  (hush-IsLawful cfg evt (rate_name evt) (10 * cfg.second) rate now paid))
          | inl within ↦
              rw (dear, fresh, within)
                (after-IsLawful cfg evt now f paid _ kept (take_flag-IsLawful cfg evt now paid))
        ]
      ]
    ]

navigate-IsLawful :
    (cfg : Config) (evt : Event) (now : ℕ) (f : Front)
    → IsLawful cfg evt now f (navigate cfg evt now f)
unfolding navigate
navigate-IsLawful cfg evt now f =
    let (f', ok) = allowed (int_text evt.from_id) "nav" 40 (60 * cfg.second) now f in
    elim (Bool-cases (is_navigation evt.action || starts_with ("nav:" ∷ "lang:" ∷ []) evt.action)) [
      | inr other ↦ rw other (spend-IsLawful cfg evt now f)
      | inl nav ↦ elim (Bool-cases ok) [
        | inl within ↦
            rw (nav, within)
              (after-IsLawful cfg evt now f f' _ (refl, refl) (spend-IsLawful cfg evt now f'))
        | inr over ↦
            rw (nav, over)
              (after-IsLawful cfg evt now f f' _ (refl, refl)
                (hush-IsLawful cfg evt (rate_name evt) (60 * cfg.second) rate now f'))
      ]
    ]

clicked-IsLawful :
    (cfg : Config) (evt : Event) (now : ℕ) (f : Front)
    → IsLawful cfg evt now f (clicked cfg evt now f)
unfolding clicked
clicked-IsLawful cfg evt now f =
    let (f', ok) =
      allowed (int_text evt.from_id) "callback" cfg.callback_limit (60 * cfg.second) now f in
    elim (Bool-cases ok) [
      | inr over ↦ rw over (
          after-IsLawful cfg evt now f f' _ (refl, refl)
            (hush-IsLawful cfg evt (rate_name evt) (60 * cfg.second) rate now f'))
      | inl within ↦
          elim (Bool-cases
            (is_busy now f && not (is_navigation evt.action) && not (is_confirm evt.action))) [
              | inl held ↦
                  rw (within, held)
                    (after-IsLawful cfg evt now f f' _ (refl, refl)
                      (hush-IsLawful cfg evt "busy" (5 * cfg.second) busy now f'))
              | inr free ↦
                  rw (within, free)
                    (after-IsLawful cfg evt now f f' _ (refl, refl)
                      (navigate-IsLawful cfg evt now f'))
            ]
    ]

if_passed-IsLawful :
    (cfg : Config) (evt : Event) (now : ℕ) (f : Front) (r : Front × Guarded)
    → IsKept f r.0
    → IsLawful cfg evt now f (if_passed cfg evt now r)
unfolding if_passed
if_passed-IsLawful cfg evt now f (g, passed) kept =
    after-IsLawful cfg evt now f g _ kept (clicked-IsLawful cfg evt now g)
if_passed-IsLawful cfg evt now f (g, ignored) kept =
    idle-IsLawful cfg evt now f (g, turned_away ignored) kept refl
if_passed-IsLawful cfg evt now f (g, denied told) kept =
    idle-IsLawful cfg evt now f (g, turned_away (denied told)) kept refl

on_callback-IsLawful :
    (cfg : Config) (evt : Event) (now : ℕ) (f : Front)
    → IsLawful cfg evt now f (on_callback cfg evt now f)
unfolding on_callback
on_callback-IsLawful cfg evt now f =
    if_passed-IsLawful cfg evt now f (guard_admin cfg now evt f) (guard_admin-IsKept cfg now evt f)

-- What may happen: a click, a message or an inline query at a time, or the end of an action, in time or not,
-- which took the flag or did not.
pub data Moment : Type 0 where
  click message : ℕ → Event → Moment
  inline : ℕ → ℕ → Event → Moment
  ended : ℕ → Bool → Bool → Moment

abbrev pub time_of : Moment → ℕ
time_of (click now evt) = now
time_of (message now evt) = now
time_of (inline limit now evt) = now
time_of (ended now timed_out flag) = now

-- The end of an action that took the flag, or that ran out of time.
abbrev pub releases : Moment → Bool
releases (click now evt) = false
releases (message now evt) = false
releases (inline limit now evt) = false
releases (ended now timed_out flag) = timed_out || flag

-- The front end after the moment, and whether an action was started that holds the flag.
unfoldable pub pass : Config → Moment → Front → Front × Bool
pass cfg (click now evt) f = let (f', c) = on_callback cfg evt now f in (f', takes c)
pass cfg (message now evt) f = ((handle_message cfg evt now f).0, false)
pass cfg (inline limit now evt) f = ((handle_inline cfg limit evt now f).0, false)
pass cfg (ended now timed_out flag) f = (end_action timed_out flag f, false)

-- How many actions are started that hold the flag.
unfoldable pub taken_in : Config → List Moment → Front → ℕ
unfolding pass
taken_in cfg [] f = 0
taken_in cfg (m ∷ moments) f =
    let (f', flag) = pass cfg m f in
    let rest = taken_in cfg moments f' in if flag then suc rest else rest

heard-IsKept : (cfg : Config) (evt : Event) (now : ℕ) (f : Front) → IsKept f (heard cfg evt now f).0
unfolding heard held allowed quiet
heard-IsKept cfg evt now f = ground arith

if_heard-IsKept :
    (cfg : Config) (evt : Event) (now : ℕ) (f : Front) (r : Front × Guarded)
    → IsKept f r.0
    → IsKept f (if_heard cfg evt now r).0
unfolding if_heard
if_heard-IsKept cfg evt now f (g, passed) (b, u) =
    let (b', u') = heard-IsKept cfg evt now g in (b' ∙ b, u' ∙ u)
if_heard-IsKept cfg evt now f (g, ignored) kept = kept
if_heard-IsKept cfg evt now f (g, denied told) kept = kept

pass_held :
    (cfg : Config) (m : Moment) (f : Front)
    → f.busy ≡ true
    → time_of m < f.busy_until
    → releases m ≡ false
    → IsKept f (pass cfg m f).0 × ((pass cfg m f).1 ≡ false)
unfolding pass handle_message handle_inline end_action allowed IsLawful
pass_held cfg (click now evt) f b early r = elim (on_callback-IsLawful cfg evt now f) [
  | inl (kept, t, _) ↦ (kept, t)
  | inr (free, _, _, _) ↦ absurd (ground (arith, free, lt→ltb now f.busy_until early))
]
pass_held cfg (message now evt) f b early r = (
  if_heard-IsKept cfg evt now f (guard_admin cfg now evt f) (guard_admin-IsKept cfg now evt f),
  refl,
)
pass_held cfg (inline limit now evt) f b early r = (ground arith, refl)
pass_held cfg (ended now timed_out flag) f b early r = ground (arith, r)

held_excludes :
    (cfg : Config) (moments : List Moment) (f : Front)
    → f.busy ≡ true
    → All (λ m. (time_of m < f.busy_until) × (releases m ≡ false)) moments
    → taken_in cfg moments f ≡ 0
unfolding taken_in
held_excludes cfg [] f b early = refl
held_excludes cfg (m ∷ moments) f b ((now, r), later) =
    let ((b', u'), none) = pass_held cfg m f b now r in
    rw none (held_excludes cfg moments (pass cfg m f).0 (b' ∙ b) (rw u' later))

-- A click that is not for navigation starts an action only while the flag is free, and takes it. After that
-- no click takes it before `BUSY_TTL` is over, whatever clicks, messages and inline queries come and
-- whichever navigations end in time, as long as no action that took the flag ends and none runs out
-- of time: each of these gives the flag back.
pub one_at_a_time :
    (cfg : Config) (evt : Event) (now : ℕ) (f : Front) (moments : List Moment)
    → starts (on_callback cfg evt now f).1 ≡ true
    → is_navigation evt.action ≡ false
    → All (λ m. (time_of m < now + busy_ttl cfg) × (releases m ≡ false)) moments
    → (is_busy now f ≡ false)
      × (takes (on_callback cfg evt now f).1 ≡ true)
      × (taken_in cfg moments (on_callback cfg evt now f).0 ≡ 0)
unfolding IsLawful
one_at_a_time cfg evt now f moments begun other early = elim (on_callback-IsLawful cfg evt now f) [
  | inl (_, _, nav) ↦ absurd (ground (arith, nav begun))
  | inr (free, t, held, until) ↦
      (free, t, held_excludes cfg moments (on_callback cfg evt now f).0 held (rw until early))
]
