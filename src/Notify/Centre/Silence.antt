-- ===== src/Notify/Centre/Silence.antt =====
-- What the throttle of `Centre.deliver` promises over any number of observations.
use obhod.Prelude.{
  same_refl, ℕ, ◌+◌, ◌<◌, ◌≡◌, ◌≢◌, refl, true, false, some, List, [], ◌∷◌, String, All, All-append,
  sym, subst, arith, ◌==◌, text_key, pair_key, Bool-cases, inl, inr,
}
use obhod.Dict.{get}
use obhod.Dict.Laws.{get-put}
use obhod.Notify.Settings.{Settings, cooldown_of}
use obhod.Notify.Centre.{Event, Observation, Centre, is_due, deliver, observe, watch}
use obhod.Notify.Centre.Outcome.{observe-Outcome}

-- The last event of the kind was at `t`, and the result of a step keeps it so and has no such event.
record Keeps (kind : String) (t : ℕ) (s : Settings) (r : Centre × List Event) : Type 0 where
  pub settings : r.0.settings ≡ s
  pub last : get kind r.0.source ≡ some t
  pub quiet : All (λ (e : Event). (e.kind == kind) ≡ false) r.1

module _ (second : ℕ) (kind : String) (t : ℕ) (nonzero : t ≢ 0) where
  due-other :
      (event : Event) (now : ℕ) (c : Centre)
      → get kind c.source ≡ some t
      → now < t + cooldown_of second c.settings kind
      → is_due second event now c ≡ true
      → (event.kind == kind) ≡ false
  unfolding is_due
  due-other event now c last soon due = ground (arith, text_key.same_iff event.kind kind)

  deliver-Keeps :
      (event : Event) (now : ℕ) (c : Centre)
      → get kind c.source ≡ some t
      → now < t + cooldown_of second c.settings kind
      → Keeps kind t c.settings (deliver second event now c)
  unfolding deliver
  deliver-Keeps event now c last soon = elim (Bool-cases (is_due second event now c)) [
    | inl due ↦
        let other : (event.kind == kind) ≡ false = due-other event now c last soon due in
        rw due (record { settings = refl; last = rw (get-put, other) last; quiet = (other, tt) })
    | inr held ↦ rw held (record { settings = refl; last = last; quiet = tt })
  ]

  observe-Keeps :
      (obs : Observation) (now : ℕ) (c : Centre)
      → get kind c.source ≡ some t
      → now < t + cooldown_of second c.settings kind
      → Keeps kind t c.settings (observe second obs now c)
  observe-Keeps obs now c last soon = elim (observe-Outcome second obs now c) [
    | inl (d, a, e) ↦ rw e (record { settings = a.settings; last = rw a.source last; quiet = tt })
    | inr (event, d, a, e) ↦
        rw (e, sym a.settings) (deliver-Keeps event now d (rw a.source last) (rw a.settings soon))
  ]

  observe_next :
      (obs : Observation) (now : ℕ) (c : Centre) (log : List (Observation × ℕ))
      → Keeps kind t c.settings (observe second obs now c)
      → All (λ (entry : Observation × ℕ). entry.1 < t + cooldown_of second c.settings kind) log
      → All
          (λ (entry : Observation × ℕ).
            entry.1 < t + cooldown_of second (observe second obs now c).0.settings kind)
          log
  observe_next obs now c log k h =
      subst (λ s. All (λ (entry : Observation × ℕ). entry.1 < t + cooldown_of second s kind) log)
        (sym k.settings) h

  cooldown_holds :
      (c : Centre) (log : List (Observation × ℕ))
      → get kind c.source ≡ some t
      → All (λ (entry : Observation × ℕ). entry.1 < t + cooldown_of second c.settings kind) log
      → All (λ (e : Event). (e.kind == kind) ≡ false) (watch second log c).1
  unfolding watch
  cooldown_holds c [] last soon = tt
  cooldown_holds c ((obs, now) ∷ log) last soon =
      let k : Keeps kind t c.settings (observe second obs now c) =
        observe-Keeps obs now c last soon.0 in
      All-append _ _ _ k.quiet (
        cooldown_holds (observe second obs now c).0 log k.last
          (observe_next obs now c log k soon.1))

module _ (second now : ℕ) (e : Event) where
  -- The state that an event leaves behind, once it was let through.
  abbrev Recorded : Settings → Centre × List Event → Type 0
  Recorded s r = r.1 ≡ e ∷ [] → (get e.kind r.0.source ≡ some now) × (r.0.settings ≡ s)

  deliver-Recorded : (event : Event) (d : Centre) → Recorded d.settings (deliver second event now d)
  unfolding deliver
  deliver-Recorded event d = elim (Bool-cases (is_due second event now d)) [
    | inl due ↦
        rw due
          (λ one. let same : event ≡ e = cc in (rw (get-put, same, same_refl e.kind) refl, refl))
    | inr held ↦ rw held (λ one. absurd (let wrong : [] ≡ e ∷ [] = one in cc))
  ]

  observe-Recorded :
      (obs : Observation) (c : Centre) → Recorded c.settings (observe second obs now c)
  observe-Recorded obs c = elim (observe-Outcome second obs now c) [
    | inl (d, a, s) ↦ rw s (λ one. absurd (let wrong : [] ≡ e ∷ [] = one in cc))
    | inr (event, d, a, s) ↦ rw (s, sym a.settings) (deliver-Recorded event d)
  ]

  -- When an observation lets an event through, at a time other than 0, no later observation within
  -- the cooldown of its kind, of any kind and any address, lets another event of the kind through.
  pub cooldown_after :
      (obs : Observation) (c : Centre) (log : List (Observation × ℕ))
      → now ≢ 0
      → (observe second obs now c).1 ≡ e ∷ []
      → All (λ (entry : Observation × ℕ). entry.1 < now + cooldown_of second c.settings e.kind) log
      → All
          (λ (x : Event). (x.kind == e.kind) ≡ false)
          (watch second log (observe second obs now c).0).1
  cooldown_after obs c log nonzero one soon =
      let (last, same) = observe-Recorded obs c one in
      cooldown_holds second e.kind now nonzero (observe second obs now c).0 log last (
        subst
          (λ s. All (λ (entry : Observation × ℕ). entry.1 < now + cooldown_of second s e.kind) log)
          (sym same) soon)
