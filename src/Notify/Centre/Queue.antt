-- ===== src/Notify/Centre/Queue.antt =====
-- The queue that the menu drains, and when counting raises an event.
use obhod.Prelude.{
  ℕ, ◌≤◌, ◌≡◌, refl, sym, ap, ◌∙◌, List, [], ◌∷◌, ◌++◌, Bool-cases, inl, inr, length, last_of,
  last_of-append, last_of_short, length-last_of, append_assoc,
}
use obhod.Notify.Centre.{
  Event, Observation, Centre, push, max_queue, is_due, deliver, observe, watch,
}
use obhod.Notify.Centre.Outcome.{observe-Outcome}

deliver_queue :
    (second : ℕ) (e : Event) (now : ℕ) (c : Centre)
    → length c.queue ≤ max_queue
    → (deliver second e now c).0.queue ≡ last_of max_queue (c.queue ++ (deliver second e now c).1)
unfolding deliver push
deliver_queue second e now c short = elim (Bool-cases (is_due second e now c)) [
  | inl due ↦ rw due refl
  | inr held ↦ rw held (last_of_short max_queue c.queue short)
]

observe_queue :
    (second : ℕ) (obs : Observation) (now : ℕ) (c : Centre)
    → length c.queue ≤ max_queue
    → (observe second obs now c).0.queue
      ≡ last_of max_queue (c.queue ++ (observe second obs now c).1)
observe_queue second obs now c short = elim (observe-Outcome second obs now c) [
  | inl (d, a, e) ↦ rw (e, a.queue) (last_of_short max_queue c.queue short)
  | inr (event, d, a, e) ↦ rw (e, sym a.queue) (deliver_queue second event now d (rw a.queue short))
]

-- After any number of observations the queue is what it held before, followed by every event that
-- was let through, cut to the last 64.
pub queue_exact :
    (second : ℕ) (c : Centre) (log : List (Observation × ℕ))
    → length c.queue ≤ max_queue
    → (watch second log c).0.queue ≡ last_of max_queue (c.queue ++ (watch second log c).1)
unfolding watch
queue_exact second c [] short = last_of_short max_queue c.queue short
queue_exact second c ((obs, now) ∷ log) short =
    let step : Centre × List Event = observe second obs now c in
    let first : step.0.queue ≡ last_of max_queue (c.queue ++ step.1) =
      observe_queue second obs now c short in
    let later : List Event = (watch second log step.0).1 in
    queue_exact second step.0 log (rw first (length-last_of max_queue (c.queue ++ step.1)))
    ∙ ap (λ q. last_of max_queue (q ++ later)) first
    ∙ last_of-append max_queue (c.queue ++ step.1) later
    ∙ ap (last_of max_queue) (append_assoc c.queue step.1 later)
