-- ===== src/Honeypot/Guard/Tests.antt =====
-- The guard at concrete inputs.
use obhod.Prelude.{◌≡◌, ◌+◌, ◌&&◌, ltb, length, refl, [], ◌∷◌, text_key}
use obhod.Dict.{get, put, pop}
use obhod.Honeypot.Guard.{
  Guard, Service, running, take, release, start, lose, refuse, Reach, begin, next,
}
use obhod.Honeypot.Guard.Slots.{IsTracking, Reach-IsTracking, take_exactly}

abbrev busy : Service
busy = record {
  guard = record { max_conn = 3; per_ip = 2; active = 2; by_ip = ("10.0.0.1", 2) ∷ [] };
  workers = "10.0.0.1" ∷ [];
  lost = "10.0.0.1" ∷ [];
}

abbrev held_once : Guard
held_once = record busy.guard { active = 1; by_ip = ("10.0.0.1", 1) ∷ [] }

busy_reached : Reach 3 2 busy
unfolding take get put text_key
busy_reached =
    next (next (next begin (start _ "10.0.0.1" held_once refl)) (lose _ "10.0.0.1" busy.guard refl))
      (refuse _ "10.0.0.1" busy.guard refl)

freed :
    release "10.0.0.1" busy.guard ≡ record busy.guard { active = 1; by_ip = ("10.0.0.1", 1) ∷ [] }
unfolding release get put pop text_key
freed = refl

Reach-IsTracking_example : IsTracking 3 2 busy
Reach-IsTracking_example = Reach-IsTracking 3 2 busy_reached

take_exactly_example : (take "10.0.0.1" busy.guard).1 ≡ (
    ltb (length busy.workers + length busy.lost) 3
    && ltb (running "10.0.0.1" busy.workers + running "10.0.0.1" busy.lost) 2)
take_exactly_example = take_exactly 3 2 "10.0.0.1" busy_reached
