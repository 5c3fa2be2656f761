-- ===== src/Notify/Centre/Tests.antt =====
-- The centre at concrete inputs: one second is one tick.
use obhod.Prelude.{
  ℕ, ◌≡◌, refl, List, [], ◌∷◌, String, arith, map, All, false, ◌==◌, text_key, pair_key, number_key,
}
use obhod.Dict.{get, put, pop, prune, drop_oldest}
use obhod.Notify.Settings.{Settings, default_on, is_on, is_muted, cooldown_of, per_ip_of}
use obhod.Notify.Centre.{
  Event, Observation, Centre, text, sorted_ports, is_due, deliver, honeypot, observe, watch,
  trim_seen, push,
}
use obhod.Notify.Centre.Silence.{cooldown_after}
use obhod.Notify.Centre.Memory.{IsBounded, watch-IsBounded}

abbrev settings : Settings
settings = record { enabled = default_on; cooldown = []; mute_until = 0 }

abbrev quiet_centre : Centre
quiet_centre = record {
  settings = settings;
  seen = [];
  source = [];
  ports = [];
  fails = [];
  queue = [];
}

abbrev decoy : String → ℕ → Observation × ℕ
decoy address now =
    (record { kind = "honeypot"; address = address; port = 23; detail = "telnet" }, now)

abbrev log : List (Observation × ℕ)
log = decoy "198.51.100.7" 1001 ∷ decoy "203.0.113.9" 1299 ∷ []

program : Unit {0}
unfolding sorted_ports cooldown_of watch observe honeypot deliver is_due is_on is_muted per_ip_of
    get put pop prune drop_oldest push trim_seen text_key pair_key
program = tt

-- The second touch falls in the cooldown of the first.
one_event : map (λ (e : Event). e.address) (watch 1 log quiet_centre).1 ≡ "198.51.100.7" ∷ []
unfolding program
one_event = refl

abbrev touch : Observation
touch = (decoy "198.51.100.7" 1000).0

abbrev first_event : Event
first_event = record {
  kind = "honeypot";
  address = "198.51.100.7";
  detail = text "telnet";
  count = 1;
  at = 1000;
  ports = 1;
  evidence = 23 ∷ [];
}

cooldown_after_example :
    All
      (λ (e : Event). (e.kind == "honeypot") ≡ false)
      (watch 1 log (observe 1 touch 1000 quiet_centre).0).1
unfolding program
cooldown_after_example =
    cooldown_after 1 1000 first_event touch quiet_centre log (ground arith) refl
      (omega arith, (omega arith, tt))

quiet_centre-IsBounded : IsBounded quiet_centre
quiet_centre-IsBounded = record {
  seen_unique = tt;
  seen = omega arith;
  ports_unique = tt;
  ports = omega arith;
  fails_unique = tt;
  fails = omega arith;
  queue = omega arith;
}

watch-IsBounded_example : IsBounded (watch 1 log quiet_centre).0
watch-IsBounded_example = watch-IsBounded 1 log quiet_centre quiet_centre-IsBounded
