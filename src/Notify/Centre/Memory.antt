-- ===== src/Notify/Centre/Memory.antt =====
-- What the centre keeps stays bounded, whatever is observed.
use obhod.Prelude.{
  ℕ, ◌≤◌, ◌+◌, List, [], ◌∷◌, String, arith, Bool-cases, inl, inr, ltb, length, number_key,
  text_key, pair_key, zero, suc, length-last_of, ◌++◌,
}
use Prim.Native.String.{◌++◌ as ◌<>◌}
use obhod.Notify.Settings.{or_else}
use obhod.Dict.{Dict, get, put, pop, drop_oldest, Distinct}
use obhod.Dict.Laws.{Distinct-put, Distinct-pop, length-put-le, length-pop-le, length-pop-put}
use obhod.Dict.Evict.{Distinct-drop_oldest, length-drop_oldest}
use obhod.Notify.Centre.Outcome.{observe-all}
use obhod.Notify.Centre.{
  Event, Observation, Centre, push, max_queue, is_due, deliver, observe, watch, trim_seen, scan,
  touched, latest, max_tracked, bruteforce, marks_of, last_mark, honeypot, direct,
}

pub record IsBounded (c : Centre) : Type 0 where
  pub seen_unique : Distinct c.seen
  pub seen : length c.seen ≤ 2048
  pub ports_unique : Distinct c.ports
  pub ports : length c.ports ≤ max_tracked
  pub fails_unique : Distinct c.fails
  pub fails : length c.fails ≤ max_tracked + 1
  pub queue : length c.queue ≤ max_queue

trim_seen_unique : (seen : Dict (String × String) ℕ) → Distinct seen → Distinct (trim_seen seen)
unfolding trim_seen
trim_seen_unique seen h = elim (Bool-cases (ltb 2048 (length seen))) [
  | inl e ↦ rw e (Distinct-drop_oldest (λ at. at) 1024 seen h)
  | inr e ↦ rw e h
]

length-trim_seen :
    (seen : Dict (String × String) ℕ) → Distinct seen → length (trim_seen seen) ≤ 2048
unfolding trim_seen
length-trim_seen seen h = ground (arith, length-drop_oldest (λ at. at) 1024 seen h)

deliver-IsBounded :
    (second : ℕ) (e : Event) (now : ℕ) (c : Centre)
    → IsBounded c
    → IsBounded (deliver second e now c).0
unfolding deliver push
deliver-IsBounded second e now c v =
    let unique : Distinct (put (e.kind, e.address) now c.seen) =
      Distinct-put (e.kind, e.address) now c.seen v.seen_unique in
    elim (Bool-cases (is_due second e now c)) [
      | inl due ↦ rw due (record {
        seen_unique = trim_seen_unique _ unique;
        seen = length-trim_seen _ unique;
        ports_unique = v.ports_unique;
        ports = v.ports;
        fails_unique = v.fails_unique;
        fails = v.fails;
        queue = length-last_of max_queue (c.queue ++ e ∷ []);
      })
      | inr held ↦ rw held v
    ]

with_ports :
    (c : Centre) (ports : Dict String (Dict ℕ ℕ))
    → IsBounded c
    → Distinct ports
    → length ports ≤ max_tracked
    → IsBounded (record c { ports = ports })
with_ports c ports v unique short = record {
  seen_unique = v.seen_unique;
  seen = v.seen;
  ports_unique = unique;
  ports = short;
  fails_unique = v.fails_unique;
  fails = v.fails;
  queue = v.queue;
}

with_fails :
    (c : Centre) (fails : Dict String (List ℕ))
    → IsBounded c
    → Distinct fails
    → length fails ≤ max_tracked + 1
    → IsBounded (record c { fails = fails })
with_fails c fails v unique short = record {
  seen_unique = v.seen_unique;
  seen = v.seen;
  ports_unique = v.ports_unique;
  ports = v.ports;
  fails_unique = unique;
  fails = short;
  queue = v.queue;
}

scan-IsBounded :
    (second : ℕ) (address : String) (port now : ℕ) (c : Centre)
    → IsBounded c
    → IsBounded (scan second address port now c).0
unfolding scan
scan-IsBounded second address zero now c v = v
scan-IsBounded second address (suc p) now c v =
    let table : Dict ℕ ℕ = touched second address (suc p) now c in
    let unique : Distinct (put address table c.ports) =
      Distinct-put address table c.ports v.ports_unique in
    let kept : Dict String (Dict ℕ ℕ) =
      drop_oldest latest max_tracked (put address table c.ports) in
    let kept_unique : Distinct kept = Distinct-drop_oldest latest max_tracked _ unique in
    let short : length kept ≤ max_tracked = length-drop_oldest latest max_tracked _ unique in
    elim (Bool-cases (ltb (length table) 12)) [
      | inl few ↦ rw few (with_ports c kept v kept_unique short)
      | inr many ↦ rw many (
          deliver-IsBounded second _ now _ (
            with_ports c (pop address kept) v (Distinct-pop address kept kept_unique)
              (omega (arith, length-pop-le address kept))))
    ]

bruteforce-IsBounded :
    (second : ℕ) (address : String) (now : ℕ) (c : Centre)
    → IsBounded c
    → IsBounded (bruteforce second address now c).0
unfolding bruteforce
bruteforce-IsBounded second address now c v =
    let marks : List ℕ = marks_of second address now c in
    let unique : Distinct (put address marks c.fails) =
      Distinct-put address marks c.fails v.fails_unique in
    let kept : Dict String (List ℕ) =
      drop_oldest last_mark max_tracked (put address marks c.fails) in
    let kept_unique : Distinct kept = Distinct-drop_oldest last_mark max_tracked _ unique in
    let short : length kept ≤ max_tracked = length-drop_oldest last_mark max_tracked _ unique in
    elim (Bool-cases (ltb (length marks) 10)) [
      | inl few ↦ rw few (with_fails c kept v kept_unique (omega arith))
      | inr many ↦ rw many (
          deliver-IsBounded second _ now _ (
            with_fails c (put address [] kept) v (Distinct-put address [] kept kept_unique)
              (omega (arith, length-put-le address [] kept))))
    ]

honeypot-IsBounded :
    (second : ℕ) (address : String) (port : ℕ) (detail : String) (now : ℕ) (c : Centre)
    → IsBounded c
    → IsBounded (honeypot second address port detail now c).0
unfolding honeypot
honeypot-IsBounded second address port detail now c v =
    let key : String = "honey:" <> address in
    let table : Dict ℕ ℕ = put port now (or_else [] (get key c.ports)) in
    deliver-IsBounded second _ now _ (
      with_ports c (pop key (put key table c.ports)) v
        (Distinct-pop key _ (Distinct-put key table c.ports v.ports_unique))
        (omega (arith, length-pop-put key table c.ports)))

observe-IsBounded :
    (second : ℕ) (obs : Observation) (now : ℕ) (c : Centre)
    → IsBounded c
    → IsBounded (observe second obs now c).0
unfolding direct
observe-IsBounded second obs now c v =
    observe-all (λ r. IsBounded r.0) second obs now c v
      (scan-IsBounded second obs.address obs.port now c v)
      (bruteforce-IsBounded second obs.address now c v)
      (honeypot-IsBounded second obs.address obs.port obs.detail now c v)
      (deliver-IsBounded second _ now c v)

-- Any number of observations keeps every table of the centre with unique keys and within its limit:
-- 2048 pairs of kind and address, 512 addresses with ports, 513 with failures, 64 events.
pub watch-IsBounded :
    (second : ℕ) (log : List (Observation × ℕ)) (c : Centre)
    → IsBounded c
    → IsBounded (watch second log c).0
unfolding watch
watch-IsBounded second [] c v = v
watch-IsBounded second ((obs, now) ∷ log) c v =
    watch-IsBounded second log (observe second obs now c).0 (observe-IsBounded second obs now c v)
