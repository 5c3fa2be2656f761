-- ===== src/Notify/Centre.antt =====
-- BOT/notify.py, the class `Centre`: observations come in, and events come out, throttled by kind
-- and by address. The clock is an argument, in ticks of which `second` make a second. The address of
-- an observation is the text that `str(obs.address or "").strip()[:64]` has left of it.
pub mod Outcome
pub mod Silence
pub mod Queue
pub mod Memory
mod Tests
use obhod.Prelude.{
  ℕ, zero, suc, ◌+◌, ◌-◌, ◌*◌, max, Bool, true, false, ◌&&◌, ◌||◌, not, Option, none, some, List,
  [], ◌∷◌, ◌++◌, String, if◌then◌else◌, ltb, leb, nat_beq, length, take, last_of, elem, text_key,
  pair_key, number_key, ◌==◌, map,
}
use Prim.Native.String.{◌++◌ as ◌<>◌}
use obhod.Dict.{Dict, get, put, pop, prune, drop_oldest}
use obhod.Notify.Settings.{Settings, or_else, is_on, is_muted, cooldown_of, per_ip_of}

-- The detail of an event is a formatted count, or the text of the observation; its evidence holds the
-- ports that the code prints.
pub data Detail : Type 0 where
  text : String → Detail
  ports_text failures_text : ℕ → Detail

pub record Event : Type 0 where
  pub kind : String
  pub address : String
  pub detail : Detail
  pub count : ℕ
  pub at : ℕ
  pub ports : ℕ
  pub evidence : List ℕ

pub record Observation : Type 0 where
  pub kind : String
  pub address : String
  pub port : ℕ
  pub detail : String

pub record Centre : Type 0 where
  pub settings : Settings
  pub seen : Dict (String × String) ℕ
  pub source : Dict String ℕ
  pub ports : Dict String (Dict ℕ ℕ)
  pub fails : Dict String (List ℕ)
  pub queue : List Event

abbrev pub max_queue : ℕ
max_queue = 64

-- `self.queue[-MAX_QUEUE:]` after the append.
unfoldable pub push : Event → List Event → List Event
push event queue = last_of max_queue (queue ++ event ∷ [])

unfoldable pub drain : Centre → Centre × List Event
drain c = (record c { queue = [] }, c.queue)

-- `last and now - last < wait`: a last time of 0 stands for none.
abbrev pub too_soon : ℕ → ℕ → ℕ → Bool
too_soon now last wait = not (nat_beq last 0) && ltb now (last + wait)

-- Whether `deliver` lets the event through.
unfoldable pub is_due : ℕ → Event → ℕ → Centre → Bool
is_due second event now c =
    if not (is_on c.settings event.kind)
    then false
    else if is_muted c.settings now
    then false
    else if too_soon now (or_else 0 (get event.kind c.source))
        (cooldown_of second c.settings event.kind)
    then false
    else not (
        too_soon now (or_else 0 (get (event.kind, event.address) c.seen))
          (per_ip_of second event.kind))

-- Above 2048 entries the oldest go, until 1024 are left.
unfoldable pub trim_seen : Dict (String × String) ℕ → Dict (String × String) ℕ
trim_seen seen = if ltb 2048 (length seen) then drop_oldest (λ at. at) 1024 seen else seen

unfoldable pub deliver : ℕ → Event → ℕ → Centre → Centre × List Event
unfolding push trim_seen
deliver second event now c =
    if is_due second event now c
    then (
      record c {
        source = put event.kind now c.source;
        seen = trim_seen (put (event.kind, event.address) now c.seen);
        queue = push event c.queue;
      },
      event ∷ [],
    )
    else (c, [])

-- `max(values)`, or 0 for an empty table.
unfoldable pub latest : Dict ℕ ℕ → ℕ
latest [] = 0
latest ((port, at) ∷ table) = max at (latest table)

-- `sorted(table)`: the ports in ascending order.
unfoldable pub insert_port : ℕ → List ℕ → List ℕ
insert_port p [] = p ∷ []
insert_port p (q ∷ ports) = if leb p q then p ∷ q ∷ ports else q ∷ insert_port p ports

unfoldable pub sorted_ports : Dict ℕ ℕ → List ℕ
unfolding insert_port
sorted_ports [] = []
sorted_ports ((port, at) ∷ table) = insert_port port (sorted_ports table)

abbrev pub max_tracked : ℕ
max_tracked = 512

abbrev pub port_scan_ports : ℕ
port_scan_ports = 12

abbrev pub port_scan_window : ℕ → ℕ
port_scan_window second = 300 * second

-- The ports of the address that were touched within the window, this one included.
unfoldable pub touched : ℕ → String → ℕ → ℕ → Centre → Dict ℕ ℕ
touched second address port now c =
    prune (λ at. ltb (at + port_scan_window second) now)
      (put port now (or_else [] (get address c.ports)))

unfoldable pub scan : ℕ → String → ℕ → ℕ → Centre → Centre × List Event
unfolding touched
scan second address zero now c = (c, [])
scan second address (suc p) now c =
    let table = touched second address (suc p) now c in
    let kept = drop_oldest latest max_tracked (put address table c.ports) in
    if ltb (length table) port_scan_ports
    then (record c { ports = kept }, [])
    else deliver second
        (record {
          kind = "portscan";
          address = address;
          detail = ports_text (length (sorted_ports table));
          count = length (sorted_ports table);
          at = now;
          ports = length (sorted_ports table);
          evidence = take 64 (sorted_ports table);
        })
        now (record c { ports = pop address kept })

abbrev pub ssh_fails : ℕ
ssh_fails = 10

-- `[item for item in ... if now - item <= SSH_WINDOW]`
unfoldable pub recent : ℕ → ℕ → List ℕ → List ℕ
recent second now [] = []
recent second now (at ∷ marks) =
    let rest = recent second now marks in if leb now (at + 600 * second) then at ∷ rest else rest

abbrev pub last_mark : List ℕ → ℕ
last_mark [] = 0
last_mark (at ∷ []) = at
last_mark (at ∷ next ∷ marks) = last_mark (next ∷ marks)

-- The failures of the address within the window, this one included.
unfoldable pub marks_of : ℕ → String → ℕ → Centre → List ℕ
unfolding recent
marks_of second address now c = recent second now (or_else [] (get address c.fails)) ++ now ∷ []

unfoldable pub bruteforce : ℕ → String → ℕ → Centre → Centre × List Event
unfolding marks_of
bruteforce second address now c =
    let marks = marks_of second address now c in
    let kept = drop_oldest last_mark max_tracked (put address marks c.fails) in
    if ltb (length marks) ssh_fails
    then (record c { fails = kept }, [])
    else deliver second
        (record {
          kind = "ssh_brute";
          address = address;
          detail = failures_text (length marks);
          count = length marks;
          at = now;
          ports = 0;
          evidence = [];
        })
        now (record c { fails = put address [] kept })

-- `HONEY_TOUCH` is 1: one touch of a decoy is enough, so the table of the address is dropped at once.
unfoldable pub honeypot : ℕ → String → ℕ → String → ℕ → Centre → Centre × List Event
honeypot second address port detail now c =
    let table = put port now (or_else [] (get ("honey:" <> address) c.ports)) in
    deliver second
      (record {
        kind = "honeypot";
        address = address;
        detail = text (if detail == "" then "decoy" else detail);
        count = length table;
        at = now;
        ports = length table;
        evidence = take 64 (sorted_ports table);
      })
      now (record c { ports = pop ("honey:" <> address) (put ("honey:" <> address) table c.ports) })

unfoldable pub direct : ℕ → String → String → String → ℕ → Centre → Centre × List Event
direct second kind address detail now c =
    deliver second
      (record {
        kind = kind;
        address = address;
        detail = text detail;
        count = 1;
        at = now;
        ports = 0;
        evidence = [];
      })
      now c

unfoldable pub observe : ℕ → Observation → ℕ → Centre → Centre × List Event
observe second obs now c =
    if obs.address == ""
    then (c, [])
    else if obs.kind == "portscan"
    then scan second obs.address obs.port now c
    else if obs.kind == "ssh_brute"
    then bruteforce second obs.address now c
    else if obs.kind == "honeypot"
    then honeypot second obs.address obs.port obs.detail now c
    else if elem obs.kind ("fail2ban" ∷ "sub_abuse" ∷ "core" ∷ "ddos" ∷ [])
    then direct second obs.kind obs.address obs.detail now c
    else (c, [])

-- The observations of a log, each with its time, and the events that they let through.
unfoldable pub watch : ℕ → List (Observation × ℕ) → Centre → Centre × List Event
watch second [] c = (c, [])
watch second ((obs, now) ∷ log) c =
    let step = observe second obs now c in
    let rest = watch second log step.0 in (rest.0, step.1 ++ rest.1)
