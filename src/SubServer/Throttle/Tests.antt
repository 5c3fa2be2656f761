-- ===== src/SubServer/Throttle/Tests.antt =====
-- The throttle at concrete inputs.
use obhod.Prelude.{◌≤◌, ◌≡◌, refl, true, false, some, List, [], ◌∷◌, arith, text_key}
use obhod.Dict.{Distinct, get, has, put, prune, drop_oldest}
use obhod.SubServer.Throttle.{
  Config, Bucket, Buckets, sub_rate, new_bucket, entry_of, count_request, is_stale, sweep,
  penalty_of, block_for, judge, counted, throttled, miss_entry, record_miss,
}
use obhod.SubServer.Throttle.Entry.{penalty_of_bounds}
use obhod.SubServer.Throttle.Blocks.{Event, request, reply, served, block_holds}
use obhod.SubServer.Throttle.Forgets.{block_forgotten}

program : Unit {0}
unfolding get has put prune drop_oldest counted count_request entry_of judge block_for sweep
    is_stale throttled record_miss miss_entry text_key penalty_of
program = tt

abbrev cfg : Config
cfg = record { second = 1; rate_limit = 5; blocking = true }

abbrev blocked : Bucket
blocked = record {
  window = 480;
  count = 7;
  seen = 500;
  blocked_until = 740;
  misses = 3;
  offences = 3;
}

abbrev table : Buckets
table = ("10.0.0.1", blocked) ∷ ("10.0.0.2", new_bucket 450) ∷ []

table_unique : Distinct table
unfolding has text_key
table_unique = (refl, (refl, tt))

-- The sixth request of a minute is refused, and blocks the address for a minute.
sixth : throttled cfg "10.0.0.2" 460 (("10.0.0.2", record (new_bucket 450) { count = 5 }) ∷ []) ≡ (
  (
    "10.0.0.2",
    record { window = 450; count = 6; seen = 460; blocked_until = 520; misses = 0; offences = 1 },
  )
      ∷ [],
  true,
  some sub_rate,
)
unfolding program
sixth = refl

penalty_of_bounds_example : (60 ≤ penalty_of cfg blocked) × (penalty_of cfg blocked ≤ 3600)
penalty_of_bounds_example = penalty_of_bounds cfg blocked

abbrev table_events : List Event
table_events =
    request "10.0.0.1" 510
    ∷ request "10.0.0.2" 520
    ∷ reply "10.0.0.1" false 530
    ∷ request "10.0.0.1" 619
    ∷ []

block_holds_example : served cfg "10.0.0.1" table table_events ≡ 0
unfolding get text_key
block_holds_example =
    block_holds cfg "10.0.0.1" 500 740 table_events table table_unique (omega arith) (omega arith)
      (record { entry = blocked; there = refl; ends = refl; later = omega arith })

block_forgotten_example :
    (throttled cfg "10.0.0.1" 622 (throttled cfg "10.0.0.2" 621 table).0).1 ≡ false
unfolding program
block_forgotten_example =
    block_forgotten cfg "10.0.0.1" "10.0.0.2" 621 622 table blocked (omega arith) table_unique refl
      (omega arith) refl (omega arith)

abbrev lenient : Config
lenient = record cfg { blocking = false }
