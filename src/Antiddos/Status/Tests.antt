-- ===== src/Antiddos/Status/Tests.antt =====
-- Statuses at concrete inputs.
use obhod.Prelude.{◌≡◌, refl, true, ◌&&◌, not, List, [], ◌∷◌, String, text_key, pos}
use obhod.Antiddos.Policy.{Policy}
use obhod.Antiddos.Status.{
  Status, udp_flood, drops, ok, warn, reason_key, sum_drops, dropped, pressed, has_error, reasons,
  level, under_attack, first_of_kinds, event_kind,
}
use obhod.Antiddos.Status.Levels.{is_alarming, under_attack_exact}

program : Unit {0}
unfolding text_key sum_drops dropped pressed reasons level under_attack first_of_kinds event_kind
program = tt

abbrev eight : List String
eight = "a" ∷ "b" ∷ "c" ∷ "d" ∷ "e" ∷ "f" ∷ "g" ∷ "h" ∷ []

abbrev policy : Policy
policy = record {
  enabled = true;
  syn_rate = pos 1;
  syn_burst = pos 40;
  conn_rate = pos 120;
  conn_burst = pos 60;
  udp_rate = pos 200000;
  udp_burst = pos 200;
  icmp_rate = pos 20;
  icmp_burst = pos 10;
  ban_timeout = pos 3600;
  set_size = pos 65536;
  ports = pos 443 ∷ pos 22 ∷ [];
}

abbrev loaded : Status
loaded = record {
  installed = true;
  enabled = true;
  table = true;
  policy = policy;
  counters = ("accepted", 9000) ∷ ("dropped_syn", 150) ∷ ("drops", 80) ∷ [];
  syn_flood = [];
  conn_flood = [];
  udp_flood = eight;
  icmp_flood = [];
  scan = [];
  pps = 100;
  connections = 0;
  conntrack = 699;
  conntrack_max = 1000;
  kernel = "";
  notice = "";
  error = "";
}

reasons-loaded : reasons loaded ≡ udp_flood ∷ drops ∷ []
unfolding program
reasons-loaded = refl

level-loaded : level loaded ≡ warn
unfolding program
level-loaded = refl

attacked : under_attack (record loaded { conntrack = 900 }) ≡ true
unfolding program
attacked = refl

-- An agent that reports an error is at the level ok, whatever the numbers are.
error_is_ok : level (record loaded { error = "timeout"; conntrack = 1000 }) ≡ ok
unfolding program
error_is_ok = refl

under_attack_exact_example : under_attack loaded ≡ (not (has_error loaded) && is_alarming loaded)
under_attack_exact_example = under_attack_exact loaded
