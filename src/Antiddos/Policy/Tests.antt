-- ===== src/Antiddos/Policy/Tests.antt =====
-- Policies at concrete inputs.
use obhod.Prelude.{◌≡◌, refl, true, none, [], ◌∷◌, pos, negsuc, text_key}
use obhod.Dict.{get}
use obhod.Ports.{add_port, collect, ports_upto}
use obhod.Antiddos.Policy.{
  bad, number, Policy, Raw, clamp, field, construct, normalise, from_dict, to_dict,
}
use obhod.Antiddos.Policy.Normal.{InRange, normalise-InRange, from_dict-InRange, normalise_fixed}

program : Unit {0}
unfolding get text_key add_port collect ports_upto clamp field construct normalise from_dict to_dict
program = tt

abbrev raw : Raw
raw = record {
  enabled = none;
  numbers =
      ("syn_rate", number (negsuc 4)) ∷ ("udp_rate", number (pos 999999)) ∷ ("set_size", bad) ∷ [];
  ports = pos 443 ∷ pos 443 ∷ negsuc 0 ∷ pos 70000 ∷ pos 22 ∷ [];
}

abbrev policy : Policy
policy = record {
  enabled = true;
  syn_rate = pos 1;
  syn_burst = pos 40;
  conn_rate = pos 120;
  conn_burst = pos 60;
  udp_rate = pos 200000;
  udp_burst = pos 200;
  icmp_rate = pos 20;
  icmp_burst = pos 10;
  ban_timeout = pos 3600;
  set_size = pos 65536;
  ports = pos 443 ∷ pos 22 ∷ [];
}

read_policy : from_dict raw ≡ policy
unfolding program
read_policy = refl

no_ports : (normalise (record policy { ports = pos 0 ∷ [] })).ports ≡ pos 22 ∷ pos 443 ∷ []
unfolding program
no_ports = refl

normalise-InRange_example : InRange (normalise (record policy { ban_timeout = pos 5; ports = [] }))
normalise-InRange_example = normalise-InRange (record policy { ban_timeout = pos 5; ports = [] })

from_dict-InRange_example : InRange (from_dict raw)
from_dict-InRange_example = from_dict-InRange raw

policy-InRange : InRange policy
unfolding program
policy-InRange = from_dict-InRange raw

normalise_fixed_example : normalise policy ≡ policy
normalise_fixed_example = normalise_fixed policy policy-InRange
