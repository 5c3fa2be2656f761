-- ===== src/Antiddos/Policy/Normal.antt =====
-- A policy that was read or normalised is within its limits, and stays as it is from then on.
use obhod.Prelude.{
  ℕ, ◌^◌, ◌≤◌, ◌≡◌, refl, List, [], ◌∷◌, map, ℤ, pos, negsuc, text_key, arith, length, ◌∙◌, ap,
  number_key,
}
use obhod.Dict.{get}
use obhod.Ports.{ports_upto}
use obhod.Ports.Laws.{ArePorts, ports_upto-ArePorts, ports_upto_self}
use obhod.Antiddos.Policy.{
  Reading, bad, number, clamp, Policy, max_ports, or_default_ports, normalise, Raw, construct,
  from_dict, to_dict,
}

-- An integer from `low` to `high`.
abbrev pub Between : ℕ → ℕ → ℤ → Type 0
Between low high (pos n) = (low ≤ n) × (n ≤ high)
Between low high (negsuc n) = ⊥

clamp-Between :
    (r : Reading) (low high fallback : ℕ)
    → low ≤ fallback
    → fallback ≤ high
    → Between low high (clamp r low high fallback)
unfolding clamp
clamp-Between bad low high fallback h k = (h, k)
clamp-Between (number (pos n)) low high fallback h k = (omega arith, omega arith)
clamp-Between (number (negsuc n)) low high fallback h k = (omega arith, omega arith)

clamp_inside :
    (v : ℤ) (low high fallback : ℕ) → Between low high v → clamp (number v) low high fallback ≡ v
unfolding clamp
clamp_inside (pos n) low high fallback h = ap pos (omega arith)
clamp_inside (negsuc n) low high fallback h = absurd h

-- One to sixteen distinct ports.
pub record ArePolicyPorts (ports : List ℤ) : Type 0 where
  pub numbers : List ℕ
  pub same : ports ≡ map pos numbers
  pub valid : ArePorts numbers
  pub few : length numbers ≤ max_ports
  pub some_there : 1 ≤ length numbers

pub record InRange (p : Policy) : Type 0 where
  pub syn_rate : Between 1 100000 p.syn_rate
  pub syn_burst : Between 1 100000 p.syn_burst
  pub conn_rate : Between 1 100000 p.conn_rate
  pub conn_burst : Between 1 100000 p.conn_burst
  pub udp_rate : Between 1 200000 p.udp_rate
  pub udp_burst : Between 1 200000 p.udp_burst
  pub icmp_rate : Between 1 10000 p.icmp_rate
  pub icmp_burst : Between 1 10000 p.icmp_burst
  pub ban_timeout : Between 60 86400 p.ban_timeout
  pub set_size : Between 1024 (2 ^ 20) p.set_size
  pub ports : ArePolicyPorts p.ports

default_there :
    (ports : List ℕ)
    → ArePorts ports
    → length ports ≤ max_ports
    → ArePolicyPorts (or_default_ports ports)
default_there [] a h = record {
  numbers = 22 ∷ 443 ∷ [];
  same = refl;
  valid = ((refl, (refl, tt)), (refl, (refl, tt)));
  few = omega arith;
  some_there = omega arith;
}
default_there (p ∷ ports) a h = record {
  numbers = p ∷ ports;
  same = refl;
  valid = a;
  few = h;
  some_there = omega arith;
}

-- Whatever a policy holds, `normalise` brings every number into its range and leaves one to
-- sixteen distinct ports.
pub normalise-InRange : (p : Policy) → InRange (normalise p)
unfolding normalise
normalise-InRange p = record {
  syn_rate = clamp-Between (number p.syn_rate) 1 100000 60 (omega arith) (omega arith);
  syn_burst = clamp-Between (number p.syn_burst) 1 100000 40 (omega arith) (omega arith);
  conn_rate = clamp-Between (number p.conn_rate) 1 100000 120 (omega arith) (omega arith);
  conn_burst = clamp-Between (number p.conn_burst) 1 100000 60 (omega arith) (omega arith);
  udp_rate = clamp-Between (number p.udp_rate) 1 200000 400 (omega arith) (omega arith);
  udp_burst = clamp-Between (number p.udp_burst) 1 200000 200 (omega arith) (omega arith);
  icmp_rate = clamp-Between (number p.icmp_rate) 1 10000 20 (omega arith) (omega arith);
  icmp_burst = clamp-Between (number p.icmp_burst) 1 10000 10 (omega arith) (omega arith);
  ban_timeout = clamp-Between (number p.ban_timeout) 60 86400 3600 (omega arith) (omega arith);
  set_size = clamp-Between (number p.set_size) 1024 (2 ^ 20) 65536 (omega arith) (omega arith);
  ports =
      default_there (ports_upto max_ports p.ports) (ports_upto-ArePorts max_ports p.ports).0
        (ports_upto-ArePorts max_ports p.ports).1;
}

ports_read : (ports : List ℤ) → ArePolicyPorts ports → map pos (ports_upto max_ports ports) ≡ ports
ports_read ports a = rw (a.same, ports_upto_self max_ports a.numbers a.valid a.few) refl

default_unused : (ports : List ℕ) → 1 ≤ length ports → or_default_ports ports ≡ map pos ports
default_unused [] h = absurd (omega arith)
default_unused (p ∷ ports) h = refl

ports_fixed :
    (ports : List ℤ) → ArePolicyPorts ports → or_default_ports (ports_upto max_ports ports) ≡ ports
ports_fixed ports a =
    rw (a.same, ports_upto_self max_ports a.numbers a.valid a.few)
      (default_unused a.numbers a.some_there)

-- A policy in range is not changed by `normalise`.
pub normalise_fixed : (p : Policy) → InRange p → normalise p ≡ p
unfolding normalise
normalise_fixed p r = λ i. record {
  enabled = p.enabled;
  syn_rate = clamp_inside p.syn_rate 1 100000 60 r.syn_rate i;
  syn_burst = clamp_inside p.syn_burst 1 100000 40 r.syn_burst i;
  conn_rate = clamp_inside p.conn_rate 1 100000 120 r.conn_rate i;
  conn_burst = clamp_inside p.conn_burst 1 100000 60 r.conn_burst i;
  udp_rate = clamp_inside p.udp_rate 1 200000 400 r.udp_rate i;
  udp_burst = clamp_inside p.udp_burst 1 200000 200 r.udp_burst i;
  icmp_rate = clamp_inside p.icmp_rate 1 10000 20 r.icmp_rate i;
  icmp_burst = clamp_inside p.icmp_burst 1 10000 10 r.icmp_burst i;
  ban_timeout = clamp_inside p.ban_timeout 60 86400 3600 r.ban_timeout i;
  set_size = clamp_inside p.set_size 1024 (2 ^ 20) 65536 r.set_size i;
  ports = ports_fixed p.ports r.ports i;
}

-- Whatever the stored dictionary holds, the policy that is read from it is in range.
pub from_dict-InRange : (raw : Raw) → InRange (from_dict raw)
unfolding from_dict
from_dict-InRange raw = normalise-InRange (construct raw)

construct-to_dict : (p : Policy) → InRange p → construct (to_dict p) ≡ p
unfolding to_dict construct get text_key
construct-to_dict p r = λ i. record {
  enabled = p.enabled;
  syn_rate = clamp_inside p.syn_rate 1 100000 60 r.syn_rate i;
  syn_burst = clamp_inside p.syn_burst 1 100000 40 r.syn_burst i;
  conn_rate = clamp_inside p.conn_rate 1 100000 120 r.conn_rate i;
  conn_burst = clamp_inside p.conn_burst 1 100000 60 r.conn_burst i;
  udp_rate = clamp_inside p.udp_rate 1 200000 400 r.udp_rate i;
  udp_burst = clamp_inside p.udp_burst 1 200000 200 r.udp_burst i;
  icmp_rate = clamp_inside p.icmp_rate 1 10000 20 r.icmp_rate i;
  icmp_burst = clamp_inside p.icmp_burst 1 10000 10 r.icmp_burst i;
  ban_timeout = clamp_inside p.ban_timeout 60 86400 3600 r.ban_timeout i;
  set_size = clamp_inside p.set_size 1024 (2 ^ 20) 65536 r.set_size i;
  ports = ports_read p.ports r.ports i;
}

-- A policy in range is read back from its dictionary as it was.
pub from_dict-to_dict : (p : Policy) → InRange p → from_dict (to_dict p) ≡ p
unfolding from_dict
from_dict-to_dict p r = ap normalise (construct-to_dict p r) ∙ normalise_fixed p r
