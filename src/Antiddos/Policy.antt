-- ===== src/Antiddos/Policy.antt =====
-- BOT/antiddos.py, `clamp` and the class `Policy`. A raw value of the settings is what
-- `int(str(value).strip())` makes of it, an integer or an error; the parsing of a text of ports is
-- not modelled, so the raw ports are the integers that the list holds.
pub mod Normal
mod Tests
use obhod.Prelude.{
  ℕ, ◌^◌, min, max, Bool, true, false, Option, none, some, List, [], ◌∷◌, String, map,
  if◌then◌else◌, ℤ, pos, negsuc, text_key,
}
use obhod.Dict.{Dict, get}
use obhod.Ports.{ports_upto}

pub data Reading : Type 0 where
  bad : Reading
  number : ℤ → Reading

unfoldable pub clamp : Reading → ℕ → ℕ → ℕ → ℤ
clamp bad low high fallback = pos fallback
clamp (number (pos n)) low high fallback = pos (max low (min n high))
clamp (number (negsuc n)) low high fallback = pos low

pub record Policy : Type 0 where
  pub enabled : Bool
  pub syn_rate : ℤ
  pub syn_burst : ℤ
  pub conn_rate : ℤ
  pub conn_burst : ℤ
  pub udp_rate : ℤ
  pub udp_burst : ℤ
  pub icmp_rate : ℤ
  pub icmp_burst : ℤ
  pub ban_timeout : ℤ
  pub set_size : ℤ
  pub ports : List ℤ

abbrev pub max_ports : ℕ
max_ports = 16

abbrev pub default_ports : List ℤ
default_ports = pos 22 ∷ pos 443 ∷ []

-- `ports or list(DEFAULT_PORTS)`
abbrev pub or_default_ports : List ℕ → List ℤ
or_default_ports [] = default_ports
or_default_ports (p ∷ ports) = map pos (p ∷ ports)

unfoldable pub normalise : Policy → Policy
normalise p = record p {
  syn_rate = clamp (number p.syn_rate) 1 100000 60;
  syn_burst = clamp (number p.syn_burst) 1 100000 40;
  conn_rate = clamp (number p.conn_rate) 1 100000 120;
  conn_burst = clamp (number p.conn_burst) 1 100000 60;
  udp_rate = clamp (number p.udp_rate) 1 200000 400;
  udp_burst = clamp (number p.udp_burst) 1 200000 200;
  icmp_rate = clamp (number p.icmp_rate) 1 10000 20;
  icmp_burst = clamp (number p.icmp_burst) 1 10000 10;
  ban_timeout = clamp (number p.ban_timeout) 60 86400 3600;
  set_size = clamp (number p.set_size) 1024 (2 ^ 20) 65536;
  ports = or_default_ports (ports_upto max_ports p.ports);
}

-- The dictionary that `from_dict` reads: `enabled` if it is there, the numbers, and the ports.
pub record Raw : Type 0 where
  pub enabled : Option Bool
  pub numbers : Dict String Reading
  pub ports : List ℤ

abbrev pub reading : Option Reading → Reading
reading none = bad
reading (some r) = r

-- `clamp(data.get(name), low, high, fallback)`
unfoldable pub field : Raw → String → ℕ → ℕ → ℕ → ℤ
field raw name low high fallback = clamp (reading (get name raw.numbers)) low high fallback

abbrev pub or_true : Option Bool → Bool
or_true none = true
or_true (some b) = b

-- The policy that `from_dict` constructs, and then normalises.
unfoldable pub construct : Raw → Policy
unfolding field
construct raw = record {
  enabled = or_true raw.enabled;
  syn_rate = field raw "syn_rate" 1 100000 60;
  syn_burst = field raw "syn_burst" 1 100000 40;
  conn_rate = field raw "conn_rate" 1 100000 120;
  conn_burst = field raw "conn_burst" 1 100000 60;
  udp_rate = field raw "udp_rate" 1 200000 400;
  udp_burst = field raw "udp_burst" 1 200000 200;
  icmp_rate = field raw "icmp_rate" 1 10000 20;
  icmp_burst = field raw "icmp_burst" 1 10000 10;
  ban_timeout = field raw "ban_timeout" 60 86400 3600;
  set_size = field raw "set_size" 1024 (2 ^ 20) 65536;
  ports = map pos (ports_upto max_ports raw.ports);
}

unfoldable pub from_dict : Raw → Policy
from_dict raw = normalise (construct raw)

unfoldable pub to_dict : Policy → Raw
to_dict p = record {
  enabled = some p.enabled;
  numbers =
      ("syn_rate", number p.syn_rate)
      ∷ ("syn_burst", number p.syn_burst)
      ∷ ("conn_rate", number p.conn_rate)
      ∷ ("conn_burst", number p.conn_burst)
      ∷ ("udp_rate", number p.udp_rate)
      ∷ ("udp_burst", number p.udp_burst)
      ∷ ("icmp_rate", number p.icmp_rate)
      ∷ ("icmp_burst", number p.icmp_burst)
      ∷ ("ban_timeout", number p.ban_timeout)
      ∷ ("set_size", number p.set_size)
      ∷ [];
  ports = p.ports;
}
