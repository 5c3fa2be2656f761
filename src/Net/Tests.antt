-- ===== src/Net/Tests.antt =====
-- `parse_ports` and `parse_hops` on a few texts.
use obhod.Prelude.{◌≡◌, refl, [], ◌∷◌, inl, inr, codes, take, arith}
use obhod.Chars.{lstrip, rstrip, strip}
use obhod.Chars.Cut.{pieces_from, before, rest_after}
use obhod.Ports.Ascending.{insert_port, sort_set}
use obhod.Net.{
  bad_range, out_of_bounds, bad_port, bad_hops, range, gather, parse_ports, parse_hops, join,
}
use obhod.Net.Ranges.{AreScanned, parse_ports-AreScanned}
use obhod.Net.Joined.{parse_ports-join}

scanned : parse_ports (codes " 443, 20-22,,80 ,21") ≡ inr (20 ∷ 21 ∷ 22 ∷ 80 ∷ 443 ∷ [])
unfolding parse_ports gather range lstrip rstrip strip pieces_from before rest_after insert_port
    sort_set
scanned = refl

default_ports : parse_ports (codes " ") ≡ inr (22 ∷ 80 ∷ 443 ∷ [])
unfolding parse_ports gather range lstrip rstrip strip pieces_from before rest_after insert_port
    sort_set
default_ports = refl

half_range : parse_ports (codes "20-") ≡ inl bad_range
unfolding parse_ports gather range lstrip rstrip strip pieces_from before rest_after insert_port
    sort_set
half_range = refl

wide_range : parse_ports (codes "1-1026") ≡ inl out_of_bounds
unfolding parse_ports gather range lstrip rstrip strip pieces_from before rest_after insert_port
    sort_set
wide_range = refl

zero_port : parse_ports (codes "0") ≡ inl bad_port
unfolding parse_ports gather range lstrip rstrip strip pieces_from before rest_after insert_port
    sort_set
zero_port = refl

too_many_hops : parse_hops (codes "21") ≡ inl bad_hops
unfolding parse_hops lstrip rstrip strip
too_many_hops = refl

parse_ports-AreScanned_example : AreScanned (20 ∷ 21 ∷ 22 ∷ 80 ∷ 443 ∷ [])
parse_ports-AreScanned_example =
    parse_ports-AreScanned (codes " 443, 20-22,,80 ,21") (20 ∷ 21 ∷ 22 ∷ 80 ∷ 443 ∷ []) scanned

parse_ports-join_example : parse_ports (join (443 ∷ 80 ∷ 443 ∷ [])) ≡ inr (take 64 (80 ∷ 443 ∷ []))
unfolding insert_port sort_set
parse_ports-join_example = parse_ports-join (443 ∷ 80 ∷ 443 ∷ []) (omega arith) (ground arith)
