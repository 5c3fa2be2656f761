-- ===== src/Portguard/Tests.antt =====
-- The ports at concrete inputs.
use obhod.Prelude.{
  ℕ, ◌≡◌, ◌≢◌, refl, true, false, some, none, List, [], ◌∷◌, pos, arith, number_key, text_key,
}
use obhod.Ports.{is_port}
use obhod.Ports.Ascending.{sort_set, insert_port}
use obhod.Portguard.{
  Sources, protected_ports, in_range, gathered, readable, check, foreign_ports, strangers,
  is_refused, free_port, first_near,
}
use obhod.Portguard.Keep.{check-protected_ports}
use obhod.Portguard.Free.{free_port_found}

program : Unit {0}
unfolding protected_ports in_range gathered readable check foreign_ports strangers sort_set
    insert_port first_near text_key
program = tt

abbrev sources : Sources
sources = record {
  ssh_ports = none ∷ [];
  ssh_port = some (pos 2200);
  inbounds = some (pos 443) ∷ some (pos 8443) ∷ [];
  sub_port = some (pos 0);
  extra = some (pos 443) ∷ [];
}

protected : protected_ports sources ≡ 443 ∷ 2200 ∷ 8443 ∷ []
unfolding program
protected = refl

check-protected_ports_example : check (pos 443) (protected_ports sources) "vk" ≢ none
unfolding program
check-protected_ports_example = check-protected_ports sources 443 "vk" (omega arith) refl refl

abbrev taken : List ℕ
taken = 2221 ∷ 2223 ∷ []

found : free_port (pos 2221) taken 4 ≡ 2224
unfolding free_port first_near
found = refl

free_port_found_example :
    (is_port (free_port (pos 2221) taken 4) ≡ true)
    × (is_refused taken (free_port (pos 2221) taken 4) ≡ false)
free_port_found_example = free_port_found (pos 2221) taken 4 8080 (omega arith) (omega arith) refl
