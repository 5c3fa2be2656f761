-- ===== src/Verdict/Tests.antt =====
-- The verdict at concrete inputs.
use obhod.Prelude.{◌≡◌, refl, true, List, [], ◌∷◌, elem, text_key}
use obhod.Dict.{get, put}
use obhod.Verdict.{
  Probe, counts, count_probes, count_votes, meets, blocking, blocked, blocking_names, insert_kind,
  sort_kinds, counted_kinds, blocking_kinds, dominant, verdict,
}
use obhod.Verdict.Blocked.{verdict-blocked}

abbrev results : List Probe
results =
    record { provider = "a"; verdicts = "sni_block" ∷ "ok" ∷ [] }
    ∷ record { provider = "b"; verdicts = [] }
    ∷ record { provider = "c"; verdicts = "ok" ∷ [] }
    ∷ []

program : Unit {0}
unfolding get put counts count_probes count_votes meets blocking blocked insert_kind sort_kinds
    counted_kinds blocking_kinds dominant verdict text_key
program = tt

found : verdict results ≡ "sni_block"
unfolding program
found = refl

verdict-blocked_example : elem (verdict results) blocking_names ≡ true
unfolding program
verdict-blocked_example = verdict-blocked results refl
