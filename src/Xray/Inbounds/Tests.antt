-- ===== src/Xray/Inbounds/Tests.antt =====
-- The list of inbounds at concrete inputs.
use obhod.Prelude.{ℕ, ◌≡◌, refl, List, [], ◌∷◌}
use obhod.Xray.Inbounds.{
  Inbound, ids, Change, adds, removes, next_free, next_id, add, without, remove, change, changes,
}
use obhod.Xray.Inbounds.Sound.{IsSound, changes-IsSound}

abbrev inbound : ℕ → Inbound
inbound port = record { id = 0; port = port; remark = "reality" }

-- The second port is in use already.
abbrev log : List Change
log =
    adds (inbound 443)
    ∷ adds (inbound 443)
    ∷ adds (inbound 8443)
    ∷ removes 1
    ∷ adds (inbound 2053)
    ∷ []

numbers : ids (changes log []) ≡ 2 ∷ 1 ∷ []
unfolding changes change add remove without next_id next_free
numbers = refl

changes-IsSound_example : IsSound (changes log [])
changes-IsSound_example =
    changes-IsSound log [] (record { unique_ids = tt; unique_ports = tt; no_zero = refl })
