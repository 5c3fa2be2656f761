-- ===== src/Xray/Moves/Collision.antt =====
-- The subscriptions can move onto the port of the API.
use obhod.Prelude.{ℕ, Bool, ◌||◌, not, elem, number_key}
use obhod.Xray.Moves.{Round}

-- Nobody else is on the port.
abbrev pub is_quiet : Round → ℕ → Bool
is_quiet r p = not (elem p r.taken || elem p r.own)
