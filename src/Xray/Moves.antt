-- ===== src/Xray/Moves.antt =====
-- BOT/xray.py, `metric_parts` and `resolve_ports`: the ports that move away when a stranger or an
-- inbound has them. A port is a number that is not negative; `used` is read from the owners as numbers.
pub mod Clear
pub mod Collision
mod Tests
use obhod.Prelude.{
  ℕ, ◌+◌, Bool, true, false, ◌&&◌, ◌||◌, not, Option, none, some, List, [], ◌∷◌, ◌++◌, String,
  if◌then◌else◌, elem, number_key, nat_beq, codes, digits_of, pos,
}
use obhod.Chars.{Chars, strip, is_blank}
use obhod.Chars.Cut.{last_piece, rest_after}
use obhod.Chars.Bytes.{decimal}
use obhod.Portguard.{free_port}

-- The settings that listen on a port.
pub record Listening : Type 0 where
  pub inbounds : List ℕ
  pub metrics : Chars
  pub api_port : ℕ
  pub sub_port : ℕ

-- `rpartition(sep)[0]`: what stands before the last `sep`, and nothing where there is none.
unfoldable pub before_last : ℕ → Chars → Chars
before_last sep [] = []
before_last sep (c ∷ cs) =
    let rest = before_last sep cs in
    elim (rest_after sep (c ∷ cs)) [
      | none ↦ []
      | some t ↦ elim (rest_after sep cs) [
        | none ↦ if nat_beq c sep then [] else c ∷ rest
        | some u ↦ c ∷ rest
      ]
    ]

abbrev pub parts_of : Chars → Option ℕ → Chars × ℕ
parts_of host none = ([], 0)
parts_of host (some port) = (host, port)

unfoldable pub metric_parts : Listening → Chars × ℕ
unfolding before_last
metric_parts s =
    let text = strip s.metrics in parts_of (before_last 58 text) (digits_of (last_piece 58 text))

-- A port that moved: what listens on it, and where it was and is.
pub record Move : Type 0 where
  pub label : String
  pub old : ℕ
  pub found : ℕ

pub record Round : Type 0 where
  pub settings : Listening
  pub taken : List ℕ
  pub own : List ℕ
  pub moves : List Move

-- Where the port goes, if it moves.
abbrev pub place_for : ℕ → Round → Option ℕ
place_for value r =
    let found = free_port (pos (value + 1)) (r.own ++ r.taken) 512 in
    if not (elem value r.taken || elem value r.own) || nat_beq found 0 || nat_beq found value
    then none
    else some found

abbrev pub moved : String → ℕ → ℕ → Listening → Round → Round
moved label old found settings r = record {
  settings = settings;
  taken = found ∷ r.taken;
  own = found ∷ r.own;
  moves = r.moves ++ record { label = label; old = old; found = found } ∷ [];
}

-- `"%s:%d" % (host or "127.0.0.1", found)`
abbrev pub metrics_text : Chars → ℕ → Chars
metrics_text host found = (if is_blank host then codes "127.0.0.1" else host) ++ 58 ∷ decimal found

abbrev pub set_metrics : Chars → ℕ → Option ℕ → Round → Round
set_metrics host old none r = r
set_metrics host old (some found) r =
    moved "metrics" old found (record r.settings { metrics = metrics_text host found }) r

abbrev pub set_api : Option ℕ → Round → Round
set_api none r = r
set_api (some found) r =
    moved "api" r.settings.api_port found (record r.settings { api_port = found }) r

abbrev pub set_sub : Option ℕ → Round → Round
set_sub none r = r
set_sub (some found) r =
    moved "sub" r.settings.sub_port found (record r.settings { sub_port = found }) r

abbrev pub none_for_zero : ℕ → Option ℕ → Option ℕ
none_for_zero port found = if nat_beq port 0 then none else found

unfoldable pub move_metrics : Round → Round
unfolding metric_parts
move_metrics r =
    let (host, port) = metric_parts r.settings in
    set_metrics host port (none_for_zero port (place_for port r)) r

unfoldable pub move_api : Round → Round
move_api r = set_api (place_for r.settings.api_port r) r

unfoldable pub move_sub : Round → Round
move_sub r = set_sub (place_for r.settings.sub_port r) r

unfoldable pub resolve_ports : List ℕ → Listening → Round
unfolding move_metrics move_api move_sub
resolve_ports used s =
    move_sub (
      move_api (move_metrics (record { settings = s; taken = used; own = s.inbounds; moves = [] })))
