-- ===== src/Xray/Inbounds.antt =====
-- BOT/xray.py, the list of inbounds that `XrayState` keeps: next_id, add and remove. An inbound is its
-- number, its port and its remark; the other fields are carried along.
pub mod Ids
pub mod Sound
mod Tests
use obhod.Prelude.{
  ℕ, zero, suc, ◌+◌, ◌||◌, Bool, true, false, Option, none, some, List, [], ◌∷◌, ◌++◌, String,
  nat_beq, if◌then◌else◌, elem, number_key, map, length,
}

pub record Inbound : Type 0 where
  pub id : ℕ
  pub port : ℕ
  pub remark : String

abbrev pub ids : List Inbound → List ℕ
ids inbounds = map (λ (i : Inbound). i.id) inbounds

abbrev pub ports : List Inbound → List ℕ
ports inbounds = map (λ (i : Inbound). i.port) inbounds

-- `while value in used: value += 1`, for as many rounds as there is fuel.
unfoldable pub next_free : ℕ → ℕ → List ℕ → ℕ
next_free zero value used = value
next_free (suc fuel) value used =
    let rest = next_free fuel (value + 1) used in if elem value used then rest else value

-- One round more than there are numbers in use is enough.
unfoldable pub next_id : List Inbound → ℕ
unfolding next_free
next_id inbounds = next_free (suc (length (ids inbounds))) 1 (ids inbounds)

-- `none` is the error for a port that is in use.
unfoldable pub add : Inbound → List Inbound → Option (List Inbound)
add inbound inbounds =
    if elem inbound.port (ports inbounds)
    then none
    else some (inbounds ++ record inbound { id = next_id inbounds } ∷ [])

-- Without the first inbound of the number.
unfoldable pub without : ℕ → List Inbound → List Inbound
without key [] = []
without key (i ∷ inbounds) =
    let rest = without key inbounds in if nat_beq i.id key then inbounds else i ∷ rest

-- The list that is left, and whether there was such an inbound.
unfoldable pub remove : ℕ → List Inbound → List Inbound × Bool
remove key inbounds =
    if elem key (ids inbounds) then (without key inbounds, true) else (inbounds, false)

pub data Change : Type 0 where
  adds : Inbound → Change
  removes : ℕ → Change

abbrev pub or_same : List Inbound → Option (List Inbound) → List Inbound
or_same inbounds none = inbounds
or_same inbounds (some list) = list

-- What a change leaves; an error leaves the list as it was.
unfoldable pub change : Change → List Inbound → List Inbound
unfolding add remove
change (adds inbound) inbounds = or_same inbounds (add inbound inbounds)
change (removes key) inbounds = (remove key inbounds).0

unfoldable pub changes : List Change → List Inbound → List Inbound
unfolding change
changes [] inbounds = inbounds
changes (c ∷ later) inbounds = changes later (change c inbounds)
