-- ===== src/Net.antt =====
-- BOT/net.py, `parse_ports` and `parse_hops`, and BOT/portguard.py, `join`, on the text that `str(raw or
-- "")` gives. `isdigit` is taken for the ASCII digits.
pub mod Ranges
pub mod Joined
mod Tests
use obhod.Prelude.{
  ℕ, zero, suc, ◌+◌, ◌-◌, Bool, true, false, ◌&&◌, ◌||◌, not, Option, none, some, List, [], ◌∷◌,
  ◌++◌, ◌⊎◌, inl, inr, if◌then◌else◌, leb, ltb, take, codes, digits_of, map,
}
use obhod.Chars.{Chars, strip, is_blank}
use obhod.Chars.Cut.{pieces, before, rest_after}
use obhod.Chars.Bytes.{decimal}
use obhod.Ports.{is_port}
use obhod.Ports.Ascending.{sort_set}

-- The errors, by what their texts say.
pub data NetError : Type 0 where
  bad_range : NetError
  out_of_bounds : NetError
  bad_port : NetError
  no_ports_given : NetError
  bad_hops : NetError

abbrev pub Read : Type 0
Read = NetError ⊎ List ℕ

-- `range(start, start + count)`
unfoldable pub range : ℕ → ℕ → List ℕ
range start zero = []
range start (suc count) = start ∷ range (start + 1) count

abbrev pub between_ports : Option ℕ → Option ℕ → Read
between_ports none right = inl bad_range
between_ports (some start) none = inl bad_range
between_ports (some start) (some end) =
    if not (leb 1 start && leb start end && leb end 65535) || ltb 1024 (end - start)
    then inl out_of_bounds
    else inr (range start (end + 1 - start))

abbrev pub one_port : Option ℕ → Read
one_port none = inl bad_port
one_port (some n) = if is_port n then inr (n ∷ []) else inl bad_port

-- What follows the first `-`, where there is one, makes it a range.
abbrev pub item_ports : Chars → Option Chars → Read
item_ports item none = one_port (digits_of item)
item_ports item (some right) = between_ports (digits_of (before 45 item)) (digits_of right)

-- The first error ends the loop.
abbrev pub and_ports : Read → Read → Read
and_ports (inl error) rest = inl error
and_ports (inr ports) (inl error) = inl error
and_ports (inr ports) (inr later) = inr (ports ++ later)

unfoldable pub gather : List Chars → Read
gather [] = inr []
gather (chunk ∷ chunks) =
    let item = strip chunk in
    and_ports (if is_blank item then inr [] else item_ports item (rest_after 45 item))
      (gather chunks)

abbrev pub or_none_given : List ℕ → Read
or_none_given [] = inl no_ports_given
or_none_given (p ∷ ports) = inr (take 512 (p ∷ ports))

abbrev pub sorted : Read → Read
sorted (inl error) = inl error
sorted (inr ports) = or_none_given (sort_set ports)

abbrev pub or_fallback : Chars → Chars
or_fallback text = if is_blank text then codes "22,80,443" else text

unfoldable pub parse_ports : Chars → Read
unfolding gather
parse_ports raw = sorted (gather (pieces 44 (or_fallback (strip raw))))

abbrev pub hops_of : Option ℕ → NetError ⊎ ℕ
hops_of none = inl bad_hops
hops_of (some value) = if leb 1 value && leb value 20 then inr value else inl bad_hops

unfoldable pub parse_hops : Chars → NetError ⊎ ℕ
parse_hops raw = let text = strip raw in if is_blank text then inr 12 else hops_of (digits_of text)

-- `SEP.join(...)`
unfoldable pub with_commas : List Chars → Chars
with_commas [] = []
with_commas (t ∷ []) = t
with_commas (t ∷ u ∷ texts) = t ++ 44 ∷ with_commas (u ∷ texts)

unfoldable pub join : List ℕ → Chars
unfolding with_commas
join ports = with_commas (map decimal (take 64 (sort_set ports)))
