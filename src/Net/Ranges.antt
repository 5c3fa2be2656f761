-- ===== src/Net/Ranges.antt =====
-- The ports that `parse_ports` returns.
use obhod.Prelude.{
  ℕ, zero, suc, ◌+◌, ◌-◌, ◌≤◌, ◌≡◌, refl, subst, true, ◌&&◌, ◌||◌, not, Option, none, some, List,
  [], ◌∷◌, inl, inr, if◌then◌else◌, leb, ltb, take, length, length-take, arith, All, All-append,
  Bool-cases, digits_of,
}
use obhod.Chars.{Chars, strip, is_blank}
use obhod.Chars.Cut.{pieces, before, rest_after}
use obhod.Ports.{is_port}
use obhod.Ports.Ascending.{insert_port, sort_set, Ascending, Ascending-sort_set}
use obhod.Net.{
  Read, range, between_ports, one_port, item_ports, and_ports, gather, or_none_given, sorted,
  or_fallback, parse_ports,
}

abbrev pub ArePorts : List ℕ → Type 0
ArePorts ports = All (λ p. is_port p ≡ true) ports

-- An error, or numbers from 1 to 65535.
abbrev ReadsPorts : Read → Type 0
ReadsPorts (inl error) = Unit
ReadsPorts (inr ports) = ArePorts ports

range-ArePorts :
    (start count : ℕ) → 1 ≤ start → start + count ≤ 65536 → ArePorts (range start count)
unfolding range
range-ArePorts start zero low high = tt
range-ArePorts start (suc count) low high =
    (ground arith, range-ArePorts (start + 1) count (omega arith) (omega arith))

between_ports-ReadsPorts : (left right : Option ℕ) → ReadsPorts (between_ports left right)
between_ports-ReadsPorts none right = tt
between_ports-ReadsPorts (some start) none = tt
between_ports-ReadsPorts (some start) (some end) =
    elim (Bool-cases
      (not (leb 1 start && leb start end && leb end 65535) || ltb 1024 (end - start))) [
        | inl outside ↦ rw outside tt
        | inr inside ↦
            rw inside (range-ArePorts start (end + 1 - start) (ground arith) (ground arith))
      ]

one_port-ReadsPorts : (o : Option ℕ) → ReadsPorts (one_port o)
one_port-ReadsPorts none = tt
one_port-ReadsPorts (some n) = elim (Bool-cases (is_port n)) [
  | inl good ↦ rw (good, good) (refl, tt)
  | inr bad ↦ rw bad tt
]

item_ports-ReadsPorts : (item : Chars) (o : Option Chars) → ReadsPorts (item_ports item o)
item_ports-ReadsPorts item none = one_port-ReadsPorts (digits_of item)
item_ports-ReadsPorts item (some right) =
    between_ports-ReadsPorts (digits_of (before 45 item)) (digits_of right)

and_ports-ReadsPorts : (r s : Read) → ReadsPorts r → ReadsPorts s → ReadsPorts (and_ports r s)
and_ports-ReadsPorts (inl error) s h k = tt
and_ports-ReadsPorts (inr ports) (inl error) h k = tt
and_ports-ReadsPorts (inr ports) (inr later) h k = All-append _ ports later h k

gather-ReadsPorts : (chunks : List Chars) → ReadsPorts (gather chunks)
unfolding gather
gather-ReadsPorts [] = tt
gather-ReadsPorts (chunk ∷ chunks) =
    let item : Chars = strip chunk in
    let first : ReadsPorts
        (if is_blank item then inr [] else item_ports item (rest_after 45 item)) =
      elim (Bool-cases (is_blank item)) [
        | inl blank ↦ rw blank tt
        | inr filled ↦ rw filled (item_ports-ReadsPorts item (rest_after 45 item))
      ] in
    and_ports-ReadsPorts _ (gather chunks) first (gather-ReadsPorts chunks)

insert_port-ArePorts :
    (p : ℕ) (ports : List ℕ) → is_port p ≡ true → ArePorts ports → ArePorts (insert_port p ports)
unfolding insert_port
insert_port-ArePorts p [] h a = (h, tt)
insert_port-ArePorts p (q ∷ ports) h a = ground (arith, insert_port-ArePorts p ports h a.1)

pub sort_set-ArePorts : (ports : List ℕ) → ArePorts ports → ArePorts (sort_set ports)
unfolding sort_set
sort_set-ArePorts [] a = tt
sort_set-ArePorts (p ∷ ports) a =
    insert_port-ArePorts p (sort_set ports) a.0 (sort_set-ArePorts ports a.1)

pub All-take : (P : ℕ → Type 0) (n : ℕ) (ports : List ℕ) → All P ports → All P (take n ports)
All-take P zero ports a = tt
All-take P (suc n) [] a = tt
All-take P (suc n) (p ∷ ports) a = (a.0, All-take P n ports a.1)

pub Ascending-take : (n : ℕ) (ports : List ℕ) → Ascending ports → Ascending (take n ports)
Ascending-take zero ports a = tt
Ascending-take (suc n) [] a = tt
Ascending-take (suc n) (p ∷ ports) a = (All-take _ n ports a.0, Ascending-take n ports a.1)

-- From one to 512 ports in ascending order.
pub record AreScanned (ports : List ℕ) : Type 0 where
  pub ascending : Ascending ports
  pub in_range : ArePorts ports
  pub some_port : 1 ≤ length ports
  pub few : length ports ≤ 512

or_none_given-AreScanned :
    (found ports : List ℕ)
    → Ascending found
    → ArePorts found
    → or_none_given found ≡ inr ports
    → AreScanned ports
or_none_given-AreScanned [] ports a b h = absurd (ground arith)
or_none_given-AreScanned (p ∷ found) ports a b h =
    let same : take 512 (p ∷ found) ≡ ports = ground arith in
    subst AreScanned same (record {
      ascending = Ascending-take 512 (p ∷ found) a;
      in_range = All-take _ 512 (p ∷ found) b;
      some_port = omega (arith, length-take 512 (p ∷ found));
      few = omega (arith, length-take 512 (p ∷ found));
    })

sorted-AreScanned :
    (r : Read) (ports : List ℕ) → ReadsPorts r → sorted r ≡ inr ports → AreScanned ports
sorted-AreScanned (inl error) ports a h = absurd (ground arith)
sorted-AreScanned (inr found) ports a h =
    or_none_given-AreScanned (sort_set found) ports (Ascending-sort_set found)
      (sort_set-ArePorts found a) h

-- What `parse_ports` returns is from 1 to 512 ports in ascending order, each from 1 to 65535, whatever
-- the text.
pub parse_ports-AreScanned :
    (raw : Chars) (ports : List ℕ) → parse_ports raw ≡ inr ports → AreScanned ports
unfolding parse_ports
parse_ports-AreScanned raw ports h =
    let chunks : List Chars = pieces 44 (or_fallback (strip raw)) in
    sorted-AreScanned (gather chunks) ports (gather-ReadsPorts chunks) h
