-- ===== src/Net/Joined.antt =====
-- What `join` writes, `parse_ports` reads.
use obhod.Prelude.{
  ℕ, ◌≤◌, ◌<◌, ◌≡◌, refl, sym, ap, ◌∙◌, true, false, List, [], ◌∷◌, ◌++◌, inr, if◌then◌else◌, ltb,
  nat_beq, take, length, length-take, take_of_length-le, arith, All, All-append, is_digit, map,
  append_assoc, codes, min,
}
use mathlib.Core.List.{append-nil}
use obhod.Chars.{Chars, strip, lstrip, rstrip, is_blank, is_space}
use obhod.Chars.Laws.{NoSpace}
use obhod.Chars.Cut.{pieces, pieces_from}
use obhod.Chars.Bytes.{decimal}
use obhod.Chars.Read.Number.{
  IsNumber, decimal-IsNumber, digits_of-decimal, no_rest, rstrip_solid, digits-NoSpace,
}
use obhod.Ports.Ascending.{insert_port, sort_set, Ascending, Ascending-sort_set}
use obhod.Net.{gather, or_none_given, sorted, or_fallback, parse_ports, with_commas, join}
use obhod.Net.Ranges.{ArePorts, All-take, Ascending-take, sort_set-ArePorts}

abbrev NoComma : Chars → Type 0
NoComma s = All (λ c. nat_beq c 44 ≡ false) s

pieces_from_end : (piece xs : Chars) → NoComma xs → pieces_from 44 piece xs ≡ (piece ++ xs) ∷ []
unfolding pieces_from
pieces_from_end piece [] a = ap (λ (s : Chars). s ∷ []) (sym (append-nil piece))
pieces_from_end piece (x ∷ xs) a = rw a.0 (
    pieces_from_end (piece ++ x ∷ []) xs a.1
    ∙ ap (λ (s : Chars). s ∷ []) (append_assoc piece (x ∷ []) xs))

pieces_from_comma :
    (piece xs ys : Chars)
    → NoComma xs
    → pieces_from 44 piece (xs ++ 44 ∷ ys) ≡ (piece ++ xs) ∷ pieces_from 44 [] ys
unfolding pieces_from
pieces_from_comma piece [] ys a =
    ap (λ (s : Chars). s ∷ pieces_from 44 [] ys) (sym (append-nil piece))
pieces_from_comma piece (x ∷ xs) ys a = rw a.0 (
    pieces_from_comma (piece ++ x ∷ []) xs ys a.1
    ∙ ap (λ (s : Chars). s ∷ pieces_from 44 [] ys) (append_assoc piece (x ∷ []) xs))

digits-NoComma : (s : Chars) → All (λ c. is_digit c ≡ true) s → NoComma s
digits-NoComma [] a = tt
digits-NoComma (c ∷ s) a = (ground arith, digits-NoComma s a.1)

decimal-NoComma : (n : ℕ) → NoComma (decimal n)
decimal-NoComma n = digits-NoComma (decimal n) (decimal-IsNumber n).digits

decimal-NoSpace : (n : ℕ) → NoSpace (decimal n)
decimal-NoSpace n = digits-NoSpace (decimal n) (decimal-IsNumber n).digits

pieces-with_commas :
    (p : ℕ) (ports : List ℕ)
    → pieces_from 44 [] (with_commas (map decimal (p ∷ ports))) ≡ map decimal (p ∷ ports)
unfolding with_commas
pieces-with_commas p [] = pieces_from_end [] (decimal p) (decimal-NoComma p)
pieces-with_commas p (q ∷ ports) =
    pieces_from_comma [] (decimal p) (with_commas (map decimal (q ∷ ports))) (decimal-NoComma p)
    ∙ ap (λ (l : List Chars). decimal p ∷ l) (pieces-with_commas q ports)

with_commas-NoSpace : (ports : List ℕ) → NoSpace (with_commas (map decimal ports))
unfolding with_commas
with_commas-NoSpace [] = tt
with_commas-NoSpace (p ∷ []) = decimal-NoSpace p
with_commas-NoSpace (p ∷ q ∷ ports) =
    All-append (λ c. is_space c ≡ false) (decimal p) (44 ∷ with_commas (map decimal (q ∷ ports)))
      (decimal-NoSpace p) (refl, with_commas-NoSpace (q ∷ ports))

lstrip_solid : (s : Chars) → NoSpace s → lstrip s ≡ s
unfolding lstrip
lstrip_solid [] a = refl
lstrip_solid (c ∷ s) a = rw a.0 refl

strip_solid : (s : Chars) → NoSpace s → strip s ≡ s
unfolding strip
strip_solid s a = ap rstrip (lstrip_solid s a) ∙ rstrip_solid s a

filled_append : (s t : Chars) → is_blank s ≡ false → is_blank (s ++ t) ≡ false
filled_append [] t h = absurd (ground arith)
filled_append (c ∷ s) t h = refl

with_commas_filled :
    (p : ℕ) (ports : List ℕ) → is_blank (with_commas (map decimal (p ∷ ports))) ≡ false
unfolding with_commas
with_commas_filled p [] = (decimal-IsNumber p).filled
with_commas_filled p (q ∷ ports) =
    filled_append (decimal p) (44 ∷ with_commas (map decimal (q ∷ ports)))
      (decimal-IsNumber p).filled

gather_decimals : (ports : List ℕ) → ArePorts ports → gather (map decimal ports) ≡ inr ports
unfolding gather
gather_decimals [] a = refl
gather_decimals (p ∷ ports) a =
    let number : IsNumber (decimal p) = decimal-IsNumber p in
    rw
      (
        strip_solid (decimal p) (decimal-NoSpace p),
        number.filled,
        no_rest 45 (decimal p) refl number.digits,
        digits_of-decimal p,
        a.0,
        gather_decimals ports a.1,
      )
      refl

insert_port_first :
    (p : ℕ) (ports : List ℕ) → All (λ q. p < q) ports → insert_port p ports ≡ p ∷ ports
unfolding insert_port
insert_port_first p [] a = refl
insert_port_first p (q ∷ ports) a = let less : ltb p q ≡ true = ground arith in rw less refl

sort_set_sorted : (ports : List ℕ) → Ascending ports → sort_set ports ≡ ports
unfolding sort_set
sort_set_sorted [] a = refl
sort_set_sorted (p ∷ ports) a =
    ap (insert_port p) (sort_set_sorted ports a.1) ∙ insert_port_first p ports a.0

read_back :
    (ports : List ℕ)
    → 1 ≤ length ports
    → length ports ≤ 64
    → Ascending ports
    → ArePorts ports
    → parse_ports (with_commas (map decimal ports)) ≡ inr ports
unfolding parse_ports
read_back [] some_port few a b = absurd (omega arith)
read_back (p ∷ ports) some_port few a b =
    let text : Chars = with_commas (map decimal (p ∷ ports)) in
    let solid : strip text ≡ text = strip_solid text (with_commas-NoSpace (p ∷ ports)) in
    let whole : take 512 (p ∷ ports) ≡ p ∷ ports =
      take_of_length-le 512 (p ∷ ports) (omega arith) in
    ap (λ t. sorted (gather (pieces 44 (or_fallback t)))) solid
    ∙ ap (λ b. sorted (gather (pieces 44 (if b then codes "22,80,443" else text))))
        (with_commas_filled p ports)
    ∙ ap (λ l. sorted (gather l)) (pieces-with_commas p ports)
    ∙ ap sorted (gather_decimals (p ∷ ports) b)
    ∙ ap or_none_given (sort_set_sorted (p ∷ ports) a)
    ∙ ap inr whole

insert_port_filled : (p : ℕ) (ports : List ℕ) → 1 ≤ length (insert_port p ports)
unfolding insert_port
insert_port_filled p [] = omega arith
insert_port_filled p (q ∷ ports) = ground arith

sort_set_filled : (ports : List ℕ) → 1 ≤ length ports → 1 ≤ length (sort_set ports)
unfolding sort_set
sort_set_filled [] h = absurd (omega arith)
sort_set_filled (p ∷ ports) h = insert_port_filled p (sort_set ports)

-- A list of ports that is not empty, written by `join`, is read by `parse_ports` as the first 64 of its
-- ports in ascending order, each once.
pub parse_ports-join :
    (ports : List ℕ)
    → 1 ≤ length ports
    → ArePorts ports
    → parse_ports (join ports) ≡ inr (take 64 (sort_set ports))
unfolding join
parse_ports-join ports some_port all =
    let all_sorted : List ℕ = sort_set ports in
    let size : length (take 64 all_sorted) ≡ min 64 (length all_sorted) =
      length-take 64 all_sorted in
    read_back (take 64 all_sorted) (omega (arith, size, sort_set_filled ports some_port))
      (omega (arith, size)) (Ascending-take 64 all_sorted (Ascending-sort_set ports))
      (All-take _ 64 all_sorted (sort_set-ArePorts ports all))
