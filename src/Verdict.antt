-- ===== src/Verdict.antt =====
-- BOT/chebur.py, the class `Live`: what the probes of many providers say of a target, and the verdict
-- that is drawn from them. A verdict of a probe is any text that the server sends.
pub mod Votes
pub mod Blocked
mod Tests
use obhod.Prelude.{
  ℕ, zero, suc, ◌+◌, ◌*◌, Bool, true, false, ◌&&◌, ◌||◌, not, Option, none, some, List, [], ◌∷◌,
  ◌++◌, String, ltb, leb, nat_beq, if◌then◌else◌, text_key, ◌==◌, elem, length, map,
}
use obhod.Dict.{Dict, get, put}

pub record Probe : Type 0 where
  pub provider : String
  pub verdicts : List String

-- `item.verdicts or ["uncertain"]`
abbrev pub or_uncertain : List String → List String
or_uncertain [] = "uncertain" ∷ []
or_uncertain (v ∷ verdicts) = v ∷ verdicts

abbrev pub votes_of : Probe → List String
votes_of p = or_uncertain p.verdicts

abbrev pub blocking_names : List String
blocking_names = "tspu_block" ∷ "sni_block" ∷ "dns_spoofing" ∷ "cdn_block" ∷ []

abbrev pub count_or_zero : Option ℕ → ℕ
count_or_zero none = 0
count_or_zero (some n) = n

-- `out.get(verdict, 0)`
abbrev pub count_in : Dict String ℕ → String → ℕ
count_in d v = count_or_zero (get v d)

-- `for verdict in ...: out[verdict] = out.get(verdict, 0) + 1`
unfoldable pub count_votes : Dict String ℕ → List String → Dict String ℕ
count_votes d [] = d
count_votes d (v ∷ votes) = count_votes (put v (count_in d v + 1) d) votes

unfoldable pub count_probes : Dict String ℕ → List Probe → Dict String ℕ
unfolding count_votes
count_probes d [] = d
count_probes d (p ∷ results) = count_probes (count_votes d (votes_of p)) results

unfoldable pub counts : List Probe → Dict String ℕ
unfolding count_probes
counts results = count_probes [] results

-- `set(votes) & set(BLOCKING)`
unfoldable pub meets : List String → Bool
meets [] = false
meets (v ∷ votes) = elem v blocking_names || meets votes

unfoldable pub blocking : List Probe → ℕ
unfolding meets
blocking [] = 0
blocking (p ∷ results) =
    let rest = blocking results in if meets (votes_of p) then suc rest else rest

-- `self.blocking() > 0 and self.share() >= 0.3`
unfoldable pub blocked : List Probe → Bool
blocked results = ltb 0 (blocking results) && leb (3 * length results) (10 * blocking results)

-- The place of a name in the alphabet among the four.
abbrev pub rank : String → ℕ
rank name =
    if name == "cdn_block"
    then 0
    else if name == "dns_spoofing"
    then 1
    else if name == "sni_block"
    then 2
    else 3

-- The order of `sorted(found, reverse=True)` on pairs of a count and a name.
abbrev pub comes_first : ℕ × String → ℕ × String → Bool
comes_first a b = ltb b.0 a.0 || nat_beq a.0 b.0 && leb (rank b.1) (rank a.1)

unfoldable pub insert_kind : ℕ × String → List (ℕ × String) → List (ℕ × String)
insert_kind a [] = a ∷ []
insert_kind a (b ∷ found) =
    let rest = insert_kind a found in if comes_first a b then a ∷ b ∷ found else b ∷ rest

unfoldable pub sort_kinds : List (ℕ × String) → List (ℕ × String)
unfolding insert_kind
sort_kinds [] = []
sort_kinds (a ∷ found) = insert_kind a (sort_kinds found)

-- `[(counts.get(name, 0), name) for name in BLOCKING if counts.get(name, 0)]`
unfoldable pub counted_kinds : Dict String ℕ → List String → List (ℕ × String)
counted_kinds d [] = []
counted_kinds d (name ∷ names) =
    let rest = counted_kinds d names in
    if nat_beq (count_in d name) 0 then rest else (count_in d name, name) ∷ rest

abbrev pub name_of : ℕ × String → String
name_of a = a.1

unfoldable pub blocking_kinds : List Probe → List String
unfolding sort_kinds counted_kinds
blocking_kinds results = map name_of (sort_kinds (counted_kinds (counts results) blocking_names))

-- `dominant`, from the kinds and the counts.
abbrev pub dominant_of : List String → Dict String ℕ → String
dominant_of (kind ∷ kinds) d = kind
dominant_of [] d =
    if ltb 0 (count_in d "ok")
    then "ok"
    else if ltb 0 (count_in d "uncertain")
    then "uncertain"
    else "unknown"

unfoldable pub dominant : List Probe → String
dominant results = dominant_of (blocking_kinds results) (counts results)

abbrev pub no_results : List Probe → Bool
no_results [] = true
no_results (p ∷ results) = false

unfoldable pub verdict : List Probe → String
verdict results =
    if no_results results
    then "unknown"
    else if blocked results
    then dominant results
    else if nat_beq (count_in (counts results) "ok") 0
        && ltb 0 (count_in (counts results) "uncertain")
    then "uncertain"
    else if ltb 0 (blocking results)
    then "partial"
    else "clean"
