-- ===== src/Portguard/Keep.antt =====
-- Which ports are protected, and what the check makes of them.
use obhod.Prelude.{
  ℕ, ◌≤◌, ◌≡◌, ◌≢◌, ◌&&◌, ◌||◌, not, true, false, none, some, Option, refl, List, [], ◌∷◌, ◌++◌,
  String, ℤ, pos, negsuc, arith, elem, number_key, text_key, Bool, nat_beq, length, ◌∙◌, ap,
  take_of_length-le,
}
use obhod.Ports.{is_port}
use obhod.Ports.Ascending.{sort_set, elem-sort_set, Ascending, Ascending-sort_set}
use obhod.Portguard.{
  Sources, readable, or_ssh, in_range, gathered, protected_ports, max_tracked, check, strangers,
  foreign_ports,
}

-- The number stands among the values that are read.
abbrev pub names : ℕ → List ℤ → Bool
names n [] = false
names n (pos m ∷ values) = nat_beq m n || names n values
names n (negsuc m ∷ values) = names n values

elem-in_range : (n : ℕ) (values : List ℤ) → elem n (in_range values) ≡ (is_port n && names n values)
unfolding in_range
elem-in_range n [] = ground arith
elem-in_range n (pos m ∷ values) = ground (arith, elem-in_range n values)
elem-in_range n (negsuc m ∷ values) = elem-in_range n values

-- While the settings name at most 64 different ports, the protected ones are exactly the numbers
-- from 1 to 65535 that they name.
pub protected_ports_exact :
    (s : Sources) (n : ℕ)
    → length (sort_set (in_range (gathered s))) ≤ max_tracked
    → elem n (protected_ports s) ≡ (is_port n && names n (gathered s))
unfolding protected_ports
protected_ports_exact s n few =
    ap (elem n) (take_of_length-le max_tracked (sort_set (in_range (gathered s))) few)
    ∙ elem-sort_set n (in_range (gathered s))
    ∙ elem-in_range n (gathered s)

-- The port stands in the list of settings.
abbrev pub stands : ℕ → List (Option ℤ) → Bool
stands n [] = false
stands n (none ∷ values) = stands n values
stands n (some (pos m) ∷ values) = nat_beq m n || stands n values
stands n (some (negsuc m) ∷ values) = stands n values

-- The port is one of SSH, of an inbound, of the subscription server, or one of the extra ports.
abbrev pub is_named : ℕ → Sources → Bool
is_named n s =
    stands n s.ssh_ports
    || stands n (s.ssh_port ∷ [])
    || stands n s.inbounds
    || stands n (s.sub_port ∷ [])
    || stands n s.extra

names-readable : (n : ℕ) (values : List (Option ℤ)) → names n (readable values) ≡ stands n values
unfolding readable
names-readable n [] = refl
names-readable n (none ∷ values) = names-readable n values
names-readable n (some (pos m) ∷ values) = ap (λ b. nat_beq m n || b) (names-readable n values)
names-readable n (some (negsuc m) ∷ values) = names-readable n values

names_append :
    (n : ℕ) (first second : List ℤ) → names n (first ++ second) ≡ (names n first || names n second)
names_append n [] second = refl
names_append n (pos m ∷ first) second = ground (arith, names_append n first second)
names_append n (negsuc m ∷ first) second = names_append n first second

stands_append :
    (n : ℕ) (first second : List (Option ℤ))
    → stands n (first ++ second) ≡ (stands n first || stands n second)
stands_append n [] second = refl
stands_append n (none ∷ first) second = stands_append n first second
stands_append n (some (pos m) ∷ first) second = ground (arith, stands_append n first second)
stands_append n (some (negsuc m) ∷ first) second = stands_append n first second

names-or_ssh : (n : ℕ) (ports : List ℤ) → names n ports ≡ true → names n (or_ssh ports) ≡ true
names-or_ssh n [] h = absurd (ground (arith, h))
names-or_ssh n (m ∷ ports) h = h

-- Every port that a setting names is gathered.
is_named-gathered : (s : Sources) (n : ℕ) → is_named n s ≡ true → names n (gathered s) ≡ true
unfolding gathered
is_named-gathered s n named =
    let ssh : List ℤ = readable (s.ssh_ports ++ s.ssh_port ∷ []) in
    let others : List ℤ = readable (s.inbounds ++ s.sub_port ∷ s.extra) in
    let in_ssh : names n ssh ≡ (stands n s.ssh_ports || stands n (s.ssh_port ∷ [])) =
      names-readable n (s.ssh_ports ++ s.ssh_port ∷ [])
      ∙ stands_append n s.ssh_ports (s.ssh_port ∷ []) in
    let in_others : names n others
        ≡ (stands n s.inbounds || (stands n (s.sub_port ∷ []) || stands n s.extra)) =
      names-readable n (s.inbounds ++ s.sub_port ∷ s.extra)
      ∙ stands_append n s.inbounds (s.sub_port ∷ s.extra)
      ∙ ap (λ b. stands n s.inbounds || b) (stands_append n (s.sub_port ∷ []) s.extra) in
    let kept : names n ssh ≡ true → names n (or_ssh ssh) ≡ true = names-or_ssh n ssh in
    names_append n (or_ssh ssh) others ∙ ground (arith, in_ssh, in_others, kept, named)

-- While the settings name at most 64 different ports: the check refuses to close each port that SSH, an
-- inbound, the subscription server or the list of extra ports names, and to open it for calls.
pub check-protected_ports :
    (s : Sources) (n : ℕ) (mode : String)
    → length (sort_set (in_range (gathered s))) ≤ max_tracked
    → is_named n s ≡ true
    → elem mode ("closed" ∷ "vk" ∷ []) ≡ true
    → check (pos n) (protected_ports s) mode ≢ none
unfolding check
check-protected_ports s n mode few named modes =
    ground (arith, protected_ports_exact s n few, is_named-gathered s n named)

elem-strangers :
    (n : ℕ) (owners own : List ℕ)
    → elem n (strangers owners own) ≡ (not (nat_beq n 0) && (not (elem n own) && elem n owners))
unfolding strangers
elem-strangers n [] own = ground arith
elem-strangers n (p ∷ owners) own = ground (arith, elem-strangers n owners own)

-- The foreign ports are, in strictly ascending order, those of the owners that are not 0 and not
-- among the menu's own.
pub foreign_ports_exact :
    (owners own : List ℕ)
    → Ascending (foreign_ports owners own)
      × ((n : ℕ)
          → elem n (foreign_ports owners own)
            ≡ (not (nat_beq n 0) && (not (elem n own) && elem n owners)))
unfolding foreign_ports
foreign_ports_exact owners own = (
  Ascending-sort_set (strangers owners own),
  λ n. elem-sort_set n (strangers owners own) ∙ elem-strangers n owners own,
)
