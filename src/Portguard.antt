-- ===== src/Portguard.antt =====
-- BOT/portguard.py: which ports the menu may close or hand out. A number that `int` does not read
-- is `none`; the rows of `ss` come as the ports that they name.
pub mod Free
pub mod Keep
mod Tests
use obhod.Prelude.{
  ℕ, zero, suc, ◌+◌, max, Bool, true, false, ◌&&◌, ◌||◌, not, Option, none, some, List, [], ◌∷◌,
  ◌++◌, String, if◌then◌else◌, leb, nat_beq, take, elem, ℤ, pos, negsuc, number_key, text_key, ◌==◌,
}
use obhod.Ports.{is_port}
use obhod.Ports.Ascending.{sort_set}

abbrev pub critical : List ℕ
critical = 22 ∷ 2222 ∷ []

abbrev pub reserved_low : ℕ
reserved_low = 1024

abbrev pub max_tracked : ℕ
max_tracked = 64

pub data PortError : Type 0 where
  out_of_range belongs never_closed : PortError

-- The settings that `protected_ports` looks through.
pub record Sources : Type 0 where
  pub ssh_ports : List (Option ℤ)
  pub ssh_port : Option ℤ
  pub inbounds : List (Option ℤ)
  pub sub_port : Option ℤ
  pub extra : List (Option ℤ)

-- `try: ports.append(int(port))`, which passes over what is not a number.
unfoldable pub readable : List (Option ℤ) → List ℤ
readable [] = []
readable (none ∷ values) = readable values
readable (some n ∷ values) = n ∷ readable values

-- `[item for item in ports if 1 <= item <= 65535]`
unfoldable pub in_range : List ℤ → List ℕ
in_range [] = []
in_range (pos n ∷ values) = let rest = in_range values in if is_port n then n ∷ rest else rest
in_range (negsuc n ∷ values) = in_range values

-- `if not ports: ports.append(22)`
abbrev pub or_ssh : List ℤ → List ℤ
or_ssh [] = pos 22 ∷ []
or_ssh (n ∷ ports) = n ∷ ports

-- Every port that the settings name, in the order of the code.
unfoldable pub gathered : Sources → List ℤ
unfolding readable
gathered s =
    or_ssh (readable (s.ssh_ports ++ s.ssh_port ∷ []))
    ++ readable (s.inbounds ++ s.sub_port ∷ s.extra)

unfoldable pub protected_ports : Sources → List ℕ
unfolding in_range gathered
protected_ports s = take max_tracked (sort_set (in_range (gathered s)))

abbrev pub is_protected : ℕ → List ℕ → Bool
is_protected port keep = elem port keep

-- `none` for a port that passes, the error that is raised otherwise.
unfoldable pub check : ℤ → List ℕ → String → Option PortError
check (negsuc n) keep mode = some out_of_range
check (pos port) keep mode =
    if not (is_port port)
    then some out_of_range
    else if elem mode ("closed" ∷ "vk" ∷ []) && is_protected port keep
    then some belongs
    else if elem port critical && mode == "closed"
    then some never_closed
    else none

-- `sorted({... if int(item.port) and int(item.port) not in mine})` over the ports of the owners.
unfoldable pub strangers : List ℕ → List ℕ → List ℕ
strangers [] own = []
strangers (port ∷ owners) own =
    let rest = strangers owners own in
    if not (nat_beq port 0) && not (elem port own) then port ∷ rest else rest

unfoldable pub foreign_ports : List ℕ → List ℕ → List ℕ
unfolding strangers
foreign_ports owners own = sort_set (strangers owners own)

abbrev pub start_of : ℤ → ℕ
start_of (pos n) = if is_port n then n else reserved_low + 1
start_of (negsuc n) = reserved_low + 1

-- `candidate in CRITICAL` or `candidate in taken`
abbrev pub is_refused : List ℕ → ℕ → Bool
is_refused taken candidate = elem candidate critical || elem candidate taken

-- The first loop: `steps` more candidates, until they pass 65535.
unfoldable pub first_near : ℕ → ℕ → List ℕ → Option ℕ
first_near zero candidate taken = none
first_near (suc steps) candidate taken =
    let rest = first_near steps (candidate + 1) taken in
    if leb 65536 candidate
    then none
    else if is_refused taken candidate
    then rest
    else some candidate

-- The second loop: `steps` more candidates.
unfoldable pub first_low : ℕ → ℕ → List ℕ → Option ℕ
first_low zero candidate taken = none
first_low (suc steps) candidate taken =
    let rest = first_low steps (candidate + 1) taken in
    if is_refused taken candidate then rest else some candidate

-- `range(RESERVED_LOW + 1, 65535)` has this many candidates.
abbrev pub low_steps : ℕ
low_steps = 64510

abbrev pub or_low : Option ℕ → Option ℕ → ℕ
or_low (some c) low = c
or_low none (some c) = c
or_low none none = 0

unfoldable pub free_port : ℤ → List ℕ → ℕ → ℕ
free_port preferred taken span =
    or_low (first_near (max 1 span) (start_of preferred) taken)
      (first_low low_steps (reserved_low + 1) taken)
