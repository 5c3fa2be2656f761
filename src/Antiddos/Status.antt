-- ===== src/Antiddos/Status.antt =====
-- BOT/antiddos.py, the class `Status`: what the agent reports, the reasons to worry and the level.
-- `pressure() >= 0.70` compares a quotient of two integers below 2^33 with a decimal of two digits,
-- for which the floating-point test agrees with the one on integers that stands here.
pub mod Levels
mod Tests
use obhod.Prelude.{
  ℕ, ◌+◌, ◌*◌, ◌^◌, Bool, true, false, ◌&&◌, ◌||◌, not, Option, none, some, List, [], ◌∷◌, ◌++◌,
  String, if◌then◌else◌, leb, ltb, nat_beq, length, Key, elem, text_key, ◌==◌, ◌≡◌, refl, ◌↔◌, ap,
  ◌∙◌, sym, nat_beq_iff,
}
use text.Mathlib.Text.{find?}
use obhod.Dict.{Dict}
use obhod.Antiddos.Policy.{Policy}

pub record Status : Type 0 where
  pub installed : Bool
  pub enabled : Bool
  pub table : Bool
  pub policy : Policy
  pub counters : Dict String ℕ
  pub syn_flood : List String
  pub conn_flood : List String
  pub udp_flood : List String
  pub icmp_flood : List String
  pub scan : List String
  pub pps : ℕ
  pub connections : ℕ
  pub conntrack : ℕ
  pub conntrack_max : ℕ
  pub kernel : String
  pub notice : String
  pub error : String

pub data Reason : Type 0 where
  agent_error table_missing syn_flood conn_flood udp_flood port_scan pps conntrack drops : Reason

pub data Level : Type 0 where
  ok warn bad : Level

-- Reasons are texts in the source; here they are compared by a number each.
abbrev code : Reason → ℕ
code agent_error = 0
code table_missing = 1
code syn_flood = 2
code conn_flood = 3
code udp_flood = 4
code port_scan = 5
code pps = 6
code conntrack = 7
code drops = 8

abbrev decode : ℕ → Reason
decode n =
    if nat_beq n 0
    then agent_error
    else if nat_beq n 1
    then table_missing
    else if nat_beq n 2
    then syn_flood
    else if nat_beq n 3
    then conn_flood
    else if nat_beq n 4
    then udp_flood
    else if nat_beq n 5
    then port_scan
    else if nat_beq n 6
    then pps
    else if nat_beq n 7
    then conntrack
    else drops

decode-code : (a : Reason) → decode (code a) ≡ a
decode-code agent_error = refl
decode-code table_missing = refl
decode-code syn_flood = refl
decode-code conn_flood = refl
decode-code udp_flood = refl
decode-code port_scan = refl
decode-code pps = refl
decode-code conntrack = refl
decode-code drops = refl

abbrev pub reason_beq : Reason → Reason → Bool
reason_beq a b = nat_beq (code a) (code b)

pub reason_beq_iff : (a b : Reason) → (reason_beq a b ≡ true) ↔ (a ≡ b)
reason_beq_iff a b = (
  λ h. sym (decode-code a) ∙ ap decode ((nat_beq_iff (code a) (code b)).0 h) ∙ decode-code b,
  λ e. (nat_beq_iff (code a) (code b)).1 (ap code e),
)

instance abbrev pub reason_key : Key Reason
reason_key = record { same = reason_beq; same_iff = reason_beq_iff }

abbrev pub is_some {ℓ} : {A : Type ℓ} → Option A → Bool
is_some none = false
is_some (some a) = true

-- `sum(value for key, value in self.counters.items() if "drop" in key)`
unfoldable pub sum_drops : Dict String ℕ → ℕ
sum_drops [] = 0
sum_drops ((key, value) ∷ d) = (if is_some (find? key "drop") then value else 0) + sum_drops d

unfoldable pub dropped : Status → ℕ
dropped s = sum_drops s.counters

-- `self.pressure() >= percent / 100`, for a percentage above 0.
unfoldable pub pressed : ℕ → Status → Bool
pressed percent s = ltb 0 s.conntrack_max && leb (percent * s.conntrack_max) (100 * s.conntrack)

-- `if self.error:`
abbrev pub has_error : Status → Bool
has_error s = not (s.error == "")

abbrev pub table_lost : Status → Bool
table_lost s = s.enabled && not s.table

-- `if test: out.append(reason)`
abbrev pub flag : Bool → Reason → List Reason → List Reason
flag test reason out = if test then out ++ reason ∷ [] else out

unfoldable pub reasons : Status → List Reason
reasons s =
    if not s.installed
    then []
    else flag (leb 200 (dropped s)) drops (
        flag (pressed 70 s) conntrack (
          flag (leb 60000 s.pps) pps (
            flag (leb 8 (length s.scan)) port_scan (
              flag (leb 8 (length s.udp_flood)) udp_flood (
                flag (leb 8 (length s.conn_flood)) conn_flood (
                  flag (leb 8 (length s.syn_flood)) syn_flood
                    (flag (table_lost s) table_missing (flag (has_error s) agent_error []))))))))

abbrev pub is_empty : List Reason → Bool
is_empty [] = true
is_empty (r ∷ found) = false

unfoldable pub level : Status → Level
level s =
    if not s.installed
    then ok
    else if has_error s || not s.enabled
    then (if table_lost s then warn else ok)
    else if elem table_missing (reasons s)
    then bad
    else if (elem syn_flood (reasons s) || elem udp_flood (reasons s))
        && leb 60 (length s.syn_flood)
    then bad
    else if leb 200000 s.pps || pressed 90 s || leb 5000 (dropped s)
    then bad
    else if leb 60 (length s.conn_flood) || leb 60 (length s.scan)
    then bad
    else if is_empty (reasons s)
    then ok
    else warn

abbrev pub level_is_bad : Level → Bool
level_is_bad ok = false
level_is_bad warn = false
level_is_bad bad = true

unfoldable pub under_attack : Status → Bool
under_attack s = s.installed && level_is_bad (level s)

-- `event_kind`: the first of the listed names that is among the reasons; `none` stands for "load".
unfoldable pub first_of_kinds : List Reason → List Reason → Option Reason
first_of_kinds [] found = none
first_of_kinds (name ∷ names) found =
    let rest = first_of_kinds names found in if elem name found then some name else rest

abbrev pub kinds : List Reason
kinds =
    syn_flood ∷ udp_flood ∷ conn_flood ∷ pps ∷ conntrack ∷ drops ∷ table_missing ∷ agent_error ∷ []

unfoldable pub event_kind : Status → Option Reason
event_kind s = first_of_kinds kinds (reasons s)
