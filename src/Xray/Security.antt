-- ===== src/Xray/Security.antt =====
-- BOT/xray.py, the security of an inbound: `security_kind`, and what `XrayState` does to it. An
-- inbound is its number and the fields that its security reads; the methods leave the others alone.
pub mod Kinds
pub mod Ready
mod Tests
use obhod.Prelude.{
  ℕ, zero, suc, ◌-◌, Bool, true, false, ◌&&◌, ◌||◌, not, Option, none, some, List, [], ◌∷◌, ◌⊎◌,
  inl, inr, String, if◌then◌else◌, elem, ◌==◌, text_key, nat_beq,
}
use Prim.Native.String.{len, slice, ◌++◌ as ◌<>◌}
use text.Mathlib.Text.{starts_with, find?}

abbrev pub security_kinds : List String
security_kinds =
    "reality" ∷ "reality-x25519mlkem768" ∷ "reality-p256mlkem768" ∷ "reality-mldsa65"
    ∷ "reality-mldsa65-x25519mlkem768" ∷ "tls" ∷ "tls-x25519mlkem768" ∷ "tls-p256mlkem768" ∷ []

-- `KIND_ALIASES.get(kind, kind)`
abbrev pub alias : String → String
alias kind =
    if kind == "reality-pq"
    then "reality-x25519mlkem768"
    else if kind == "reality-mldsa"
    then "reality-mldsa65"
    else if kind == "reality-mldsa-pq"
    then "reality-mldsa65-x25519mlkem768"
    else if kind == "tls-pq"
    then "tls-x25519mlkem768"
    else kind

abbrev pub pq_modes : List String
pq_modes = "x25519mlkem768" ∷ "p256mlkem768" ∷ []

pub record Secured : Type 0 where
  pub id : ℕ
  pub security : String
  pub pq_mode : String
  pub mldsa65_seed : String
  pub mldsa65_verify : String
  pub reality_private : String
  pub reality_public : String
  pub cert_file : String
  pub key_file : String

pub data XrayError : Type 0 where
  not_found : XrayError
  unknown_kind : XrayError
  no_certificate : XrayError
  no_reality_keys : XrayError
  not_reality : XrayError
  no_pair : XrayError

abbrev pub has_mldsa : Secured → Bool
has_mldsa item = not (item.mldsa65_seed == "") && not (item.mldsa65_verify == "")

-- `base + ("-" + group if group else "")`
abbrev pub with_group : String → String → String
with_group base group = if group == "" then base else base <> ("-" <> group)

abbrev pub base_of : Bool → Bool → String
base_of tls mldsa = if tls then "tls" else if mldsa then "reality-mldsa65" else "reality"

unfoldable pub security_kind : Secured → String
security_kind item =
    let base = base_of (item.security == "tls") (has_mldsa item) in
    let group = if elem item.pq_mode pq_modes then item.pq_mode else "" in
    if item.security == "none"
    then "none"
    else if base == "tls" && item.pq_mode == ""
    then "tls"
    else with_group base group

abbrev pub is_some {ℓ} : {A : Type ℓ} → Option A → Bool
is_some none = false
is_some (some a) = true

abbrev pub ends_with : String → String → Bool
ends_with s t = slice s (len s - len t) (len s) == t

abbrev pub want_tls : String → Bool
want_tls name = starts_with name "tls"

abbrev pub want_mldsa : String → Bool
want_mldsa name = is_some (find? name "mldsa65")

-- The loop over `PQ_MODES`, with the group found so far.
unfoldable pub group_loop : String → String → List String → String
group_loop name group [] = group
group_loop name group (mode ∷ modes) =
    group_loop name (if ends_with name ("-" <> mode) then mode else group) modes

abbrev pub group_of : String → String
group_of name = group_loop name "" pq_modes

-- What `switch_security` assigns.
abbrev pub switched : String → Secured → Secured
switched name item = record item {
  security = if want_tls name then "tls" else "reality";
  pq_mode = group_of name;
  mldsa65_seed = if want_mldsa name then item.mldsa65_seed else "";
  mldsa65_verify = if want_mldsa name then item.mldsa65_verify else "";
}

abbrev pub switch_to : String → Secured → XrayError ⊎ Secured
switch_to name item =
    if not (elem name security_kinds)
    then inl unknown_kind
    else if want_tls name && (item.cert_file == "" || item.key_file == "")
    then inl no_certificate
    else if not (want_tls name) && item.reality_private == ""
    then inl no_reality_keys
    else inr (switched name item)

-- `switch_security` on the inbound that it found.
unfoldable pub switch_security : String → Secured → XrayError ⊎ Secured
switch_security kind item = switch_to (alias kind) item

unfoldable pub set_reality_keys : String → String → Secured → XrayError ⊎ Secured
set_reality_keys private public item =
    if not (item.security == "reality")
    then inl not_reality
    else inr (record item { reality_private = private; reality_public = public })

unfoldable pub set_mldsa65 : String → String → Secured → XrayError ⊎ Secured
set_mldsa65 seed verify item =
    if not (item.security == "reality")
    then inl not_reality
    else if seed == "" || verify == ""
    then inl no_pair
    else inr (record item { mldsa65_seed = seed; mldsa65_verify = verify })

unfoldable pub clear_mldsa65 : Secured → XrayError ⊎ Secured
clear_mldsa65 item = inr (record item { mldsa65_seed = ""; mldsa65_verify = "" })

abbrev pub behind : Secured → XrayError ⊎ List Secured → XrayError ⊎ List Secured
behind item (inl error) = inl error
behind item (inr items) = inr (item ∷ items)

abbrev pub in_front : XrayError ⊎ Secured → List Secured → XrayError ⊎ List Secured
in_front (inl error) items = inl error
in_front (inr item) items = inr (item ∷ items)

-- A method on the first inbound of the number, which it changes in place.
unfoldable pub on_inbound :
    ℕ → (Secured → XrayError ⊎ Secured) → List Secured → XrayError ⊎ List Secured
on_inbound key method [] = inl not_found
on_inbound key method (item ∷ items) =
    let rest = on_inbound key method items in
    if nat_beq item.id key then in_front (method item) items else behind item rest

pub data Action : Type 0 where
  switches : String → Action
  sets_keys : String → String → Action
  sets_mldsa65 : String → String → Action
  clears_mldsa65 : Action

unfoldable pub method_of : Action → Secured → XrayError ⊎ Secured
unfolding switch_security set_reality_keys set_mldsa65 clear_mldsa65
method_of (switches kind) item = switch_security kind item
method_of (sets_keys private public) item = set_reality_keys private public item
method_of (sets_mldsa65 seed verify) item = set_mldsa65 seed verify item
method_of clears_mldsa65 item = clear_mldsa65 item

abbrev pub or_unchanged : List Secured → XrayError ⊎ List Secured → List Secured
or_unchanged items (inl error) = items
or_unchanged items (inr changed) = changed

-- What a call leaves: the methods raise before they assign, so an error leaves the list as it was.
unfoldable pub act : ℕ × Action → List Secured → List Secured
unfolding on_inbound
act (key, action) items = or_unchanged items (on_inbound key (method_of action) items)

unfoldable pub acts : List (ℕ × Action) → List Secured → List Secured
unfolding act
acts [] items = items
acts (a ∷ later) items = acts later (act a items)
