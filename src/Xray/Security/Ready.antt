-- ===== src/Xray/Security/Ready.antt =====
-- What the four methods of the state that change the security of an inbound leave of its keys. The
-- prompts of BOT/panel.py that set one half of the ML-DSA pair are not among them.
use obhod.Prelude.{
  ℕ, ◌≡◌, refl, sym, subst, Bool, true, false, ◌&&◌, ◌||◌, not, List, [], ◌∷◌, ◌⊎◌, inl, inr,
  String, ◌==◌, text_key, arith, All, Bool-cases, nat_beq,
}
use obhod.Xray.Security.{
  Secured, XrayError, want_tls, want_mldsa, group_of, switch_security, alias, behind, in_front,
  set_reality_keys, set_mldsa65, clear_mldsa65, on_inbound, Action, switches, sets_keys,
  sets_mldsa65, clears_mldsa65, method_of, or_unchanged, act, acts,
}
use obhod.Xray.Security.Kinds.{switch_to-cases, holds, assigned}

-- A certificate with its key for TLS, a private key for REALITY, and both halves of an ML-DSA pair or
-- none.
abbrev pub is_ready : Secured → Bool
is_ready item =
    (not (item.security == "tls") || not (item.cert_file == "") && not (item.key_file == ""))
    && (not (item.security == "reality") || not (item.reality_private == ""))
    && (item.mldsa65_seed == "" && item.mldsa65_verify == ""
        || not (item.mldsa65_seed == "") && not (item.mldsa65_verify == ""))

abbrev pub IsReady : Secured → Type 0
IsReady item = is_ready item ≡ true

-- A key that is set is not empty.
abbrev pub IsGiven : Action → Type 0
IsGiven (switches kind) = Unit
IsGiven (sets_keys private public) = (private == "") ≡ false
IsGiven (sets_mldsa65 seed verify) = Unit
IsGiven clears_mldsa65 = Unit

assigned-IsReady :
    (tls mldsa : Bool) (group : String) (item : Secured)
    → IsReady item
    → holds tls item ≡ true
    → IsReady (assigned tls mldsa group item)
unfolding text_key
assigned-IsReady true true group item ready held = ground arith
assigned-IsReady true false group item ready held = ground arith
assigned-IsReady false true group item ready held = ground arith
assigned-IsReady false false group item ready held = ground arith

cleared-IsReady :
    (item : Secured)
    → IsReady item
    → IsReady (record item { mldsa65_seed = ""; mldsa65_verify = "" })
unfolding text_key
cleared-IsReady item ready = ground arith

method_of-IsReady :
    (a : Action) (item s : Secured)
    → IsGiven a
    → IsReady item
    → method_of a item ≡ inr s
    → IsReady s
unfolding method_of switch_security set_reality_keys set_mldsa65 clear_mldsa65
method_of-IsReady (switches kind) item s given ready h =
    let name : String = alias kind in
    let (known, held, same) = switch_to-cases name item s h in
    subst IsReady (sym same)
      (assigned-IsReady (want_tls name) (want_mldsa name) (group_of name) item ready held)
method_of-IsReady (sets_keys private public) item s given ready h =
    let same : s ≡ record item { reality_private = private; reality_public = public } =
      ground arith in
    subst IsReady (sym same) (ground arith)
method_of-IsReady (sets_mldsa65 seed verify) item s given ready h =
    let same : s ≡ record item { mldsa65_seed = seed; mldsa65_verify = verify } = ground arith in
    subst IsReady (sym same) (ground arith)
method_of-IsReady clears_mldsa65 item s given ready h =
    let same : s ≡ record item { mldsa65_seed = ""; mldsa65_verify = "" } = ground arith in
    subst IsReady (sym same) (cleared-IsReady item ready)

in_front-AllReady :
    (result : XrayError ⊎ Secured) (item : Secured) (items : List Secured)
    → ((s : Secured) → result ≡ inr s → IsReady s)
    → All IsReady (item ∷ items)
    → All IsReady (or_unchanged (item ∷ items) (in_front result items))
in_front-AllReady (inl error) item items h a = a
in_front-AllReady (inr s) item items h a = (h s refl, a.1)

behind-AllReady :
    (rest : XrayError ⊎ List Secured) (item : Secured) (items : List Secured)
    → IsReady item
    → All IsReady (or_unchanged items rest)
    → All IsReady (or_unchanged (item ∷ items) (behind item rest))
behind-AllReady (inl error) item items ready a = (ready, a)
behind-AllReady (inr changed) item items ready a = (ready, a)

on_inbound-AllReady :
    (key : ℕ) (a : Action) (items : List Secured)
    → IsGiven a
    → All IsReady items
    → All IsReady (or_unchanged items (on_inbound key (method_of a) items))
unfolding on_inbound
on_inbound-AllReady key a [] given all = tt
on_inbound-AllReady key a (item ∷ items) given all = elim (Bool-cases (nat_beq item.id key)) [
  | inl found ↦ rw found (
      in_front-AllReady (method_of a item) item items (λ s. method_of-IsReady a item s given all.0)
        all)
  | inr other ↦ rw other (
      behind-AllReady (on_inbound key (method_of a) items) item items all.0
        (on_inbound-AllReady key a items given all.1))
]

-- Over any calls of the methods switch_security, set_reality_keys, set_mldsa65 and clear_mldsa65, in any
-- order and with those that are refused: each inbound keeps a certificate with its key for TLS, a
-- private key for REALITY, and both halves of an ML-DSA pair or none, if each had them before and no
-- private key is set to the empty text. The prompts of the panel that write a half of the pair
-- themselves are not among the calls.
pub acts-AllReady :
    (calls : List (ℕ × Action)) (items : List Secured)
    → All (λ c. IsGiven c.1) calls
    → All IsReady items
    → All IsReady (acts calls items)
unfolding acts act
acts-AllReady [] items given all = all
acts-AllReady (c ∷ calls) items given all =
    acts-AllReady calls (act c items) given.1 (on_inbound-AllReady c.0 c.1 items given.0 all)
