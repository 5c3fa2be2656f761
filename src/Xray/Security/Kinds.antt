-- ===== src/Xray/Security/Kinds.antt =====
-- The kind that an inbound was switched to is the kind that it reports.
use obhod.Prelude.{
  ◌≡◌, subst, refl, sym, ap, ◌∙◌, Bool, true, false, ◌&&◌, ◌||◌, not, List, [], ◌∷◌, ◌⊎◌, inl, inr,
  String, if◌then◌else◌, elem, ◌==◌, text_key, arith, All, Bool-cases,
}
use obhod.Xray.Security.{
  Secured, security_kinds, alias, pq_modes, has_mldsa, with_group, base_of, security_kind, want_tls,
  want_mldsa, group_of, group_loop, switched, switch_to, switch_security,
}

-- What the name of a kind says is what the kind is made of.
abbrev is_made_of : String → Bool
is_made_of name =
    with_group (base_of (want_tls name) (want_mldsa name)) (group_of name) == name
    && (group_of name == "" || elem (group_of name) pq_modes)
    && not (want_tls name && want_mldsa name)

all_made_of : All (λ n. is_made_of n ≡ true) security_kinds
unfolding group_loop text_key
all_made_of = (refl, (refl, (refl, (refl, (refl, (refl, (refl, (refl, tt))))))))

All-elem : (P : String → Type 0) (x : String) (xs : List String) → All P xs → elem x xs ≡ true → P x
All-elem P x [] a h = absurd (ground arith)
All-elem P x (y ∷ xs) a h = elim (Bool-cases (y == x)) [
  | inl same ↦ subst P ((text_key.same_iff y x).0 same) a.0
  | inr other ↦ All-elem P x xs a.1 (ground arith)
]

group_kept :
    (g : String) → (g == "" || elem g pq_modes) ≡ true → (if elem g pq_modes then g else "") ≡ g
group_kept g h = elim (Bool-cases (elem g pq_modes)) [
  | inl known ↦ rw known refl
  | inr unknown ↦ rw unknown (sym ((text_key.same_iff g "").0 (ground arith)))
]

abbrev pub assigned : Bool → Bool → String → Secured → Secured
assigned tls mldsa group item = record item {
  security = if tls then "tls" else "reality";
  pq_mode = group;
  mldsa65_seed = if mldsa then item.mldsa65_seed else "";
  mldsa65_verify = if mldsa then item.mldsa65_verify else "";
}

kind_of_parts :
    (tls mldsa : Bool) (group : String) (item : Secured)
    → (group == "" || elem group pq_modes) ≡ true
    → (tls && mldsa) ≡ false
    → (has_mldsa item ≡ true) ⊎ (mldsa ≡ false)
    → security_kind (assigned tls mldsa group item) ≡ with_group (base_of tls mldsa) group
unfolding security_kind text_key
kind_of_parts true true group item known one_way pair = absurd (ground arith)
kind_of_parts true false group item known one_way pair = elim (Bool-cases (group == "")) [
  | inl none_asked ↦ rw none_asked refl
  | inr asked ↦ rw (group_kept group known, asked) refl
]
kind_of_parts false true group item known one_way (inl pair) =
    rw (pair, group_kept group known) refl
kind_of_parts false true group item known one_way (inr no_pair) = absurd (ground arith)
kind_of_parts false false group item known one_way pair = rw (group_kept group known) refl

named :
    (name : String) (item : Secured)
    → elem name security_kinds ≡ true
    → (has_mldsa item ≡ true) ⊎ (want_mldsa name ≡ false)
    → security_kind (switched name item) ≡ name
named name item known pair =
    let made : is_made_of name ≡ true =
      All-elem (λ n. is_made_of n ≡ true) name security_kinds all_made_of known in
    let parts : with_group (base_of (want_tls name) (want_mldsa name)) (group_of name) ≡ name =
      (text_key.same_iff _ _).0 (ground arith) in
    kind_of_parts (want_tls name) (want_mldsa name) (group_of name) item (ground arith)
      (ground arith) pair
    ∙ parts

-- The keys that the security needs.
abbrev pub holds : Bool → Secured → Bool
holds tls item =
    if tls
    then not (item.cert_file == "") && not (item.key_file == "")
    else not (item.reality_private == "")

pub switch_to-cases :
    (name : String) (item s : Secured)
    → switch_to name item ≡ inr s
    → (elem name security_kinds ≡ true)
      × (holds (want_tls name) item ≡ true)
      × (s ≡ switched name item)
switch_to-cases name item s h = ground arith

-- An inbound that was switched to a kind reports that kind, its alias resolved, if it holds an ML-DSA
-- pair or the kind wants none.
pub switch_security-security_kind :
    (kind : String) (item s : Secured)
    → switch_security kind item ≡ inr s
    → (has_mldsa item ≡ true) ⊎ (want_mldsa (alias kind) ≡ false)
    → security_kind s ≡ alias kind
unfolding switch_security
switch_security-security_kind kind item s h pair =
    let (known, held, same) = switch_to-cases (alias kind) item s h in
    ap security_kind same ∙ named (alias kind) item known pair
