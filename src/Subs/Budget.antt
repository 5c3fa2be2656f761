-- ===== src/Subs/Budget.antt =====
-- The links that fit the body of an answer, and the body that they make.
use obhod.Prelude.{
  ℕ, ◌+◌, ◌*◌, ◌/◌, ◌≤◌, ◌<◌, ◌≡◌, refl, le→leb, true, false, ◌&&◌, not, List, [], ◌∷◌, ◌++◌,
  String, arith, ltb, leb, Bool-cases, inl, inr, All, append_assoc, sym, subst, ◌∙◌, text_key,
}
use Prim.Native.String.{len, count}
use obhod.Subs.{
  is_link, is_empty, max_link, max_body, raw_budget, clean_links, keep_loop, keep_links, payload_of,
}
use obhod.Subs.Utf8.{len-le-count}
use obhod.Subs.Links.{AreLinks, clean_links-AreLinks}

is_link_short : (t : String) → is_link t ≡ true → count t ≤ max_link
unfolding is_link
is_link_short t h = ground arith

-- The bytes of the links, each with the end of its line.
abbrev pub size_of : List String → ℕ
size_of [] = 0
size_of (t ∷ links) = len t + 1 + size_of links

size_of-append : (xs : List String) (t : String) → size_of (xs ++ t ∷ []) ≡ size_of xs + (len t + 1)
size_of-append [] t = omega arith
size_of-append (x ∷ xs) t = omega (arith, size_of-append xs t)

-- Nothing was left out, or the first link that was left out would have passed the budget.
abbrev pub IsFull : List String → List String → Type 0
IsFull kept [] = Unit
IsFull kept (t ∷ rest) = raw_budget < size_of kept + (len t + 1)

record Prefix (out items kept : List String) : Type 0 where
  pub rest : List String
  pub split : out ++ items ≡ kept ++ rest
  pub full : IsFull kept rest

keep_loop-Prefix : (out items : List String) → Prefix out items (keep_loop out (size_of out) items)
unfolding keep_loop
keep_loop-Prefix out [] = record { rest = []; split = refl; full = tt }
keep_loop-Prefix out (t ∷ items) =
    elim (Bool-cases (not (is_empty out) && ltb raw_budget (size_of out + (len t + 1)))) [
      | inl past ↦ rw past (record { rest = t ∷ items; split = refl; full = ground arith })
      | inr fits ↦
          let later : Prefix (out ++ t ∷ []) items
              (keep_loop (out ++ t ∷ []) (size_of out + (len t + 1)) items) =
            subst (λ size. Prefix (out ++ t ∷ []) items (keep_loop (out ++ t ∷ []) size items))
              (size_of-append out t) (keep_loop-Prefix (out ++ t ∷ []) items) in
          rw fits (record {
            rest = later.rest;
            split = sym (append_assoc out (t ∷ []) items) ∙ later.split;
            full = later.full;
          })
    ]

next_small :
    (out : List String) (t : String)
    → size_of out ≤ raw_budget
    → len t + 1 ≤ raw_budget
    → (not (is_empty out) && ltb raw_budget (size_of out + (len t + 1))) ≡ false
    → size_of (out ++ t ∷ []) ≤ raw_budget
next_small [] t small t_small fits = omega (arith, t_small)
next_small (x ∷ out) t small t_small fits = ground (arith, size_of-append (x ∷ out) t)

keep_loop_bound :
    (out items : List String)
    → size_of out ≤ raw_budget
    → All (λ t. len t + 1 ≤ raw_budget) items
    → size_of (keep_loop out (size_of out) items) ≤ raw_budget
unfolding keep_loop
keep_loop_bound out [] small items_small = small
keep_loop_bound out (t ∷ items) small items_small =
    elim (Bool-cases (not (is_empty out) && ltb raw_budget (size_of out + (len t + 1)))) [
      | inl past ↦ rw past small
      | inr fits ↦ rw fits (
          subst (λ size. size_of (keep_loop (out ++ t ∷ []) size items) ≤ raw_budget)
            (size_of-append out t)
            (keep_loop_bound (out ++ t ∷ []) items (next_small out t small items_small.0 fits)
              items_small.1))
    ]

links_small :
    (links : List String)
    → All (λ t. is_link t ≡ true) links
    → All (λ t. len t + 1 ≤ raw_budget) links
links_small [] sound = tt
links_small (t ∷ links) sound =
    let short : count t ≤ max_link = is_link_short t sound.0 in
    (omega (arith, len-le-count t), links_small links sound.1)

keep_links_bound : (items : List String) → size_of (keep_links items) ≤ raw_budget
unfolding keep_links
keep_links_bound items =
    let a : AreLinks (clean_links items) = clean_links-AreLinks items in
    keep_loop_bound [] (clean_links items) (omega arith) (links_small (clean_links items) a.sound)

-- The links that are kept are the first of the clean ones, and as many as the budget has room for.
pub keep_links_longest :
    (items : List String)
    → (rest : List String) × (clean_links items ≡ keep_links items ++ rest)
      × IsFull (keep_links items) rest
      × (size_of (keep_links items) ≤ raw_budget)
unfolding keep_links
keep_links_longest items =
    let p : Prefix [] (clean_links items) (keep_links items) =
      keep_loop-Prefix [] (clean_links items) in
    (p.rest, p.split, p.full, keep_links_bound items)

-- The body is the encoding of the kept links whenever one is kept: the last test of `payload_of`
-- never holds them back, as Base64 makes four characters of each three bytes begun.
pub payload_of-keep_links :
    (encode : List String → String) (items : List String)
    → ((links : List String) → len (encode links) ≡ (size_of links + 2) / 3 * 4)
    → is_empty (keep_links items) ≡ false
    → payload_of encode items ≡ encode (keep_links items)
unfolding payload_of
payload_of-keep_links encode items base64 some_kept =
    let kept : List String = keep_links items in
    let small : size_of kept ≤ raw_budget = keep_links_bound items in
    let fits : leb (len (encode kept)) max_body ≡ true =
      le→leb _ _ (omega (arith, base64 kept, small)) in
    rw (some_kept, fits) refl
