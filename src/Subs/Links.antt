-- ===== src/Subs/Links.antt =====
-- What `clean_links` leaves, and that it changes nothing more.
use obhod.Prelude.{
  suc, ◌+◌, ◌≤◌, ◌≡◌, refl, true, false, List, [], ◌∷◌, ◌++◌, String, arith, elem, text_key, length,
  leb, Bool-cases, inl, inr, All, All-append, length-append, append_assoc, sym, ◌∙◌, elem-append,
}
use mathlib.Core.List.{append-nil}
use obhod.Subs.{is_link, is_new, max_links, clean_loop, clean_links}

abbrev pub Unique : List String → Type 0
Unique [] = Unit
Unique (x ∷ xs) = (elem x xs ≡ false) × Unique xs

-- Different links, none of which is passed over, and no more than 4096.
pub record AreLinks (links : List String) : Type 0 where
  pub unique : Unique links
  pub sound : All (λ t. is_link t ≡ true) links
  pub few : length links ≤ max_links

Unique-append :
    (x : String) (xs : List String) → elem x xs ≡ false → Unique xs → Unique (xs ++ x ∷ [])
Unique-append x [] h u = (refl, tt)
Unique-append x (y ∷ xs) h u =
    ground
      (arith, elem-append y x xs, Unique-append x xs, text_key.same_iff x y, text_key.same_iff y x)

-- After the loop the links are still what they were before it, while there was room.
clean_loop-AreLinks :
    (out items : List String)
    → AreLinks out
    → suc (length out) ≤ max_links
    → AreLinks (clean_loop out items)
unfolding clean_loop
clean_loop-AreLinks out [] a room = a
clean_loop-AreLinks out (t ∷ items) a room = elim (Bool-cases (is_new out t)) [
  | inl new ↦
      let more : AreLinks (out ++ t ∷ []) = record {
        unique = Unique-append t out (ground arith) a.unique;
        sound = All-append (λ t. is_link t ≡ true) out (t ∷ []) a.sound (ground arith, tt);
        few = omega (arith, length-append out (t ∷ []));
      } in
      elim (Bool-cases (leb max_links (length (out ++ t ∷ [])))) [
        | inl full ↦ rw (new, full) more
        | inr open_end ↦
            rw (new, open_end) (clean_loop-AreLinks (out ++ t ∷ []) items more (ground arith))
      ]
  | inr old ↦ rw old (clean_loop-AreLinks out items a room)
]

-- What is kept are different links, none of them empty, longer than 4096 characters or with a line
-- break or a tab in it, and no more than 4096 of them.
pub clean_links-AreLinks : (items : List String) → AreLinks (clean_links items)
unfolding clean_links
clean_links-AreLinks items =
    clean_loop-AreLinks [] items (record { unique = tt; sound = tt; few = omega arith })
      (omega arith)

abbrev Apart : List String → List String → Type 0
Apart out xs = All (λ t. elem t out ≡ false) xs

Apart-append :
    (out xs : List String) (t : String)
    → elem t xs ≡ false
    → Apart out xs
    → Apart (out ++ t ∷ []) xs
Apart-append out [] t h a = tt
Apart-append out (x ∷ xs) t h a = (
  ground (arith, elem-append x t out, text_key.same_iff t x, text_key.same_iff x t),
  Apart-append out xs t (ground arith) a.1,
)

clean_loop_self :
    (out xs : List String)
    → Unique xs
    → All (λ t. is_link t ≡ true) xs
    → length out + length xs ≤ max_links
    → Apart out xs
    → clean_loop out xs ≡ out ++ xs
unfolding clean_loop
clean_loop_self out [] u l few a = sym (append-nil out)
clean_loop_self out (t ∷ []) u l few a =
    let new : is_new out t ≡ true = ground (arith, a.0, l.0) in
    elim (Bool-cases (leb max_links (length (out ++ t ∷ [])))) [
      | inl full ↦ rw (new, full) refl
      | inr open_end ↦ rw (new, open_end) refl
    ]
clean_loop_self out (t ∷ s ∷ xs) u l few a =
    let new : is_new out t ≡ true = ground (arith, a.0, l.0) in
    let open_end : leb max_links (length (out ++ t ∷ [])) ≡ false =
      ground (arith, length-append out (t ∷ [])) in
    let later : clean_loop (out ++ t ∷ []) (s ∷ xs) ≡ (out ++ t ∷ []) ++ s ∷ xs =
      clean_loop_self (out ++ t ∷ []) (s ∷ xs) u.1 l.1 (omega (arith, length-append out (t ∷ [])))
        (Apart-append out (s ∷ xs) t u.0 a.1) in
    rw (new, open_end) (later ∙ append_assoc out (t ∷ []) (s ∷ xs))

Apart-nil : (xs : List String) → Apart [] xs
Apart-nil [] = tt
Apart-nil (x ∷ xs) = (refl, Apart-nil xs)

-- Cleaning links that are clean changes nothing, so that a bundle may be cleaned once more.
pub clean_links-clean_links :
    (items : List String) → clean_links (clean_links items) ≡ clean_links items
unfolding clean_links
clean_links-clean_links items =
    let a : AreLinks (clean_loop [] items) = clean_links-AreLinks items in
    clean_loop_self [] (clean_loop [] items) a.unique a.sound (omega (arith, a.few)) (Apart-nil _)
