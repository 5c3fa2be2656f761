-- ===== src/Ssh/Keys/Added.antt =====
-- What the key file holds after a key was added.
use obhod.Prelude.{
  ℕ, ◌≡◌, refl, true, false, ◌||◌, none, some, List, [], ◌∷◌, ◌++◌, nat_beq, arith, All, All-append,
  Bool-cases, inl, inr, Option-cases, ◌∙◌, ap, sym, subst,
}
use obhod.Chars.{
  Chars, between, is_space, is_line_end, is_blank, strip, begins, words_from, split, lines_from,
  split_lines,
}
use obhod.Chars.Laws.{
  lines_from-append, NoEnd, lines_from_line, NoSpace, NoSpace-NoEnd, words_from-NoSpace,
  first_letter, words_from-first_letter, strip-first,
}
use obhod.Ssh.Keys.{
  has_control, has_key_type, is_key_body, join_words, key_of_words, clean_public_key, key_identity,
  is_entry, identities, known, chars_eq, is_known, wants_end, payload, KeyFile, KeyResult, added,
  present, refused, add_clean, add_key,
}

identities-append : (xs ys : List Chars) → identities (xs ++ ys) ≡ identities xs ++ identities ys
unfolding identities
identities-append [] ys = refl
identities-append (x ∷ xs) ys = elim (Bool-cases (is_entry x)) [
  | inl e ↦ rw e (ap (◌∷◌ (key_identity x)) (identities-append xs ys))
  | inr e ↦ rw e (identities-append xs ys)
]

-- Ending the last line brings no entry.
identities-lines_from :
    (line xs : Chars)
    → identities (lines_from line (xs ++ 10 ∷ [])) ≡ identities (lines_from line xs)
unfolding lines_from identities strip
identities-lines_from [] [] = refl
identities-lines_from (c ∷ line) [] = refl
identities-lines_from line (x ∷ xs) = elim (Bool-cases (is_line_end x)) [
  | inl e ↦ rw e (elim (Bool-cases (is_entry line)) [
    | inl entry ↦ rw entry (ap (◌∷◌ (key_identity line)) (identities-lines_from [] xs))
    | inr no_entry ↦ rw no_entry (identities-lines_from [] xs)
  ])
  | inr e ↦ rw e (identities-lines_from (line ++ x ∷ []) xs)
]

-- After a line feed the text that follows starts a line.
ended_lines :
    (line : Chars) (c : ℕ) (xs ys : Chars)
    → wants_end (c ∷ xs) ≡ false
    → lines_from line ((c ∷ xs) ++ ys) ≡ lines_from line (c ∷ xs) ++ lines_from [] ys
unfolding lines_from
ended_lines line c [] ys h = let feed : c ≡ 10 = ground arith in rw feed refl
ended_lines line c (d ∷ xs) ys h = elim (Bool-cases (is_line_end c)) [
  | inl e ↦ rw e (ap (◌∷◌ line) (ended_lines [] d xs ys h))
  | inr e ↦ rw e (ended_lines (line ++ c ∷ []) d xs ys h)
]

new_entry :
    (key : Chars)
    → NoEnd key
    → is_entry key ≡ true
    → identities (lines_from [] (key ++ 10 ∷ [])) ≡ key_identity key ∷ []
unfolding identities
new_entry key h entry = ap identities (lines_from_line [] key h) ∙ rw entry refl

known-nil : known [] ≡ []
unfolding known split_lines lines_from identities
known-nil = refl

known-payload :
    (file key : Chars)
    → NoEnd key
    → is_entry key ≡ true
    → known (file ++ payload file key) ≡ known file ++ key_identity key ∷ []
unfolding known split_lines payload
known-payload [] key h entry =
    new_entry key h entry ∙ ap (λ (l : List Chars). l ++ key_identity key ∷ []) (sym known-nil)
known-payload (c ∷ file) key h entry = elim (Bool-cases (wants_end (c ∷ file))) [
  | inl unended ↦ rw unended (
      ap identities (lines_from-append [] (c ∷ file) (key ++ 10 ∷ []))
      ∙ identities-append (lines_from [] ((c ∷ file) ++ 10 ∷ [])) (lines_from [] (key ++ 10 ∷ []))
      ∙ ap (λ (l : List Chars). l ++ identities (lines_from [] (key ++ 10 ∷ [])))
          (identities-lines_from [] (c ∷ file))
      ∙ ap (λ (l : List Chars). identities (lines_from [] (c ∷ file)) ++ l) (new_entry key h entry))
  | inr ended ↦ rw ended (
      ap identities (ended_lines [] c file (key ++ 10 ∷ []) ended)
      ∙ identities-append (lines_from [] (c ∷ file)) (lines_from [] (key ++ 10 ∷ []))
      ∙ ap (λ (l : List Chars). identities (lines_from [] (c ∷ file)) ++ l) (new_entry key h entry))
]

join_words-NoEnd : (words : List Chars) → All NoSpace words → NoEnd (join_words words)
unfolding join_words
join_words-NoEnd [] h = tt
join_words-NoEnd (w ∷ []) h = NoSpace-NoEnd w h.0
join_words-NoEnd (w ∷ v ∷ words) h =
    All-append _ w (32 ∷ join_words (v ∷ words)) (NoSpace-NoEnd w h.0)
      (refl, join_words-NoEnd (v ∷ words) h.1)

is_entry-letter : (c : ℕ) (s : Chars) → between 97 122 c ≡ true → is_entry (c ∷ s) ≡ true
unfolding begins
is_entry-letter c s lower =
    let letter : is_space c ≡ false = ground arith in
    let other : nat_beq 35 c ≡ false = ground arith in rw (strip-first c s letter, other) refl

-- A key that begins with a small letter is one line, and an entry.
key_of_words-IsEntry :
    (words : List Chars) (key : Chars)
    → between 97 122 (first_letter words) ≡ true
    → All NoSpace words
    → key_of_words words ≡ some key
    → NoEnd key × (is_entry key ≡ true)
unfolding join_words
key_of_words-IsEntry [] key lower h made = absurd (let wrong : none ≡ some key = made in cc)
key_of_words-IsEntry (kind ∷ []) key lower h made =
    absurd (let wrong : none ≡ some key = made in cc)
key_of_words-IsEntry ([] ∷ blob ∷ comment) key lower h made = ground arith
key_of_words-IsEntry ((k ∷ kind) ∷ blob ∷ comment) key lower h made =
    elim (Bool-cases (is_key_body blob)) [
      | inl good ↦
          let words : List Chars = (k ∷ kind) ∷ blob ∷ comment in
          let joined : some (join_words words) ≡ some key = rw good at made in
          let same : join_words words ≡ key = cc in
          subst (λ (l : Chars). NoEnd l × (is_entry l ≡ true)) same
            (
              join_words-NoEnd words h,
              is_entry-letter k (kind ++ 32 ∷ join_words (blob ∷ comment)) lower,
            )
      | inr bad ↦ absurd (let wrong : none ≡ some key = rw bad at made in cc)
    ]

split-letter : (c : ℕ) (s : Chars) → is_space c ≡ false → first_letter (split (c ∷ s)) ≡ c
unfolding split words_from
split-letter c s letter = rw letter (words_from-first_letter c [] s)

split-lower : (s : Chars) → has_key_type s ≡ true → between 97 122 (first_letter (split s)) ≡ true
unfolding begins
split-lower [] typed = ground arith
split-lower (c ∷ s) typed =
    let lower : between 97 122 c ≡ true = ground arith in
    let letter : is_space c ≡ false = ground arith in rw (split-letter c s letter) lower

split-NoSpace : (s : Chars) → All NoSpace (split s)
unfolding split
split-NoSpace s = words_from-NoSpace [] s tt

clean_public_key-IsEntry :
    (raw key : Chars) → clean_public_key raw ≡ some key → NoEnd key × (is_entry key ≡ true)
unfolding clean_public_key
clean_public_key-IsEntry raw key made = elim (Bool-cases (has_control raw)) [
  | inl bad ↦ absurd (let wrong : none ≡ some key = rw bad at made in cc)
  | inr clean ↦ elim (Bool-cases (has_key_type (strip raw))) [
    | inr untyped ↦ absurd (let wrong : none ≡ some key = rw (clean, untyped) at made in cc)
    | inl typed ↦
        key_of_words-IsEntry (split (strip raw)) key (split-lower (strip raw) typed)
          (split-NoSpace (strip raw)) (rw (clean, typed) at made)
  ]
]

chars_eq_self : (x : Chars) → chars_eq x x ≡ true
unfolding chars_eq
chars_eq_self [] = refl
chars_eq_self (c ∷ x) = ground (arith, chars_eq_self x)

is_known-last : (x : Chars) (xs : List Chars) → is_known x (xs ++ x ∷ []) ≡ true
unfolding is_known
is_known-last x [] = ground (arith, chars_eq_self x)
is_known-last x (y ∷ xs) = ground (arith, is_known-last x xs)

add_clean-known :
    (key : Chars) (f : KeyFile)
    → NoEnd key
    → is_entry key ≡ true
    → (add_clean key f).1 ≡ added
    → (known (add_clean key f).0.text ≡ known f.text ++ key_identity key ∷ [])
      × (add_clean key (add_clean key f).0 ≡ ((add_clean key f).0, present))
add_clean-known key f h entry done = elim (Bool-cases (f.is_link || is_blank (key_identity key))) [
  | inl bad ↦ absurd (let wrong : refused ≡ added = rw bad at done in cc)
  | inr good ↦ elim (Bool-cases (is_known (key_identity key) (known f.text))) [
    | inl there ↦ absurd (let wrong : present ≡ added = rw (good, there) at done in cc)
    | inr missing ↦
        let new : KeyFile = record f { text = f.text ++ payload f.text key } in
        let first : add_clean key f ≡ (new, added) = rw (good, missing) refl in
        let grew : known new.text ≡ known f.text ++ key_identity key ∷ [] =
          known-payload f.text key h entry in
        let there : is_known (key_identity key) (known new.text) ≡ true =
          rw grew (is_known-last (key_identity key) (known f.text)) in
        let second : add_clean key new ≡ (new, present) = rw (good, there) refl in
        subst
          (λ (r : KeyFile × KeyResult).
            (known r.0.text ≡ known f.text ++ key_identity key ∷ [])
            × (add_clean key r.0 ≡ (r.0, present)))
          (sym first) (grew, second)
  ]
]

-- When a key is added, the entries of the file are those that it had, in their order, and then the
-- key's; and to add the key once more changes nothing.
pub add_key_once :
    (raw : Chars) (f : KeyFile)
    → (add_key raw f).1 ≡ added
    → (key : Chars) × (clean_public_key (strip raw) ≡ some key)
      × (known (add_key raw f).0.text ≡ known f.text ++ key_identity key ∷ [])
      × (add_key raw (add_key raw f).0 ≡ ((add_key raw f).0, present))
unfolding add_key
add_key_once raw f done = elim (Option-cases (clean_public_key (strip raw))) [
  | inl bad ↦ absurd (let wrong : refused ≡ added = rw bad at done in cc)
  | inr (key, clean) ↦
      let (line, entry) = clean_public_key-IsEntry (strip raw) key clean in
      let (entries, again) = add_clean-known key f line entry (rw clean at done) in
      (key, clean, rw clean entries, rw clean again)
]
