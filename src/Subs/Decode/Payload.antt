-- ===== src/Subs/Decode/Payload.antt =====
-- What `decode` reads from the payload that the server makes of an entry.
use obhod.Prelude.{
  ℕ, suc, ◌+◌, ◌*◌, ◌/◌, ◌≤◌, ◌≡◌, refl, sym, ap, ◌∙◌, true, false, ◌&&◌, none, some, le→leb, List,
  [], ◌∷◌, ◌++◌, arith, All, All-append, length, ltb, leb, nat_beq, if◌then◌else◌, append_assoc,
  length-append,
}
use mathlib.Core.List.{append-nil}
use obhod.Chars.{Chars, strip, is_blank, split_lines, lines_from}
use obhod.Chars.Laws.{NoEnd, lines_from-append, lines_from_line}
use obhod.Chars.Bytes.{utf8, base64, bytes_of}
use obhod.Chars.Read.{is_scalar}
use obhod.Chars.Read.Base64.{from_base64-base64}
use obhod.Chars.Read.Utf8.{AreScalars, from_utf8-utf8, utf8-IsByte}
use obhod.SubServer.Registry.{Entry, keep_texts, with_ends, links_of, payload_text}
use obhod.Subs.Decode.{with_text, decode, lines_in, text_in}

-- A link of code points that has no space around it and no line end in it.
pub record IsLink (link : Chars) : Type 0 where
  pub bare : strip link ≡ link
  pub filled : is_blank link ≡ false
  pub one_line : NoEnd link
  pub scalars : AreScalars link

-- The bytes of the links, each with the end of its line.
abbrev pub room_of : List Chars → ℕ
room_of links = length (utf8 (with_ends links))

utf8-append : (s t : Chars) → utf8 (s ++ t) ≡ utf8 s ++ utf8 t
unfolding utf8
utf8-append [] t = refl
utf8-append (c ∷ s) t =
    ap (◌++◌ (bytes_of c)) (utf8-append s t) ∙ sym (append_assoc (bytes_of c) (utf8 s) (utf8 t))

room_of-cons :
    (link : Chars) (links : List Chars)
    → room_of (link ∷ links) ≡ length (utf8 link) + 1 + room_of links
unfolding with_ends utf8
room_of-cons link links =
    let whole : length (utf8 (link ++ 10 ∷ with_ends links))
        ≡ length (utf8 link) + length (utf8 (10 ∷ with_ends links)) =
      ap length (utf8-append link (10 ∷ with_ends links))
      ∙ length-append (utf8 link) (utf8 (10 ∷ with_ends links)) in
    omega (arith, whole)

with_text-lines : (links : List Chars) → All IsLink links → with_text links ≡ links
unfolding with_text
with_text-lines [] all = refl
with_text-lines (link ∷ links) all =
    rw (all.0.bare, all.0.filled) (ap (◌∷◌ link) (with_text-lines links all.1))

split_lines-with_ends :
    (links : List Chars) → All IsLink links → split_lines (with_ends links) ≡ links
unfolding split_lines with_ends lines_from
split_lines-with_ends [] all = refl
split_lines-with_ends (link ∷ links) all =
    lines_from-append [] link (with_ends links)
    ∙ ap (λ (l : List Chars). l ++ lines_from [] (with_ends links))
        (lines_from_line [] link all.0.one_line)
    ∙ ap (◌∷◌ link) (split_lines-with_ends links all.1)

with_ends-AreScalars : (links : List Chars) → All IsLink links → AreScalars (with_ends links)
unfolding with_ends
with_ends-AreScalars [] all = tt
with_ends-AreScalars (link ∷ links) all =
    All-append (λ c. is_scalar c ≡ true) link (10 ∷ with_ends links) all.0.scalars
      (refl, with_ends-AreScalars links all.1)

length-base64 : (bytes : List ℕ) → length (base64 bytes) ≡ (length bytes + 2) / 3 * 4
unfolding base64
length-base64 [] = refl
length-base64 (a ∷ []) = refl
length-base64 (a ∷ b ∷ []) = refl
length-base64 (a ∷ b ∷ c ∷ bytes) = omega (arith, length-base64 bytes)

not_over : (a b : ℕ) → a ≤ b → ltb b a ≡ false
not_over a b h = ground arith

-- Links that fit the budget are all kept.
keep_texts_all :
    (budget : ℕ) (kept : List Chars) (size : ℕ) (items : List Chars)
    → All IsLink items
    → size + room_of items ≤ budget
    → keep_texts budget kept size items ≡ kept ++ items
unfolding keep_texts
keep_texts_all budget kept size [] all fits = sym (append-nil kept)
keep_texts_all budget kept size (link ∷ items) all fits =
    let e : room_of (link ∷ items) ≡ length (utf8 link) + 1 + room_of items =
      room_of-cons link items in
    let near : ltb budget (size + (length (utf8 link) + 1)) ≡ false =
      not_over (size + (length (utf8 link) + 1)) budget (omega (arith, e, fits)) in
    let going : (ltb 0 (length kept) && false) ≡ false = ground arith in
    rw (all.0.bare, all.0.filled, near, going)
      (keep_texts_all budget (kept ++ link ∷ []) (size + (length (utf8 link) + 1)) items all.1
          (omega (arith, e, fits))
        ∙ append_assoc kept (link ∷ []) items)

decode_text :
    (links : List Chars) → All IsLink links → decode (base64 (utf8 (with_ends links))) ≡ links
unfolding decode
decode_text links all =
    let text : AreScalars (with_ends links) = with_ends-AreScalars links all in
    ap (λ raw. lines_in (text_in raw))
      (from_base64-base64 (utf8 (with_ends links)) (utf8-IsByte (with_ends links) text))
    ∙ ap lines_in (from_utf8-utf8 (with_ends links) text)
    ∙ ap with_text (split_lines-with_ends links all)
    ∙ with_text-lines links all

encoded_small :
    (max_body n size : ℕ) → n ≤ max_body / 4 * 3 → size ≡ (n + 2) / 3 * 4 → leb size max_body ≡ true
encoded_small max_body n size h e = le→leb size max_body (omega arith)

wrapped : ℕ → List Chars → Chars
wrapped max_body kept =
    let encoded = base64 (utf8 (with_ends kept)) in
    if nat_beq (length kept) 0 then [] else if leb (length encoded) max_body then encoded else []

decode-wrapped :
    (max_body : ℕ) (links : List Chars)
    → All IsLink links
    → room_of links ≤ max_body / 4 * 3
    → decode (wrapped max_body links) ≡ links
unfolding wrapped base64 utf8 with_ends
decode-wrapped max_body [] all fits = decode_text [] tt
decode-wrapped max_body (link ∷ links) all fits =
    let text : Chars = with_ends (link ∷ links) in
    let small : leb (length (base64 (utf8 text))) max_body ≡ true =
      encoded_small max_body (length (utf8 text)) (length (base64 (utf8 text))) fits
        (length-base64 (utf8 text)) in
    let some_kept : nat_beq (suc (length links)) 0 ≡ false = ground arith in
    rw (some_kept, small) (decode_text (link ∷ links) all)

-- The links of an entry come back from the payload that the server makes of them, all of them and in
-- their order, if they fit the budget and are links without a line end or a space around them.
pub payload_text-decode :
    (max_body : ℕ) (e : Entry) (links : List Chars)
    → e.links ≡ some links
    → All IsLink links
    → room_of links ≤ max_body / 4 * 3
    → decode (payload_text max_body e) ≡ links
unfolding payload_text wrapped
payload_text-decode max_body e links has all fits =
    let budget : ℕ = max_body / 4 * 3 in
    let kept : keep_texts budget [] 0 (links_of e) ≡ links =
      ap
        (λ o.
          keep_texts budget [] 0 (elim o as (λ x. List Chars) [ none ↦ [] | some items ↦ items ]))
        has
      ∙ keep_texts_all budget [] 0 links all (omega (arith, fits)) in
    ap (λ k. decode (wrapped max_body k)) kept ∙ decode-wrapped max_body links all fits
