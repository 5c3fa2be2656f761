-- ===== src/Ssh/Keys.antt =====
-- `clean_public_key`, `key_identity` and `add_key`: a public key is added at the end of the key file,
-- on a line of its own, unless the file has it. The file is its code points, or `none` if it is not
-- there; the key is what Base64 has decoded.
pub mod Added
use obhod.Prelude.{
  ℕ, zero, suc, Bool, true, false, ◌&&◌, ◌||◌, not, Option, none, some, List, [], ◌∷◌, ◌++◌, String,
  if◌then◌else◌, nat_beq, codes,
}
use obhod.Chars.{Chars, between, is_blank, strip, begins, split, split_lines}

-- `CONTROL`, for which one letter of the text is enough.
unfoldable pub has_control : Chars → Bool
has_control [] = false
has_control (c ∷ cs) = between 0 31 c || nat_beq c 127 || has_control cs

abbrev pub has_key_type : Chars → Bool
has_key_type s = begins (codes "ssh-") s || begins (codes "ecdsa-") s || begins (codes "sk-") s

abbrev pub is_base64 : ℕ → Bool
is_base64 c =
    between 65 90 c
    || between 97 122 c
    || between 48 57 c
    || nat_beq c 43
    || nat_beq c 47
    || nat_beq c 61

-- `KEY_BODY.match`, which wants one letter of Base64 at the front of the word.
abbrev pub is_key_body : Chars → Bool
is_key_body [] = false
is_key_body (c ∷ cs) = is_base64 c

-- `" ".join(words)`
unfoldable pub join_words : List Chars → Chars
join_words [] = []
join_words (w ∷ []) = w
join_words (w ∷ v ∷ words) = w ++ 32 ∷ join_words (v ∷ words)

-- The key in its canonical form, from its words; `KEY_COMMENT` matches every comment.
abbrev pub key_of_words : List Chars → Option Chars
key_of_words [] = none
key_of_words (kind ∷ []) = none
key_of_words (kind ∷ blob ∷ comment) =
    if is_key_body blob then some (join_words (kind ∷ blob ∷ comment)) else none

-- `none` is the error `bad_arg`.
unfoldable pub clean_public_key : Chars → Option Chars
clean_public_key s =
    if has_control s
    then none
    else if not (has_key_type (strip s))
    then none
    else key_of_words (split (strip s))

abbrev pub identity_of_words : List Chars → Chars
identity_of_words [] = []
identity_of_words (kind ∷ []) = []
identity_of_words (kind ∷ blob ∷ comment) = kind ++ 32 ∷ blob

unfoldable pub key_identity : Chars → Chars
key_identity line = identity_of_words (split (strip line))

-- `line.strip() and not line.strip().startswith("#")`
abbrev pub is_entry : Chars → Bool
is_entry line = not (is_blank (strip line)) && not (begins (35 ∷ []) (strip line))

unfoldable pub identities : List Chars → List Chars
identities [] = []
identities (line ∷ lines) =
    let rest = identities lines in if is_entry line then key_identity line ∷ rest else rest

-- The identities that the file has.
unfoldable pub known : Chars → List Chars
unfolding identities
known file = identities (split_lines file)

unfoldable pub chars_eq : Chars → Chars → Bool
chars_eq [] [] = true
chars_eq [] (d ∷ ds) = false
chars_eq (c ∷ cs) [] = false
chars_eq (c ∷ cs) (d ∷ ds) = let rest = chars_eq cs ds in nat_beq c d && rest

unfoldable pub is_known : Chars → List Chars → Bool
unfolding chars_eq
is_known x [] = false
is_known x (y ∷ ys) = chars_eq y x || is_known x ys

-- `existing and not existing.endswith("\n")`
abbrev pub wants_end : Chars → Bool
wants_end [] = false
wants_end (c ∷ []) = not (nat_beq c 10)
wants_end (c ∷ d ∷ cs) = wants_end (d ∷ cs)

-- The text that is appended.
unfoldable pub payload : Chars → Chars → Chars
payload existing key = (if wants_end existing then 10 ∷ [] else []) ++ (key ++ 10 ∷ [])

pub record KeyFile : Type 0 where
  pub is_link : Bool
  pub text : Chars

pub data KeyResult : Type 0 where
  added present refused : KeyResult

abbrev pub add_clean : Chars → KeyFile → KeyFile × KeyResult
add_clean key f =
    if f.is_link || is_blank (key_identity key)
    then (f, refused)
    else if is_known (key_identity key) (known f.text)
    then (f, present)
    else (record f { text = f.text ++ payload f.text key }, added)

abbrev pub or_refused : Option Chars → KeyFile → KeyFile × KeyResult
or_refused none f = (f, refused)
or_refused (some key) f = add_clean key f

unfoldable pub add_key : Chars → KeyFile → KeyFile × KeyResult
add_key raw f = or_refused (clean_public_key (strip raw)) f
