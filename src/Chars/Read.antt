-- ===== src/Chars/Read.antt =====
-- Texts from bytes: `base64.b64decode(..., validate=True)` and `decode("utf-8")`, with `none` for the
-- errors that they raise.
pub mod Base64
pub mod Utf8
pub mod Number
use obhod.Prelude.{
  ℕ, zero, suc, ◌+◌, ◌-◌, ◌*◌, ◌/◌, ◌%◌, Bool, true, false, ◌&&◌, ◌||◌, not, Option, none, some,
  List, [], ◌∷◌, ◌++◌, if◌then◌else◌, leb, ltb, nat_beq,
}
use obhod.Chars.{Chars, between, is_blank}

-- The six bits of a letter.
abbrev pub letter_value : ℕ → Option ℕ
letter_value c =
    if between 65 90 c
    then some (c - 65)
    else if between 97 122 c
    then some (c - 71)
    else if between 48 57 c
    then some (c + 4)
    else if nat_beq c 43
    then some 62
    else if nat_beq c 47
    then some 63
    else none

-- The bytes of four letters, the last of which may be `=`, in front of those of the rest.
abbrev pub three : Option ℕ → Option ℕ → Option ℕ → Option ℕ → Option (List ℕ) → Option (List ℕ)
three (some a) (some b) (some c) (some d) (some rest) =
    some ((a * 4 + b / 16) ∷ (b % 16 * 16 + c / 4) ∷ (c % 4 * 64 + d) ∷ rest)
three a b c d rest = none

abbrev pub two : Option ℕ → Option ℕ → Option ℕ → Option (List ℕ)
two (some a) (some b) (some c) = some ((a * 4 + b / 16) ∷ (b % 16 * 16 + c / 4) ∷ [])
two a b c = none

abbrev pub one : Option ℕ → Option ℕ → Option (List ℕ)
one (some a) (some b) = some ((a * 4 + b / 16) ∷ [])
one a b = none

-- A group that ends in `=` is the last one.
abbrev pub group : ℕ → ℕ → ℕ → ℕ → Bool → Option (List ℕ) → Option (List ℕ)
group a b c d is_last rest =
    if nat_beq d 61 && is_last
    then (if nat_beq c 61
        then one (letter_value a) (letter_value b)
        else two (letter_value a) (letter_value b) (letter_value c))
    else three (letter_value a) (letter_value b) (letter_value c) (letter_value d) rest

unfoldable pub from_base64 : Chars → Option (List ℕ)
from_base64 [] = some []
from_base64 (a ∷ []) = none
from_base64 (a ∷ b ∷ []) = none
from_base64 (a ∷ b ∷ c ∷ []) = none
from_base64 (a ∷ b ∷ c ∷ d ∷ s) = group a b c d (is_blank s) (from_base64 s)

-- A code point that is no surrogate.
abbrev pub is_scalar : ℕ → Bool
is_scalar c = ltb c 1114112 && not (between 55296 57343 c)

-- What has been read of a code point: how many bytes are to come, the least number that needs as many
-- bytes, and the bits so far.
pub record Partial : Type 0 where
  pub left : ℕ
  pub least : ℕ
  pub bits : ℕ

abbrev pub fresh : Partial
fresh = record { left = 0; least = 0; bits = 0 }

abbrev pub begun : ℕ → Option (Partial × List ℕ)
begun b =
    if ltb b 128
    then some (fresh, b ∷ [])
    else if between 192 223 b
    then some (record { left = 1; least = 128; bits = b - 192 }, [])
    else if between 224 239 b
    then some (record { left = 2; least = 2048; bits = b - 224 }, [])
    else if between 240 247 b
    then some (record { left = 3; least = 65536; bits = b - 240 }, [])
    else none

-- A byte, and the code point that it ends.
abbrev pub next : Partial → ℕ → Option (Partial × List ℕ)
next p b =
    let value = p.bits * 64 + (b - 128) in
    if nat_beq p.left 0
    then begun b
    else if not (between 128 191 b)
    then none
    else if ltb 1 p.left
    then some (record p { left = p.left - 1; bits = value }, [])
    else if leb p.least value && is_scalar value
    then some (fresh, value ∷ [])
    else none

abbrev pub put_out : Chars → Option Chars → Option Chars
put_out out none = none
put_out out (some s) = some (out ++ s)

abbrev pub and_then : Option (Partial × List ℕ) → (Partial → Option Chars) → Option Chars
and_then none rest = none
and_then (some (p, out)) rest = put_out out (rest p)

unfoldable pub utf8_from : Partial → List ℕ → Option Chars
utf8_from p [] = if nat_beq p.left 0 then some [] else none
utf8_from p (b ∷ bytes) = and_then (next p b) (λ q. utf8_from q bytes)

unfoldable pub from_utf8 : List ℕ → Option Chars
unfolding utf8_from
from_utf8 bytes = utf8_from fresh bytes
