-- ===== src/Subs/Decode.antt =====
-- BOT/subs.py, `decode`: the links that a payload carries, and what it makes of the server's payload.
pub mod Payload
mod Tests
use obhod.Prelude.{ℕ, Option, none, some, List, [], ◌∷◌, if◌then◌else◌}
use obhod.Chars.{Chars, strip, is_blank, split_lines}
use obhod.Chars.Read.{from_base64, from_utf8}

-- `[line for line in lines if line.strip()]`
unfoldable pub with_text : List Chars → List Chars
with_text [] = []
with_text (line ∷ lines) =
    let rest = with_text lines in if is_blank (strip line) then rest else line ∷ rest

abbrev pub lines_in : Option Chars → List Chars
lines_in none = []
lines_in (some text) = with_text (split_lines text)

abbrev pub text_in : Option (List ℕ) → Option Chars
text_in none = none
text_in (some raw) = from_utf8 raw

unfoldable pub decode : Chars → List Chars
unfolding with_text
decode payload = lines_in (text_in (from_base64 payload))
