-- ===== src/Chars/Bytes.antt =====
-- Texts as bytes and numbers as texts: `encode("utf-8")`, Base64 and the decimals of a number.
use obhod.Prelude.{
  ℕ, zero, suc, ◌+◌, ◌-◌, ◌*◌, ◌/◌, ◌%◌, true, false, List, [], ◌∷◌, ◌++◌, if◌then◌else◌, ltb,
  nat_beq,
}
use obhod.Chars.{Chars}

-- The bytes of a code point that is no surrogate.
abbrev pub bytes_of : ℕ → List ℕ
bytes_of c =
    if ltb c 128
    then c ∷ []
    else if ltb c 2048
    then (192 + c / 64) ∷ (128 + c % 64) ∷ []
    else if ltb c 65536
    then (224 + c / 4096) ∷ (128 + c / 64 % 64) ∷ (128 + c % 64) ∷ []
    else (240 + c / 262144) ∷ (128 + c / 4096 % 64) ∷ (128 + c / 64 % 64) ∷ (128 + c % 64) ∷ []

unfoldable pub utf8 : Chars → List ℕ
utf8 [] = []
utf8 (c ∷ cs) = bytes_of c ++ utf8 cs

-- The letter of six bits.
abbrev pub base64_letter : ℕ → ℕ
base64_letter n =
    if ltb n 26
    then 65 + n
    else if ltb n 52
    then 71 + n
    else if ltb n 62
    then n - 4
    else if nat_beq n 62
    then 43
    else 47

unfoldable pub base64 : List ℕ → Chars
base64 [] = []
base64 (a ∷ []) = base64_letter (a / 4) ∷ base64_letter (a % 4 * 16) ∷ 61 ∷ 61 ∷ []
base64 (a ∷ b ∷ []) =
    base64_letter (a / 4)
    ∷ base64_letter (a % 4 * 16 + b / 16)
    ∷ base64_letter (b % 16 * 4)
    ∷ 61
    ∷ []
base64 (a ∷ b ∷ c ∷ rest) =
    base64_letter (a / 4)
    ∷ base64_letter (a % 4 * 16 + b / 16)
    ∷ base64_letter (b % 16 * 4 + c / 64)
    ∷ base64_letter (c % 64)
    ∷ base64 rest

-- The decimals of a number below 10 ^ the fuel.
unfoldable pub decimals : ℕ → ℕ → Chars
decimals zero n = []
decimals (suc fuel) n = elim (ltb n 10) [
  | true ↦ (48 + n) ∷ []
  | false ↦ decimals fuel (n / 10) ++ (48 + n % 10) ∷ []
]

-- `"%d" % n`: a number has no more decimals than one more than itself.
unfoldable pub decimal : ℕ → Chars
unfolding decimals
decimal n = decimals (suc n) n
