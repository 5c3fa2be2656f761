-- ===== src/Subs/Decode/Tests.antt =====
-- `decode` on a few payloads.
use obhod.Prelude.{◌≡◌, refl, none, some, List, [], ◌∷◌, codes, All, arith, false}
use obhod.Chars.{Chars, lstrip, rstrip, strip, lines_from, split_lines}
use obhod.Chars.Bytes.{utf8}
use obhod.Chars.Read.{utf8_from, from_base64, from_utf8}
use obhod.SubServer.Registry.{Entry, payload_text, with_ends}
use obhod.Subs.Decode.{decode, with_text}
use obhod.Subs.Decode.Payload.{IsLink, payload_text-decode}

decode_two : decode (codes "YQrDvAo=") ≡ codes "a" ∷ (252 ∷ []) ∷ []
unfolding decode with_text lstrip rstrip strip lines_from split_lines utf8_from from_base64
    from_utf8
decode_two = refl

-- A letter that is none of Base64.
decode_letter : decode (codes "YQr*vAo=") ≡ []
unfolding decode with_text lstrip rstrip strip lines_from split_lines utf8_from from_base64
    from_utf8
decode_letter = refl

-- A byte that begins nothing in UTF-8.
decode_byte : decode (codes "/w==") ≡ []
unfolding decode with_text lstrip rstrip strip lines_from split_lines utf8_from from_base64
    from_utf8
decode_byte = refl

abbrev links : List Chars
links = codes "vless://a" ∷ (118 ∷ 252 ∷ []) ∷ []

abbrev entry : Entry
entry = record {
  key = codes "k";
  disabled = false;
  links = some links;
  up = none;
  down = none;
  total = none;
  expire = none;
  refresh = none;
  title = [];
  filename = [];
  path = [];
  email = [];
  support_url = [];
  announce = [];
}

links_are : All IsLink links
unfolding lstrip rstrip strip
links_are = (
  record { bare = refl; filled = refl; one_line = ground arith; scalars = ground arith },
  (record { bare = refl; filled = refl; one_line = ground arith; scalars = ground arith }, tt),
)

payload_text-decode_example : decode (payload_text 1024 entry) ≡ links
unfolding utf8 with_ends
payload_text-decode_example = payload_text-decode 1024 entry links refl links_are (omega arith)
