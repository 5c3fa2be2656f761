-- ===== src/SubServer/Registry.antt =====
-- What the server makes of one entry of the registry: the payload, the lines of the header and the
-- documents. A text field holds what `str(entry.get(name) or "")` gives, a number what `int` reads from
-- it, `none` where that raises; `links` is `none` where it is no list. `json.dumps` is not modelled:
-- a document keeps its fields.
use obhod.Prelude.{
  ℕ, ◌+◌, ◌-◌, ◌*◌, ◌/◌, min, max, Bool, ◌&&◌, ◌||◌, not, Option, none, some, List, [], ◌∷◌, ◌++◌,
  map, String, if◌then◌else◌, leb, ltb, nat_beq, codes, length, take, ℤ, pos, negsuc,
}
use obhod.Chars.{Chars, between, is_blank, strip, begins}
use obhod.Chars.Cut.{filled}
use obhod.Chars.Bytes.{utf8, base64, decimal}

pub record Entry : Type 0 where
  pub key : Chars
  pub disabled : Bool
  pub links : Option (List Chars)
  pub up : Option ℤ
  pub down : Option ℤ
  pub total : Option ℤ
  pub expire : Option ℤ
  -- With 12 in place of a value that is missing or false.
  pub refresh : Option ℤ
  pub title : Chars
  pub filename : Chars
  pub path : Chars
  pub email : Chars
  pub support_url : Chars
  pub announce : Chars

-- The loop of `payload_of`, with what it has kept and its size.
unfoldable pub keep_texts : ℕ → List Chars → ℕ → List Chars → List Chars
keep_texts budget kept size [] = kept
keep_texts budget kept size (item ∷ items) =
    let text = strip item in
    let chunk = length (utf8 text) + 1 in
    let rest =
      keep_texts budget (if is_blank text then kept else kept ++ text ∷ [])
        (if is_blank text then size else size + chunk) items in
    if not (is_blank text) && ltb 0 (length kept) && ltb budget (size + chunk) then kept else rest

-- `"\n".join(kept) + "\n"`
unfoldable pub with_ends : List Chars → Chars
with_ends [] = []
with_ends (text ∷ kept) = text ++ 10 ∷ with_ends kept

abbrev pub links_of : Entry → List Chars
links_of e = elim e.links [ none ↦ [] | some items ↦ items ]

unfoldable pub payload_text : ℕ → Entry → Chars
unfolding keep_texts with_ends
payload_text max_body e =
    let kept = keep_texts (max_body / 4 * 3) [] 0 (links_of e) in
    let encoded = base64 (utf8 (with_ends kept)) in
    if nat_beq (length kept) 0 then [] else if leb (length encoded) max_body then encoded else []

unfoldable pub counter : Option ℤ → ℕ
counter none = 0
counter (some (pos n)) = n
counter (some (negsuc n)) = 0

unfoldable pub refresh_hours : Entry → ℕ
refresh_hours e = elim e.refresh [
  | none ↦ 12
  | some value ↦ elim value [ pos n ↦ max 1 (min 168 n) | negsuc n ↦ 1 ]
]

unfoldable pub userinfo : Entry → Chars
userinfo e =
    codes "upload="
    ++ decimal (counter e.up)
    ++ codes "; download="
    ++ decimal (counter e.down)
    ++ codes "; total="
    ++ decimal (counter e.total)
    ++ codes "; expire="
    ++ decimal (counter e.expire)

-- `CLEAN.sub("", text)[:limit]`
unfoldable pub printable : Chars → Chars
printable [] = []
printable (c ∷ cs) = let rest = printable cs in if between 32 126 c then c ∷ rest else rest

abbrev pub header_safe : Chars → ℕ → Chars
header_safe value limit = take limit (printable value)

abbrev pub or_word : Chars → String → Chars
or_word s word = if is_blank s then codes word else s

unfoldable pub title_header : Entry → Chars
title_header e = codes "base64:" ++ base64 (utf8 (header_safe (or_word e.title "OBHOD") 120))

unfoldable pub announce_lines : Entry → List (String × Chars)
announce_lines e =
    let support = header_safe e.support_url 200 in
    let announce = header_safe e.announce 200 in
    (if begins (codes "http://") support || begins (codes "https://") support
      then ("Support-Url", support) ∷ []
      else [])
    ++ (if is_blank announce then [] else ("Announce", announce) ∷ [])

unfoldable pub header_lines : Entry → Chars → Chars → List (String × Chars)
header_lines e filename base =
    (("Content-Type", codes "text/plain; charset=utf-8")
      ∷ ("Cache-Control", codes "no-store")
      ∷ ("Profile-Title", title_header e)
      ∷ ("Profile-Update-Interval", decimal (refresh_hours e))
      ∷ ("Subscription-Userinfo", userinfo e)
      ∷ ("Content-Disposition", codes "attachment; filename*=UTF-8''" ++ filename)
      ∷ ("Profile-Web-Page-Url", base ++ header_safe e.path 200)
      ∷ [])
    ++ announce_lines e

pub record Info : Type 0 where
  pub enabled : Bool
  pub download : ℕ
  pub upload : ℕ
  pub total : ℕ
  pub used : ℕ
  pub remained : ℕ
  pub expire : ℕ
  pub sub_url : Chars
  pub sub_json_url : Chars
  pub sub_title : Chars
  pub sub_support_url : Chars
  pub sub_updates : ℕ
  pub emails : List Chars
  pub announce : Chars
  pub links : ℕ

-- The fields of the document that depend on the entry; `downloadByte`, `uploadByte` and `totalByte`
-- repeat three of them.
unfoldable pub info_body : Entry → ℕ → Chars → Info
unfolding counter
info_body e link_count base =
    let used = counter e.up + counter e.down in
    let total = counter e.total in
    record {
      enabled = not e.disabled;
      download = counter e.down;
      upload = counter e.up;
      total = total;
      used = used;
      remained = total - used;
      expire = counter e.expire;
      sub_url = base ++ e.path;
      sub_json_url = base ++ e.path ++ codes "/json";
      sub_title = take 64 (or_word e.title "OBHOD");
      sub_support_url = e.support_url;
      sub_updates = refresh_hours e;
      emails = if is_blank e.email then [] else e.email ∷ [];
      announce = take 200 e.announce;
      links = link_count;
    }

pub record Summary : Type 0 where
  pub title : Chars
  pub count : ℕ
  pub refresh : ℕ
  pub userinfo : Chars
  pub payload : Chars

pub data Document : Type 0 where
  info : Info → Document
  summary : Summary → Document

-- The number of links that are not blank, as `do_GET` counts them.
unfoldable pub link_count : Entry → ℕ
link_count e = length (filled (map strip (links_of e)))

unfoldable pub document : Bool → Entry → Chars → Chars → Document
unfolding info_body link_count
document want_info e payload base =
    if want_info
    then info (info_body e (link_count e) base)
    else summary (record {
      title = take 64 (or_word e.title "OBHOD");
      count = link_count e;
      refresh = refresh_hours e;
      userinfo = userinfo e;
      payload = payload;
    })
