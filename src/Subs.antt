-- ===== src/Subs.antt =====
-- BOT/subs.py: the links of a subscription and the quota that goes with it. An item of the links is
-- the text that `str(item or "").strip()` has left of it.
pub mod Links
pub mod Budget
mod Utf8
pub mod Sums
pub mod Decode
mod Tests
use obhod.Prelude.{
  ℕ, zero, suc, ◌+◌, ◌-◌, ◌*◌, ◌/◌, Bool, true, false, ◌&&◌, ◌||◌, not, Option, none, some, List,
  [], ◌∷◌, ◌++◌, String, ltb, leb, nat_beq, if◌then◌else◌, text_key, ◌==◌, elem, length,
}
use Prim.Native.String.{len, count}
use text.Mathlib.Text.{find?}

abbrev pub max_links : ℕ
max_links = 4096

abbrev pub max_body : ℕ
max_body = 8 * 1024 * 1024

abbrev pub max_link : ℕ
max_link = 4096

abbrev pub is_some {ℓ} : {A : Type ℓ} → Option A → Bool
is_some none = false
is_some (some a) = true

-- `any(char in text for char in "\r\n\t")`
abbrev pub has_break : String → Bool
has_break t = is_some (find? t "\r") || is_some (find? t "\n") || is_some (find? t "\t")

-- A text that is not passed over, whatever was kept before.
unfoldable pub is_link : String → Bool
is_link t = not (t == "") && not (ltb max_link (count t)) && not (has_break t)

-- `not` passed over: a link that is not kept yet.
abbrev pub is_new : List String → String → Bool
is_new out t = is_link t && not (elem t out)

-- The loop of `clean_links` with what it has kept; it ends once `max_links` are kept.
unfoldable pub clean_loop : List String → List String → List String
clean_loop out [] = out
clean_loop out (t ∷ items) =
    let kept = if is_new out t then out ++ t ∷ [] else out in
    let rest = clean_loop kept items in
    if is_new out t && leb max_links (length kept) then kept else rest

unfoldable pub clean_links : List String → List String
clean_links items = clean_loop [] items

abbrev pub raw_budget : ℕ
raw_budget = max_body / 4 * 3

abbrev pub is_empty : List String → Bool
is_empty [] = true
is_empty (t ∷ items) = false

-- The loop of `keep_links`, with what it has kept and its size; `len` is the number of bytes of a text
-- in UTF-8.
unfoldable pub keep_loop : List String → ℕ → List String → List String
keep_loop kept size [] = kept
keep_loop kept size (t ∷ items) =
    let rest = keep_loop (kept ++ t ∷ []) (size + (len t + 1)) items in
    if not (is_empty kept) && ltb raw_budget (size + (len t + 1)) then kept else rest

unfoldable pub keep_links : List String → List String
unfolding keep_loop
keep_links items = keep_loop [] 0 (clean_links items)

-- `encode` is the Base64 of the bytes of the links, each with the end of its line.
unfoldable pub payload_of : (List String → String) → List String → String
payload_of encode items =
    let kept = keep_links items in
    if is_empty kept then "" else if leb (len (encode kept)) max_body then encode kept else ""

-- The quota of one subscription; 0 stands for no expiry.
pub record Quota : Type 0 where
  pub up : ℕ
  pub down : ℕ
  pub total : ℕ
  pub expire : ℕ

-- `if value and (not expire or value < expire): expire = value`
abbrev pub sooner : ℕ → ℕ → ℕ
sooner expire value =
    if not (nat_beq value 0) && (nat_beq expire 0 || ltb value expire) then value else expire

-- The loop of `sum_quota`, with the sums so far.
unfoldable pub sum_loop : Quota → List Quota → Quota
sum_loop q [] = q
sum_loop q (item ∷ items) =
    sum_loop
      (record {
        up = q.up + item.up;
        down = q.down + item.down;
        total = q.total + item.total;
        expire = sooner q.expire item.expire;
      })
      items

unfoldable pub sum_quota : List Quota → Quota
unfolding sum_loop
sum_quota items = sum_loop (record { up = 0; down = 0; total = 0; expire = 0 }) items
