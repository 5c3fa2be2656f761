-- ===== src/SubServer/Handler.antt =====
-- `Handler.do_GET` with all that it calls: the throttle, the path, the registry and the answer, with the
-- misses and the notes of `send_plain`. The state is the table of the throttle and the notes of the two
-- logs. The registry that `read_registry` gives is an argument. The lines of the header that every
-- answer has are left out.
pub mod Granted
pub mod Hidden
pub mod Guesses
use obhod.Prelude.{
  ℕ, zero, suc, ◌+◌, ◌-◌, Bool, true, false, ◌&&◌, ◌||◌, not, Option, none, some, List, [], ◌∷◌,
  ◌++◌, String, if◌then◌else◌, leb, ltb, nat_beq, codes, digits_of, is_digit, length, take,
}
use obhod.Chars.{Chars, between, is_blank, strip}
use obhod.Chars.Cut.{
  among, every, filled, lower, same_chars, before, after, rest_after, last_piece, pieces, chars_key,
}
use obhod.Dict.{Dict, get}
use obhod.SubServer.Throttle.{
  Config, Buckets, Reason, sub_rate, sub_miss, throttled, record_miss, rate_window,
}
use obhod.SubServer.Client.{Addresses, Request, client_ip, base_url}
use obhod.SubServer.Registry.{
  Entry, Document, payload_text, header_lines, header_safe, document, or_word,
}

pub record Setup : Type 0 where
  pub addresses : Addresses
  pub throttle : Config
  pub max_body : ℕ
  pub seclog_on : Bool

pub data Body : Type 0 where
  words : String → Body
  payload : Chars → Body
  json : Document → Body

abbrev pub Headers : Type 0
Headers = List (String × Chars)

pub data Note : Type 0 where
  access : String → ℕ → Note
  blocked : String → Reason → Note
  denied : String → Note

-- `body` is `none` for a HEAD request, which gets no body.
pub record Reply : Type 0 where
  pub code : ℕ
  pub body : Option Body
  pub extra : Headers

pub record State : Type 0 where
  pub buckets : Buckets
  pub notes : List Note

abbrev pub is_segment_letter : ℕ → Bool
is_segment_letter c =
    between 65 90 c || between 97 122 c || is_digit c || nat_beq c 45 || nat_beq c 95

-- `SEGMENT.match`, for a text without a line end, as the path of a request is.
unfoldable pub is_segment : Chars → Bool
is_segment s = nat_beq (length s) 64 && every is_segment_letter s

-- The loop over the query, with the format that is wanted so far.
unfoldable pub wanted : Chars → List Chars → Chars
wanted want [] = want
wanted want (pair ∷ pairs) =
    wanted
      (if same_chars (lower (strip (before 61 pair))) (codes "format")
        then take 16 (lower (strip (after 61 pair)))
        else want)
      pairs

abbrev pub wants_json : Chars → Bool
wants_json want = among want ("json" ∷ "info" ∷ [])

-- The parts of the path without the format, and the format that is wanted.
unfoldable pub with_format : Chars → List Chars → List Chars × Chars
with_format want [] = ([], want)
with_format want (a ∷ []) = (a ∷ [], want)
with_format want (a ∷ b ∷ []) = (a ∷ b ∷ [], want)
with_format want (a ∷ b ∷ c ∷ []) =
    if wants_json (lower c)
    then (a ∷ b ∷ [], if is_blank want then lower c else want)
    else (a ∷ b ∷ c ∷ [], want)
with_format want (a ∷ b ∷ c ∷ d ∷ parts) = (a ∷ b ∷ c ∷ d ∷ parts, want)

-- The name and the key of a subscription.
unfoldable pub two_segments : List Chars → Option (Chars × Chars)
two_segments [] = none
two_segments (a ∷ []) = none
two_segments (a ∷ b ∷ []) = if is_segment a && is_segment b then some (a, b) else none
two_segments (a ∷ b ∷ c ∷ parts) = none

-- What is sent: by `send_plain`, or by the end of `do_GET` itself.
pub data Response : Type 0 where
  plain : ℕ → Body → Headers → Response
  direct : Chars → Headers → Response

abbrev pub not_found : Response
not_found = plain 404 (words "not found\n") []

unfoldable pub without_content : Headers → Headers
without_content [] = []
without_content ((key, value) ∷ headers) =
    let rest = without_content headers in
    if among (codes key) ("Content-Type" ∷ "Content-Disposition" ∷ [])
    then rest
    else (key, value) ∷ rest

unfoldable pub without_type : Headers → Headers
without_type [] = []
without_type ((key, value) ∷ headers) =
    let rest = without_type headers in
    if same_chars (lower (codes key)) (codes "content-type") then rest else (key, value) ∷ rest

-- One line end may follow what the `$` of the source stands behind.
abbrev pub is_file_name : Chars → Bool
is_file_name s =
    let name = before 10 s in
    between 1 64 (length name)
    && every (λ d. is_segment_letter d || nat_beq d 46) name
    && leb (length s) (length name + 1)

abbrev pub file_name : Entry → Chars
file_name e =
    let name = or_word e.filename "obhod" in if is_file_name name then name else codes "obhod"

-- The entry is open to the one who asks; `text` is its payload.
unfoldable pub deliver_entry : Request → Chars → Chars → Entry → Response
deliver_entry req want text e =
    let base = base_url req.host in
    if wants_json want
    then plain 200 (json (document (same_chars want (codes "info")) e text base))
        (without_content (header_lines e (codes "obhod") base))
    else direct text (without_type (header_lines e (file_name e) base))

unfoldable pub open_entry : Setup → Request → Chars → Chars → Entry → Response
open_entry settings req want key e =
    let text = payload_text settings.max_body e in
    if not (same_chars e.key key)
    then not_found
    else if e.disabled
    then plain 403 (words "disabled\n") []
    else if is_blank text
    then plain 404 (words "empty\n") []
    else deliver_entry req want text e

unfoldable pub open_found : Setup → Request → Chars → Chars → Option Entry → Response
open_found settings req want key none = not_found
open_found settings req want key (some e) = open_entry settings req want key e

unfoldable pub find_entry :
    Setup → Dict Chars Entry → Request → Chars → Option (Chars × Chars) → Response
unfolding open_found
find_entry settings entries req want none = not_found
find_entry settings entries req want (some (name, key)) =
    open_found settings req want key (get name entries)

-- The part of `do_GET` behind the throttle.
unfoldable pub answer : Setup → Dict Chars Entry → Request → Response
answer settings entries req =
    let raw = take 1024 req.path in
    let path = take 512 (before 63 raw) in
    let (parts, want) =
      with_format (wanted [] (pieces 38 (after 63 raw))) (filled (pieces 47 path)) in
    if same_chars path (codes "/health")
    then plain 200 (words "ok\n") []
    else if among path ("/" ∷ "/favicon.ico" ∷ [])
    then not_found
    else if same_chars want (codes "clash")
    then plain 400 (words "clash is not served by this server\n") []
    else find_entry settings entries req want (two_segments parts)

abbrev pub sent : Request → Body → Option Body
sent req b = if req.head then none else some b

-- What `send_plain` does to the throttle, `later` being its reading of the clock.
abbrev pub recorded : Config → String → ℕ → ℕ → Buckets → Buckets
recorded cfg ip later code d =
    if nat_beq code 403 || nat_beq code 404
    then record_miss cfg ip true later d
    else if nat_beq code 200
    then record_miss cfg ip false later d
    else d

abbrev pub noted : Setup → String → ℕ → List Note
noted settings ip code =
    access ip code
    ∷ (if (nat_beq code 403 || nat_beq code 404) && settings.seclog_on then denied ip ∷ [] else [])

unfoldable pub send_plain : Setup → Request → ℕ → ℕ → Body → Headers → State → State × Reply
send_plain settings req later code body extra s =
    let ip = client_ip settings.addresses req in
    (
      record {
        buckets = recorded settings.throttle ip later code s.buckets;
        notes = s.notes ++ noted settings ip code;
      },
      record {
        code = code;
        body = sent req body;
        extra = (if nat_beq code 429 then ("Retry-After", codes "60") ∷ [] else []) ++ extra;
      },
    )

unfoldable pub send : Setup → Request → ℕ → Response → State → State × Reply
unfolding send_plain
send settings req later (plain code body extra) s = send_plain settings req later code body extra s
send settings req later (direct text extra) s = (
  record s { notes = s.notes ++ access (client_ip settings.addresses req) 200 ∷ [] },
  record { code = 200; body = sent req (payload text); extra = extra },
)

abbrev pub block_note : Setup → String → Option Reason → List Note
block_note settings ip none = []
block_note settings ip (some reason) = if settings.seclog_on then blocked ip reason ∷ [] else []

-- `now` is the reading of the clock in `throttled`.
unfoldable pub do_get : Setup → Dict Chars Entry → ℕ → ℕ → Request → State → State × Reply
unfolding send
do_get settings entries now later req s =
    let ip = client_ip settings.addresses req in
    let (d, refused, reason) = throttled settings.throttle ip now s.buckets in
    let s' : State = record { buckets = d; notes = s.notes ++ block_note settings ip reason } in
    if refused
    then send_plain settings req later 429 (words "slow down\n") [] s'
    else send settings req later (answer settings entries req) s'
