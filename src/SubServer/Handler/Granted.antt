-- ===== src/SubServer/Handler/Granted.antt =====
-- Who gets an answer with code 200.
use obhod.Prelude.{
  ℕ, ◌≡◌, refl, Bool, if◌then◌else◌, ◌++◌, true, false, Option, none, some, [], ◌∷◌, ◌∙◌, sym, ap,
  arith, Option-cases, inl, inr, take, Bool-cases, ◌⊎◌, codes,
}
use obhod.Chars.{Chars, is_blank}
use obhod.Chars.Cut.{filled, before, after, pieces, same_chars, same_chars_iff, chars_key, among}
use obhod.Dict.{Dict, get}
use obhod.SubServer.Throttle.{throttled}
use obhod.SubServer.Client.{Request, client_ip}
use obhod.SubServer.Registry.{Entry, payload_text}
use obhod.SubServer.Handler.{
  Setup, State, Response, Body, words, block_note, plain, direct, wanted, with_format, two_segments,
  open_entry, open_found, find_entry, answer, not_found, do_get, send, send_plain,
}
use obhod.SubServer.Handler.Hidden.{named}

-- The path of the request without its query is `/health`.
abbrev pub IsHealth : Request → Type 0
IsHealth req = take 512 (before 63 (take 1024 req.path)) ≡ codes "/health"

-- The request has the name and the key of an entry that is enabled and has links to give.
pub record IsOpen (settings : Setup) (entries : Dict Chars Entry) (asked : Option (Chars × Chars))
    : Type 0 where
  pub name : Chars
  pub entry : Entry
  pub asks : asked ≡ some (name, entry.key)
  pub there : get name entries ≡ some entry
  pub enabled : entry.disabled ≡ false
  pub filled : is_blank (payload_text settings.max_body entry) ≡ false

abbrev pub code_of : Response → ℕ
code_of (plain code body extra) = code
code_of (direct text extra) = 200

open_granted :
    (settings : Setup) (req : Request) (want key : Chars) (e : Entry)
    → code_of (open_entry settings req want key e) ≡ 200
    → (e.key ≡ key) × (e.disabled ≡ false) × (is_blank (payload_text settings.max_body e) ≡ false)
unfolding open_entry
open_granted settings req want key e h = ground (arith, same_chars_iff e.key key)

find_granted :
    (settings : Setup) (entries : Dict Chars Entry) (req : Request) (want : Chars)
    (asked : Option (Chars × Chars))
    → code_of (find_entry settings entries req want asked) ≡ 200
    → IsOpen settings entries asked
unfolding find_entry open_found
find_granted settings entries req want none h = absurd (omega (arith, h))
find_granted settings entries req want (some (name, key)) h =
    elim (Option-cases (get name entries)) [
      | inl gone ↦
          let wrong : code_of not_found ≡ 200 =
            sym (ap (λ o. code_of (open_found settings req want key o)) gone) ∙ h in
          absurd (omega (arith, wrong))
      | inr (e, there) ↦
          let (right, enabled, filled) =
            open_granted settings req want key e
              (sym (ap (λ o. code_of (open_found settings req want key o)) there) ∙ h) in
          record {
            name = name;
            entry = e;
            asks = ap (λ (k : Chars). some (name, k)) (sym right);
            there = there;
            enabled = enabled;
            filled = filled;
          }
    ]

-- The choices of `answer`, of which only the first has the code 200.
chosen_granted :
    (health root clash : Bool) (body refusal : Body) (x : Response)
    → code_of (
        if health
        then plain 200 body []
        else if root
        then not_found
        else if clash
        then plain 400 refusal []
        else x)
      ≡ 200
    → (health ≡ true) ⊎ (code_of x ≡ 200)
chosen_granted true root clash body refusal x h = inl refl
chosen_granted false true clash body refusal x h = absurd (omega (arith, h))
chosen_granted false false true body refusal x h = absurd (omega (arith, h))
chosen_granted false false false body refusal x h = inr h

answer_granted :
    (settings : Setup) (entries : Dict Chars Entry) (req : Request)
    → code_of (answer settings entries req) ≡ 200
    → IsHealth req ⊎ IsOpen settings entries (named req)
unfolding answer
answer_granted settings entries req h =
    let path = take 512 (before 63 (take 1024 req.path)) in
    let (parts, want) =
      with_format (wanted [] (pieces 38 (after 63 (take 1024 req.path))))
        (filled (pieces 47 path)) in
    let cases =
      chosen_granted (same_chars path (codes "/health")) (among path ("/" ∷ "/favicon.ico" ∷ []))
        (same_chars want (codes "clash")) (words "ok\n")
        (words "clash is not served by this server\n")
        (find_entry settings entries req want (two_segments parts)) h in
    elim cases [
      | inl health ↦ inl ((same_chars_iff path (codes "/health")).0 health)
      | inr found ↦ inr (find_granted settings entries req want (two_segments parts) found)
    ]

send_code :
    (settings : Setup) (req : Request) (later : ℕ) (a : Response) (s : State)
    → (send settings req later a s).1.code ≡ code_of a
unfolding send send_plain
send_code settings req later (plain code body extra) s = refl
send_code settings req later (direct text extra) s = refl

-- A reply with the code 200 goes to a request that the throttle does not refuse, and which either is
-- for the path `/health` or has the name and the key of an entry of the registry that is enabled and
-- whose payload is not empty.
pub get_granted :
    (settings : Setup) (entries : Dict Chars Entry) (now later : ℕ) (req : Request) (s : State)
    → (do_get settings entries now later req s).1.code ≡ 200
    → ((throttled settings.throttle (client_ip settings.addresses req) now s.buckets).1 ≡ false)
      × (IsHealth req ⊎ IsOpen settings entries (named req))
unfolding do_get send_plain
get_granted settings entries now later req s h =
    let ip = client_ip settings.addresses req in
    let (d, refused, reason) = throttled settings.throttle ip now s.buckets in
    elim (Bool-cases (throttled settings.throttle ip now s.buckets).1) [
      | inl blocked ↦
          absurd (let wrong : ◌≡◌ {A = ℕ} 429 200 = ground arith in omega (arith, wrong))
      | inr free ↦ (
        free,
        answer_granted settings entries req (
            sym (
              send_code settings req later (answer settings entries req)
                (record { buckets = d; notes = s.notes ++ block_note settings ip reason }))
            ∙ ground arith),
      )
    ]
