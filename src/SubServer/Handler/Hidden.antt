-- ===== src/SubServer/Handler/Hidden.antt =====
-- What a request without the right key learns of the registry.
use obhod.Prelude.{ℕ, ◌≡◌, refl, false, Option, none, some, [], Option-cases, inl, inr, take}
use obhod.Chars.{Chars}
use obhod.Chars.Cut.{filled, before, after, pieces, same_chars, chars_key}
use obhod.Dict.{Dict, get}
use obhod.SubServer.Client.{Request}
use obhod.SubServer.Registry.{Entry}
use obhod.SubServer.Handler.{
  Setup, State, wanted, with_format, two_segments, open_entry, open_found, find_entry, answer,
  not_found, do_get,
}

-- The name and the key that the path of the request has.
abbrev pub named : Request → Option (Chars × Chars)
named req =
    let raw = take 1024 req.path in
    two_segments
      (with_format (wanted [] (pieces 38 (after 63 raw)))
        (filled (pieces 47 (take 512 (before 63 raw))))).0

-- No entry of the registry is opened by the name and the key of the request.
abbrev pub IsClosed : Dict Chars Entry → Option (Chars × Chars) → Type 0
IsClosed entries none = Unit {0}
IsClosed entries (some (name, key)) =
    (e : Entry) → get name entries ≡ some e → same_chars e.key key ≡ false

find_closed :
    (settings : Setup) (entries : Dict Chars Entry) (req : Request) (want : Chars)
    (asked : Option (Chars × Chars))
    → IsClosed entries asked
    → find_entry settings entries req want asked ≡ not_found
unfolding find_entry open_found open_entry
find_closed settings entries req want none h = refl
find_closed settings entries req want (some (name, key)) h =
    elim (Option-cases (get name entries)) [
      | inl gone ↦ rw gone refl
      | inr (e, there) ↦ rw (there, h e there) refl
    ]

answer_closed :
    (settings : Setup) (one other : Dict Chars Entry) (req : Request)
    → IsClosed one (named req)
    → IsClosed other (named req)
    → answer settings one req ≡ answer settings other req
unfolding answer
answer_closed settings one other req h k =
    let raw = take 1024 req.path in
    let (parts, want) =
      with_format (wanted [] (pieces 38 (after 63 raw)))
        (filled (pieces 47 (take 512 (before 63 raw)))) in
    rw
      (
        find_closed settings one req want (named req) h,
        find_closed settings other req want (named req) k,
      )
      refl

-- Two registries of which neither has an entry that the name and the key of the request open are not
-- told apart by it: the reply, the table of the throttle and the logs are the same, whether the name is
-- there with another key, disabled or not, or is not there at all.
pub closed_alike :
    (settings : Setup) (one other : Dict Chars Entry) (now later : ℕ) (req : Request) (s : State)
    → IsClosed one (named req)
    → IsClosed other (named req)
    → do_get settings one now later req s ≡ do_get settings other now later req s
unfolding do_get
closed_alike settings one other now later req s h k =
    rw (answer_closed settings one other req h k) refl
