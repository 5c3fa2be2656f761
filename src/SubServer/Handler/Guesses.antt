-- ===== src/SubServer/Handler/Guesses.antt =====
-- How many keys one address can try.
use obhod.Prelude.{
  ℕ, suc, ◌+◌, ◌*◌, ◌≤◌, ◌<◌, ◌≡◌, Bool, true, false, not, List, [], ◌∷◌, String, if◌then◌else◌,
  text_key, ◌⊎◌, nat_beq,
}
use obhod.Chars.{Chars}
use obhod.Dict.{Dict, get}
use obhod.SubServer.Throttle.{Config, Buckets, throttled, record_miss, entry_of}
use obhod.SubServer.Client.{Request, client_ip}
use obhod.SubServer.Registry.{Entry}
use obhod.SubServer.Handler.{Setup, State, answer, do_get}
use obhod.SubServer.Handler.Granted.{code_of}

-- A request that is answered by a miss, if the throttle lets it through: the table, and whether it does.
unfoldable guess : Config → String → ℕ → ℕ → Buckets → Buckets × Bool
guess cfg ip now later d =
    let (d', refused, _) = throttled cfg ip now d in
    (if refused then d' else record_miss cfg ip true later d', not refused)

abbrev misses_of : String → Buckets → ℕ
misses_of ip d = (entry_of (get ip d) 0).misses

abbrev until_of : String → Buckets → ℕ
until_of ip d = (entry_of (get ip d) 0).blocked_until

-- What a request can find: a block, a block that it brings about, or fewer than ten misses.
abbrev Outcome : Config → String → ℕ → Buckets → Buckets × Bool → Type 0
Outcome cfg ip now d r =
    ((r.1 ≡ false) × (misses_of ip r.0 ≡ misses_of ip d) × (until_of ip r.0 ≡ until_of ip d))
    ⊎ (((r.1 ≡ false) × (now + 60 * cfg.second ≤ until_of ip r.0) × (until_of ip d ≤ now))
        ⊎ ((r.1 ≡ true)
            × (misses_of ip r.0 ≡ misses_of ip d + 1)
            × (misses_of ip d < 10)
            × (until_of ip d ≤ now)))

-- The first key is tried at a reading of the clock, and the miss is recorded at a later one.
abbrev pub Tries : Type 0
Tries = List (ℕ × ℕ × Request)

-- The replies with the code 404, when the requests are served in turn.
unfoldable pub missed : Setup → Dict Chars Entry → Tries → State → ℕ
missed settings entries [] s = 0
missed settings entries ((now, later, req) ∷ tries) s =
    let (s', r) = do_get settings entries now later req s in
    let rest = missed settings entries tries s' in if nat_beq r.code 404 then suc rest else rest

-- The request comes from the address, and the registry has no answer to it.
pub record IsGuess (settings : Setup) (entries : Dict Chars Entry) (ip : String)
    (t : ℕ × ℕ × Request) : Type 0 where
  pub own : client_ip settings.addresses t.2 ≡ ip
  pub miss : code_of (answer settings entries t.2) ≡ 404
