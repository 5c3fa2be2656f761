-- ===== src/SubServer/Client.antt =====
-- `proxy_client_ip`, behind which proxy a client is, and `base_url`, which reads the Host line of its
-- request. `ipaddress` is a parameter.
use obhod.Prelude.{
  ℕ, Bool, true, false, ◌&&◌, ◌||◌, not, Option, none, some, List, [], ◌∷◌, ◌++◌, String,
  if◌then◌else◌, leb, nat_beq, codes, digits_of, is_digit, length,
}
use obhod.Chars.{Chars, between, is_blank, strip}
use obhod.Chars.Cut.{
  among, every, filled, lower, same_chars, before, rest_after, last_piece, pieces,
}
use obhod.SubServer.Registry.{header_safe}

-- `canonical` prints an address again, and is `none` where `ip_address` raises; `within` tells whether
-- the address is in the network.
pub record Addresses : Type 0 where
  pub canonical : Chars → Option String
  pub within : Chars → String → Bool

-- A field of the header that is missing is the empty text.
pub record Request : Type 0 where
  pub peer : String
  pub forwarded : Chars
  pub connecting : Chars
  pub host : Chars
  pub path : Chars
  pub head : Bool

abbrev pub proxy_nets : List String
proxy_nets = "127.0.0.1" ∷ "::1" ∷ "100.64.0.0/10" ∷ "fd7a:115c:a1e0::/48" ∷ "::ffff:127.0.0.1" ∷ []

abbrev pub in_some : Addresses → Chars → List String → Bool
in_some a text [] = false
in_some a text (net ∷ nets) = a.within text net || in_some a text nets

unfoldable pub is_proxy_peer : Addresses → Chars → Bool
is_proxy_peer a ip =
    let text = strip ip in
    if among text ("127.0.0.1" ∷ "::1" ∷ "::ffff:127.0.0.1" ∷ [])
    then true
    else elim (a.canonical text) [ none ↦ false | some _ ↦ in_some a text proxy_nets ]

-- The address that the last of the texts names.
unfoldable pub last_address : Addresses → List Chars → Option String
last_address a [] = none
last_address a (part ∷ []) = a.canonical part
last_address a (part ∷ next ∷ parts) = last_address a (next ∷ parts)

unfoldable pub stripped_pieces : List Chars → List Chars
stripped_pieces [] = []
stripped_pieces (part ∷ parts) = strip part ∷ stripped_pieces parts

unfoldable pub direct_address : Addresses → Request → String
direct_address a req =
    let direct = strip req.connecting in
    if is_blank direct
    then req.peer
    else elim (a.canonical direct) [ none ↦ req.peer | some ip ↦ ip ]

-- `Handler.client_ip`
unfoldable pub client_ip : Addresses → Request → String
unfolding direct_address
client_ip a req =
    if not (is_proxy_peer a (codes req.peer))
    then req.peer
    else elim (last_address a (filled (stripped_pieces (pieces 44 req.forwarded)))) [
      | some ip ↦ ip
      | none ↦ direct_address a req
    ]

abbrev pub is_name_letter : ℕ → Bool
is_name_letter c = between 97 122 c || is_digit c

abbrev pub is_host_port : Chars → Bool
is_host_port [] = false
is_host_port (c ∷ cs) =
    not (nat_beq c 48)
    && leb (length cs) 4
    && elim (digits_of (c ∷ cs)) [ none ↦ false | some port ↦ leb port 65535 ]

-- The port of the host, if there is one, is right.
abbrev pub is_host_end : Option Chars → Bool
is_host_end none = true
is_host_end (some port) = is_host_port port

abbrev pub is_bracket_end : Option Chars → Bool
is_bracket_end none = false
is_bracket_end (some []) = true
is_bracket_end (some (c ∷ port)) = nat_beq c 58 && is_host_port port

abbrev pub is_host_name : Chars → Bool
is_host_name [] = false
is_host_name (c ∷ cs) =
    is_name_letter c
    && leb (length cs) 251
    && every (λ d. is_name_letter d || nat_beq d 45 || nat_beq d 46) cs

-- `HOST_HEADER.match`
unfoldable pub is_host : Chars → Bool
is_host [] = false
is_host (c ∷ cs) =
    if nat_beq c 91
    then between 3 45 (length (before 93 cs))
      && every (λ d. between 97 102 d || is_digit d || nat_beq d 46 || nat_beq d 58) (before 93 cs)
      && is_bracket_end (rest_after 93 cs)
    else is_host_name (before 58 (c ∷ cs)) && is_host_end (rest_after 58 (c ∷ cs))

unfoldable pub base_url : Chars → Chars
base_url host =
    let text = lower (strip (header_safe host 120)) in
    if is_blank text || not (is_host text)
    then []
    else if same_chars (last_piece 58 text) (codes "0")
    then []
    else codes "http://" ++ text
