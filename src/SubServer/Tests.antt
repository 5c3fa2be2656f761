-- ===== src/SubServer/Tests.antt =====
-- The subscription server at concrete inputs.
use obhod.Prelude.{
  Option, List, map, ◌+◌, ℕ, zero, suc, ◌≡◌, refl, true, false, none, some, [], ◌∷◌, ◌++◌, codes,
  pos, text_key, ◌⊎◌, arith,
}
use obhod.Chars.{Chars, lstrip, rstrip, strip, begins}
use obhod.Chars.Cut.{pieces_from, before, after, filled, rest_after, last_piece, chars_key}
use obhod.Chars.Bytes.{utf8, base64, decimals, decimal}
use obhod.Dict.{Dict, get, put, prune, drop_oldest}
use obhod.SubServer.Throttle.{
  count_request, entry_of, counted, judge, block_for, sweep, is_stale, throttled, record_miss,
  miss_entry, new_bucket, penalty_of,
}
use obhod.SubServer.Registry.{
  Entry, keep_texts, with_ends, payload_text, counter, refresh_hours, userinfo, printable,
  title_header, announce_lines, header_lines, info_body, link_count, document,
}
use obhod.SubServer.Client.{
  Request, is_proxy_peer, last_address, stripped_pieces, direct_address, client_ip, is_host,
  base_url,
}
use obhod.SubServer.Handler.{
  Setup, State, payload, access, is_segment, wanted, with_format, two_segments, without_content,
  without_type, deliver_entry, open_entry, open_found, find_entry, answer, send_plain, send, do_get,
  Reply,
}
use obhod.SubServer.Cache.{File, no_cache, reads}
use obhod.SubServer.Cache.Fresh.{fresh, reads_fresh}
use obhod.SubServer.Handler.Granted.{get_granted, IsHealth, IsOpen}
use obhod.SubServer.Handler.Hidden.{closed_alike, named}
use obhod.SubServer.Handler.Guesses.{Tries}

program : Unit {0}
unfolding lstrip rstrip strip begins pieces_from before after filled rest_after last_piece utf8
    base64 decimals decimal get put prune drop_oldest count_request entry_of counted judge block_for
    sweep is_stale throttled record_miss miss_entry keep_texts with_ends payload_text counter
    refresh_hours userinfo printable title_header announce_lines header_lines info_body link_count
    document is_proxy_peer last_address stripped_pieces direct_address client_ip is_host base_url
    is_segment wanted with_format two_segments without_content without_type deliver_entry open_entry
    open_found find_entry answer send_plain send do_get text_key chars_key penalty_of
program = tt

abbrev repeat : ℕ → ℕ → Chars
repeat zero c = []
repeat (suc n) c = c ∷ repeat n c

abbrev name : Chars
name = repeat 64 97

abbrev key : Chars
key = repeat 64 98

abbrev entry : Entry
entry = record {
  key = key;
  disabled = false;
  links = some (codes " vless://one" ∷ codes " " ∷ []);
  up = some (pos 120);
  down = none;
  total = some (pos 5000);
  expire = some (pos 0);
  refresh = some (pos 200);
  title = [];
  filename = [];
  path = [];
  email = [];
  support_url = [];
  announce = [];
}

-- Loopback is the only proxy, and every text is the address 203.0.113.9.
abbrev settings : Setup
settings = record {
  addresses = record { canonical = λ s. some "203.0.113.9"; within = λ s net. false };
  throttle = record { second = 1; rate_limit = 60; blocking = true };
  max_body = 65536;
  seclog_on = true;
}

abbrev request : Chars → Request
request path = record {
  peer = "127.0.0.1";
  forwarded = codes "10.0.0.1, 203.0.113.9";
  connecting = [];
  host = codes "Example.org:2096";
  path = path;
  head = false;
}

abbrev path : Chars → Chars
path k = 47 ∷ name ++ 47 ∷ k

abbrev registry : Dict Chars Entry
registry = (name, entry) ∷ []

abbrev idle : State
idle = record { buckets = []; notes = [] }

abbrev asked : State × Reply
asked = do_get settings registry 5 5 (request (path key)) idle

given : asked.1.body ≡ some (payload (codes "dmxlc3M6Ly9vbmUK"))
unfolding program
given = refl

given_notes : asked.0.notes ≡ access "203.0.113.9" 200 ∷ []
unfolding program
given_notes = refl

-- A wrong key counts as a miss.
wrong_key_missed :
    (do_get settings registry 5 6 (request (path name)) idle).0.buckets
    ≡ ("203.0.113.9", record (new_bucket 5) { count = 1; seen = 6; misses = 1 }) ∷ []
unfolding program
wrong_key_missed = refl

lines : userinfo entry ≡ codes "upload=120; download=0; total=5000; expire=0"
unfolding program
lines = refl

host_url : base_url (codes "Example.org:2096") ≡ codes "http://example.org:2096"
unfolding program
host_url = refl

no_host : base_url (codes "example.org:65536") ≡ []
unfolding program
no_host = refl

bracket_host : base_url (codes "[::1]:80") ≡ codes "http://[::1]:80"
unfolding program
bracket_host = refl

get_granted_example :
    ((throttled settings.throttle (client_ip settings.addresses (request (path key))) 5 []).1
      ≡ false)
    × (IsHealth (request (path key)) ⊎ IsOpen settings registry (named (request (path key))))
unfolding program
get_granted_example = get_granted settings registry 5 5 (request (path key)) idle refl

closed_alike_example :
    do_get settings registry 5 6 (request (path name)) idle
    ≡ do_get settings [] 5 6 (request (path name)) idle
unfolding program
closed_alike_example =
    closed_alike settings registry [] 5 6 (request (path name)) idle (λ e there. ground arith)
      (λ e there. ground arith)

abbrev guess_of : ℕ → ℕ × ℕ × Request
guess_of now = (now, now + 1, request (path name))

abbrev guesses : Tries
guesses = guess_of 5 ∷ guess_of 8 ∷ guess_of 64 ∷ []

abbrev registry_file : File
registry_file = record {
  stamp = record { mtime_ns = 17; size = 900; ino = 4 };
  is_link = false;
  decoded = some (some registry);
}

abbrev read_files : List (Option File)
read_files = some registry_file ∷ some registry_file ∷ none ∷ some registry_file ∷ []

reads_fresh_example : reads read_files no_cache ≡ map fresh read_files
reads_fresh_example = reads_fresh (λ s. registry_file) read_files (refl, (refl, (tt, (refl, tt))))
