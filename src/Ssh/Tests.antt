-- ===== src/Ssh/Tests.antt =====
-- The SSH agent at concrete inputs.
use obhod.Prelude.{◌≡◌, refl, true, false, some, [], ◌∷◌, ◌++◌, codes, text_key}
use obhod.Chars.{Chars, strip, lstrip, rstrip, begins, split, words_from, split_lines, lines_from}
use obhod.Ssh.{System}
use obhod.Ssh.Dropin.{Host, Flags, apply, done, refusal, asked_lines, restart}
use obhod.Ssh.Dropin.Safe.{IsSafe, apply-IsSafe}
use obhod.Ssh.Keys.{
  KeyFile, add_key, present, clean_public_key, has_control, join_words, known, identities,
  key_identity, is_known, chars_eq, payload,
}
use obhod.Ssh.Keys.Added.{add_key_once}

abbrev system : System
system = record {
  sshd = true;
  accepts = λ body. true;
  reads = λ content. content;
  systemd = true;
  restarts_ssh = false;
  restarts_sshd = true;
}

abbrev flags : Flags
flags = record { port = "2200"; password = ""; root = "no" }

abbrev host : Host
host = record {
  dropin = some (record { content = "X11Forwarding no"; mode = 384 });
  keys = [];
  restarts = 0;
}

abbrev strict : System
strict = record system { accepts = λ body. false }

restarted : (apply system flags host).1 ≡ done
unfolding apply refusal asked_lines restart text_key
restarted = refl

apply-IsSafe_example : IsSafe strict flags host (apply strict flags host).0
apply-IsSafe_example = apply-IsSafe strict flags host ((λ h. cc), refl, refl)

kept : (apply strict flags host).0 ≡ host
unfolding apply refusal asked_lines restart text_key
kept = refl

abbrev raw : Chars
raw = codes " ssh-ed25519 AAAA me "

abbrev key_file : KeyFile
key_file = record { is_link = false; text = codes "# keys" }

program : Unit {0}
unfolding add_key clean_public_key has_control strip lstrip rstrip begins split words_from
    split_lines lines_from join_words known identities key_identity is_known chars_eq payload
program = tt

written : (add_key raw key_file).0.text ≡ codes "# keys\nssh-ed25519 AAAA me\n"
unfolding program
written = refl

add_key_once_example :
    (key : Chars) × (clean_public_key (strip raw) ≡ some key)
    × (known (add_key raw key_file).0.text ≡ known key_file.text ++ key_identity key ∷ [])
    × (add_key raw (add_key raw key_file).0 ≡ ((add_key raw key_file).0, present))
unfolding program
add_key_once_example = add_key_once raw key_file refl
