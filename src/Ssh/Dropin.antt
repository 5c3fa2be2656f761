-- ===== src/Ssh/Dropin.antt =====
-- `apply` and `remove_dropin`: the file of options is written, tested and, if sshd refuses it, put
-- back. The state is the file, the key file's entries and the number of restarts.
pub mod Safe
use obhod.Prelude.{
  ℕ, suc, ◌+◌, Bool, true, false, ◌&&◌, ◌||◌, not, Option, none, some, List, [], ◌∷◌, ◌++◌, String,
  if◌then◌else◌, leb, ltb, length, elem, text_key, ◌==◌, read_number,
}
use Prim.Native.String.{◌++◌ as ◌<>◌}
use obhod.Ports.{is_port}
use obhod.Ssh.{ErrorCode, bad_arg, no_keys, config_invalid, no_systemd, start_failed, System}

-- What the file holds, and its mode.
pub record OptionsFile : Type 0 where
  pub content : String
  pub mode : ℕ

pub record Host : Type 0 where
  pub dropin : Option OptionsFile
  pub keys : List String
  pub restarts : ℕ

-- The flags after `strip` and `lower`; an empty text is a flag that is not given.
pub record Flags : Type 0 where
  pub port : String
  pub password : String
  pub root : String

pub data Outcome : Type 0 where
  done : Outcome
  failed : ErrorCode → Outcome

abbrev pub root_choices : List String
root_choices = "yes" ∷ "no" ∷ "prohibit-password" ∷ "forced-commands-only" ∷ []

abbrev pub in_range : Option ℕ → Bool
in_range none = false
in_range (some n) = is_port n

-- `port.isdigit() and 1 <= int(port) <= 65535`
abbrev pub is_port_text : String → Bool
is_port_text port = in_range (read_number port)

abbrev pub port_lines : String → List String
port_lines port = if port == "" then [] else ("Port " <> port) ∷ []

abbrev pub password_lines : String → List String
password_lines password =
    if elem password ("yes" ∷ "no" ∷ [])
    then ("PasswordAuthentication " <> password)
      ∷ ("KbdInteractiveAuthentication " <> password)
      ∷ []
    else []

abbrev pub root_lines : String → List String
root_lines root = if root == "" then [] else ("PermitRootLogin " <> root) ∷ []

-- The lines that the flags ask for, after the two empty ones.
unfoldable pub asked_lines : Flags → List String
asked_lines f = port_lines f.port ++ (password_lines f.password ++ root_lines f.root)

abbrev pub fixed_lines : List String
fixed_lines =
    "PubkeyAuthentication yes" ∷ "MaxAuthTries 3" ∷ "MaxSessions 10" ∷ "LoginGraceTime 20"
    ∷ "ClientAliveInterval 300" ∷ "ClientAliveCountMax 2" ∷ "X11Forwarding no"
    ∷ "AllowAgentForwarding no" ∷ "AllowTcpForwarding no" ∷ "PermitTunnel no" ∷ "" ∷ []

-- `"\n".join(lines)`
unfoldable pub join_lines : List String → String
join_lines [] = ""
join_lines (l ∷ []) = l
join_lines (l ∷ m ∷ lines) = l <> ("\n" <> join_lines (m ∷ lines))

unfoldable pub body_of : Flags → String
unfolding join_lines
body_of f = join_lines ("" ∷ "" ∷ asked_lines f ++ fixed_lines)

abbrev pub no_lines : List String → Bool
no_lines [] = true
no_lines (l ∷ lines) = false

-- The tests before anything is written, in the order of the code.
unfoldable pub refusal : Flags → List String → Option ErrorCode
unfolding asked_lines
refusal f keys =
    if not (f.port == "") && not (is_port_text f.port)
    then some bad_arg
    else if not (f.root == "") && not (elem f.root root_choices)
    then some bad_arg
    else if no_lines (asked_lines f)
    then some bad_arg
    else if f.password == "no" && no_lines keys
    then some no_keys
    else if f.password == "no" && ltb 32 (length keys)
    then some bad_arg
    else none

-- `restart`: the first of the two units that restarts is enough.
unfoldable pub restart : System → Host → Host × Outcome
restart s h =
    if not s.systemd
    then (h, failed no_systemd)
    else if s.restarts_ssh || s.restarts_sshd
    then (record h { restarts = h.restarts + 1 }, done)
    else (h, failed start_failed)

-- `test_config`
abbrev pub accepted : System → String → Bool
accepted s body = not s.sshd || s.accepts body

-- `write_dropin`, with the mode 0600.
abbrev pub write_dropin : String → OptionsFile
write_dropin body = record { content = body; mode = 384 }

-- `previous`: the text of the file before, empty where there is no file.
abbrev pub previous_text : System → Option OptionsFile → String
previous_text s none = ""
previous_text s (some file) = s.reads file.content

-- What is put back: an empty text counts as no file.
abbrev pub restored : String → Option OptionsFile
restored previous = if previous == "" then none else some (write_dropin previous)

abbrev pub proceed : System → Flags → Host → Host × Outcome
proceed s f h =
    let written = record h { dropin = some (write_dropin (body_of f)) } in
    if accepted s (body_of f)
    then restart s written
    else (record h { dropin = restored (previous_text s h.dropin) }, failed config_invalid)

abbrev pub unless_refused : Option ErrorCode → Host → Host × Outcome → Host × Outcome
unless_refused (some e) h result = (h, failed e)
unless_refused none h result = result

unfoldable pub apply : System → Flags → Host → Host × Outcome
apply s f h = unless_refused (refusal f h.keys) h (proceed s f h)

abbrev pub is_file : Option OptionsFile → Bool
is_file none = false
is_file (some file) = true

-- `remove_dropin`
unfoldable pub remove_dropin : System → Host → Host × Outcome
remove_dropin s h = if is_file h.dropin then restart s (record h { dropin = none }) else (h, done)
