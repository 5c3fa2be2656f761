-- ===== src/Notify/Settings.antt =====
-- BOT/notify.py, the tables of kinds and the class `Settings`. Times are ticks, of which `second`
-- make a second; the clock is an argument.
pub mod Toggle
use obhod.Prelude.{
  ℕ, ◌+◌, ◌*◌, Bool, true, false, not, Option, none, some, List, [], ◌∷◌, String, if◌then◌else◌,
  ltb, elem, text_key,
}
use obhod.Dict.{Dict, get, put}

abbrev pub kinds : List String
kinds = "portscan" ∷ "ssh_brute" ∷ "fail2ban" ∷ "honeypot" ∷ "ddos" ∷ "sub_abuse" ∷ "core" ∷ []

abbrev pub default_on : Dict String Bool
default_on =
    ("portscan", true)
    ∷ ("ssh_brute", true)
    ∷ ("fail2ban", true)
    ∷ ("honeypot", true)
    ∷ ("ddos", true)
    ∷ ("sub_abuse", false)
    ∷ ("core", true)
    ∷ []

abbrev pub default_cooldown : Dict String ℕ
default_cooldown =
    ("portscan", 1800)
    ∷ ("ssh_brute", 900)
    ∷ ("fail2ban", 300)
    ∷ ("honeypot", 300)
    ∷ ("ddos", 600)
    ∷ ("sub_abuse", 3600)
    ∷ ("core", 600)
    ∷ []

abbrev pub default_per_ip : Dict String ℕ
default_per_ip =
    ("portscan", 3600)
    ∷ ("ssh_brute", 1800)
    ∷ ("fail2ban", 900)
    ∷ ("honeypot", 1800)
    ∷ ("ddos", 1200)
    ∷ ("sub_abuse", 3600)
    ∷ ("core", 1800)
    ∷ []

pub record Settings : Type 0 where
  pub enabled : Dict String Bool
  pub cooldown : Dict String ℕ
  pub mute_until : ℕ

-- `d.get(key, default)`
abbrev pub or_else {ℓ} : {A : Type ℓ} → A → Option A → A
or_else default none = default
or_else default (some a) = a

unfoldable pub is_on : Settings → String → Bool
is_on s kind =
    if elem kind kinds
    then or_else (or_else false (get kind default_on)) (get kind s.enabled)
    else false

-- The new settings and value, or `none` for the error of an unknown kind.
unfoldable pub toggle : Settings → String → Option (Settings × Bool)
toggle s kind =
    if elem kind kinds
    then some (record s { enabled = put kind (not (is_on s kind)) s.enabled }, not (is_on s kind))
    else none

unfoldable pub silence : Settings → ℕ → ℕ → Settings
silence s seconds now = record s { mute_until = now + seconds }

unfoldable pub is_muted : Settings → ℕ → Bool
is_muted s now = ltb now s.mute_until

-- How long after an event of the kind the next one waits: of any address, and of the same one.
unfoldable pub cooldown_of : ℕ → Settings → String → ℕ
cooldown_of second s kind =
    or_else (or_else 0 (get kind default_cooldown) * second) (get kind s.cooldown)

unfoldable pub per_ip_of : ℕ → String → ℕ
per_ip_of second kind = or_else 900 (get kind default_per_ip) * second
