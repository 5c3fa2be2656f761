-- ===== src/XrayAgent/Apply.antt =====
-- `cmd_apply` with the steps that it takes: the installation, the tests of the configuration, its backup,
-- the write, the restart and the way back. A core that is stopped ends. What the core makes of a configuration is a record of its own.
pub mod Kept
use obhod.Prelude.{
  ℕ, Bool, true, false, ◌&&◌, ◌||◌, not, Option, none, some, List, [], ◌∷◌, if◌then◌else◌,
}
use obhod.Chars.{Chars, is_blank}
use obhod.XrayAgent.{
  Code, start_failed, config_missing, config_invalid, not_installed, internal, Result, failed, done,
  Disk, Outside,
}
use obhod.XrayAgent.Install.{Order, Installed, pinned_with_fallback}

-- `decodes`: it is JSON with an inbound at least. `ports` are its `listen_ports`. `accepts` is the core's
-- own test, `starts` whether it starts, `active` the state of the service after that, and `opens`
-- whether the port opens within the twelve seconds. `writes`, `backs_up` and `restores` tell whether
-- the three files can be written.
pub record Machine : Type 0 where
  pub systemd : Bool
  pub decodes : Chars → Bool
  pub ports : Chars → List ℕ
  pub accepts : Chars → Chars → Bool
  pub starts : Option Chars → Bool
  pub active : Chars → Bool
  pub opens : Chars → ℕ → Bool
  pub writes : Bool
  pub backs_up : Bool
  pub restores : Bool

abbrev pub is_there : Option Chars → Bool
is_there none = false
is_there (some text) = true

abbrev pub stop_core : Disk → Disk
stop_core d = record d { running = none }

unfoldable pub start_core : Machine → Disk → Disk × Result (Unit {0})
start_core m d =
    if m.starts d.conf then (record d { running = d.conf }, done tt) else (d, failed start_failed)

abbrev pub core_accepts : Machine → Option Chars → Chars → Result (Unit {0})
core_accepts m none payload = failed not_installed
core_accepts m (some core) payload =
    if m.accepts core payload then done tt else failed config_invalid

-- `test_config`, with what `write_config` makes of its answer.
unfoldable pub test_config : Machine → Disk → Chars → Result (Unit {0})
test_config m d payload =
    if is_blank payload then failed config_missing else core_accepts m d.core payload

-- The backup that `backup_config` leaves.
unfoldable pub backup_config : Machine → Disk → Option Chars
backup_config m d = elim d.conf [
  | none ↦ d.backup
  | some previous ↦ if is_blank previous || not m.backs_up then d.backup else some previous
]

abbrev pub write_tested : Machine → Chars → Result (Unit {0}) → Disk → Disk × Result (Unit {0})
write_tested m payload (failed code) d = (d, failed code)
write_tested m payload (done _) d =
    let saved = record d { backup = backup_config m d } in
    if m.writes then (record saved { conf = some payload }, done tt) else (saved, failed internal)

unfoldable pub write_config : Machine → Chars → Disk → Disk × Result (Unit {0})
unfolding test_config
write_config m payload d =
    if is_blank payload
    then (d, failed config_missing)
    else if not (m.decodes payload)
    then (d, failed config_invalid)
    else write_tested m payload (test_config m d payload) d

-- `restore_config`, and whether it has put the backup back.
unfoldable pub restore_config : Machine → Disk → Disk × Bool
restore_config m d = elim d.backup [
  | none ↦ (d, false)
  | some previous ↦ if m.restores then (record d { conf = some previous }, true) else (d, false)
]

abbrev pub some_open : Machine → Chars → List ℕ → Bool
some_open m payload [] = false
some_open m payload (port ∷ ports) = m.opens payload port || some_open m payload ports

abbrev pub no_ports : List ℕ → Bool
no_ports [] = true
no_ports (port ∷ ports) = false

-- `failure` is not empty.
unfoldable pub has_failed : Machine → Chars → Bool
has_failed m payload =
    not (m.active payload) && m.systemd
    || not (no_ports (m.ports payload)) && not (some_open m payload (m.ports payload))

-- The way back, which ends in an error in each case.
unfoldable pub go_back : Machine → Disk → Disk × Result (Unit {0})
unfolding restore_config start_core
go_back m d =
    let (back, restored) = restore_config m d in
    if restored
    then ((start_core m (stop_core back)).0, failed start_failed)
    else (d, failed start_failed)

abbrev pub watch_start : Machine → Chars → Disk × Result (Unit {0}) → Disk × Result (Unit {0})
watch_start m payload (d, failed code) = (d, failed code)
watch_start m payload (d, done _) = if has_failed m payload then go_back m d else (d, done tt)

abbrev pub restart_with :
    Machine → Bool → Chars → Disk × Result (Unit {0}) → Disk × Result (Unit {0})
restart_with m no_restart payload (d, failed code) = (d, failed code)
restart_with m no_restart payload (d, done _) =
    if no_restart then (d, done tt) else watch_start m payload (start_core m (stop_core d))

-- `cmd_apply` once the core is there.
unfoldable pub apply_config : Machine → Bool → Chars → Disk → Disk × Result (Unit {0})
unfolding write_config start_core
apply_config m no_restart payload d = restart_with m no_restart payload (write_config m payload d)

abbrev pub after_install :
    Machine → Bool → Chars → Disk × Result (Installed × Option Chars) → Disk × Result (Unit {0})
after_install m no_restart payload (d, failed code) = (d, failed code)
after_install m no_restart payload (d, done _) = apply_config m no_restart payload d

unfoldable pub cmd_apply :
    Outside → Machine → Order → Bool → Chars → Disk → Disk × Result (Unit {0})
unfolding apply_config
cmd_apply w m r no_restart payload d =
    if is_blank payload
    then (d, failed config_missing)
    else if is_there d.core
    then apply_config m no_restart payload d
    else after_install m no_restart payload (pinned_with_fallback w r d)

-- `cmd_restart`
unfoldable pub cmd_restart : Machine → Disk → Disk × Result (Unit {0})
unfolding start_core
cmd_restart m d =
    if not (is_there d.core)
    then (d, failed not_installed)
    else if not (is_there d.conf)
    then (d, failed config_missing)
    else start_core m (stop_core d)
