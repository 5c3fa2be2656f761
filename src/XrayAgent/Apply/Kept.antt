-- ===== src/XrayAgent/Apply/Kept.antt =====
-- What an attempt to apply a configuration leaves, when it succeeds and when it fails.
use obhod.Prelude.{
  ◌≡◌, refl, Bool, true, false, not, ◌||◌, Option, none, some, inl, inr, arith, Bool-cases, ap, ◌∙◌,
  if◌then◌else◌,
}
use obhod.Chars.{Chars, is_blank}
use obhod.XrayAgent.{start_failed, Result, failed, done, Disk, Folders, Outside}
use obhod.XrayAgent.Install.{Order}
use obhod.XrayAgent.Apply.{
  Machine, start_core, test_config, backup_config, write_config, restore_config, has_failed,
  go_back, watch_start, restart_with, apply_config, cmd_apply,
}

-- A disk with a core and a configuration.
abbrev pub disk : Folders → Chars → Chars → Option Chars → Option Chars → Disk
disk folders core conf backup running = record {
  core = some core;
  folders = folders;
  conf = some conf;
  backup = backup;
  running = running;
}

-- The new configuration passes every test before the restart, and the files can be written.
pub record IsReady (m : Machine) (core previous payload : Chars) : Type 0 where
  pub was : is_blank previous ≡ false
  pub filled : is_blank payload ≡ false
  pub decoded : m.decodes payload ≡ true
  pub tested : m.accepts core payload ≡ true
  pub writes : m.writes ≡ true
  pub backs_up : m.backs_up ≡ true

write_ready :
    (m : Machine) (folders : Folders) (core previous payload : Chars)
    (backup running : Option Chars)
    → IsReady m core previous payload
    → write_config m payload (disk folders core previous backup running)
      ≡ (disk folders core payload (some previous) running, done tt)
unfolding write_config test_config backup_config
write_ready m folders core previous payload backup running i =
    simp (i.was, i.filled, i.decoded, i.tested, i.writes, i.backs_up) refl

apply_ready :
    (w : Outside) (m : Machine) (r : Order) (folders : Folders) (core previous payload : Chars)
    (backup running : Option Chars)
    → IsReady m core previous payload
    → cmd_apply w m r false payload (disk folders core previous backup running)
      ≡ watch_start m payload (start_core m (disk folders core payload (some previous) none))
unfolding cmd_apply apply_config
apply_ready w m r folders core previous payload backup running i =
    simp i.filled refl
    ∙ ap (restart_with m false payload)
        (write_ready m folders core previous payload backup running i)

started :
    (m : Machine) (folders : Folders) (core conf : Chars) (backup running : Option Chars)
    → m.starts (some conf) ≡ true
    → start_core m (disk folders core conf backup running)
      ≡ (disk folders core conf backup (some conf), done tt)
unfolding start_core
started m folders core conf backup running starts = simp starts refl

-- A configuration that is ready, with which the core can be started, is applied if the service is healthy
-- with it. Otherwise the attempt fails, the configuration of before stands on the disk again, and the core
-- runs with that one, if it can be started with it and the file can be written.
pub applied_or_back :
    (w : Outside) (m : Machine) (r : Order) (folders : Folders) (core previous payload : Chars)
    (backup running : Option Chars)
    → IsReady m core previous payload
    → m.starts (some payload) ≡ true
    → m.starts (some previous) ≡ true
    → m.restores ≡ true
    → cmd_apply w m r false payload (disk folders core previous backup running) ≡ (
        if has_failed m payload
        then (disk folders core previous (some previous) (some previous), failed start_failed)
        else (disk folders core payload (some previous) (some payload), done tt))
unfolding go_back restore_config
applied_or_back w m r folders core previous payload backup running i starts back restores =
    apply_ready w m r folders core previous payload backup running i
    ∙ ap (watch_start m payload) (started m folders core payload (some previous) none starts)
    ∙ elim (Bool-cases (has_failed m payload)) [
      | inr healthy ↦ simp healthy refl
      | inl ill ↦
          simp (ill, restores)
            (ap (λ (x : Disk × Result (Unit {0})). (x.0, failed start_failed))
              (started m folders core previous (some previous) none back))
    ]

-- On a server that has a core, a configuration that is empty, that does not decode or that the core does
-- not accept changes nothing on the disk, and the core runs on.
pub refused_kept :
    (w : Outside) (m : Machine) (r : Order) (no_restart : Bool) (core payload : Chars) (d : Disk)
    → d.core ≡ some core
    → (is_blank payload || not (m.decodes payload) || not (m.accepts core payload)) ≡ true
    → (cmd_apply w m r no_restart payload d).0 ≡ d
unfolding cmd_apply apply_config write_config test_config
refused_kept w m r no_restart core payload d there bad = elim (Bool-cases (is_blank payload)) [
  | inl blank ↦ rw blank refl
  | inr filled ↦ elim (Bool-cases (m.decodes payload)) [
    | inr wrong ↦ simp (filled, wrong, there) refl
    | inl decoded ↦ elim (Bool-cases (m.accepts core payload)) [
      | inr rejected ↦ simp (filled, decoded, there, rejected) refl
      | inl tested ↦ absurd (ground arith)
    ]
  ]
]

-- A failed start is not undone: where the core cannot be started with a configuration that is ready, the
-- attempt fails with that configuration on the disk and no core running, whether the one of before could
-- be put back or not.
pub start_failure_kept :
    (w : Outside) (m : Machine) (r : Order) (folders : Folders) (core previous payload : Chars)
    (backup running : Option Chars)
    → IsReady m core previous payload
    → m.starts (some payload) ≡ false
    → cmd_apply w m r false payload (disk folders core previous backup running)
      ≡ (disk folders core payload (some previous) none, failed start_failed)
unfolding start_core
start_failure_kept w m r folders core previous payload backup running i fails =
    apply_ready w m r folders core previous payload backup running i ∙ simp fails refl
