-- ===== src/XrayAgent/Tests.antt =====
-- The agent of the core at concrete inputs.
use obhod.Prelude.{
  ℕ, ◌≡◌, refl, Bool, true, false, none, some, [], ◌∷◌, ◌++◌, codes, nat_beq, if◌then◌else◌, not,
}
use obhod.Chars.{Chars, lstrip, rstrip, strip, begins}
use obhod.Chars.Cut.{pieces_from, after, same_chars}
use obhod.XrayAgent.{
  Disk, Geo, Folders, Outside, got, refused, whole, Fetch, failed, done, download_failed, too_old,
  start_failed,
}
use obhod.XrayAgent.Install.{
  Order, put_content, pinned, safe_version, core_numbers, numbers_from, core_too_old, core_version,
  digest_line, fetch_digest, expected_digest, check_archive, install_core, wants_latest, spare,
  fallback, pinned_with_fallback,
}
use obhod.XrayAgent.Apply.{
  Machine, start_core, test_config, backup_config, write_config, restore_config, has_failed,
  go_back, apply_config, cmd_apply,
}
use obhod.XrayAgent.Install.Trusted.{OnlyCore, IsAsked, install_trusted, pin_unreached}
use obhod.XrayAgent.Apply.Kept.{disk, IsReady, applied_or_back, start_failure_kept}

program : Unit {0}
unfolding lstrip rstrip strip begins pieces_from after safe_version core_numbers numbers_from
    core_too_old core_version digest_line fetch_digest expected_digest check_archive install_core
    wants_latest spare fallback pinned_with_fallback start_core test_config backup_config
    write_config restore_config has_failed go_back apply_config cmd_apply put_content
program = tt

abbrev no_geo : Folders
no_geo = record {
  shared = record { ip = none; site = none };
  beside = record { ip = none; site = none };
}

abbrev geo : Geo
geo = record { ip = some (5 ∷ []); site = none }

-- Only the digest file and the archive of one release are there, the archive being the numbers 1 and 2.
abbrev fetch : Chars → Fetch
fetch url =
    if same_chars url (codes "https://a/x.zip")
    then got (1 ∷ 2 ∷ [])
    else if same_chars url (codes "https://a/x.zip.dgst")
    then got (codes "MD5= 11" ++ 10 ∷ codes "SHA2-256= AB12" ++ 13 ∷ 10 ∷ [])
    else refused download_failed

abbrev world : Outside
world = record {
  asset = codes "64";
  download = fetch;
  sha256 = λ s. codes "ab12";
  unpack = λ s. whole s geo;
  version_of = λ s. codes "26.10.31";
  latest = λ cached. codes "v26.11.2";
}

abbrev request : Chars → Order
request version = record {
  version = version;
  url = codes "https://a/x.zip";
  sha256 = [];
  force = false;
  tag = [];
  fallback_url = [];
  fallback_sha256 = [];
}

abbrev empty_disk : Disk
empty_disk = record { core = none; folders = no_geo; conf = none; backup = none; running = none }

first_install : pinned_with_fallback world (request (codes "latest")) empty_disk ≡ (
  record empty_disk { core = some (1 ∷ 2 ∷ []); folders = record { shared = geo; beside = geo } },
  done (record { version = codes "26.10.31"; downloaded = true; digest = codes "ab12" }, none),
)
unfolding program
first_install = refl

old_version :
    (pinned_with_fallback world (request (codes "v26.9.99")) empty_disk).1 ≡ failed too_old
unfolding program
old_version = refl

install_trusted_example :
    OnlyCore
      (IsAsked world (request (codes "latest")))
      empty_disk
      (pinned_with_fallback world (request (codes "latest")) empty_disk).0
install_trusted_example = install_trusted world (request (codes "latest")) empty_disk

pin_unreached_example :
    install_core world pinned [] [] true empty_disk ≡ (empty_disk, failed download_failed)
pin_unreached_example = pin_unreached world empty_disk refl refl

-- A configuration is one number: the core does not accept 9, does not start with 8, and is not healthy
-- with 7.
abbrev is_not : ℕ → Chars → Bool
is_not n [] = false
is_not n (c ∷ cs) = not (nat_beq c n)

abbrev machine : Machine
machine = record {
  systemd = true;
  decodes = λ s. true;
  ports = λ s. 443 ∷ [];
  accepts = λ core s. is_not 9 s;
  starts = λ conf. elim conf [ none ↦ false | some s ↦ is_not 8 s ];
  active = λ s. is_not 7 s;
  opens = λ s port. true;
  writes = true;
  backs_up = true;
  restores = true;
}

abbrev config : ℕ → Chars
config n = n ∷ []

abbrev ready :
    (n : ℕ) → is_not 9 (config n) ≡ true → IsReady machine (config 1) (config 2) (config n)
ready n h = record {
  was = refl;
  filled = refl;
  decoded = refl;
  tested = h;
  writes = refl;
  backs_up = refl;
}

applied_or_back_example :
    cmd_apply world machine
      (request [])
      false
      (config 7)
      (disk no_geo (config 1) (config 2) none none)
    ≡ (disk no_geo (config 1) (config 2) (some (config 2)) (some (config 2)), failed start_failed)
unfolding has_failed
applied_or_back_example =
    applied_or_back world machine (request []) no_geo (config 1) (config 2) (config 7) none none
      (ready 7 refl) refl refl refl

start_failure_kept_example :
    cmd_apply world machine
      (request [])
      false
      (config 8)
      (disk no_geo (config 1) (config 2) none none)
    ≡ (disk no_geo (config 1) (config 8) (some (config 2)) none, failed start_failed)
start_failure_kept_example =
    start_failure_kept world machine (request []) no_geo (config 1) (config 2) (config 8) none none
      (ready 8 refl) refl
