-- ===== src/XrayAgent/Install.antt =====
-- `install_core` and `pinned_with_fallback`: the core comes from an archive with the digest that is
-- expected, and an old release is refused. A version is in ASCII.
pub mod Trusted
use obhod.Prelude.{
  ℕ, zero, suc, ◌+◌, ◌-◌, ◌*◌, Bool, true, false, ◌&&◌, ◌||◌, not, Option, none, some, List, [],
  ◌∷◌, ◌++◌, String, if◌then◌else◌, leb, ltb, nat_beq, codes, is_digit, length, take,
}
use obhod.Chars.{Chars, is_blank, strip, begins}
use obhod.Chars.Cut.{among, every, lower, same_chars, after, pieces}
use obhod.Dict.{Dict}
use obhod.XrayAgent.{
  Code, bad_arg, too_old, unsupported_arch, download_failed, digest_missing, digest_mismatch,
  unpack_failed, start_failed, Result, failed, done, Disk, Fetch, got, refused, broken, Unpacked,
  bare, torn, whole, Outside, Content, Geo,
}

abbrev pub pinned : Chars
pinned = codes "v26.10.31"

abbrev pub digests : List (String × String)
digests =
    ("64", "e4bd9119f50ae7c41658b1abd0679ae06f98bd864a2907ff33f2f2cf7081b214")
    ∷ ("arm64-v8a", "1811c8f1da0c3b6dc707ebaf1c8390e987ba39859a8f0a7aadd8526157f2ec8d")
    ∷ ("arm32-v7a", "2387f55239ee7799fd67d5382e79f589c1da07a97d993e86b058f2290b8e456b")
    ∷ ("arm32-v6", "28c27bbd262bcc751e2e07115f47ce50d79611289e19e8b499b3065497b0e1ec")
    ∷ ("32", "4064a12c7712f28f0a85082be3564c088f7861f2220ddb5e4de409c91837511d")
    ∷ ("s390x", "c83452b49eb7c9064ca9afd68d5e0afaa820d0eae25e763306e68665bdc800c4")
    ∷ ("riscv64", "1159825b0d448fc7f56ca6f12e4872de2bf80a6639964819e0827fa0ad1283e8")
    ∷ []

-- `DIGESTS.get(asset, "")`
abbrev pub digest_in : Chars → List (String × String) → Chars
digest_in asset [] = []
digest_in asset ((name, digest) ∷ table) =
    if same_chars asset (codes name) then codes digest else digest_in asset table

abbrev pub is_number : Chars → Bool
is_number s = not (is_blank s) && every is_digit s

abbrev pub three_numbers : List Chars → Bool
three_numbers [] = false
three_numbers (a ∷ []) = false
three_numbers (a ∷ b ∷ []) = false
three_numbers (a ∷ b ∷ c ∷ []) = is_number a && is_number b && is_number c
three_numbers (a ∷ b ∷ c ∷ d ∷ parts) = false

-- `SAFE_VERSION.match`, for a version without a line end.
unfoldable pub safe_version : Chars → Bool
safe_version [] = false
safe_version (c ∷ cs) = nat_beq c 118 && three_numbers (pieces 46 cs)

-- `re.findall(r"[0-9]+", tag)`, with the number that has begun.
unfoldable pub numbers_from : Option ℕ → Chars → List ℕ
numbers_from none [] = []
numbers_from (some n) [] = n ∷ []
numbers_from none (c ∷ cs) = numbers_from (if is_digit c then some (c - 48) else none) cs
numbers_from (some n) (c ∷ cs) =
    let rest = numbers_from (if is_digit c then some (n * 10 + (c - 48)) else none) cs in
    if is_digit c then rest else n ∷ rest

unfoldable pub core_numbers : Chars → List ℕ
unfolding numbers_from
core_numbers tag = take 3 (numbers_from none tag)

-- The order of tuples, against `MIN_CORE`.
unfoldable pub core_too_old : Chars → Bool
core_too_old tag = elim (core_numbers tag) [
  | [] ↦ false
  | a ∷ rest ↦ elim rest [
    | [] ↦ false
    | b ∷ last ↦ elim last [
      | [] ↦ false
      | c ∷ _ ↦ ltb a 26 || nat_beq a 26 && (ltb b 10 || nat_beq b 10 && ltb c 31)
    ]
  ]
]

abbrev pub drop_v : Chars → Chars
drop_v [] = []
drop_v (c ∷ cs) = if nat_beq c 118 then drop_v cs else c ∷ cs

unfoldable pub core_version : Outside → Disk → Chars
core_version w d = elim d.core [ none ↦ [] | some core ↦ w.version_of core ]

-- The digest on the first line of the file that names one.
unfoldable pub digest_line : List Chars → Chars
digest_line [] = []
digest_line (line ∷ lines) =
    let token = strip line in
    let rest = digest_line lines in
    if begins (codes "sha2-256=") (lower token) then lower (strip (after 61 token)) else rest

abbrev pub release_url : Chars → Chars → Chars
release_url version asset =
    codes "https://github.com/XTLS/Xray-core/releases/download/"
    ++ version
    ++ codes "/Xray-linux-"
    ++ asset
    ++ codes ".zip"

abbrev pub read_digest : Fetch → Result Chars
read_digest (got body) = done (digest_line (pieces 10 body))
read_digest (refused code) = failed code
read_digest broken = done []

unfoldable pub fetch_digest : Outside → Chars → Chars → Result Chars
unfolding digest_line
fetch_digest w version url =
    let base = if is_blank url then release_url version w.asset else url in
    read_digest (w.download (base ++ codes ".dgst"))

abbrev pub or_pinned : Outside → Chars → Result Chars → Result Chars
or_pinned w version (failed code) = failed code
or_pinned w version (done found) =
    done (if is_blank found && same_chars version pinned then digest_in w.asset digests else found)

-- The digest that the archive must have; `url` is not empty.
unfoldable pub expected_digest : Outside → Chars → Chars → Chars → Result Chars
expected_digest w version url sha256 =
    let given = lower (strip sha256) in
    let asked = if begins (codes "file://") url then [] else url in
    if is_blank given then or_pinned w version (fetch_digest w version asked) else done given

pub record Installed : Type 0 where
  pub version : Chars
  pub downloaded : Bool
  pub digest : Chars

abbrev pub over : Option Chars → Option Chars → Option Chars
over none before = before
over (some file) before = some file

-- The data files that are there replace those of before.
abbrev pub over_geo : Geo → Geo → Geo
over_geo g before = record { ip = over g.ip before.ip; site = over g.site before.site }

unfoldable pub put_content : Content → Disk → Disk
put_content c d = record d {
  core = some c.core;
  folders = record {
    shared = over_geo c.folders.shared d.folders.shared;
    beside = over_geo c.folders.beside d.folders.beside;
  };
}

-- Each data file of the archive is written into both folders.
abbrev pub both : Chars → Geo → Content
both core g = record { core = core; folders = record { shared = g; beside = g } }

-- The binary is in place: it must answer.
abbrev pub verify_core : Outside → Chars → Disk → Disk × Result Installed
verify_core w core d = (
  d,
  if is_blank (w.version_of core)
      then failed start_failed
      else done (record { version = w.version_of core; downloaded = true; digest = w.sha256 core }),
)

abbrev pub place : Outside → Unpacked → Disk → Disk × Result Installed
place w bare d = (d, failed unpack_failed)
place w (torn c) d = (put_content c d, failed unpack_failed)
place w (whole core g) d = verify_core w core (put_content (both core g) d)

-- The archive has come; its digest decides.
unfoldable pub check_archive : Outside → Chars → Chars → Disk → Disk × Result Installed
check_archive w expected archive d =
    if is_blank expected
    then (d, failed digest_missing)
    else if not (same_chars (w.sha256 archive) expected)
    then (d, failed digest_mismatch)
    else place w (w.unpack archive) d

abbrev pub use_archive : Outside → Chars → Fetch → Disk → Disk × Result Installed
use_archive w expected (got archive) d = check_archive w expected archive d
use_archive w expected (refused code) d = (d, failed code)
use_archive w expected broken d = (d, failed download_failed)

abbrev pub with_digest : Outside → Chars → Result Chars → Disk → Disk × Result Installed
with_digest w url (failed code) d = (d, failed code)
with_digest w url (done expected) d = use_archive w expected (w.download url) d

abbrev pub url_or_release : Outside → Chars → Chars → Chars
url_or_release w version url = if is_blank url then release_url version w.asset else url

abbrev pub core_digest : Outside → Option Chars → Chars
core_digest w none = []
core_digest w (some core) = w.sha256 core

unfoldable pub install_core :
    Outside → Chars → Chars → Chars → Bool → Disk → Disk × Result Installed
install_core w version url sha256 force d =
    let current = core_version w d in
    let from = url_or_release w version url in
    if not (safe_version version)
    then (d, failed bad_arg)
    else if core_too_old version
    then (d, failed too_old)
    else if is_blank w.asset
    then (d, failed unsupported_arch)
    else if not (is_blank current) && same_chars (drop_v current) (drop_v version) && not force
    then (d, done (record { version = current; downloaded = false; digest = core_digest w d.core }))
    else with_digest w from (expected_digest w version from sha256) d

unfoldable pub wants_latest : Chars → Bool
wants_latest version = among (lower (strip version)) ("latest" ∷ "auto" ∷ "" ∷ [])

-- `None`, or the version that is used in place of the latest one.
pub record Order : Type 0 where
  pub version : Chars
  pub url : Chars
  pub sha256 : Chars
  pub force : Bool
  pub tag : Chars
  pub fallback_url : Chars
  pub fallback_sha256 : Chars

abbrev pub first_filled : Chars → Chars → Chars
first_filled s t = if is_blank s then t else s

abbrev pub resolved : Outside → Order → Chars
resolved w r =
    if wants_latest r.version
    then first_filled (strip r.tag) (first_filled (w.latest true) pinned)
    else r.version

abbrev pub fell_back : Chars → Disk × Result Installed → Disk × Result (Installed × Option Chars)
fell_back version (d, failed code) = (d, failed code)
fell_back version (d, done i) = (d, done (i, some version))

abbrev pub is_lost : Code → Bool
is_lost download_failed = true
is_lost code = false

-- The release that the network has, if the pinned one is gone as well.
unfoldable pub spare :
    Outside → Order → Disk × Result Installed → Disk × Result (Installed × Option Chars)
spare w r (d, failed code) =
    let live = w.latest false in
    if not (is_lost code) || is_blank live || same_chars live pinned
    then (d, failed code)
    else fell_back live (install_core w live r.fallback_url r.fallback_sha256 true d)
spare w r (d, done i) = (d, done (i, some pinned))

unfoldable pub fallback :
    Outside → Order → Disk × Result Installed → Disk × Result (Installed × Option Chars)
unfolding spare
fallback w r (d, failed code) =
    if is_lost code && wants_latest r.version
    then spare w r (install_core w pinned r.fallback_url r.fallback_sha256 true d)
    else (d, failed code)
fallback w r (d, done i) = (d, done (i, none))

unfoldable pub pinned_with_fallback :
    Outside → Order → Disk → Disk × Result (Installed × Option Chars)
unfolding fallback
pinned_with_fallback w r d = fallback w r (install_core w (resolved w r) r.url r.sha256 r.force d)
