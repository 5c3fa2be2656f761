-- ===== src/XrayAgent/Install/Trusted.antt =====
-- Which binaries an installation can leave.
use obhod.Prelude.{
  ◌≡◌, refl, Bool, true, false, not, ◌&&◌, Option, none, some, ◌⊎◌, inl, inr, arith, Bool-cases,
  sym, ap, ◌∙◌, ◌||◌, ◌++◌, [], codes,
}
use obhod.Chars.{Chars, is_blank, begins, strip, lstrip, rstrip}
use obhod.Chars.Cut.{same_chars, same_chars_iff, pieces_from}
use obhod.XrayAgent.{
  Result, failed, done, Disk, Fetch, got, refused, broken, Unpacked, bare, torn, whole, Outside,
  Content, download_failed,
}
use obhod.XrayAgent.Install.{
  Installed, Order, put_content, both, place, check_archive, use_archive, with_digest, install_core,
  expected_digest, url_or_release, core_version, core_too_old, safe_version, drop_v,
  pinned_with_fallback, fallback, spare, resolved, wants_latest, pinned, is_lost, fell_back,
  release_url, fetch_digest, core_numbers, numbers_from,
}

-- What an archive has written; `none` for nothing.
abbrev pub written : Unpacked → Option Content
written bare = none
written (torn c) = some c
written (whole core g) = some (both core g)

-- The content comes from an archive whose digest is the one that is expected for the version, the address
-- and the digest that were asked for; the version is in order and not too old.
pub record IsTrusted (w : Outside) (url sha256 : Chars) (c : Content) : Type 0 where
  pub version : Chars
  pub archive : Chars
  pub safe : safe_version version ≡ true
  pub fresh : core_too_old version ≡ false
  pub expects :
      expected_digest w version (url_or_release w version url) sha256 ≡ done (w.sha256 archive)
  pub named : is_blank (w.sha256 archive) ≡ false
  pub fetched : w.download (url_or_release w version url) ≡ got archive
  pub placed : written (w.unpack archive) ≡ some c

-- The second disk is what is made of the first by writing contents of which `P` holds, one after another:
-- the binary and the data files, and nothing else.
pub data OnlyCore (P : Content → Type 0) (d : Disk) : Disk → Type 0 where
  unchanged : OnlyCore P d d
  wrote : {d' : Disk} (c : Content) → OnlyCore P d d' → P c → OnlyCore P d (put_content c d')

place-OnlyCore :
    (P : Content → Type 0) (w : Outside) (u : Unpacked) (d : Disk)
    → ((c : Content) → written u ≡ some c → P c)
    → OnlyCore P d (place w u d).0
place-OnlyCore P w bare d h = unchanged
place-OnlyCore P w (torn c) d h = wrote c unchanged (h c refl)
place-OnlyCore P w (whole core g) d h = wrote (both core g) unchanged (h (both core g) refl)

use_archive-OnlyCore :
    (P : Content → Type 0) (w : Outside) (expected : Chars) (fetch : Fetch) (d : Disk)
    → ((archive : Chars) (c : Content)
        → fetch ≡ got archive
        → w.sha256 archive ≡ expected
        → is_blank expected ≡ false
        → written (w.unpack archive) ≡ some c
        → P c)
    → OnlyCore P d (use_archive w expected fetch d).0
unfolding check_archive
use_archive-OnlyCore P w expected (refused code) d h = unchanged
use_archive-OnlyCore P w expected broken d h = unchanged
use_archive-OnlyCore P w expected (got archive) d h = elim (Bool-cases (is_blank expected)) [
  | inl blank ↦ rw blank (unchanged)
  | inr named ↦ elim (Bool-cases (same_chars (w.sha256 archive) expected)) [
    | inr other ↦ rw (named, other) (unchanged)
    | inl same ↦
        rw (named, same)
          (place-OnlyCore P w (w.unpack archive) d
            (λ c. h archive c refl ((same_chars_iff (w.sha256 archive) expected).0 same) named))
  ]
]

with_digest-OnlyCore :
    (w : Outside) (version url sha256 : Chars) (answer : Result Chars) (d : Disk)
    → safe_version version ≡ true
    → core_too_old version ≡ false
    → expected_digest w version (url_or_release w version url) sha256 ≡ answer
    → OnlyCore (IsTrusted w url sha256) d (with_digest w (url_or_release w version url) answer d).0
with_digest-OnlyCore w version url sha256 (failed code) d safe fresh e = unchanged
with_digest-OnlyCore w version url sha256 (done expected) d safe fresh e =
    use_archive-OnlyCore (IsTrusted w url sha256) w expected
      (w.download (url_or_release w version url)) d
      (λ archive c fetched same named placed. record {
        version = version;
        archive = archive;
        safe = safe;
        fresh = fresh;
        expects = e ∙ ap done (sym same);
        named = ap is_blank same ∙ named;
        fetched = fetched;
        placed = placed;
      })

pub install_core-OnlyCore :
    (w : Outside) (version url sha256 : Chars) (force : Bool) (d : Disk)
    → OnlyCore (IsTrusted w url sha256) d (install_core w version url sha256 force d).0
unfolding install_core
install_core-OnlyCore w version url sha256 force d =
    let current = core_version w d in
    let there =
      not (is_blank current) && same_chars (drop_v current) (drop_v version) && not force in
    elim (Bool-cases (safe_version version)) [
      | inr bad ↦ rw bad (unchanged)
      | inl safe ↦ elim (Bool-cases (core_too_old version)) [
        | inl old ↦ rw (safe, old) (unchanged)
        | inr fresh ↦ elim (Bool-cases (is_blank w.asset)) [
          | inl none_there ↦ rw (safe, fresh, none_there) (unchanged)
          | inr asset ↦ elim (Bool-cases there) [
            | inl same ↦ rw (safe, fresh, asset, same) (unchanged)
            | inr other ↦
                rw (safe, fresh, asset, other)
                  (with_digest-OnlyCore w version url sha256 _ d safe fresh refl)
          ]
        ]
      ]
    ]

-- What holds of the contents of either request.
abbrev pub IsAsked : Outside → Order → Content → Type 0
IsAsked w r c = IsTrusted w r.url r.sha256 c ⊎ IsTrusted w r.fallback_url r.fallback_sha256 c

asked-OnlyCore :
    (P Q : Content → Type 0) (d d' : Disk)
    → ((c : Content) → P c → Q c)
    → OnlyCore P d d'
    → OnlyCore Q d d'
asked-OnlyCore P Q d _ h unchanged = unchanged
asked-OnlyCore P Q d _ h (wrote c before p) = wrote c (asked-OnlyCore P Q d _ h before) (h c p)

twice-OnlyCore :
    (P : Content → Type 0) (d d' d'' : Disk)
    → OnlyCore P d d'
    → OnlyCore P d' d''
    → OnlyCore P d d''
twice-OnlyCore P d d' _ first unchanged = first
twice-OnlyCore P d d' _ first (wrote c before p) = wrote c (twice-OnlyCore P d d' _ first before) p

fallback_core-OnlyCore :
    (w : Outside) (r : Order) (version : Chars) (d : Disk)
    → OnlyCore (IsAsked w r) d (install_core w version r.fallback_url r.fallback_sha256 true d).0
fallback_core-OnlyCore w r version d =
    asked-OnlyCore (IsTrusted w r.fallback_url r.fallback_sha256) (IsAsked w r) d
      (install_core w version r.fallback_url r.fallback_sha256 true d).0 (λ c t. inr t)
      (install_core-OnlyCore w version r.fallback_url r.fallback_sha256 true d)

fell_back_disk : (version : Chars) (r : Disk × Result Installed) → (fell_back version r).0 ≡ r.0
fell_back_disk version (d, failed code) = refl
fell_back_disk version (d, done i) = refl

spare-OnlyCore :
    (w : Outside) (r : Order) (d : Disk) (before : Disk × Result Installed)
    → OnlyCore (IsAsked w r) d before.0
    → OnlyCore (IsAsked w r) d (spare w r before).0
unfolding spare
spare-OnlyCore w r d (d', done i) h = h
spare-OnlyCore w r d (d', failed code) h =
    let live = w.latest false in
    elim (Bool-cases (not (is_lost code) || is_blank live || same_chars live pinned)) [
      | inl over ↦ rw over h
      | inr tried ↦
          rw
            (
              tried,
              fell_back_disk live (install_core w live r.fallback_url r.fallback_sha256 true d'),
            )
            (twice-OnlyCore (IsAsked w r) d d' _ h (fallback_core-OnlyCore w r live d'))
    ]

fallback-OnlyCore :
    (w : Outside) (r : Order) (d : Disk) (before : Disk × Result Installed)
    → OnlyCore (IsAsked w r) d before.0
    → OnlyCore (IsAsked w r) d (fallback w r before).0
unfolding fallback
fallback-OnlyCore w r d (d', done i) h = h
fallback-OnlyCore w r d (d', failed code) h =
    elim (Bool-cases (is_lost code && wants_latest r.version)) [
      | inr over ↦ rw over h
      | inl tried ↦ rw tried (
          spare-OnlyCore w r d (install_core w pinned r.fallback_url r.fallback_sha256 true d')
            (twice-OnlyCore (IsAsked w r) d d' _ h (fallback_core-OnlyCore w r pinned d')))
    ]

-- Whatever an installation does, with its fallbacks and its errors, it changes nothing but the binary and
-- the files geoip.dat and geosite.dat of the two folders, and what it writes there comes from archives that
-- were downloaded for one of the two requests, each with the digest that is expected there, for a
-- version that is in order and not too old.
pub install_trusted :
    (w : Outside) (r : Order) (d : Disk) → OnlyCore (IsAsked w r) d (pinned_with_fallback w r d).0
unfolding pinned_with_fallback
install_trusted w r d =
    fallback-OnlyCore w r d (install_core w (resolved w r) r.url r.sha256 r.force d) (
      asked-OnlyCore (IsTrusted w r.url r.sha256) (IsAsked w r) d
        (install_core w (resolved w r) r.url r.sha256 r.force d).0 (λ c t. inl t)
        (install_core-OnlyCore w (resolved w r) r.url r.sha256 r.force d))

pinned_expects :
    (w : Outside)
    → w.download (release_url pinned w.asset ++ codes ".dgst") ≡ refused download_failed
    → expected_digest w pinned (release_url pinned w.asset) [] ≡ failed download_failed
unfolding expected_digest fetch_digest begins strip lstrip rstrip
pinned_expects w lost = rw lost refl

-- A forced installation of the pinned version, on a known machine and with neither an address nor a
-- digest given, fails and changes nothing when the file with the published digest cannot be downloaded,
-- whatever the archive is: the pinned digest is not used.
pub pin_unreached :
    (w : Outside) (d : Disk)
    → is_blank w.asset ≡ false
    → w.download (release_url pinned w.asset ++ codes ".dgst") ≡ refused download_failed
    → install_core w pinned [] [] true d ≡ (d, failed download_failed)
unfolding install_core safe_version core_too_old core_numbers numbers_from pieces_from
pin_unreached w d asset lost =
    let there : (not (is_blank (core_version w d))
          && same_chars (drop_v (core_version w d)) (drop_v pinned)
          && false)
        ≡ false =
      ground arith in
    rw (asset, there, pinned_expects w lost) refl
