-- ===== src/XrayAgent.antt =====
-- Storage/remote/xray_agent.py: the script that installs the core and applies its configuration on the
-- server. A text and the content of a file are lists of numbers: code points and bytes.
pub mod Install
pub mod Apply
mod Tests
use obhod.Prelude.{Bool, Option, String, List, [], ◌∷◌, none, some}
use obhod.Chars.{Chars}

pub data Code : Type 0 where
  bad_arg too_old unsupported_arch download_failed digest_missing digest_mismatch unpack_failed
        start_failed config_missing config_invalid not_installed internal :
      Code

pub data Result {ℓ} (A : Type ℓ) : Type ℓ where
  failed : Code → Result A
  done : A → Result A

-- The files geoip.dat and geosite.dat of one folder, or of an archive.
pub record Geo : Type 0 where
  pub ip : Option Chars
  pub site : Option Chars

-- Those of the shared folder and those beside the binary.
pub record Folders : Type 0 where
  pub shared : Geo
  pub beside : Geo

-- What the agent keeps: the binary, the data files, the configuration, its backup, and the configuration
-- that the core runs with.
pub record Disk : Type 0 where
  pub core : Option Chars
  pub folders : Folders
  pub conf : Option Chars
  pub backup : Option Chars
  pub running : Option Chars

-- What `download` does: the content, the error of the script that it raises, or another error of the
-- system.
pub data Fetch : Type 0 where
  got : Chars → Fetch
  refused : Code → Fetch
  broken : Fetch

-- What is written from an archive: the binary, and data files in either folder.
pub record Content : Type 0 where
  pub core : Chars
  pub folders : Folders

-- What the archive gives: nothing, what was written when an error of the system ended the unpacking, or the
-- binary and the data files.
pub data Unpacked : Type 0 where
  bare : Unpacked
  torn : Content → Unpacked
  whole : Chars → Geo → Unpacked

-- The network, the archives and the machine: `asset` is what `asset_for(machine())` gives, `version_of`
-- what a binary answers, and `latest` what `latest_tag` gives with its cache and without.
pub record Outside : Type 0 where
  pub asset : Chars
  pub download : Chars → Fetch
  pub sha256 : Chars → Chars
  pub unpack : Chars → Unpacked
  pub version_of : Chars → Chars
  pub latest : Bool → Chars
