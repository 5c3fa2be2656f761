-- ===== src/SubServer/Cache.antt =====
-- `read_registry` and its CACHE: the file of the subscriptions is decoded again when its stamp has
-- changed. A file is what `os.stat`, `islink` and `json.load` tell of it.
pub mod Fresh
use obhod.Prelude.{
  ℕ, Bool, true, false, ◌&&◌, Option, none, some, List, [], ◌∷◌, if◌then◌else◌, nat_beq,
}
use obhod.Chars.{Chars}
use obhod.Dict.{Dict}
use obhod.SubServer.Registry.{Entry}

pub record Stamp : Type 0 where
  pub mtime_ns : ℕ
  pub size : ℕ
  pub ino : ℕ

abbrev pub Entries : Type 0
Entries = Dict Chars Entry

-- `decoded` is `none` if the file cannot be read or holds no dictionary, and holds `none` if that
-- dictionary has no dictionary of entries.
pub record File : Type 0 where
  pub stamp : Stamp
  pub is_link : Bool
  pub decoded : Option (Option Entries)

pub record Cache : Type 0 where
  pub key : Option Stamp
  pub body : Option Entries

abbrev pub no_cache : Cache
no_cache = record { key = none; body = none }

abbrev pub stamp_beq : Stamp → Stamp → Bool
stamp_beq s t = nat_beq s.mtime_ns t.mtime_ns && nat_beq s.size t.size && nat_beq s.ino t.ino

abbrev pub or_empty : Option Entries → Entries
or_empty none = []
or_empty (some entries) = entries

abbrev pub keep_body : Stamp → Option (Option Entries) → Cache → Cache × Entries
keep_body stamp none c = (c, [])
keep_body stamp (some found) c =
    (record { key = some stamp; body = some (or_empty found) }, or_empty found)

unfoldable pub load : File → Cache → Cache × Entries
load f c = if f.is_link then (c, []) else keep_body f.stamp f.decoded c

-- The body of the cache, if it is that of the stamp.
abbrev pub hit : Stamp → Option Stamp → Option Entries → Option Entries
hit stamp none body = none
hit stamp (some key) none = none
hit stamp (some key) (some body) = if stamp_beq key stamp then some body else none

abbrev pub or_load : File → Cache → Option Entries → Cache × Entries
or_load f c none = load f c
or_load f c (some body) = (c, body)

unfoldable pub read_registry : Option File → Cache → Cache × Entries
unfolding load
read_registry none c = (no_cache, [])
read_registry (some f) c = or_load f c (hit f.stamp c.key c.body)

-- What the requests read in turn.
unfoldable pub reads : List (Option File) → Cache → List Entries
unfolding read_registry
reads [] c = []
reads (f ∷ files) c = let (c', entries) = read_registry f c in entries ∷ reads files c'
