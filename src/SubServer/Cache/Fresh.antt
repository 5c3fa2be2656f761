-- ===== src/SubServer/Cache/Fresh.antt =====
-- The cache does not show: every request reads what it would read without it.
use obhod.Prelude.{
  ◌≡◌, refl, Bool, true, Option, none, some, List, [], ◌∷◌, arith, All, Option-cases, Bool-cases,
  inl, inr, sym, ap, ◌∙◌, map, nat_beq_iff, if◌then◌else◌, ◌⊎◌, subst,
}
use obhod.SubServer.Cache.{
  Stamp, Entries, File, Cache, no_cache, stamp_beq, or_empty, load, hit, read_registry, reads,
}

-- A read without the cache.
unfoldable pub fresh : Option File → Entries
fresh f = (read_registry f no_cache).1

-- The file has its stamp from the disk, which a stamp determines.
abbrev pub IsStamped : (Stamp → File) → Option File → Type 0
IsStamped disk none = Unit {0}
IsStamped disk (some f) = f ≡ disk f.stamp

stamp_eq : (s t : Stamp) → stamp_beq s t ≡ true → s ≡ t
stamp_eq s t h =
    ground
      (arith, nat_beq_iff s.mtime_ns t.mtime_ns, nat_beq_iff s.size t.size, nat_beq_iff s.ino t.ino)

-- The body of the cache is what the file of its stamp gives.
abbrev IsFaithful : (Stamp → File) → Cache → Type 0
IsFaithful disk c =
    (s : Stamp) (b : Entries) → hit s c.key c.body ≡ some b → (load (disk s) no_cache).1 ≡ b

abbrev stored : File → Cache
stored f = record { key = some f.stamp; body = some (load f no_cache).1 }

-- A load gives what it gives without the cache, and leaves the cache or stores that.
load_cases :
    (f : File) (c : Cache)
    → ((load f c).1 ≡ (load f no_cache).1) × (((load f c).0 ≡ c) ⊎ ((load f c).0 ≡ stored f))
unfolding load
load_cases f c = elim (Bool-cases f.is_link) [
  | inl link ↦ rw link (refl, inl refl)
  | inr plain ↦ elim (Option-cases f.decoded) [
    | inl broken ↦ rw (plain, broken) (refl, inl refl)
    | inr (found, there) ↦ rw (plain, there) (refl, inr refl)
  ]
]

stored-IsFaithful : (disk : Stamp → File) (f : File) → f ≡ disk f.stamp → IsFaithful disk (stored f)
stored-IsFaithful disk f e s b h = elim (Bool-cases (stamp_beq f.stamp s)) [
  | inr other ↦ absurd (
      let wrong : none ≡ some b =
        sym (ap (λ (t : Bool). if t then some (load f no_cache).1 else none) other) ∙ h in
      cc)
  | inl same ↦
      let body : (load f no_cache).1 ≡ b =
        ap or_empty
          (sym (ap (λ (t : Bool). if t then some (load f no_cache).1 else none) same) ∙ h) in
      ap (λ (g : File). (load g no_cache).1) (ap disk (sym (stamp_eq f.stamp s same)) ∙ sym e)
      ∙ body
]

load-IsFaithful :
    (disk : Stamp → File) (f : File) (c : Cache)
    → f ≡ disk f.stamp
    → IsFaithful disk c
    → IsFaithful disk (load f c).0
load-IsFaithful disk f c e h = elim (load_cases f c).1 [
  | inl same ↦ subst (IsFaithful disk) (sym same) h
  | inr new ↦ subst (IsFaithful disk) (sym new) (stored-IsFaithful disk f e)
]

read_registry-fresh :
    (disk : Stamp → File) (f : Option File) (c : Cache)
    → IsStamped disk f
    → IsFaithful disk c
    → ((read_registry f c).1 ≡ fresh f) × IsFaithful disk (read_registry f c).0
unfolding read_registry fresh
read_registry-fresh disk none c e h =
    (refl, λ s b wrong. absurd (let no : none ≡ some b = wrong in cc))
read_registry-fresh disk (some f) c e h = elim (Option-cases (hit f.stamp c.key c.body)) [
  | inl miss ↦ rw miss ((load_cases f c).0, load-IsFaithful disk f c e h)
  | inr (b, found) ↦
      rw found (sym (ap (λ (g : File). (load g no_cache).1) e ∙ h f.stamp b found), h)
]

reads_faithful :
    (disk : Stamp → File) (files : List (Option File)) (c : Cache)
    → All (IsStamped disk) files
    → IsFaithful disk c
    → reads files c ≡ map fresh files
unfolding reads
reads_faithful disk [] c all h = refl
reads_faithful disk (f ∷ files) c (e, all) h =
    let (same, kept) = read_registry-fresh disk f c e h in
    let later = reads_faithful disk files (read_registry f c).0 all kept in rw (same, later) refl

-- If the stamp of a file determines the file, every request reads what it would read without the cache,
-- whatever files are there, are gone or have changed in between.
pub reads_fresh :
    (disk : Stamp → File) (files : List (Option File))
    → All (IsStamped disk) files
    → reads files no_cache ≡ map fresh files
reads_fresh disk files all =
    reads_faithful disk files no_cache all
      (λ s b wrong. absurd (let no : none ≡ some b = wrong in cc))
