-- ===== src/Update/Safe.antt =====
-- Every way through `apply` ends at the commit before, at one that was checked, or, where a command raised,
-- at the new commit with an error.
use obhod.Prelude.{◌≡◌, ◌⊎◌, Bool, true, false, Option, none, some, text_key, if◌then◌else◌}
use obhod.Chars.{Chars}
use obhod.Update.{passed, raised, World, Tree, Marker, Answer, error, answer}

abbrev pub is_ok : Answer → Bool
is_ok error = false
is_ok (answer r) = r.ok

abbrev pub is_some : Option Bool → Bool
is_some none = false
is_some (some b) = true

-- Pip had nothing to do, or did it.
abbrev pub IsInstalled : World → Chars → Chars → Chars → Type 0
IsInstalled w source target head =
    (w.changes_requirements source target ≡ some false) ⊎ (w.installs head ≡ passed)

-- The tree stands at a commit that was asked for and checked, the marker says so if it can be
-- written, and the answer is a success, if the restart raised no error.
pub record Moved (w : World) (old : Option Marker) (source : Chars) (r : Tree × Answer)
    : Type 0 where
  pub target : Chars
  pub there : w.commit_of target ≡ some r.0.head
  pub checked : w.compiles r.0.head ≡ passed
  pub installed : IsInstalled w source target r.0.head
  pub succeeded : is_ok r.1 ≡ is_some w.restarts
  pub marker : Marker
  pub names_target : marker.target ≡ target
  pub is_pending : marker.pending ≡ true
  pub marked : r.0.marker ≡ (if w.writes then some marker else old)

-- The reset that has reached the new commit, or a command that is run there before the marker, raises.
abbrev pub IsRaised : World → Chars → Chars → Chars → Type 0
IsRaised w source target head =
    (w.cleans head ≡ false)
    ⊎ (w.compiles head ≡ raised)
    ⊎ (w.changes_requirements source target ≡ none)
    ⊎ (w.installs head ≡ raised)

-- The update ended with an error at the new commit, and nothing but the head has changed.
pub record Stranded (w : World) (t : Tree) (source : Chars) (r : Tree × Answer) : Type 0 where
  pub target : Chars
  pub there : w.commit_of target ≡ some r.0.head
  pub stays : r.0 ≡ record t { head = r.0.head }
  pub erred : r.1 ≡ error
  pub reason : IsRaised w source target r.0.head

abbrev pub Safe : World → Tree → Chars → Tree × Answer → Type 0
Safe w t source r = (r.0 ≡ t) ⊎ Moved w t.marker source r ⊎ Stranded w t source r
