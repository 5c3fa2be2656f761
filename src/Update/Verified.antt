-- ===== src/Update/Verified.antt =====
-- What the service reports after an update and the restart.
use obhod.Prelude.{◌≡◌, Bool, ◌&&◌, ◌||◌, some}
use obhod.Chars.{Chars, is_blank}
use obhod.Update.{World, Tree, Marker, no_report, report, has_passed, verify, same_commit}

-- The head compiles, and its name and the target name one commit.
abbrev pub is_good : World → Chars → Chars → Bool
is_good w head target =
    has_passed (w.compiles head) && (is_blank target || same_commit (w.short head) target)

-- The report comes once, and leaves the tree alone but for the marker.
pub record IsReported (w : World) (t : Tree) (target : Chars) : Type 0 where
  pub marker : Marker
  pub names_target : marker.target ≡ target
  pub first : verify w t ≡ (record t { marker = some marker }, report marker)
  pub verdict : marker.healthy ≡ is_good w t.head target
  pub second : verify w (verify w t).0 ≡ ((verify w t).0, no_report)
