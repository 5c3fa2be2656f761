-- ===== src/Update.antt =====
-- BOT/update.py, the class `Updater`: the tree is reset to a new commit, checked, and reset back if
-- the check fails; a marker is left, which the service reads after its restart. What git, the
-- compiler, pip and systemd answer is a record of its own; a commit is the code points of its name.
pub mod Safe
pub mod Verified
mod Tests
use obhod.Prelude.{
  ℕ, suc, ◌+◌, Bool, true, false, ◌&&◌, ◌||◌, not, Option, none, some, List, [], ◌∷◌, ◌++◌, String,
  take, if◌then◌else◌, elem, text_key,
}
use obhod.Chars.{Chars, strip, begins, is_blank}

-- A command that ends with the code 0, one that ends with another, and one that `_run` turns into an
-- `UpdateError`, since it could not start or did not end in time.
pub data Tried : Type 0 where
  passed failed raised : Tried

pub record World : Type 0 where
  -- The directory is a git checkout, and git answers for it.
  pub checkout : Bool
  pub fetches : Tried
  -- `git rev-parse --short`
  pub short : Chars → Chars
  -- The commit that `git reset --hard` goes to for a name; `none` is a failure, which leaves the head.
  pub commit_of : Chars → Option Chars
  -- Whether `_reset` returns once the head is at the commit: the reset itself, and the `git clean` behind it
  -- with whatever code.
  pub cleans : Chars → Bool
  -- What `_resolve` finds for a mode: the name and the subject, or an error.
  pub resolve : String → Option (Chars × String)
  pub compiles : Chars → Tried
  -- Whether `requirements.txt` differs between two commits, where `none` is an `UpdateError`, and whether
  -- pip installs it.
  pub changes_requirements : Chars → Chars → Option Bool
  pub installs : Chars → Tried
  -- The file of the marker can be written.
  pub writes : Bool
  -- The answer of `_restart`; `none` is an `UpdateError`.
  pub restarts : Option Bool

pub data Step : Type 0 where
  fetched reset_done syntax_passed syntax_failed synced sync_failed restart_requested
        restart_skipped :
      Step

pub data Message : Type 0 where
  no_message fetch_failed up_to_date not_compiling not_installed updated : Message

pub record Marker : Type 0 where
  pub mode : String
  pub source : Chars
  pub target : Chars
  pub subject : String
  pub pending : Bool
  pub healthy : Bool
  pub commit : Chars

pub record UpdateResult : Type 0 where
  pub mode : String
  pub ok : Bool
  pub rollback : Bool
  pub restarted : Bool
  pub message : Message
  pub source : Chars
  pub target : Chars
  pub steps : List Step

-- `UpdateError`, or the result.
pub data Answer : Type 0 where
  error : Answer
  answer : UpdateResult → Answer

pub record Tree : Type 0 where
  pub head : Chars
  pub marker : Option Marker
  pub restart_count : ℕ

abbrev pub modes : List String
modes = "commit" ∷ "release" ∷ []

abbrev pub same_stripped : Chars → Chars → Bool
same_stripped first second =
    if is_blank first || is_blank second then false else begins second first || begins first second

-- Either name begins with the other.
unfoldable pub same_commit : Chars → Chars → Bool
same_commit left right = same_stripped (strip left) (strip right)

abbrev pub result_of : String → Message → Chars → List Step → UpdateResult
result_of mode message source steps = record {
  mode = mode;
  ok = false;
  rollback = false;
  restarted = false;
  message = message;
  source = source;
  target = [];
  steps = steps;
}

abbrev pub at_commit : World → Option Chars → Tree → Tree × Bool
at_commit w none t = (t, false)
at_commit w (some commit) t = (record t { head = commit }, w.cleans commit)

-- `_reset`: the tree, and whether no `UpdateError` is raised. The step stands for the removal of untracked
-- files too.
abbrev pub reset : World → Chars → Tree → Tree × Bool
reset w name t = at_commit w (w.commit_of name) t

-- The reset back to the commit before, and the result that says why.
abbrev pub roll_back : Tree × Bool → UpdateResult → Tree × Answer
roll_back (old, false) r = (old, error)
roll_back (old, true) r =
    (old, answer (record r { rollback = true; steps = r.steps ++ reset_done ∷ [] }))

abbrev pub write_marker : World → Marker → Tree → Tree
write_marker w m t = if w.writes then record t { marker = some m } else t

-- The restart, and the result with what came of it.
abbrev pub request_restart : Option Bool → Tree → UpdateResult → Tree × Answer
request_restart none t r = (t, error)
request_restart (some false) t r =
    (t, answer (record r { steps = r.steps ++ restart_skipped ∷ [] }))
request_restart (some true) t r = (
  record t { restart_count = t.restart_count + 1 },
  answer (record r { restarted = true; steps = r.steps ++ restart_requested ∷ [] }),
)

abbrev pub new_marker : UpdateResult → Chars → String → Marker
new_marker r target subject = record {
  mode = r.mode;
  source = r.source;
  target = target;
  subject = subject;
  pending = true;
  healthy = false;
  commit = [];
}

-- The marker and the restart, after every check has passed.
unfoldable pub finish : World → Chars → String → Tree → UpdateResult → Tree × Answer
finish w target subject t r =
    request_restart w.restarts (write_marker w (new_marker r target subject) t)
      (record r { ok = true; message = updated })

-- What follows the installation of the dependencies.
unfoldable pub after_sync : World → Chars → String → Tried → Tree → UpdateResult → Tree × Answer
after_sync w target subject passed t r =
    finish w target subject t (record r { steps = r.steps ++ synced ∷ [] })
after_sync w target subject failed t r =
    roll_back (reset w r.source t)
      (record r { message = not_installed; steps = r.steps ++ sync_failed ∷ [] })
after_sync w target subject raised t r = (t, error)

-- What follows the comparison of the two commits.
unfoldable pub after_diff :
    World → Chars → String → Option Bool → Tree → UpdateResult → Tree × Answer
after_diff w target subject none t r = (t, error)
after_diff w target subject (some false) t r = finish w target subject t r
after_diff w target subject (some true) t r = after_sync w target subject (w.installs t.head) t r

-- The dependencies, when the list of them has changed.
unfoldable pub sync : World → Chars → String → Tree → UpdateResult → Tree × Answer
sync w target subject t r = after_diff w target subject (w.changes_requirements r.source target) t r

-- What follows the syntax check of the new tree.
unfoldable pub after_compile : World → Chars → String → Tried → Tree → UpdateResult → Tree × Answer
after_compile w target subject passed t r =
    sync w target subject t (record r { steps = r.steps ++ syntax_passed ∷ [] })
after_compile w target subject failed t r =
    roll_back (reset w r.source t)
      (record r { message = not_compiling; steps = r.steps ++ syntax_failed ∷ [] })
after_compile w target subject raised t r = (t, error)

unfoldable pub check : World → Chars → String → Tree → UpdateResult → Tree × Answer
check w target subject t r = after_compile w target subject (w.compiles t.head) t r

abbrev pub check_reset : World → Chars → String → Tree × Bool → UpdateResult → Tree × Answer
check_reset w target subject (new, false) r = (new, error)
check_reset w target subject (new, true) r =
    check w target subject new (record r { steps = r.steps ++ reset_done ∷ [] })

-- What is done with the target, once it is found.
unfoldable pub move_to : World → Option (Chars × String) → Tree → UpdateResult → Tree × Answer
move_to w none t r = (t, error)
move_to w (some (target, subject)) t r =
    let known = record r { target = take 7 target } in
    if same_commit target r.source
    then (t, answer (record known { ok = true; message = up_to_date }))
    else check_reset w target subject (reset w target t) known

-- What follows the fetch.
unfoldable pub after_fetch : World → String → Tried → Tree → Tree × Answer
after_fetch w mode passed t =
    move_to w (w.resolve mode) t (result_of mode no_message (w.short t.head) (fetched ∷ []))
after_fetch w mode failed t =
    (t, answer (result_of mode fetch_failed (w.short t.head) (fetched ∷ [])))
after_fetch w mode raised t = (t, error)

unfoldable pub apply : World → String → Tree → Tree × Answer
apply w mode t =
    if not (elem mode modes) || not w.checkout then (t, error) else after_fetch w mode w.fetches t

-- What `verify` gives back: nothing, the marker, or an `UpdateError`.
pub data Report : Type 0 where
  no_report : Report
  report : Marker → Report
  no_answer : Report

abbrev pub has_passed : Tried → Bool
has_passed passed = true
has_passed failed = false
has_passed raised = false

-- The marker that `verify` leaves, from what it finds.
abbrev pub verified : World → Tree → Marker → Marker
verified w t m = record m {
  pending = false;
  healthy =
      has_passed (w.compiles t.head)
      && (is_blank m.target || same_commit (w.short t.head) m.target);
  commit = w.short t.head;
}

abbrev pub is_raised : Tried → Bool
is_raised passed = false
is_raised failed = false
is_raised raised = true

-- The tree and the report.
unfoldable pub verify_marker : World → Option Marker → Tree → Tree × Report
verify_marker w none t = (t, no_report)
verify_marker w (some m) t =
    if not m.pending || not w.checkout
    then (t, no_report)
    else if is_raised (w.compiles t.head)
    then (t, no_answer)
    else (write_marker w (verified w t m) t, report (verified w t m))

unfoldable pub verify : World → Tree → Tree × Report
verify w t = verify_marker w t.marker t
