-- ===== src/Update/Tests.antt =====
-- The updater at concrete inputs: the tree at commit `a1` is moved to `b2`.
use obhod.Prelude.{◌≡◌, ℕ, ◌∷◌, refl, true, none, some, [], codes, text_key}
use obhod.Chars.{Chars, strip, lstrip, rstrip, begins}
use obhod.Update.{
  World, Tree, passed, failed, raised, error, apply, after_fetch, move_to, check, after_compile,
  sync, after_diff, after_sync, finish, verify, verify_marker, same_commit,
}
use obhod.Update.Safe.{Safe}

abbrev world : World
world = record {
  checkout = true;
  fetches = passed;
  short = λ c. c;
  commit_of = λ c. some c;
  cleans = λ c. true;
  resolve = λ mode. some (codes "b2", "Fix");
  compiles = λ c. passed;
  changes_requirements = λ a b. some true;
  installs = λ c. passed;
  writes = true;
  restarts = some true;
}

abbrev tree : Tree
tree = record { head = codes "a1"; marker = none; restart_count = 0 }

program : Unit {0}
unfolding apply after_fetch move_to check after_compile sync after_diff after_sync finish verify
    verify_marker same_commit strip lstrip rstrip begins text_key
program = tt

moved_head : (apply world "commit" tree).0.head ≡ codes "b2"
unfolding program
moved_head = refl

broken_head : (apply (record world { compiles = λ c. failed }) "commit" tree).0.head ≡ codes "a1"
unfolding program
broken_head = refl

abbrev first_code : Chars → ℕ
first_code [] = 0
first_code (c ∷ cs) = c

-- The new tree is left without a rollback when the compiler does not end in time.
stranded_head : (apply (record world { compiles = λ c. raised }) "commit" tree).0.head ≡ codes "b2"
unfolding program
stranded_head = refl

stranded_answer : (apply (record world { compiles = λ c. raised }) "commit" tree).1 ≡ error
unfolding program
stranded_answer = refl
