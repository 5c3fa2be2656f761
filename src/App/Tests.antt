-- ===== src/App/Tests.antt =====
-- The front end at concrete inputs.
use obhod.Prelude.{
  ℕ, ◌≡◌, refl, true, false, List, [], ◌∷◌, codes, pos, negsuc, int_text, digits_text, text_key,
  pair_key, int_key, ◌⊎◌, arith,
}
use obhod.Chars.{Chars, lstrip, rstrip, strip, begins}
use obhod.Chars.Cut.{before, chars_key}
use obhod.Dict.{get, put, prune, select, pop, pops, sort_by, insert_by, drop_oldest}
use obhod.Limiter.{allow, bucket_after, touch, bucket_of, sweep, is_stale}
use obhod.App.Front.{
  Config, Front, Event, denied, guard_admin, claim, deny, allowed, quiet, busy_begin, busy_end,
  claim_open, private_chat, is_own, owner, is_busy,
}
use obhod.App.Clicks.{
  started, refused, busy, hush, start, take_flag, spend, navigate, clicked, if_passed, on_callback,
  first_time, is_expensive, is_navigation, is_confirm, action_key, slow_action, handle_message,
  if_heard, heard, held, handle_inline, finish, end_action, command,
}
use obhod.App.Front.Owner.{IsClaim, passed_is_owner}
use obhod.App.Clicks.Exclusive.{click, message, ended, taken_in, takes, pass, one_at_a_time, Moment}

program : Unit {0}
unfolding int_text digits_text text_key pair_key int_key lstrip rstrip strip begins before chars_key
    get put prune select pop pops sort_by insert_by drop_oldest allow bucket_after touch bucket_of
    sweep is_stale guard_admin claim deny allowed quiet busy_begin busy_end claim_open private_chat
    is_own hush start take_flag spend navigate clicked if_passed on_callback first_time is_expensive
    is_navigation is_confirm action_key slow_action handle_message if_heard heard held handle_inline
    finish end_action taken_in pass
program = tt

minus_205 : int_text (negsuc 204) ≡ "-205"
unfolding program
minus_205 = refl

abbrev cfg : Config
cfg = record {
  second = 1;
  admin_id = pos 0;
  bot_token = codes "99:abc";
  message_limit = 60;
  callback_limit = 90;
  expensive_limit = 30;
}

abbrev unclaimed : Front
unclaimed = record {
  admin_id = pos 0;
  started_at = 1000;
  limiter = record { limit = 40; window = 60; max_entries = 1024; buckets = [] };
  busy = false;
  busy_until = 0;
  quiet_marks = [];
  recent = [];
}

abbrev owned : Front
owned = record unclaimed { admin_id = pos 7 }

abbrev event : ℕ → Chars → Event
event who action = record {
  from_id = pos who;
  chat_id = pos who;
  outgoing = false;
  text = codes " /start";
  action = action;
}

late_claim : (guard_admin cfg 1901 (event 7 []) unclaimed).1 ≡ denied true
unfolding program
late_claim = refl

own_message : (guard_admin cfg 1100 (event 99 []) unclaimed).0 ≡ unclaimed
unfolding program
own_message = refl

heard_command : (handle_message cfg (event 7 []) 1100 owned).1 ≡ command
unfolding program
heard_command = refl

-- The route of the core is a navigation, and takes the flag all the same.
core_route : (on_callback cfg (event 7 (codes "xr:core")) 1100 owned).1 ≡ started true true
unfolding program
core_route = refl

-- Two clicks on an action within a second.
twice :
    (on_callback cfg
      (event 7 (codes "fb:install"))
      1101
      (on_callback cfg (event 7 (codes "xr:core")) 1100 owned).0).1
    ≡ refused busy true
unfolding program
twice = refl

passed_is_owner_example :
    (pos 7 ≡ owner cfg (guard_admin cfg 1900 (event 7 []) unclaimed).0)
    × ((owner cfg (guard_admin cfg 1900 (event 7 []) unclaimed).0 ≡ owner cfg unclaimed)
        ⊎ IsClaim cfg 1900 (event 7 []) unclaimed)
unfolding program
passed_is_owner_example = passed_is_owner cfg 1900 (event 7 []) unclaimed refl

abbrev moments : List Moment
moments =
    click 1101 (event 7 (codes "ft:apply"))
    ∷ message 1300 (event 7 [])
    ∷ ended 1400 false false
    ∷ click 1999 (event 7 (codes "fb:install"))
    ∷ []

one_at_a_time_example :
    (is_busy 1100 owned ≡ false)
    × (takes (on_callback cfg (event 7 (codes "fb:install")) 1100 owned).1 ≡ true)
    × (taken_in cfg moments (on_callback cfg (event 7 (codes "fb:install")) 1100 owned).0 ≡ 0)
unfolding program
one_at_a_time_example =
    one_at_a_time cfg (event 7 (codes "fb:install")) 1100 owned moments refl refl
      ((omega arith, refl), ((omega arith, refl), ((omega arith, refl), ((omega arith, refl), tt))))
