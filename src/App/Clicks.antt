-- ===== src/App/Clicks.antt =====
-- `App.on_callback`, `App.handle_message` and `App.handle_inline`: from the guard to the action that is
-- started, with `Audit.first_time`. What an action then does is not modelled; `finish` gives the flag of
-- the running action back when it ends.
pub mod Exclusive
use Prim.Native.String.{◌++◌ as ◌<>◌}
use obhod.Prelude.{
  ℕ, zero, suc, ◌+◌, ◌*◌, Bool, true, false, ◌&&◌, ◌||◌, not, Option, none, some, List, [], ◌∷◌,
  String, if◌then◌else◌, ltb, leb, nat_beq, text_key, length, last_of, take, ℤ, pos, int_text,
  int_beq, int_beq_iff, Key, codes, ◌≡◌, ◌↔◌, arith,
}
use obhod.Chars.{Chars, begins, strip}
use obhod.Chars.Cut.{among, same_chars, same_chars_iff}
use obhod.Dict.{Dict, get, put, sort_by}
use obhod.App.Front.{
  Config, Front, Event, Guarded, passed, ignored, denied, guard_admin, allowed, quiet, is_busy,
  busy_begin, busy_end, or_never, is_positive, owner,
}

abbrev pub starts_with : List String → Chars → Bool
starts_with [] s = false
starts_with (w ∷ words) s = begins (codes w) s || starts_with words s

abbrev pub nav_prefixes : List String
nav_prefixes = "nav:" ∷ "lang:" ∷ "set:" ∷ []

abbrev pub nav_routes : List String
nav_routes =
    "dbg:home" ∷ "dbg:scan" ∷ "dbg:trace" ∷ "dbg:vk" ∷ "dbg:scr" ∷ "dbg:ports" ∷ "dbg:chk"
    ∷ "dbg:dpi" ∷ "dbg:ntf" ∷ "dbg:hp" ∷ "dbg:dd" ∷ "dbg:info" ∷ "core:show" ∷ "ft:home" ∷ "xr:home"
    ∷ "xr:scan" ∷ "xr:subs" ∷ "xr:core" ∷ []

abbrev pub confirm_steps : List String
confirm_steps =
    "upd:commit" ∷ "upd:release" ∷ "fb:install" ∷ "fb:reset" ∷ "xr:core" ∷ "xr:subs:rebuild"
    ∷ "ft:apply" ∷ "ft:restart" ∷ []

abbrev pub loading_marks : List String
loading_marks = "xr:" ∷ "ft:" ∷ "dbg:" ∷ "upd:" ∷ "fb:" ∷ "sshd:" ∷ "ssh:" ∷ []

abbrev pub loading_skip : List String
loading_skip =
    "nav:" ∷ "lang:" ∷ "set:" ∷ "dbg:home" ∷ "dbg:emoji" ∷ "dbg:info" ∷ "ft:home" ∷ "xr:home" ∷ []

unfoldable pub is_navigation : Chars → Bool
is_navigation action = starts_with nav_prefixes action || among action nav_routes

unfoldable pub is_confirm : Chars → Bool
is_confirm action = starts_with confirm_steps action

unfoldable pub is_expensive : Chars → Bool
is_expensive action =
    if starts_with ("nav:" ∷ "lang:" ∷ []) action then false else not (is_navigation action)

unfoldable pub slow_action : Chars → Bool
slow_action action = starts_with loading_marks action && not (among action loading_skip)

abbrev pub action_beq : ℤ × Chars → ℤ × Chars → Bool
action_beq x y = int_beq x.0 y.0 && same_chars x.1 y.1

pub action_beq_iff : (x y : ℤ × Chars) → (action_beq x y ≡ true) ↔ (x ≡ y)
action_beq_iff (a, c) (b, d) = (
  λ h. ground (arith, int_beq_iff a b, same_chars_iff c d),
  λ h. ground (arith, int_beq_iff a b, same_chars_iff c d),
)

instance unfoldable pub action_key : Key (ℤ × Chars)
action_key = record { same = action_beq; same_iff = action_beq_iff }

abbrev pub max_events : ℕ
max_events = 200

-- `Audit.first_time`, on the table that `Front` keeps for it.
unfoldable pub first_time : Config → Event → ℕ → Front → Front × Bool
first_time cfg evt now f =
    let key : ℤ × Chars = (evt.from_id, take 60 evt.action) in
    let last = or_never (get key f.recent) in
    let recent = put key now f.recent in
    let kept =
      if ltb (max_events * 4) (length recent)
      then last_of max_events (sort_by (λ t. t) recent)
      else recent in
    if ltb now (last + cfg.second)
    then (record f { recent = recent }, false)
    else (record f { recent = kept }, true)

pub data Notice : Type 0 where
  rate repeat busy : Notice

-- A refusal tells the notice, and whether the toast is shown. An action is started with the flag that
-- it holds and has to give back, and with a loading screen or without.
pub data Click : Type 0 where
  turned_away : Guarded → Click
  refused : Notice → Bool → Click
  started : Bool → Bool → Click

-- `if self.quiet(...): await self.toast(...)`
unfoldable pub hush : String → ℕ → Notice → ℕ → Front → Front × Click
unfolding quiet
hush name span notice now f = let (f', shown) = quiet name span now f in (f', refused notice shown)

abbrev pub rate_name : Event → String
rate_name evt = "rate:" <> int_text evt.from_id

-- The start of the action, with the answer to the click.
unfoldable pub start : Config → Event → Bool → ℕ → Front → Front × Click
unfolding quiet
start cfg evt flag now f =
    let (f', _) = quiet "click" (2 * cfg.second) now f in
    (f', started flag (slow_action evt.action))

unfoldable pub take_flag : Config → Event → ℕ → Front → Front × Click
unfolding busy_begin start hush
take_flag cfg evt now f =
    let (f', ok) = busy_begin cfg now f in
    if f.busy
      && not (is_expensive evt.action)
      && not (is_navigation evt.action)
      && not (is_confirm evt.action)
    then hush "busy" (5 * cfg.second) busy now f
    else if is_expensive evt.action || is_confirm evt.action
    then (if ok then start cfg evt true now f' else hush "busy" (5 * cfg.second) busy now f)
    else start cfg evt false now f

unfoldable pub spend : Config → Event → ℕ → Front → Front × Click
unfolding first_time allowed hush
spend cfg evt now f =
    let (f1, fresh) = first_time cfg evt now f in
    let (f2, ok) =
      allowed (int_text evt.from_id) "expensive" cfg.expensive_limit (120 * cfg.second) now f1 in
    if not (is_expensive evt.action)
    then take_flag cfg evt now f
    else if not fresh
    then (f1, refused repeat true)
    else if not ok
    then hush (rate_name evt) (10 * cfg.second) rate now f2
    else take_flag cfg evt now f2

unfoldable pub navigate : Config → Event → ℕ → Front → Front × Click
unfolding allowed hush
navigate cfg evt now f =
    let (f', ok) = allowed (int_text evt.from_id) "nav" 40 (60 * cfg.second) now f in
    if not (is_navigation evt.action || starts_with ("nav:" ∷ "lang:" ∷ []) evt.action)
    then spend cfg evt now f
    else if ok
    then spend cfg evt now f'
    else hush (rate_name evt) (60 * cfg.second) rate now f'

-- `on_callback` behind the guard.
unfoldable pub clicked : Config → Event → ℕ → Front → Front × Click
unfolding allowed hush
clicked cfg evt now f =
    let (f', ok) =
      allowed (int_text evt.from_id) "callback" cfg.callback_limit (60 * cfg.second) now f in
    if not ok
    then hush (rate_name evt) (60 * cfg.second) rate now f'
    else if is_busy now f' && not (is_navigation evt.action) && not (is_confirm evt.action)
    then hush "busy" (5 * cfg.second) busy now f'
    else navigate cfg evt now f'

unfoldable pub if_passed : Config → Event → ℕ → Front × Guarded → Front × Click
if_passed cfg evt now (f, passed) = clicked cfg evt now f
if_passed cfg evt now (f, ignored) = (f, turned_away ignored)
if_passed cfg evt now (f, denied told) = (f, turned_away (denied told))

unfoldable pub on_callback : Config → Event → ℕ → Front → Front × Click
unfolding if_passed
on_callback cfg evt now f = if_passed cfg evt now (guard_admin cfg now evt f)

-- What a message leads to: a value of the inline mode, a command, or nothing.
pub data Heard : Type 0 where
  unheard : Guarded → Heard
  held_back : Notice → Bool → Heard
  marker : Heard
  command : Heard
  nothing : Heard

unfoldable pub held : String → ℕ → Notice → ℕ → Front → Front × Heard
unfolding quiet
held name span notice now f =
    let (f', shown) = quiet name span now f in (f', held_back notice shown)

-- `handle_message` behind the guard; `MARKER` is one code point.
unfoldable pub heard : Config → Event → ℕ → Front → Front × Heard
unfolding allowed held
heard cfg evt now f =
    let (f', ok) =
      allowed (int_text evt.from_id) "message" cfg.message_limit (60 * cfg.second) now f in
    if not ok
    then held (rate_name evt) (10 * cfg.second) rate now f'
    else if begins (128221 ∷ []) evt.text
    then (f', marker)
    else if is_busy now f'
    then held "busy" (5 * cfg.second) busy now f'
    else if begins (codes "/") (strip evt.text)
    then (f', command)
    else (f', nothing)

unfoldable pub if_heard : Config → Event → ℕ → Front × Guarded → Front × Heard
if_heard cfg evt now (f, passed) = heard cfg evt now f
if_heard cfg evt now (f, ignored) = (f, unheard ignored)
if_heard cfg evt now (f, denied told) = (f, unheard (denied told))

unfoldable pub handle_message : Config → Event → ℕ → Front → Front × Heard
unfolding if_heard
handle_message cfg evt now f = if_heard cfg evt now (guard_admin cfg now evt f)

-- Whether `handle_inline` gives results.
unfoldable pub handle_inline : Config → ℕ → Event → ℕ → Front → Front × Bool
unfolding allowed
handle_inline cfg limit evt now f =
    if is_positive evt.from_id && int_beq evt.from_id (owner cfg f)
    then allowed (int_text evt.from_id) "inline" limit (60 * cfg.second) now f
    else (f, false)

-- `App.finish`, once the action has ended.
unfoldable pub finish : Bool → Front → Front
unfolding busy_end
finish flag f = if flag then busy_end f else f

-- `App.stuck`, for an action that did not end in time: it gives back the flag, whoever holds it.
abbrev pub stuck : Front → Front
stuck f = busy_end f

-- The end of an action, which may have run out of time in `run_callback`.
unfoldable pub end_action : Bool → Bool → Front → Front
unfolding finish
end_action timed_out flag f = finish flag (if timed_out then stuck f else f)
