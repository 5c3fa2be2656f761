-- ===== src/App/Front.antt =====
-- `App.guard_admin` and what stands beside it: the claim of the owner, the flag of a running action and
-- the pauses between two toasts. A handler that runs to its end has one reading `now` of the clock, in
-- ticks; `Config.second` is the number of ticks in a second. `save` writes the state to the disk, which
-- is left out, and so are the lines of the log.
pub mod Owner
use obhod.Prelude.{
  ℕ, zero, suc, ◌+◌, ◌*◌, Bool, true, false, ◌&&◌, ◌||◌, not, Option, none, some, List, [], ◌∷◌,
  String, if◌then◌else◌, ltb, leb, nat_beq, text_key, pair_key, length, last_of, ℤ, pos, negsuc,
  int_text, int_beq, digits_of,
}
use obhod.Chars.{Chars}
use obhod.Chars.Cut.{before, filled}
use obhod.Dict.{Dict, get, put, sort_by}
use obhod.Limiter.{Limiter, Call, allow}

pub record Config : Type 0 where
  pub second : ℕ
  pub admin_id : ℤ
  pub bot_token : Chars
  pub message_limit : ℕ
  pub callback_limit : ℕ
  pub expensive_limit : ℕ

pub record Front : Type 0 where
  pub admin_id : ℤ
  pub started_at : ℕ
  pub limiter : Limiter
  pub busy : Bool
  pub busy_until : ℕ
  pub quiet_marks : Dict String ℕ
  -- `Audit.recent`
  pub recent : Dict (ℤ × Chars) ℕ

-- `outgoing` holds if one of the three marks of a message of the bot itself is there.
pub record Event : Type 0 where
  pub from_id : ℤ
  pub chat_id : ℤ
  pub outgoing : Bool
  pub text : Chars
  -- `evt.data`
  pub action : Chars

abbrev pub claim_window : Config → ℕ
claim_window cfg = 900 * cfg.second

abbrev pub busy_ttl : Config → ℕ
busy_ttl cfg = 900 * cfg.second

abbrev pub claim_limit : ℕ
claim_limit = 3

abbrev pub deny_limit : ℕ
deny_limit = 1

abbrev pub render_cache : ℕ
render_cache = 64

abbrev pub is_zero : ℤ → Bool
is_zero n = int_beq n (pos 0)

abbrev pub is_positive : ℤ → Bool
is_positive (pos n) = ltb 0 n
is_positive (negsuc n) = false

-- `App.admin_id`
abbrev pub owner : Config → Front → ℤ
owner cfg f = if is_zero cfg.admin_id then f.admin_id else cfg.admin_id

abbrev pub is_busy : ℕ → Front → Bool
is_busy now f = f.busy && (nat_beq f.busy_until 0 || ltb now f.busy_until)

unfoldable pub busy_begin : Config → ℕ → Front → Front × Bool
busy_begin cfg now f =
    if is_busy now f
    then (f, false)
    else (record f { busy = true; busy_until = now + busy_ttl cfg }, true)

unfoldable pub busy_end : Front → Front
busy_end f = record f { busy = false; busy_until = 0 }

abbrev pub or_never : Option ℕ → ℕ
or_never none = 0
or_never (some t) = t

unfoldable pub quiet : String → ℕ → ℕ → Front → Front × Bool
quiet name span now f =
    let last = or_never (get name f.quiet_marks) in
    let marks = put name now f.quiet_marks in
    let kept =
      if ltb (render_cache * 4) (length marks)
      then last_of render_cache (sort_by (λ t. t) marks)
      else marks in
    if not (nat_beq last 0) && ltb now (last + span)
    then (f, false)
    else (record f { quiet_marks = kept }, true)

unfoldable pub claim_open : Config → ℕ → Front → Bool
claim_open cfg now f =
    is_zero (owner cfg f)
    && is_zero f.admin_id
    && not (nat_beq f.started_at 0)
    && leb now (f.started_at + claim_window cfg)

unfoldable pub private_chat : Event → Bool
private_chat evt = is_positive evt.from_id && int_beq evt.chat_id evt.from_id

unfoldable pub allowed : String → String → ℕ → ℕ → ℕ → Front → Front × Bool
allowed who scope limit window now f =
    let (l, ok) =
      allow f.limiter
        (record { key = who; scope = scope; limit = limit; window = window; now = now }) in
    (record f { limiter = l }, ok)

-- The number in front of the colon of the token, for a token in ASCII.
abbrev pub is_bot : Config → ℤ → Bool
is_bot cfg who = elim (digits_of (before 58 cfg.bot_token)) [
  | none ↦ false
  | some n ↦ int_beq who (pos n)
]

-- The events that are passed over without a word.
unfoldable pub is_own : Config → Event → Bool
is_own cfg evt = is_zero evt.from_id || is_bot cfg evt.from_id || evt.outgoing

-- `str(chat_id or who)`
abbrev pub chat_name : Event → String
chat_name evt = int_text (if is_zero evt.chat_id then evt.from_id else evt.chat_id)

-- What the guard lets through, and the chat that it tells of its refusal.
pub data Guarded : Type 0 where
  passed : Guarded
  ignored : Guarded
  denied : Bool → Guarded

unfoldable pub deny : Config → ℕ → Event → Front → Front × Guarded
unfolding allowed
deny cfg now evt f =
    let (f', ok) = allowed (chat_name evt) "deny" deny_limit (60 * cfg.second) now f in
    (f', denied ok)

-- The last test of the claim, once the others hold.
unfoldable pub claim : Config → ℕ → Event → Front → Front × Guarded
unfolding allowed deny
claim cfg now evt f =
    let (f', ok) = allowed (int_text evt.from_id) "claim" claim_limit (60 * cfg.second) now f in
    if ok then (record f' { admin_id = evt.from_id }, passed) else deny cfg now evt f'

unfoldable pub guard_admin : Config → ℕ → Event → Front → Front × Guarded
unfolding claim
guard_admin cfg now evt f =
    if is_own cfg evt
    then (f, ignored)
    else if is_zero (owner cfg f)
    then (if is_positive evt.from_id && claim_open cfg now f && private_chat evt
        then claim cfg now evt f
        else deny cfg now evt f)
    else if int_beq evt.from_id (owner cfg f)
    then (f, passed)
    else deny cfg now evt f
