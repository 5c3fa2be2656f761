-- ===== src/App/Front/Owner.antt =====
-- Whom the guard lets through.
use obhod.Prelude.{
  ℕ, ◌+◌, ◌*◌, if◌then◌else◌, ◌≡◌, ◌≤◌, refl, Bool, true, false, ◌⊎◌, inl, inr, arith, Bool-cases,
  ℤ, pos, int_beq_iff, int_text, ◌∙◌, sym, ap,
}
use obhod.App.Front.{
  Config, Front, Event, Guarded, passed, ignored, denied, guard_admin, claim, deny, allowed, owner,
  is_zero, is_positive, claim_open, private_chat, claim_window,
}

-- A claim: there was no owner, neither in the configuration nor in the state, the window of the claim was
-- open, and the event came from the private chat of its sender.
pub record IsClaim (cfg : Config) (now : ℕ) (evt : Event) (f : Front) : Type 0 where
  pub no_config : cfg.admin_id ≡ pos 0
  pub no_state : f.admin_id ≡ pos 0
  pub in_time : now ≤ f.started_at + claim_window cfg
  pub positive : is_positive evt.from_id ≡ true
  pub private : evt.chat_id ≡ evt.from_id

abbrev is_passed : Guarded → Bool
is_passed passed = true
is_passed ignored = false
is_passed (denied told) = false

deny_turns :
    (cfg : Config) (now : ℕ) (evt : Event) (f : Front)
    → ((deny cfg now evt f).0.admin_id ≡ f.admin_id) × (is_passed (deny cfg now evt f).1 ≡ false)
unfolding deny allowed
deny_turns cfg now evt f = (refl, refl)

claim_takes :
    (cfg : Config) (now : ℕ) (evt : Event) (f : Front)
    → is_passed (claim cfg now evt f).1 ≡ true
    → (claim cfg now evt f).0.admin_id ≡ evt.from_id
unfolding claim
claim_takes cfg now evt f h =
    let (f', ok) = allowed (int_text evt.from_id) "claim" 3 (60 * cfg.second) now f in
    let turned = deny_turns cfg now evt f' in
    elim (Bool-cases ok) [ inl e ↦ rw e refl | inr e ↦ absurd (ground (arith, turned)) ]

-- The cases of the guard.
guard_cases :
    (cfg : Config) (now : ℕ) (evt : Event) (f : Front)
    → is_passed (guard_admin cfg now evt f).1 ≡ true
    → ((evt.from_id ≡ owner cfg f) × (guard_admin cfg now evt f ≡ (f, passed)))
      ⊎ ((is_zero (owner cfg f) ≡ true)
          × (is_positive evt.from_id ≡ true)
          × (claim_open cfg now f ≡ true)
          × (private_chat evt ≡ true)
          × (guard_admin cfg now evt f ≡ claim cfg now evt f))
unfolding guard_admin
guard_cases cfg now evt f h =
    let turned = deny_turns cfg now evt f in
    ground (arith, turned, int_beq_iff evt.from_id (owner cfg f))

-- Whom the guard lets through is the owner after it. Either he was the owner before, who then stays, or he
-- has just claimed the bot.
pub passed_is_owner :
    (cfg : Config) (now : ℕ) (evt : Event) (f : Front)
    → (guard_admin cfg now evt f).1 ≡ passed
    → (evt.from_id ≡ owner cfg (guard_admin cfg now evt f).0)
      × ((owner cfg (guard_admin cfg now evt f).0 ≡ owner cfg f) ⊎ IsClaim cfg now evt f)
unfolding claim_open private_chat
passed_is_owner cfg now evt f h =
    let through : is_passed (guard_admin cfg now evt f).1 ≡ true = ap is_passed h in
    elim (guard_cases cfg now evt f through) [
      | inl (own, g) ↦
          let same : owner cfg (guard_admin cfg now evt f).0 ≡ owner cfg f =
            ap (λ (r : Front × Guarded). owner cfg r.0) g in
          (own ∙ sym same, inl same)
      | inr (none_yet, positive, free, chat, g) ↦
          let taken =
            claim_takes cfg now evt f
              (sym (ap (λ (r : Front × Guarded). is_passed r.1) g) ∙ through) in
          let no_config : is_zero cfg.admin_id ≡ true = ground arith in
          let same : owner cfg (guard_admin cfg now evt f).0 ≡ evt.from_id =
            ap (λ (r : Front × Guarded). owner cfg r.0) g ∙ rw no_config taken in
          (
            sym same,
            inr (record {
              no_config = (int_beq_iff cfg.admin_id (pos 0)).0 no_config;
              no_state = (int_beq_iff f.admin_id (pos 0)).0 (ground arith);
              in_time = ground (arith, free);
              positive = positive;
              private = (int_beq_iff evt.chat_id evt.from_id).0 (ground (arith, chat));
            }),
          )
    ]

admin_kept :
    (cfg : Config) (now : ℕ) (evt : Event) (f : Front)
    → is_zero (owner cfg f) ≡ false
    → (guard_admin cfg now evt f).0.admin_id ≡ f.admin_id
unfolding guard_admin
admin_kept cfg now evt f h = let turned = deny_turns cfg now evt f in ground (arith, turned)

-- An owner stays the owner, whatever event comes.
pub owner_kept :
    (cfg : Config) (now : ℕ) (evt : Event) (f : Front)
    → is_zero (owner cfg f) ≡ false
    → owner cfg (guard_admin cfg now evt f).0 ≡ owner cfg f
owner_kept cfg now evt f h =
    ap (λ (id : ℤ). if is_zero cfg.admin_id then id else cfg.admin_id) (admin_kept cfg now evt f h)
