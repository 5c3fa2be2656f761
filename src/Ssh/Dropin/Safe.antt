-- ===== src/Ssh/Dropin/Safe.antt =====
-- What `apply` leaves behind on every path.
use obhod.Prelude.{
  ◌≡◌, ◌≢◌, ◌⊎◌, inl, inr, refl, true, false, ℕ, ◌==◌, none, some, arith, text_key, Bool-cases,
  Option-cases, Option, ap, sym,
}
use obhod.Ssh.{System}
use obhod.Ssh.Dropin.{
  OptionsFile, Host, Flags, write_dropin, previous_text, refusal, body_of, restart, accepted,
  restored, proceed, apply,
}

restart_dropin : (s : System) (h : Host) → (restart s h).0.dropin ≡ h.dropin
unfolding restart
restart_dropin s h = ground arith

-- The file is one that `write_dropin` could have left: it is not empty, is read as it stands, and has the
-- mode 0600.
abbrev pub IsPlain : System → Option OptionsFile → Type 0
IsPlain s none = Unit
IsPlain s (some file) =
    (file.content ≢ "") × (s.reads file.content ≡ file.content) × (file.mode ≡ 384)

restored-previous_text :
    (s : System) (dropin : Option OptionsFile)
    → IsPlain s dropin
    → restored (previous_text s dropin) ≡ dropin
unfolding text_key
restored-previous_text s none plain = refl
restored-previous_text s (some file) (filled, same, mode) =
    let kept : (file.content == "") ≡ false = ground (arith, text_key.same_iff file.content "") in
    let file_eq : write_dropin file.content ≡ file =
      ap (λ (n : ℕ). record file { mode = n }) (sym mode) in
    rw (same, kept) (ap some file_eq)

-- After a run everything is as before, or the file is the one that was asked for, and was not refused.
abbrev pub IsSafe : System → Flags → Host → Host → Type 0
IsSafe s f before after =
    (after ≡ before)
    ⊎ ((after.dropin ≡ some (write_dropin (body_of f))) × (accepted s (body_of f) ≡ true))

proceed-IsSafe :
    (s : System) (f : Flags) (h : Host) → IsPlain s h.dropin → IsSafe s f h (proceed s f h).0
proceed-IsSafe s f h plain = elim (Bool-cases (accepted s (body_of f))) [
  | inl good ↦
      rw good (inr (restart_dropin s (record h { dropin = some (write_dropin (body_of f)) }), refl))
  | inr bad ↦ rw bad (
      inl (
        ap (λ (d : Option OptionsFile). record h { dropin = d })
          (restored-previous_text s h.dropin plain)))
]

-- If the file of options before, where there is one, is not empty, is read as it stands and has the mode
-- 0600: after `apply` everything is as it was, or the file is the one that the flags ask for, and either
-- sshd accepts it or no sshd was found to ask, whether the restart then succeeds or not.
pub apply-IsSafe :
    (s : System) (f : Flags) (h : Host) → IsPlain s h.dropin → IsSafe s f h (apply s f h).0
unfolding apply
apply-IsSafe s f h plain = elim (Option-cases (refusal f h.keys)) [
  | inl passed ↦ rw passed (proceed-IsSafe s f h plain)
  | inr (e, refused) ↦ rw refused (inl refl)
]
