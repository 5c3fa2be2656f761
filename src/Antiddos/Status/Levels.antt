-- ===== src/Antiddos/Status/Levels.antt =====
-- The reasons and the level of a status, described test by test.
use obhod.Prelude.{
  ◌≡◌, ◌≢◌, refl, Bool, true, false, ◌&&◌, ◌||◌, not, none, some, List, [], ◌∷◌, String,
  if◌then◌else◌, leb, length, elem, elem-append, text_key, arith, Bool-cases, inl, inr, All, sym,
  subst, ◌∙◌,
}
use obhod.Antiddos.Status.{
  Status, Reason, agent_error, table_missing, syn_flood, conn_flood, udp_flood, port_scan, pps,
  conntrack, drops, ok, warn, reason_beq, reason_key, dropped, pressed, has_error, table_lost, flag,
  reasons, is_empty, level, under_attack, first_of_kinds, kinds, event_kind,
}

elem-flag :
    (x : Reason) (test : Bool) (reason : Reason) (out : List Reason)
    → elem x (flag test reason out) ≡ (elem x out || test && reason_beq reason x)
elem-flag x true reason out = elem-append x reason out
elem-flag x false reason out = ground arith

-- The test that stands behind each reason.
abbrev pub applies : Reason → Status → Bool
applies agent_error s = has_error s
applies table_missing s = table_lost s
applies syn_flood s = leb 8 (length s.syn_flood)
applies conn_flood s = leb 8 (length s.conn_flood)
applies udp_flood s = leb 8 (length s.udp_flood)
applies port_scan s = leb 8 (length s.scan)
applies pps s = leb 60000 s.pps
applies conntrack s = pressed 70 s
applies drops s = leb 200 (dropped s)

or_false : (b : Bool) → (b || false) ≡ b
or_false true = refl
or_false false = refl

and_true : (b : Bool) → (b && true) ≡ b
and_true true = refl
and_true false = refl

and_false : (b : Bool) → (b && false) ≡ false
and_false true = refl
and_false false = refl

-- On an installed agent a reason is listed exactly if its test holds.
pub reasons_exact :
    (s : Status) (r : Reason) → s.installed ≡ true → elem r (reasons s) ≡ applies r s
unfolding reasons
reasons_exact s agent_error h = rw h (simp (elem-flag, or_false, and_true, and_false))
reasons_exact s table_missing h = rw h (simp (elem-flag, or_false, and_true, and_false))
reasons_exact s syn_flood h = rw h (simp (elem-flag, or_false, and_true, and_false))
reasons_exact s conn_flood h = rw h (simp (elem-flag, or_false, and_true, and_false))
reasons_exact s udp_flood h = rw h (simp (elem-flag, or_false, and_true, and_false))
reasons_exact s port_scan h = rw h (simp (elem-flag, or_false, and_true, and_false))
reasons_exact s pps h = rw h (simp (elem-flag, or_false, and_true, and_false))
reasons_exact s conntrack h = rw h (simp (elem-flag, or_false, and_true, and_false))
reasons_exact s drops h = rw h (simp (elem-flag, or_false, and_true, and_false))

is_empty-flag :
    (test : Bool) (reason : Reason) (out : List Reason)
    → is_empty (flag test reason out) ≡ (is_empty out && not test)
is_empty-flag true reason [] = refl
is_empty-flag true reason (r ∷ out) = refl
is_empty-flag false reason [] = refl
is_empty-flag false reason (r ∷ out) = refl

-- No test holds.
abbrev pub is_quiet : Status → Bool
is_quiet s =
    true
    && not (has_error s)
    && not (table_lost s)
    && not (leb 8 (length s.syn_flood))
    && not (leb 8 (length s.conn_flood))
    && not (leb 8 (length s.udp_flood))
    && not (leb 8 (length s.scan))
    && not (leb 60000 s.pps)
    && not (pressed 70 s)
    && not (leb 200 (dropped s))

is_empty-reasons : (s : Status) → s.installed ≡ true → is_empty (reasons s) ≡ is_quiet s
unfolding reasons
is_empty-reasons s h = rw h (simp is_empty-flag)

-- A number past its upper limit, or a table that is gone.
abbrev pub is_alarming : Status → Bool
is_alarming s =
    not s.table
    || leb 60 (length s.syn_flood)
    || leb 200000 s.pps
    || pressed 90 s
    || leb 5000 (dropped s)
    || leb 60 (length s.conn_flood)
    || leb 60 (length s.scan)

-- The level is bad exactly on an agent that is installed, reports no error and is enabled, if its
-- table is gone or one of the numbers of SYN, connection and scan offenders, of packets, of tracked
-- connections and of drops is past its upper limit; the UDP offenders do not count.
pub under_attack_exact :
    (s : Status)
    → under_attack s ≡ (s.installed && (not (has_error s) && (s.enabled && is_alarming s)))
unfolding under_attack level
under_attack_exact s = elim (Bool-cases s.installed) [
  | inl here ↦ ground (
    arith,
    reasons_exact s table_missing here,
    reasons_exact s syn_flood here,
    reasons_exact s udp_flood here,
  )
  | inr absent ↦ rw absent refl
]

-- An enabled agent without an error that is not under attack is at the level ok exactly if no test
-- holds, and at the level warn otherwise.
pub level_calm :
    (s : Status)
    → s.installed ≡ true
    → has_error s ≡ false
    → s.enabled ≡ true
    → is_alarming s ≡ false
    → level s ≡ (if is_quiet s then ok else warn)
unfolding level
level_calm s here fine on calm = ground (
  arith,
  is_empty-reasons s here,
  reasons_exact s table_missing here,
  reasons_exact s syn_flood here,
  reasons_exact s udp_flood here,
)

-- However many addresses flood with UDP, whether the agent is under attack stays the same.
pub udp_ignored :
    (s : Status) (offenders : List String)
    → under_attack (record s { udp_flood = offenders }) ≡ under_attack s
unfolding dropped pressed
udp_ignored s offenders =
    under_attack_exact (record s { udp_flood = offenders }) ∙ sym (under_attack_exact s)

first_of_kinds-elem :
    (names found : List Reason) (r : Reason)
    → first_of_kinds names found ≡ some r
    → elem r found ≡ true
unfolding first_of_kinds
first_of_kinds-elem [] found r h = ground arith
first_of_kinds-elem (name ∷ names) found r h = elim (Bool-cases (elem name found)) [
  | inl there ↦
      let e : some name ≡ some r = rw there at h in
      let same_name : name ≡ r = cc in subst (λ (x : Reason). elem x found ≡ true) same_name there
  | inr missing ↦ first_of_kinds-elem names found r (rw missing at h)
]

first_of_kinds-none :
    (names found : List Reason)
    → first_of_kinds names found ≡ none
    → All (λ r. elem r found ≡ false) names
unfolding first_of_kinds
first_of_kinds-none [] found h = tt
first_of_kinds-none (name ∷ names) found h = elim (Bool-cases (elem name found)) [
  | inl there ↦ let e : some name ≡ none = rw there at h in cc
  | inr missing ↦ (missing, first_of_kinds-none names found (rw missing at h))
]

-- On an installed agent the kind of the event is a reason whose test holds, or "load" (`none`) if
-- no test holds but perhaps the one for port scans.
pub event_kind_exact :
    (s : Status)
    → s.installed ≡ true
    → ((r : Reason) → event_kind s ≡ some r → applies r s ≡ true)
      × (event_kind s ≡ none → (r : Reason) → r ≢ port_scan → applies r s ≡ false)
unfolding event_kind
event_kind_exact s here = (
  λ r h. sym (reasons_exact s r here) ∙ first_of_kinds-elem kinds (reasons s) r h,
  λ h r other.
      sym (reasons_exact s r here) ∙ listed r other (first_of_kinds-none kinds (reasons s) h),
)
  where
    listed :
        (r : Reason)
        → r ≢ port_scan
        → All (λ r. elem r (reasons s) ≡ false) kinds
        → elem r (reasons s) ≡ false
    listed agent_error other a = a.1.1.1.1.1.1.1.0
    listed table_missing other a = a.1.1.1.1.1.1.0
    listed syn_flood other a = a.0
    listed conn_flood other a = a.1.1.0
    listed udp_flood other a = a.1.0
    listed port_scan other a = absurd (other refl)
    listed pps other a = a.1.1.1.0
    listed conntrack other a = a.1.1.1.1.0
    listed drops other a = a.1.1.1.1.1.0
