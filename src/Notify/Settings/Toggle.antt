-- ===== src/Notify/Settings/Toggle.antt =====
-- Switching kinds on and off.
use obhod.Prelude.{
  ◌≡◌, refl, Bool, true, not, some, String, if◌then◌else◌, elem, text_key, ◌==◌, Bool-cases, inl,
  inr, subst,
}
use obhod.Dict.{put}
use obhod.Dict.Laws.{get-put}
use obhod.Notify.Settings.{Settings, kinds, is_on, toggle}

is_on-put :
    (s : Settings) (kind k : String) (b : Bool)
    → elem kind kinds ≡ true
    → is_on (record s { enabled = put kind b s.enabled }) k ≡ (if kind == k then b else is_on s k)
unfolding is_on
is_on-put s kind k b known = elim (Bool-cases (kind == k)) [
  | inl same ↦
      rw
        (
          get-put,
          same,
          subst (λ (x : String). elem x kinds ≡ true) ((text_key.same_iff kind k).0 same) known,
        )
        refl
  | inr other ↦ rw (get-put, other) refl
]

-- Toggling a known kind returns the opposite of what it was, and switches that kind and no other.
pub toggle_exact :
    (s : Settings) (kind : String)
    → elem kind kinds ≡ true
    → (t : Settings) × (toggle s kind ≡ some (t, not (is_on s kind)))
      × ((k : String) → is_on t k ≡ (if kind == k then not (is_on s kind) else is_on s k))
unfolding toggle
toggle_exact s kind known = (
  record s { enabled = put kind (not (is_on s kind)) s.enabled },
  rw known refl,
  λ k. is_on-put s kind k (not (is_on s kind)) known,
)
