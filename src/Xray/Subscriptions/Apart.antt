-- ===== src/Xray/Subscriptions/Apart.antt =====
-- A subscription is made of the clients of its email alone.
use obhod.Prelude.{
  ℕ, ◌≡◌, refl, ap, ◌∙◌, subst, true, false, Option, none, some, List, [], ◌∷◌, String,
  if◌then◌else◌, ◌==◌, text_key, Bool-cases, inl, inr, same_sym,
}
use obhod.Xray.Subscriptions.{
  XrayClient, XrayInbound, Subscription, opened, longer, add_link, is_unset, find_sub, link_of,
  add_clients, add_inbounds, subscriptions, subscription_of,
}

-- What one client makes of the entry of an email.
abbrev pub entry_of : ℕ → XrayClient → Option String → Option Subscription → Subscription
entry_of inbound_id c link none = opened inbound_id c link
entry_of inbound_id c link (some s) = longer link s

abbrev pub seen :
    String → ℕ → XrayClient → Option String → Option Subscription → Option Subscription
seen email inbound_id c link o = if c.email == email then some (entry_of inbound_id c link o) else o

find_sub-add_link :
    (email : String) (inbound_id : ℕ) (c : XrayClient) (link : Option String)
    (subs : List Subscription)
    → find_sub email (add_link inbound_id c link subs)
      ≡ seen email inbound_id c link (find_sub email subs)
unfolding find_sub add_link
find_sub-add_link email inbound_id c link [] = refl
find_sub-add_link email inbound_id c link (s ∷ subs) = elim (Bool-cases (s.email == c.email)) [
  | inl same ↦
      let e : s.email ≡ c.email = (text_key.same_iff s.email c.email).0 same in
      elim (Bool-cases (c.email == email)) [
        | inl here ↦
            let h : (s.email == email) ≡ true = ap (λ t. t == email) e ∙ here in
            rw (same, h, here) refl
        | inr away ↦
            let h : (s.email == email) ≡ false = ap (λ t. t == email) e ∙ away in
            rw (same, h, away) refl
      ]
  | inr apart ↦ elim (Bool-cases (s.email == email)) [
    | inl here ↦
        let e : s.email ≡ email = (text_key.same_iff s.email email).0 here in
        let h : (c.email == email) ≡ false =
          subst (λ t. (c.email == t) ≡ false) e (same_sym s.email c.email apart) in
        rw (apart, here, h) refl
    | inr away ↦ rw (apart, away) (find_sub-add_link email inbound_id c link subs)
  ]
]

module _ {D : Type 0} (link_for : D → XrayClient → String → Option String)
    (host email : String) where
  -- What one client that is set makes of the entry of the email.
  unfoldable pub by_client : ℕ → D → XrayClient → Option Subscription → Option Subscription
  by_client inbound_id details c o =
      if is_unset c then o else seen email inbound_id c (link_of link_for host details c) o

  unfoldable pub by_clients : ℕ → D → List XrayClient → Option Subscription → Option Subscription
  by_clients inbound_id details [] o = o
  by_clients inbound_id details (c ∷ clients) o =
      by_clients inbound_id details clients (by_client inbound_id details c o)

  unfoldable pub by_inbounds : List (XrayInbound D) → Option Subscription → Option Subscription
  by_inbounds [] o = o
  by_inbounds (i ∷ inbounds) o =
      by_inbounds inbounds (if i.enable then by_clients i.id i.details i.clients o else o)

  find_sub-add_clients :
      (inbound_id : ℕ) (details : D) (clients : List XrayClient) (subs : List Subscription)
      → find_sub email (add_clients link_for host inbound_id details clients subs)
        ≡ by_clients inbound_id details clients (find_sub email subs)
  unfolding add_clients by_clients by_client
  find_sub-add_clients inbound_id details [] subs = refl
  find_sub-add_clients inbound_id details (c ∷ clients) subs = elim (Bool-cases (is_unset c)) [
    | inl unset ↦ rw unset (find_sub-add_clients inbound_id details clients subs)
    | inr set ↦
        let link : Option String = link_of link_for host details c in
        rw set (
          find_sub-add_clients inbound_id details clients (add_link inbound_id c link subs)
          ∙ ap (by_clients inbound_id details clients)
              (find_sub-add_link email inbound_id c link subs))
  ]

  find_sub-add_inbounds :
      (inbounds : List (XrayInbound D)) (subs : List Subscription)
      → find_sub email (add_inbounds link_for host inbounds subs)
        ≡ by_inbounds inbounds (find_sub email subs)
  unfolding add_inbounds by_inbounds
  find_sub-add_inbounds [] subs = refl
  find_sub-add_inbounds (i ∷ inbounds) subs = elim (Bool-cases i.enable) [
    | inl on ↦ rw on (
        find_sub-add_inbounds inbounds (add_clients link_for host i.id i.details i.clients subs)
        ∙ ap (by_inbounds inbounds) (find_sub-add_clients i.id i.details i.clients subs))
    | inr off ↦ rw off (find_sub-add_inbounds inbounds subs)
  ]

  -- The subscription of an email, without those of the others.
  pub subscription_of-by_inbounds :
      (inbounds : List (XrayInbound D))
      → subscription_of link_for host email inbounds ≡ by_inbounds inbounds none
  unfolding subscription_of subscriptions find_sub
  subscription_of-by_inbounds inbounds = find_sub-add_inbounds inbounds []
