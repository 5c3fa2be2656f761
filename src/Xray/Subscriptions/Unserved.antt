-- ===== src/Xray/Subscriptions/Unserved.antt =====
-- A rotation of clients that are on disabled inbounds only.
use obhod.Prelude.{
  ℕ, ◌≡◌, refl, ap, ◌∙◌, true, false, ◌||◌, Option, none, some, List, [], ◌∷◌, String, ◌==◌,
  text_key, Bool-cases, inl, inr, arith,
}
use obhod.Xray.Subscriptions.{
  XrayClient, XrayInbound, Subscription, is_unset, renew_clients, has_client, renew, is_found,
  rotate_subscription, first_pair, canonical_subscription,
}
use obhod.Xray.Subscriptions.Apart.{by_client, by_clients, by_inbounds, subscription_of-by_inbounds}
use obhod.Xray.Subscriptions.Rotated.{is_served, if_same}

module _ {D : Type 0} (link_for : D → XrayClient → String → Option String) (host : String)
    (email id key : String) where
  clients_away :
      (n : ℕ) (d : D) (clients : List XrayClient) (o : Option Subscription)
      → has_client email clients ≡ false
      → by_clients link_for host email n d (renew_clients email id key clients) o ≡ o
  unfolding by_clients by_client renew_clients has_client
  clients_away n d [] o h = refl
  clients_away n d (c ∷ clients) o h =
      let different : (c.email == email) ≡ false = ground arith in
      rw (different, different)
        (ap (by_clients link_for host email n d (renew_clients email id key clients))
            (if_same (is_unset c) o)
          ∙ clients_away n d clients o (ground arith))

  inbounds_away :
      (inbounds : List (XrayInbound D)) (o : Option Subscription)
      → is_served email inbounds ≡ false
      → by_inbounds link_for host email (renew email id key inbounds) o ≡ o
  unfolding by_inbounds renew
  inbounds_away [] o h = refl
  inbounds_away (i ∷ inbounds) o h = elim (Bool-cases i.enable) [
    | inl on ↦ rw on (
        ap (by_inbounds link_for host email (renew email id key inbounds))
          (clients_away i.id i.details i.clients o (ground arith))
        ∙ inbounds_away inbounds o (ground arith))
    | inr off ↦ rw off (inbounds_away inbounds o (ground arith))
  ]

  first_pair_new :
      (clients : List XrayClient)
      → (id == "" || key == "") ≡ false
      → has_client email clients ≡ true
      → first_pair email (renew_clients email id key clients) ≡ some (id, key)
  unfolding first_pair renew_clients has_client
  first_pair_new [] given h = absurd (ground arith)
  first_pair_new (c ∷ clients) given h = elim (Bool-cases (c.email == email)) [
    | inl same ↦ rw (same, given, same) refl
    | inr different ↦ rw (different, different) (first_pair_new clients given (ground arith))
  ]

  first_pair_away :
      (clients : List XrayClient)
      → has_client email clients ≡ false
      → first_pair email (renew_clients email id key clients) ≡ none
  unfolding first_pair renew_clients has_client
  first_pair_away [] h = refl
  first_pair_away (c ∷ clients) h =
      let different : (c.email == email) ≡ false = ground arith in
      rw (different, different) (first_pair_away clients (ground arith))

  pair_new :
      (inbounds : List (XrayInbound D))
      → (id == "" || key == "") ≡ false
      → is_found email inbounds ≡ true
      → canonical_subscription email (renew email id key inbounds) ≡ some (id, key)
  unfolding canonical_subscription is_found renew
  pair_new [] given h = absurd (ground arith)
  pair_new (i ∷ inbounds) given h = elim (Bool-cases (has_client email i.clients)) [
    | inl here ↦ rw (first_pair_new i.clients given here) refl
    | inr away ↦ rw (first_pair_away i.clients away) (pair_new inbounds given (ground arith))
  ]

  -- Where the clients of the email are on disabled inbounds only, the rotation gives them the new pair
  -- and returns nothing, which the panel takes for a client that is not there.
  pub rotate_subscription-unserved :
      (inbounds : List (XrayInbound D))
      → (id == "" || key == "") ≡ false
      → is_found email inbounds ≡ true
      → is_served email inbounds ≡ false
      → ((rotate_subscription link_for host id key email inbounds).1 ≡ none)
        × (canonical_subscription email (rotate_subscription link_for host id key email inbounds).0
            ≡ some (id, key))
  unfolding rotate_subscription
  rotate_subscription-unserved inbounds given known unserved = (
    rw known (
        subscription_of-by_inbounds link_for host email (renew email id key inbounds)
        ∙ inbounds_away inbounds none unserved),
    pair_new inbounds given known,
  )
