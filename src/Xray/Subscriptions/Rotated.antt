-- ===== src/Xray/Subscriptions/Rotated.antt =====
-- What a rotation does to the subscription of its email and to those of the others.
use obhod.Prelude.{
  ℕ, ◌≡◌, ◌⊎◌, refl, sym, ap, ◌∙◌, subst, Bool, true, false, ◌&&◌, ◌||◌, Option, none, some, List,
  [], ◌∷◌, String, if◌then◌else◌, ◌==◌, text_key, Bool-cases, inl, inr, arith,
}
use obhod.Xray.Subscriptions.{
  XrayClient, XrayInbound, Subscription, is_unset, link_of, subscription_of, renewed, renew_clients,
  has_client, renew, is_found, rotate_subscription,
}
use obhod.Xray.Subscriptions.Apart.{
  entry_of, by_client, by_clients, by_inbounds, subscription_of-by_inbounds,
}

or_assoc : (a b c : Bool) → ((a || b) || c) ≡ (a || (b || c))
or_assoc true b c = refl
or_assoc false b c = refl

module _ {D : Type 0} where
  -- A client of the email on an inbound that is enabled.
  abbrev pub is_served : String → List (XrayInbound D) → Bool
  is_served email [] = false
  is_served email (i ∷ inbounds) =
      i.enable && has_client email i.clients || is_served email inbounds

  served_is_found :
      (email : String) (inbounds : List (XrayInbound D))
      → is_served email inbounds ≡ true
      → is_found email inbounds ≡ true
  unfolding is_found
  served_is_found email [] h = h
  served_is_found email (i ∷ inbounds) h = ground (arith, served_is_found email inbounds)

pub if_same : (b : Bool) (o : Option Subscription) → (if b then o else o) ≡ o
if_same true o = refl
if_same false o = refl

-- The entry carries the new pair.
abbrev IsNew : String → String → Option Subscription → Type 0
IsNew id key o = (s : Subscription) × (o ≡ some s) × (s.sub_id ≡ id) × (s.sub_key ≡ key)

-- With the new pair, or with nothing yet unless it has been reached.
abbrev Holds : String → String → Bool → Option Subscription → Type 0
Holds id key true o = IsNew id key o
Holds id key false o = (o ≡ none) ⊎ IsNew id key o

opened_IsNew :
    (id key : String) (n : ℕ) (c : XrayClient) (link : Option String) (o : Option Subscription)
    → c.sub_id ≡ id
    → c.sub_key ≡ key
    → o ≡ none
    → IsNew id key (some (entry_of n c link o))
opened_IsNew id key n c link o h k e = rw e (entry_of n c link none, refl, h, k)

longer_IsNew :
    (id key : String) (n : ℕ) (c : XrayClient) (link : Option String) (o : Option Subscription)
    → IsNew id key o
    → IsNew id key (some (entry_of n c link o))
longer_IsNew id key n c link o (s, e, h, k) = rw e (entry_of n c link (some s), refl, h, k)

entry_IsNew :
    (id key : String) (b : Bool) (n : ℕ) (c : XrayClient) (link : Option String)
    (o : Option Subscription)
    → c.sub_id ≡ id
    → c.sub_key ≡ key
    → Holds id key b o
    → Holds id key (b || true) (some (entry_of n c link o))
entry_IsNew id key true n c link o h k a = longer_IsNew id key n c link o a
entry_IsNew id key false n c link o h k (inl e) = opened_IsNew id key n c link o h k e
entry_IsNew id key false n c link o h k (inr a) = longer_IsNew id key n c link o a

still_Holds :
    (id key : String) (b : Bool) (o : Option Subscription)
    → Holds id key b o
    → Holds id key (b || false) o
still_Holds id key true o h = h
still_Holds id key false o h = h

module _ {D : Type 0} (link_for : D → XrayClient → String → Option String) (host : String)
    (email id key : String) where
  module _ (other : String) (apart : (email == other) ≡ false) where
    client_alike :
        (n : ℕ) (d : D) (c : XrayClient) (o : Option Subscription)
        → by_client link_for host other n d (renewed email id key c) o
          ≡ by_client link_for host other n d c o
    unfolding by_client
    client_alike n d c o = elim (Bool-cases (c.email == email)) [
      | inl same ↦
          let e : c.email ≡ email = (text_key.same_iff c.email email).0 same in
          let away : (c.email == other) ≡ false = ap (λ t. t == other) e ∙ apart in
          rw (same, away) (if_same (id == "" || key == "") o ∙ sym (if_same (is_unset c) o))
      | inr different ↦ rw different refl
    ]

    clients_alike :
        (n : ℕ) (d : D) (clients : List XrayClient) (o : Option Subscription)
        → by_clients link_for host other n d (renew_clients email id key clients) o
          ≡ by_clients link_for host other n d clients o
    unfolding by_clients renew_clients
    clients_alike n d [] o = refl
    clients_alike n d (c ∷ clients) o =
        clients_alike n d clients (by_client link_for host other n d (renewed email id key c) o)
        ∙ ap (by_clients link_for host other n d clients) (client_alike n d c o)

    inbounds_alike :
        (inbounds : List (XrayInbound D)) (o : Option Subscription)
        → by_inbounds link_for host other (renew email id key inbounds) o
          ≡ by_inbounds link_for host other inbounds o
    unfolding by_inbounds renew
    inbounds_alike [] o = refl
    inbounds_alike (i ∷ inbounds) o = elim (Bool-cases i.enable) [
      | inl on ↦ rw on (
          inbounds_alike inbounds
            (by_clients link_for host other i.id i.details (renew_clients email id key i.clients) o)
          ∙ ap (by_inbounds link_for host other inbounds)
              (clients_alike i.id i.details i.clients o))
      | inr off ↦ rw off (inbounds_alike inbounds o)
    ]

  -- The rotation of one email changes nothing in the subscription of another: not its path, and not its
  -- links.
  rotate_subscription-others :
      (other : String) (inbounds : List (XrayInbound D))
      → (email == other) ≡ false
      → subscription_of link_for host other
          (rotate_subscription link_for host id key email inbounds).0
        ≡ subscription_of link_for host other inbounds
  unfolding rotate_subscription
  rotate_subscription-others other inbounds apart =
      subscription_of-by_inbounds link_for host other (renew email id key inbounds)
      ∙ inbounds_alike other apart inbounds none
      ∙ sym (subscription_of-by_inbounds link_for host other inbounds)

  module _ (given : (id == "" || key == "") ≡ false) where
    client_Holds :
        (b : Bool) (n : ℕ) (d : D) (c : XrayClient) (o : Option Subscription)
        → Holds id key b o
        → Holds id key
            (b || c.email == email)
            (by_client link_for host email n d (renewed email id key c) o)
    unfolding by_client
    client_Holds b n d c o h = elim (Bool-cases (c.email == email)) [
      | inl same ↦
          let c' : XrayClient = record c { sub_id = id; sub_key = key } in
          rw (same, given, same)
            (entry_IsNew id key b n c' (link_of link_for host d c') o refl refl h)
      | inr different ↦
          rw (different, different)
            (subst (Holds id key (b || false)) (sym (if_same (is_unset c) o))
              (still_Holds id key b o h))
    ]

    clients_Holds :
        (b : Bool) (n : ℕ) (d : D) (clients : List XrayClient) (o : Option Subscription)
        → Holds id key b o
        → Holds id key
            (b || has_client email clients)
            (by_clients link_for host email n d (renew_clients email id key clients) o)
    unfolding by_clients renew_clients has_client
    clients_Holds b n d [] o h = still_Holds id key b o h
    clients_Holds b n d (c ∷ clients) o h =
        let o' : Option Subscription =
          by_client link_for host email n d (renewed email id key c) o in
        subst
          (λ r.
            Holds id key r
              (by_clients link_for host email n d (renew_clients email id key clients) o'))
          (or_assoc b (c.email == email) (has_client email clients))
          (clients_Holds (b || c.email == email) n d clients o' (client_Holds b n d c o h))

    inbounds_Holds :
        (b : Bool) (inbounds : List (XrayInbound D)) (o : Option Subscription)
        → Holds id key b o
        → Holds id key
            (b || is_served email inbounds)
            (by_inbounds link_for host email (renew email id key inbounds) o)
    unfolding by_inbounds renew
    inbounds_Holds b [] o h = still_Holds id key b o h
    inbounds_Holds b (i ∷ inbounds) o h = elim (Bool-cases i.enable) [
      | inl on ↦
          let o' : Option Subscription =
            by_clients link_for host email i.id i.details (renew_clients email id key i.clients)
              o in
          rw on (
            subst
              (λ r.
                Holds id key r (by_inbounds link_for host email (renew email id key inbounds) o'))
              (or_assoc b (has_client email i.clients) (is_served email inbounds))
              (inbounds_Holds (b || has_client email i.clients) inbounds o'
                (clients_Holds b i.id i.details i.clients o h)))
      | inr off ↦ rw off (inbounds_Holds b inbounds o h)
    ]

    -- Where a client of the email is on an enabled inbound, the rotation returns its subscription, and
    -- that carries the new pair.
    rotate_subscription-renewed :
        (inbounds : List (XrayInbound D))
        → is_served email inbounds ≡ true
        → (s : Subscription) × ((rotate_subscription link_for host id key email inbounds).1
            ≡ some s)
          × (s.sub_id ≡ id)
          × (s.sub_key ≡ key)
    unfolding rotate_subscription
    rotate_subscription-renewed inbounds served =
        let entry : Option Subscription =
          by_inbounds link_for host email (renew email id key inbounds) none in
        let held : Holds id key (is_served email inbounds) entry =
          inbounds_Holds false inbounds none (inl refl) in
        let (s, e, h, k) : IsNew id key entry = subst (λ b. Holds id key b entry) served held in
        (
          s,
          rw (served_is_found email inbounds served)
              (subscription_of-by_inbounds link_for host email (renew email id key inbounds) ∙ e),
          h,
          k,
        )

  -- Where a client of the email is on an enabled inbound, the rotation returns its subscription, which
  -- carries the new pair if neither half of that is empty, and the subscription of any other email is
  -- what it was: its path and its links.
  pub rotate_subscription_lem :
      (inbounds : List (XrayInbound D)) (other : String)
      → (id == "" || key == "") ≡ false
      → is_served email inbounds ≡ true
      → (email == other) ≡ false
      → ((s : Subscription) × ((rotate_subscription link_for host id key email inbounds).1 ≡ some s)
          × (s.sub_id ≡ id)
          × (s.sub_key ≡ key))
        × (subscription_of link_for host other
              (rotate_subscription link_for host id key email inbounds).0
            ≡ subscription_of link_for host other inbounds)
  rotate_subscription_lem inbounds other given served apart = (
    rotate_subscription-renewed given inbounds served,
    rotate_subscription-others other inbounds apart,
  )
