-- ===== src/Xray/Subscriptions.antt =====
-- BOT/xray.py, the subscriptions that `XrayState` makes of its inbounds: `subscriptions`,
-- `subscription_of`, `rotate_subscription` and `canonical_subscription`. `D` is what the link of a
-- client needs of its inbound, and `link_for` makes the link, `none` where it raises or is empty.
-- Of a client the email and the pair are kept, and `ident` for the link; the first of `links` is
-- `link`.
pub mod Apart
pub mod Rotated
pub mod Unserved
mod Tests
use obhod.Prelude.{
  ℕ, Bool, true, false, ◌&&◌, ◌||◌, not, Option, none, some, List, [], ◌∷◌, ◌++◌, String,
  if◌then◌else◌, ◌==◌, text_key,
}

pub record XrayClient : Type 0 where
  pub email : String
  pub ident : String
  pub sub_id : String
  pub sub_key : String

pub record XrayInbound (D : Type 0) : Type 0 where
  pub id : ℕ
  pub enable : Bool
  pub details : D
  pub clients : List XrayClient

pub record Subscription : Type 0 where
  pub email : String
  pub inbound_id : ℕ
  pub sub_id : String
  pub sub_key : String
  pub links : List String

abbrev pub link_list : Option String → List String
link_list none = []
link_list (some link) = link ∷ []

abbrev pub opened : ℕ → XrayClient → Option String → Subscription
opened inbound_id c link = record {
  email = c.email;
  inbound_id = inbound_id;
  sub_id = c.sub_id;
  sub_key = c.sub_key;
  links = link_list link;
}

abbrev pub longer : Option String → Subscription → Subscription
longer link s = record s { links = s.links ++ link_list link }

-- The link goes to the entry of the email, which the first client of the email opens.
unfoldable pub add_link : ℕ → XrayClient → Option String → List Subscription → List Subscription
add_link inbound_id c link [] = opened inbound_id c link ∷ []
add_link inbound_id c link (s ∷ subs) =
    let rest = add_link inbound_id c link subs in
    if s.email == c.email then longer link s ∷ subs else s ∷ rest

-- `not client.sub_id or not client.sub_key`
abbrev pub is_unset : XrayClient → Bool
is_unset c = c.sub_id == "" || c.sub_key == ""

-- `subscription_of`, on the subscriptions that were made.
unfoldable pub find_sub : String → List Subscription → Option Subscription
find_sub email [] = none
find_sub email (s ∷ subs) =
    let rest = find_sub email subs in if s.email == email then some s else rest

module _ {D : Type 0} (link_for : D → XrayClient → String → Option String) (host : String) where
  -- No link without an address.
  abbrev pub link_of : D → XrayClient → Option String
  link_of details c = if host == "" then none else link_for details c host

  unfoldable pub add_clients : ℕ → D → List XrayClient → List Subscription → List Subscription
  add_clients inbound_id details [] subs = subs
  add_clients inbound_id details (c ∷ clients) subs =
      add_clients inbound_id details clients
        (if is_unset c then subs else add_link inbound_id c (link_of details c) subs)

  unfoldable pub add_inbounds : List (XrayInbound D) → List Subscription → List Subscription
  unfolding add_clients
  add_inbounds [] subs = subs
  add_inbounds (i ∷ inbounds) subs =
      add_inbounds inbounds (if i.enable then add_clients i.id i.details i.clients subs else subs)

  unfoldable pub subscriptions : List (XrayInbound D) → List Subscription
  unfolding add_inbounds
  subscriptions inbounds = add_inbounds inbounds []

  unfoldable pub subscription_of : String → List (XrayInbound D) → Option Subscription
  unfolding subscriptions find_sub
  subscription_of email inbounds = find_sub email (subscriptions inbounds)

-- `client.sub_id = sub_id` and `client.sub_key = sub_key` for the clients of the email.
abbrev pub renewed : String → String → String → XrayClient → XrayClient
renewed email id key c = if c.email == email then record c { sub_id = id; sub_key = key } else c

unfoldable pub renew_clients : String → String → String → List XrayClient → List XrayClient
renew_clients email id key [] = []
renew_clients email id key (c ∷ clients) =
    renewed email id key c ∷ renew_clients email id key clients

unfoldable pub has_client : String → List XrayClient → Bool
has_client email [] = false
has_client email (c ∷ clients) = c.email == email || has_client email clients

module _ {D : Type 0} where
  unfoldable pub renew : String → String → String → List (XrayInbound D) → List (XrayInbound D)
  unfolding renew_clients
  renew email id key [] = []
  renew email id key (i ∷ inbounds) =
      record i { clients = renew_clients email id key i.clients } ∷ renew email id key inbounds

  unfoldable pub is_found : String → List (XrayInbound D) → Bool
  unfolding has_client
  is_found email [] = false
  is_found email (i ∷ inbounds) = has_client email i.clients || is_found email inbounds

-- `canonical_subscription` with no client to skip: the first pair of the email.
unfoldable pub first_pair : String → List XrayClient → Option (String × String)
first_pair email [] = none
first_pair email (c ∷ clients) =
    let rest = first_pair email clients in
    if c.email == email && not (is_unset c) then some (c.sub_id, c.sub_key) else rest

abbrev pub or_next : Option (String × String) → Option (String × String) → Option (String × String)
or_next none next = next
or_next (some pair) next = some pair

module _ {D : Type 0} where
  unfoldable pub canonical_subscription : String → List (XrayInbound D) → Option (String × String)
  unfolding first_pair
  canonical_subscription email [] = none
  canonical_subscription email (i ∷ inbounds) =
      or_next (first_pair email i.clients) (canonical_subscription email inbounds)

-- The inbounds that the rotation leaves, and what it returns; the new texts are drawn at random.
module _ {D : Type 0} (link_for : D → XrayClient → String → Option String) (host : String) where
  unfoldable pub rotate_subscription :
      String → String → String → List (XrayInbound D) → List (XrayInbound D) × Option Subscription
  unfolding renew is_found subscription_of
  rotate_subscription id key email inbounds =
      let after = renew email id key inbounds in
      (after, if is_found email inbounds then subscription_of link_for host email after else none)
