-- ===== src/Xray/Subscriptions/Tests.antt =====
-- Subscriptions of a few clients.
use obhod.Prelude.{ℕ, ◌≡◌, refl, true, false, Option, none, some, List, [], ◌∷◌, String, text_key}
use Prim.Native.String.{◌++◌ as ◌<>◌}
use obhod.Xray.Subscriptions.{
  XrayClient, XrayInbound, Subscription, add_link, add_clients, add_inbounds, subscriptions,
  subscription_of, has_client, is_found, rotate_subscription, canonical_subscription,
}
use obhod.Xray.Subscriptions.Rotated.{rotate_subscription_lem}
use obhod.Xray.Subscriptions.Unserved.{rotate_subscription-unserved}

abbrev link : ℕ → XrayClient → String → Option String
link port c host = some (c.ident <> ("@" <> host))

abbrev ann : XrayClient
ann = record { email = "ann"; ident = "a"; sub_id = "i"; sub_key = "k" }

abbrev bob : XrayClient
bob = record { email = "bob"; ident = "b"; sub_id = "j"; sub_key = "l" }

abbrev inbounds : List (XrayInbound ℕ)
inbounds =
    record { id = 1; enable = true; details = 443; clients = ann ∷ bob ∷ [] }
    ∷ record { id = 2; enable = true; details = 444; clients = ann ∷ [] }
    ∷ []

abbrev disabled : List (XrayInbound ℕ)
disabled = record { id = 1; enable = false; details = 443; clients = ann ∷ [] } ∷ []

subscriptions_example :
    subscriptions link "host" inbounds
    ≡ record {
      email = "ann";
      inbound_id = 1;
      sub_id = "i";
      sub_key = "k";
      links = "a@host" ∷ "a@host" ∷ [];
    }
      ∷ record { email = "bob"; inbound_id = 1; sub_id = "j"; sub_key = "l"; links = "b@host" ∷ [] }
      ∷ []
unfolding subscriptions add_inbounds add_clients add_link text_key
subscriptions_example = refl

rotate_subscription_lem_example :
    ((s : Subscription) × ((rotate_subscription link "host" "x" "y" "ann" inbounds).1 ≡ some s)
      × (s.sub_id ≡ "x")
      × (s.sub_key ≡ "y"))
    × (subscription_of link "host" "bob" (rotate_subscription link "host" "x" "y" "ann" inbounds).0
        ≡ subscription_of link "host" "bob" inbounds)
unfolding text_key has_client
rotate_subscription_lem_example =
    rotate_subscription_lem link "host" "ann" "x" "y" inbounds "bob" refl refl refl

rotate_subscription-unserved_example :
    ((rotate_subscription link "host" "x" "y" "ann" disabled).1 ≡ none)
    × (canonical_subscription "ann" (rotate_subscription link "host" "x" "y" "ann" disabled).0
        ≡ some ("x", "y"))
unfolding text_key has_client is_found
rotate_subscription-unserved_example =
    rotate_subscription-unserved link "host" "ann" "x" "y" disabled refl refl refl
