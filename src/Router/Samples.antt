-- ===== src/Router/Samples.antt =====
-- Two routers and a client, to run src/router/ on.
use gateway_rs.Base.{
  ℕ, ◌+◌, ◌-◌, ◌*◌, ◌%◌, ◌^◌, ◌≤◌, ◌<◌, ◌≡◌, ◌↔◌, refl, arith, List, [], ◌∷◌, ◌++◌, length, Option,
  some, true, false, ◌==◌, ==_refl, Eq, All,
}
use gateway_rs.Lorawan.Endian.{byteorder}
use gateway_rs.Router.Filter.{Hashing, DevAddrFilter, devaddr_from_bin, devaddr_contains}
use gateway_rs.Router.Filter.Subnets.{devaddr_contains-devaddr_from_bin, devaddr_contains-high_base}
use gateway_rs.Router.Routing.{
  KeyedUri, keyed_uri_eq, KeyedUri_Eq, Routing, RoutingInformation, devaddr, contains_uri,
  matches_routing_info, matches_routing_data,
}
use gateway_rs.Router.Dispatcher.{
  RouterKey, Dispatcher, new, update_entry, update_router, update_routers,
  handle_oui_routing_update, handle_routings, handle_routing_update, is_removed, key_eq,
}
use gateway_rs.Router.Dispatcher.Events.{
  Event, routing_message, uplink_message, steps, step, handle_uplink, send_matching, send_default,
}
use gateway_rs.Router.Dispatcher.Table.{keys, Routed}
use gateway_rs.Router.Dispatcher.Removal.{stopped, key_of}
use gateway_rs.Router.Dispatcher.Runs.{steps-ne-stopped}
use gateway_rs.Router.Dispatcher.Updates.{handle_oui_routing_update-Routed}
use gateway_rs.Router.Dispatcher.Uplinks.{handle_uplink-recipients, recipients, sends}
use gateway_rs.Router.Dispatcher.Heights.{steps-stale}

devaddr_contains-devaddr_from_bin_example :
    (filter : DevAddrFilter) × (devaddr_from_bin (0 ∷ 2 ∷ 0 ∷ 127 ∷ 255 ∷ 0 ∷ []) ≡ some filter)
    × ((d : ℕ)
        → (devaddr_contains filter d ≡ true)
          ↔ ((1024 ≤ d % 2 ^ 23) × (d % 2 ^ 23 < 1024 + (2 ^ 23 - 8388352) * 4)))
devaddr_contains-devaddr_from_bin_example =
    devaddr_contains-devaddr_from_bin (0 ∷ 2 ∷ 0 ∷ 127 ∷ 255 ∷ 0 ∷ []) 1024 8388352 refl
      (omega arith) (omega arith) refl

devaddr_contains-high_base_example :
    (filter : DevAddrFilter) × (devaddr_from_bin (128 ∷ 0 ∷ 0 ∷ 127 ∷ 255 ∷ 255 ∷ []) ≡ some filter)
    × ((d : ℕ) → devaddr_contains filter d ≡ false)
devaddr_contains-high_base_example =
    devaddr_contains-high_base (128 ∷ 0 ∷ 0 ∷ 127 ∷ 255 ∷ 255 ∷ []) (2 ^ 24) 8388607 refl
      (omega arith) (omega arith) refl (omega arith)

equal_symm : (a b : ℕ) → (a == b) ≡ true → (b == a) ≡ true
equal_symm a b h = ground arith

equal_trans : (a b c : ℕ) → (a == b) ≡ true → (b == c) ≡ true → (a == c) ≡ true
equal_trans a b c h h' = ground arith

abbrev numbers : Eq ℕ
numbers = record { beq = ◌==◌; beq_refl = ==_refl; beq_symm = equal_symm; beq_trans = equal_trans }

abbrev uris_equal : Eq (KeyedUri ℕ ℕ)
uris_equal = KeyedUri_Eq ⦃eu = numbers⦄ ⦃ek = numbers⦄

abbrev hashing : Hashing
hashing = record { xor16_contains = λ filter h. false; xxh64 = λ bytes. 0 }

abbrev first_uri : KeyedUri ℕ ℕ
first_uri = record { uri = 10; pubkey = 20 }

abbrev second_uri : KeyedUri ℕ ℕ
second_uri = record { uri = 11; pubkey = 21 }

abbrev both : Routing (KeyedUri ℕ ℕ)
both = record {
  oui = 1;
  uris = first_uri ∷ second_uri ∷ [];
  filters = [];
  subnets = record { base = 1024; size = 1024 } ∷ [];
}

abbrev second_only : Routing (KeyedUri ℕ ℕ)
second_only = record {
  oui = 1;
  uris = second_uri ∷ [];
  filters = [];
  subnets = record { base = 2048; size = 8 } ∷ [];
}

-- A packet is its device address.
abbrev routing_of : ℕ → Option RoutingInformation
routing_of d = some (record { data_of = some (devaddr d) })

abbrev region_of : ℕ → ℕ
region_of params = params

abbrev start : Dispatcher (KeyedUri ℕ ℕ) ℕ
start = new 5 (some (second_uri ∷ []))

abbrev updates : List (Event (KeyedUri ℕ ℕ) ℕ ℕ)
updates = routing_message 7 (some (some both ∷ [])) ∷ uplink_message 1030 ∷ []

abbrev later : List (Event (KeyedUri ℕ ℕ) ℕ ℕ)
later = routing_message 8 (some (some second_only ∷ [])) ∷ []

-- The router under the first uri stays, though the last routing does not name it.
two_left :
    length
      (steps ⦃eq = uris_equal⦄ ⦃le = byteorder⦄ ⦃hashing = hashing⦄ routing_of region_of later
        (steps ⦃eq = uris_equal⦄ ⦃le = byteorder⦄ ⦃hashing = hashing⦄ routing_of region_of updates
          start).0).0.routers
    ≡ 2
unfolding steps step handle_routing_update handle_routings handle_oui_routing_update update_routers
    update_router update_entry is_removed key_eq keyed_uri_eq contains_uri new handle_uplink
    send_matching matches_routing_info matches_routing_data devaddr_contains send_default
    KeyedUri_Eq
two_left = refl

steps-ne-stopped_example :
    (stopped
        (steps ⦃eq = uris_equal⦄ ⦃le = byteorder⦄ ⦃hashing = hashing⦄ routing_of region_of updates
          (new 5 (some (second_uri ∷ [])))).1
      ≡ [])
    × ((added : List (RouterKey (KeyedUri ℕ ℕ))) × (keys ⦃eq = uris_equal⦄
            (steps ⦃eq = uris_equal⦄ ⦃le = byteorder⦄ ⦃hashing = hashing⦄ routing_of region_of later
              (steps ⦃eq = uris_equal⦄ ⦃le = byteorder⦄ ⦃hashing = hashing⦄ routing_of region_of
                updates
                (new 5 (some (second_uri ∷ [])))).0).0.routers
          ≡ keys ⦃eq = uris_equal⦄
              (steps ⦃eq = uris_equal⦄ ⦃le = byteorder⦄ ⦃hashing = hashing⦄ routing_of region_of
                updates
                (new 5 (some (second_uri ∷ [])))).0.routers
            ++ added))
steps-ne-stopped_example =
    steps-ne-stopped ⦃eq = uris_equal⦄ ⦃le = byteorder⦄ ⦃hashing = hashing⦄ routing_of region_of 5
      (some (second_uri ∷ [])) updates later

-- A dispatcher with one router.
abbrev one_router : Dispatcher (KeyedUri ℕ ℕ) ℕ
one_router = record {
  region = 5;
  routing_height = 7;
  region_height = 0;
  gateway_retry = 0;
  routers = (record { oui = 1; uri = first_uri }, record { routing = both; dispatch = 0 }) ∷ [];
  default_routers = some (first_uri ∷ []);
  started = 1;
}

named : contains_uri ⦃eq = uris_equal⦄ both first_uri ≡ true
unfolding contains_uri keyed_uri_eq KeyedUri_Eq
named = refl

handle_oui_routing_update-Routed_example :
    All
      (λ uri.
        Routed ⦃eq = uris_equal⦄
          (key_of ⦃eq = uris_equal⦄ second_only uri)
          second_only
          (handle_oui_routing_update {P = ℕ} {G = ℕ} ⦃eq = uris_equal⦄ second_only
            one_router).0.routers)
      second_only.uris
handle_oui_routing_update-Routed_example =
    handle_oui_routing_update-Routed ℕ ℕ ⦃eq = uris_equal⦄ second_only one_router (named, tt)

handle_uplink-recipients_example :
    handle_uplink {G = ℕ} ⦃eq = uris_equal⦄ ⦃le = byteorder⦄ ⦃hashing = hashing⦄ routing_of 9
      one_router
    ≡ sends ⦃eq = uris_equal⦄ ⦃le = byteorder⦄ ⦃hashing = hashing⦄ 9
        (recipients ⦃eq = uris_equal⦄ ⦃le = byteorder⦄ ⦃hashing = hashing⦄ routing_of 9 one_router)
handle_uplink-recipients_example =
    handle_uplink-recipients ⦃eq = uris_equal⦄ ⦃le = byteorder⦄ ⦃hashing = hashing⦄ routing_of 9
      one_router

steps-stale_example :
    step ⦃eq = uris_equal⦄ ⦃le = byteorder⦄ ⦃hashing = hashing⦄ routing_of region_of
      (routing_message 8 (some (some both ∷ [])))
      (steps ⦃eq = uris_equal⦄ ⦃le = byteorder⦄ ⦃hashing = hashing⦄ routing_of region_of
        (routing_message 8 (some (some second_only ∷ [])) ∷ uplink_message 9 ∷ [])
        one_router).0
    ≡ (
      (steps ⦃eq = uris_equal⦄ ⦃le = byteorder⦄ ⦃hashing = hashing⦄ routing_of region_of
          (routing_message 8 (some (some second_only ∷ [])) ∷ uplink_message 9 ∷ [])
          one_router).0,
      [],
    )
steps-stale_example =
    steps-stale ⦃eq = uris_equal⦄ ⦃le = byteorder⦄ ⦃hashing = hashing⦄ routing_of region_of 8
      (some second_only ∷ []) (uplink_message 9 ∷ []) one_router 8 (some (some both ∷ [])) (tt, tt)
      (omega arith)
