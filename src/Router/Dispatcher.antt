-- ===== src/Router/Dispatcher.antt =====
-- src/router/dispatcher.rs: the state of the dispatcher and its handlers. What a handler sends over
-- a channel is a list of effects, in order; the map of routers is a list in the order of insertion,
-- one of the orders that a `HashMap` can have.
pub mod Events
pub mod Table
pub mod Removal
pub mod Runs
pub mod Updates
pub mod Uplinks
pub mod Heights
pub mod Rounds
pub mod Trace
pub mod Refines
pub mod Replies
pub mod Channels
pub mod Sent
use gateway_rs.Base.{
  ℕ, ◌+◌, ◌%◌, ◌^◌, Bool, true, false, not, ◌&&◌, Option, none, some, List, [], ◌∷◌, ◌++◌, any,
  retain, Eq, leb, ltb, ◌==◌, if◌then◌else◌, Result, ok, err, map,
}
use gateway_rs.Lorawan.Wire.{LittleEndian}
use gateway_rs.Router.Filter.{Hashing}
use gateway_rs.Router.Routing.{
  Routing, RoutingInformation, RoutingProto, contains_uri, matches_routing_info,
}

pub record RouterKey (V : Type 0) : Type 0 where
  pub oui : ℕ
  pub uri : V

-- `dispatch` names the channel to the router's client.
pub record RouterEntry (V : Type 0) : Type 0 where
  pub routing : Routing V
  pub dispatch : ℕ

abbrev pub Routers : Type 0 → Type 0
Routers V = List (RouterKey V × RouterEntry V)

-- The parts of the state that the handlers read or change. `started` counts the clients that were
-- started, so that the next one has a channel of its own.
pub record Dispatcher (V R : Type 0) : Type 0 where
  pub region : R
  pub routing_height : ℕ
  pub region_height : ℕ
  pub gateway_retry : ℕ
  pub routers : Routers V
  pub default_routers : Option (List V)
  pub started : ℕ

-- `P` is the type of packets, `R` of regions and `G` of region parameters.
pub data Effect (V P R G : Type 0) : Type 0 where
  start_client : ℕ → RouterKey V → Effect V P R G
  stop_client : ℕ → Effect V P R G
  uplink : ℕ → P → Effect V P R G
  region_changed : ℕ → R → Effect V P R G
  region_params_changed : G → Effect V P R G

unfoldable pub new : {V R : Type 0} → R → Option (List V) → Dispatcher V R
new region default_routers = record {
  region = region;
  routing_height = 0;
  region_height = 0;
  gateway_retry = 0;
  routers = [];
  default_routers = default_routers;
  started = 0;
}

-- `check_gateway`: the service's answer, whose block may be too old.
unfoldable pub check_gateway : Option (ℕ × ℕ) → Bool
check_gateway none = false
check_gateway (some (_, block_age)) = leb block_age 1800

module _ {V R : Type 0} where
  -- The liveness check of `run_with_gateway`, and whether the loop goes on.
  unfoldable pub handle_check : Option (ℕ × ℕ) → Dispatcher V R → Dispatcher V R × Bool
  handle_check height self =
      if check_gateway height then (record self { gateway_retry = 0 }, true) else (self, false)

  unfoldable pub prepare_gateway_change : Dispatcher V R → Dispatcher V R
  prepare_gateway_change self = record self {
    routing_height = 0;
    region_height = 0;
    gateway_retry = (self.gateway_retry + 1) % 2 ^ 32;
  }

module _ {V : Type 0} ⦃eq : Eq V⦄ where
  -- The derived `PartialEq`.
  unfoldable pub key_eq : RouterKey V → RouterKey V → Bool
  key_eq a b = (a.oui == b.oui) && eq.beq a.uri b.uri

  -- `get_mut` and the assignment to the entry's routing, where the key is present.
  unfoldable pub update_entry : RouterKey V → Routing V → Routers V → Option (Routers V)
  update_entry key routing [] = none
  update_entry key routing ((k, entry) ∷ rest) =
      let more = update_entry key routing rest in
      if key_eq k key
      then some ((k, record entry { routing = routing }) ∷ rest)
      else elim more [ none ↦ none | some updated ↦ some ((k, entry) ∷ updated) ]

  -- The predicate of `retain`: whether a router is removed.
  unfoldable pub is_removed : Routing V → RouterKey V × RouterEntry V → Bool
  is_removed routing (key, entry) =
      (key.oui == routing.oui) && not (contains_uri entry.routing key.uri)

module _ {V P R G : Type 0} ⦃eq : Eq V⦄ where
  -- `start_router` and the insertion. Starting a client does not fail: `RouterService::new` returns
  -- `Ok` always.
  unfoldable pub update_router :
      Routing V → V → Dispatcher V R → Dispatcher V R × List (Effect V P R G)
  update_router routing uri self =
      let key : RouterKey V = record { oui = routing.oui; uri = uri } in
      elim (update_entry key routing self.routers) [
        | some updated ↦ (record self { routers = updated }, [])
        | none ↦ (
          record self {
            routers =
                self.routers ++ (key, record { routing = routing; dispatch = self.started }) ∷ [];
            started = self.started + 1;
          },
          start_client self.started key ∷ [],
        )
      ]

  unfoldable pub update_routers :
      Routing V → List V → Dispatcher V R → Dispatcher V R × List (Effect V P R G)
  update_routers routing [] self = (self, [])
  update_routers routing (uri ∷ uris) self =
      let (first, sent) = update_router routing uri self in
      let (last, more) = update_routers routing uris first in (last, sent ++ more)

  unfoldable pub handle_oui_routing_update :
      Routing V → Dispatcher V R → Dispatcher V R × List (Effect V P R G)
  handle_oui_routing_update routing self =
      let (updated, sent) = update_routers routing routing.uris self in
      let removables = retain (is_removed routing) updated.routers in
      (
        record updated { routers = retain (λ r. not (is_removed routing r)) updated.routers },
        sent ++ map (λ (r : RouterKey V × RouterEntry V). stop_client r.1.dispatch) removables,
      )

  -- The loop over the messages of one update; a message that does not parse is skipped.
  unfoldable pub handle_routings :
      List (Option (Routing V)) → Dispatcher V R → Dispatcher V R × List (Effect V P R G)
  handle_routings [] self = (self, [])
  handle_routings (none ∷ rest) self = handle_routings rest self
  handle_routings (some routing ∷ rest) self =
      let (first, sent) = handle_oui_routing_update routing self in
      let (last, more) = handle_routings rest first in (last, sent ++ more)

  -- `routings` is `none` where the response does not hold any, and each of them has been parsed.
  unfoldable pub handle_routing_update :
      ℕ
      → Option (List (Option (Routing V)))
      → Dispatcher V R
      → Dispatcher V R × List (Effect V P R G)
  handle_routing_update height routings self =
      if leb height self.routing_height then (self, []) else elim routings [
        | none ↦ (self, [])
        | some protos ↦
            let (updated, sent) = handle_routings protos self in
            (record updated { routing_height = height }, sent)
      ]

  unfoldable pub handle_region_params_update :
      (G → R) → ℕ → Option G → Dispatcher V R → Dispatcher V R × List (Effect V P R G)
  handle_region_params_update region_of height params self =
      if leb height self.region_height then (self, []) else elim params [
        | none ↦ (self, [])
        | some region_params ↦ (
          record self { region = region_of region_params; region_height = height },
          region_params_changed region_params
              ∷ map
                  (λ (r : RouterKey V × RouterEntry V).
                    region_changed r.1.dispatch (region_of region_params))
                  self.routers,
        )
      ]
