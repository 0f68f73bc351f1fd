-- ===== src/Router/Dispatcher/Events.antt =====
-- src/router/dispatcher.rs: uplinks, and the events of the loops.
use gateway_rs.Base.{
  ℕ, Bool, true, false, Option, none, some, List, [], ◌∷◌, ◌++◌, any, Eq, if◌then◌else◌,
}
use gateway_rs.Lorawan.Wire.{LittleEndian}
use gateway_rs.Router.Filter.{Hashing}
use gateway_rs.Router.Routing.{Routing, RoutingInformation, matches_routing_info}
use gateway_rs.Router.Dispatcher.{
  Routers, Dispatcher, Effect, uplink, region_params_changed, handle_routing_update,
  handle_region_params_update, handle_check, prepare_gateway_change,
}

pub data Event (V P G : Type 0) : Type 0 where
  routing_message : ℕ → Option (List (Option (Routing V))) → Event V P G
  region_message : ℕ → Option G → Event V P G
  height_answer : Option (ℕ × ℕ) → Event V P G
  uplink_message : P → Event V P G
  gateway_setup : G → Event V P G
  gateway_change : Event V P G

module _ {V P R G : Type 0} ⦃eq : Eq V⦄ ⦃le : LittleEndian⦄ ⦃hashing : Hashing⦄ where
  -- The clients whose routing matches the packet, in the order of the map.
  unfoldable pub send_matching :
      (P → Option RoutingInformation) → P → Routers V → Bool × List (Effect V P R G)
  send_matching routing_of packet [] = (false, [])
  send_matching routing_of packet ((_, entry) ∷ rest) =
      let (handled, sent) = send_matching routing_of packet rest in
      if matches_routing_info entry.routing (routing_of packet)
      then (true, uplink entry.dispatch packet ∷ sent)
      else (handled, sent)

  unfoldable pub send_default : List V → P → Routers V → List (Effect V P R G)
  send_default default_routers packet [] = []
  send_default default_routers packet ((key, entry) ∷ rest) =
      let sent = send_default default_routers packet rest in
      if any (λ v. eq.beq v key.uri) default_routers
      then uplink entry.dispatch packet ∷ sent
      else sent

  -- An error of a client's channel is ignored, here and in the default routers.
  unfoldable pub handle_uplink :
      (P → Option RoutingInformation) → P → Dispatcher V R → List (Effect V P R G)
  handle_uplink routing_of packet self =
      let (handled, sent) = send_matching routing_of packet self.routers in
      if handled then sent else elim self.default_routers [
        | none ↦ sent
        | some default_routers ↦ sent ++ send_default default_routers packet self.routers
      ]

  -- One event of the dispatcher's loops: a message of a stream, the answer to the liveness check, an
  -- uplink, the default parameters of a gateway that was set up, or the change to another gateway.
  unfoldable pub step :
      (P → Option RoutingInformation)
      → (G → R)
      → Event V P G
      → Dispatcher V R
      → Dispatcher V R × List (Effect V P R G)
  step routing_of region_of (routing_message height routings) self =
      handle_routing_update height routings self
  step routing_of region_of (region_message height params) self =
      handle_region_params_update region_of height params self
  step routing_of region_of (height_answer answer) self = ((handle_check answer self).0, [])
  step routing_of region_of (uplink_message packet) self =
      (self, handle_uplink routing_of packet self)
  step routing_of region_of (gateway_setup default_region_params) self =
      (self, region_params_changed default_region_params ∷ [])
  step routing_of region_of gateway_change self = (prepare_gateway_change self, [])

  unfoldable pub steps :
      (P → Option RoutingInformation)
      → (G → R)
      → List (Event V P G)
      → Dispatcher V R
      → Dispatcher V R × List (Effect V P R G)
  steps routing_of region_of [] self = (self, [])
  steps routing_of region_of (event ∷ events) self =
      let (first, sent) = step routing_of region_of event self in
      let (last, more) = steps routing_of region_of events first in (last, sent ++ more)
