-- ===== src/Radio/Gateway/Events.antt =====
-- src/gateway.rs: the events of the packet forwarder, the messages to the gateway, and the loop over
-- both. What the gateway sends is a list of effects; the errors of its channels are ignored.
use gateway_rs.Base.{ℕ, List, [], ◌∷◌, ◌++◌, map, Option, some, Result, ok, err, if◌then◌else◌}
use gateway_rs.Lorawan.Wire.{LittleEndian}
use gateway_rs.Radio.Packet.{RxPk, Packet, TxPk, PacketError, packet_try_from, is_potential_beacon}
use gateway_rs.Radio.Region.{RegionParams}
use gateway_rs.Radio.Beacon.{Beacon}
use gateway_rs.Radio.Gateway.{Ack, Gateway, Dispatched, handle_downlink, handle_transmit_beacon}

-- The events of the runtime, of clients `C`, and those that are only logged.
pub data UdpEvent (N T C : Type 0) : Type 0 where
  new_client : C → UdpEvent N T C
  packet_received : RxPk N T → UdpEvent N T C
  unable_to_parse : UdpEvent N T C
  update_client : C → UdpEvent N T C
  client_disconnected : C → UdpEvent N T C
  no_client_with_mac : C → UdpEvent N T C
  stat_received : C → UdpEvent N T C

pub data GatewayMessage (N T R : Type 0) : Type 0 where
  downlink : Packet N T → GatewayMessage N T R
  transmit_beacon : Beacon → GatewayMessage N T R
  region_params_changed : RegionParams R → GatewayMessage N T R

pub data GatewayEvent (N T R C : Type 0) : Type 0 where
  udp_event : UdpEvent N T C → GatewayEvent N T R C
  message : GatewayMessage N T R → GatewayEvent N T R C
  closed_channel : GatewayEvent N T R C

-- What goes out: to the beaconer, to the dispatcher and to the packet forwarder. A task of a downlink
-- may panic.
pub data Out (N T R Q : Type 0) : Type 0 where
  received_beacon : Packet N T → Out N T R Q
  new_region : RegionParams R → Out N T R Q
  uplink : Packet N T → Out N T R Q
  radio : TxPk N Q → Out N T R Q
  task_panics : Out N T R Q

module _ {N T R Q : Type 0} where
  unfoldable pub route_packet : Packet N T → List (Out N T R Q)
  route_packet packet =
      if is_potential_beacon packet.payload then received_beacon packet ∷ [] else uplink packet ∷ []

  unfoldable pub packet_effects : Result PacketError (Packet N T) → List (Out N T R Q)
  packet_effects (ok packet) = route_packet packet
  packet_effects (err e) = []

  unfoldable pub task_effects : Dispatched N Q → List (Out N T R Q)
  task_effects task = map radio task.messages ++ (if task.panics then task_panics ∷ [] else [])

module _ ⦃le : LittleEndian⦄ {N T R C : Type 0} {Q : Type 0} where
  unfoldable pub handle_udp_event : UdpEvent N T C → Gateway R C → Gateway R C × List (Out N T R Q)
  handle_udp_event (new_client mac) self = (record self { downlink_mac = mac }, [])
  handle_udp_event (packet_received rxpk) self = (self, packet_effects (packet_try_from rxpk))
  handle_udp_event unable_to_parse self = (self, [])
  handle_udp_event (update_client mac) self = (self, [])
  handle_udp_event (client_disconnected mac) self = (self, [])
  handle_udp_event (no_client_with_mac mac) self = (self, [])
  handle_udp_event (stat_received mac) self = (self, [])

-- The parser of data rates, the answers of the forwarder, negation as in the power, and the frequency
-- and data rate of beacons.
pub record Radio (N T Q : Type 0) : Type 0 where
  pub parse : T → Option Q
  pub ack : TxPk N Q → Ack
  pub negative : ℕ → Option ℕ
  pub to_mhz : ℕ → N
  pub beacon_rate : Q

module _ ⦃le : LittleEndian⦄ {N T R C Q : Type 0} (air : Radio N T Q) where
  unfoldable pub handle_message :
      GatewayMessage N T R → Gateway R C → Gateway R C × List (Out N T R Q)
  handle_message (downlink packet) self =
      (self, task_effects (handle_downlink air.parse air.ack air.negative self packet))
  handle_message (transmit_beacon beacon) self =
      (self, map radio (handle_transmit_beacon air.negative air.to_mhz air.beacon_rate self beacon))
  handle_message (region_params_changed params) self =
      (record self { region_params = some params }, new_region params ∷ [])

  unfoldable pub gateway_step :
      GatewayEvent N T R C → Gateway R C → Gateway R C × List (Out N T R Q)
  gateway_step (udp_event event) self = handle_udp_event event self
  gateway_step (message m) self = handle_message m self
  gateway_step closed_channel self = (self, [])

  -- The loop, over the events until the shutdown.
  unfoldable pub gateway_steps :
      List (GatewayEvent N T R C) → Gateway R C → Gateway R C × List (Out N T R Q)
  gateway_steps [] self = (self, [])
  gateway_steps (event ∷ events) self =
      let (first, sent) = gateway_step event self in
      let (last, more) = gateway_steps events first in (last, sent ++ more)
