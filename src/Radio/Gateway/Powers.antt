-- ===== src/Radio/Gateway/Powers.antt =====
-- src/gateway.rs: the power of what the gateway sends, over a run of the loop.
use gateway_rs.Base.{
  ℕ, ◌≡◌, refl, sym, ap, ◌∙◌, Bool, true, false, List, [], ◌∷◌, map, All, All-append, Option, some,
  Option-cases, Bool-cases, Result, ok, err, inl, inr, if◌then◌else◌,
}
use mathlib.Core.Path.{subst}
use gateway_rs.Lorawan.Wire.{LittleEndian}
use gateway_rs.Radio.Packet.{Packet, TxPk, PacketError, packet_try_from, is_potential_beacon}
use gateway_rs.Radio.Region.{RegionParams, tx_power}
use gateway_rs.Radio.Beacon.{Beacon, beacon_to_pull_resp}
use gateway_rs.Radio.Gateway.{Gateway, Dispatched, handle_downlink, handle_transmit_beacon}
use gateway_rs.Radio.Gateway.Downlinks.{Carries, handle_downlink-Carries}
use gateway_rs.Radio.Gateway.Events.{
  new_client, packet_received, unable_to_parse, update_client, client_disconnected,
  no_client_with_mac, stat_received, downlink, transmit_beacon, region_params_changed, GatewayEvent,
  udp_event, message, closed_channel, Out, received_beacon, new_region, uplink, radio, task_panics,
  route_packet, packet_effects, task_effects, handle_udp_event, Radio, handle_message, gateway_step,
  gateway_steps,
}

module _ {N T R Q : Type 0} (air : Radio N T Q) (region : Option (RegionParams R)) where
  -- The parameters of a region are known, and the power is the one that they give.
  pub record Powered (m : TxPk N Q) : Type 0 where
    pub params : RegionParams R
    pub known : region ≡ some params
    pub allowed : tx_power air.negative params ≡ some m.powe

  abbrev pub Allowed : Out N T R Q → Type 0
  Allowed (radio m) = Powered m
  Allowed (received_beacon packet) = Unit {0}
  Allowed (new_region params) = Unit {0}
  Allowed (uplink packet) = Unit {0}
  Allowed task_panics = Unit {0}

  Powered-Allowed : (ms : List (TxPk N Q)) → All Powered ms → All Allowed (map radio ms)
  Powered-Allowed [] h = tt
  Powered-Allowed (m ∷ ms) h = (h.0, Powered-Allowed ms h.1)

  task_effects-Allowed :
      (task : Dispatched N Q) → All Powered task.messages → All Allowed (task_effects task)
  unfolding task_effects
  task_effects-Allowed task h =
      All-append Allowed (map radio task.messages) (if task.panics then task_panics ∷ [] else [])
        (Powered-Allowed task.messages h) (panic task.panics)
    where
      panic : (b : Bool) → All Allowed (if b then task_panics ∷ [] else [])
      panic true = (tt, tt)
      panic false = tt

  packet_effects-Allowed : (r : Result PacketError (Packet N T)) → All Allowed (packet_effects r)
  unfolding packet_effects route_packet
  packet_effects-Allowed (err e) = tt
  packet_effects-Allowed (ok packet) = elim (Bool-cases (is_potential_beacon packet.payload)) [
    | inl e ↦ rw (packet_effects, route_packet, e) (tt, tt)
    | inr e ↦ rw (packet_effects, route_packet, e) (tt, tt)
  ]

  Carries-Powered :
      {params : RegionParams R} {power : ℕ} (packet : Packet N T) (ms : List (TxPk N Q))
      → region ≡ some params
      → tx_power air.negative params ≡ some power
      → All (λ m. Carries air.parse air.ack packet power m) ms
      → All Powered ms
  Carries-Powered packet [] known allowed h = tt
  Carries-Powered {params} packet (m ∷ ms) known allowed h = (
    record { params = params; known = known; allowed = allowed ∙ ap some (sym h.0.2) },
    Carries-Powered packet ms known allowed h.1,
  )

module _ ⦃le : LittleEndian⦄ {N T R C Q : Type 0} (air : Radio N T Q) (self : Gateway R C) where
  handle_downlink-Powered :
      (packet : Packet N T)
      → All
          (Powered air self.region_params)
          (handle_downlink air.parse air.ack air.negative self packet).messages
  unfolding handle_downlink
  handle_downlink-Powered packet = elim (Option-cases self.region_params) [
    | inl e ↦ rw (handle_downlink, e) tt
    | inr (params, known) ↦ elim (Option-cases (tx_power air.negative params)) [
      | inl e ↦ rw (handle_downlink, known, e) tt
      | inr (power, allowed) ↦
          Carries-Powered air self.region_params packet
            (handle_downlink air.parse air.ack air.negative self packet).messages known allowed
            (handle_downlink-Carries air.parse air.ack air.negative self packet params power known
              allowed).0
    ]
  ]

  handle_transmit_beacon-Powered :
      (beacon : Beacon)
      → All
          (Powered air self.region_params)
          (handle_transmit_beacon air.negative air.to_mhz air.beacon_rate self beacon)
  unfolding handle_transmit_beacon beacon_to_pull_resp
  handle_transmit_beacon-Powered beacon = elim (Option-cases self.region_params) [
    | inl e ↦ rw (handle_transmit_beacon, e) tt
    | inr (params, known) ↦ elim (Option-cases (tx_power air.negative params)) [
      | inl e ↦ rw (handle_transmit_beacon, known, e) tt
      | inr (power, allowed) ↦
          rw (handle_transmit_beacon, known, allowed)
            (record { params = params; known = refl; allowed = allowed }, tt)
    ]
  ]

-- An event that leaves the parameters of the region as they are.
abbrev pub keeps_region : {N T R C : Type 0} → GatewayEvent N T R C → Bool
keeps_region (udp_event event) = true
keeps_region closed_channel = true
keeps_region (message (downlink packet)) = true
keeps_region (message (transmit_beacon beacon)) = true
keeps_region (message (region_params_changed params)) = false

module _ ⦃le : LittleEndian⦄ {N T R C Q : Type 0} (air : Radio N T Q) where
  -- What a step does, where the parameters of the region stay.
  abbrev Steady : Gateway R C → Gateway R C × List (Out N T R Q) → Type 0
  Steady self result =
      (result.0.region_params ≡ self.region_params) × All (Allowed air self.region_params) result.1

  gateway_step-Steady :
      (event : GatewayEvent N T R C) (self : Gateway R C)
      → keeps_region event ≡ true
      → Steady self (gateway_step air event self)
  unfolding gateway_step handle_udp_event handle_message
  gateway_step-Steady (udp_event (new_client mac)) self h = (refl, tt)
  gateway_step-Steady (udp_event (packet_received rxpk)) self h =
      (refl, packet_effects-Allowed air self.region_params (packet_try_from rxpk))
  gateway_step-Steady (udp_event unable_to_parse) self h = (refl, tt)
  gateway_step-Steady (udp_event (update_client mac)) self h = (refl, tt)
  gateway_step-Steady (udp_event (client_disconnected mac)) self h = (refl, tt)
  gateway_step-Steady (udp_event (no_client_with_mac mac)) self h = (refl, tt)
  gateway_step-Steady (udp_event (stat_received mac)) self h = (refl, tt)
  gateway_step-Steady closed_channel self h = (refl, tt)
  gateway_step-Steady (message (downlink packet)) self h = (
    refl,
    task_effects-Allowed air self.region_params
        (handle_downlink air.parse air.ack air.negative self packet)
        (handle_downlink-Powered air self packet),
  )
  gateway_step-Steady (message (transmit_beacon beacon)) self h = (
    refl,
    Powered-Allowed air self.region_params
        (handle_transmit_beacon air.negative air.to_mhz air.beacon_rate self beacon)
        (handle_transmit_beacon-Powered air self beacon),
  )
  gateway_step-Steady (message (region_params_changed params)) self h = cc

  -- Over any events of the packet forwarder, downlinks and beacons, as long as the parameters of the
  -- region do not change, they are known whenever the gateway sends to the packet forwarder, and
  -- the message has the power that they give: while they are not known, it sends nothing there.
  pub gateway_steps-Allowed :
      (events : List (GatewayEvent N T R C)) (self : Gateway R C)
      → All (λ event. keeps_region event ≡ true) events
      → (((gateway_steps air events self).0.region_params) ≡ self.region_params)
        × All (Allowed air self.region_params) (gateway_steps air events self).1
  unfolding gateway_steps
  gateway_steps-Allowed [] self h = (refl, tt)
  gateway_steps-Allowed (event ∷ events) self h =
      let first = gateway_step air event self in
      let (same, sent) = gateway_step-Steady event self h.0 in
      let (same', more) = gateway_steps-Allowed events first.0 h.1 in
      (
        same' ∙ same,
        All-append (Allowed air self.region_params) first.1 (gateway_steps air events first.0).1
            sent
            (subst (λ region. All (Allowed air region) (gateway_steps air events first.0).1) same
              more),
      )
