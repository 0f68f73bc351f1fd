-- ===== src/Radio/Beaconer/Agreement.antt =====
-- src/gateway.rs, src/beaconer.rs: the gateway and the beaconer, which takes the gateway's messages in the
-- order in which they are sent.
use gateway_rs.Base.{
  ℕ, ◌≡◌, refl, ap, ◌∙◌, Bool, true, false, List, [], ◌∷◌, ◌++◌, map, Option, Bool-cases, inl, inr,
  Result, ok, err, if◌then◌else◌,
}
use gateway_rs.Lorawan.Wire.{LittleEndian}
use gateway_rs.Radio.Packet.{
  Packet, TxPk, PacketError, ProtoDataRate, packet_try_from, is_potential_beacon,
}
use gateway_rs.Radio.Beacon.{Randomness}
use gateway_rs.Radio.Gateway.{Gateway, Dispatched, handle_downlink, handle_transmit_beacon}
use gateway_rs.Radio.Gateway.Events.{
  new_client, packet_received, unable_to_parse, update_client, client_disconnected,
  no_client_with_mac, stat_received, downlink, transmit_beacon, region_params_changed, GatewayEvent,
  udp_event, message, closed_channel, Out, received_beacon, new_region, uplink, radio, task_panics,
  route_packet, packet_effects, task_effects, handle_udp_event, Radio, handle_message, gateway_step,
  gateway_steps,
}
use gateway_rs.Radio.Beaconer.{
  Beaconer, received, region_changed, BeaconerEvent, beacon_message, Signer, handle_region_params,
  beaconer_step, beaconer_steps,
}

module _ (E : Type 0) {N T R Q : Type 0} where
  -- The messages that reach the beaconer.
  abbrev pub relayed : List (Out N T R Q) → List (BeaconerEvent E N T R)
  relayed [] = []
  relayed (received_beacon packet ∷ rest) = beacon_message (received packet) ∷ relayed rest
  relayed (new_region params ∷ rest) = beacon_message (region_changed params) ∷ relayed rest
  relayed (uplink packet ∷ rest) = relayed rest
  relayed (radio m ∷ rest) = relayed rest
  relayed (task_panics ∷ rest) = relayed rest

  relayed-append : (xs ys : List (Out N T R Q)) → relayed (xs ++ ys) ≡ relayed xs ++ relayed ys
  relayed-append [] ys = refl
  relayed-append (received_beacon packet ∷ rest) ys =
      ap (◌∷◌ (beacon_message (received packet))) (relayed-append rest ys)
  relayed-append (new_region params ∷ rest) ys =
      ap (◌∷◌ (beacon_message (region_changed params))) (relayed-append rest ys)
  relayed-append (uplink packet ∷ rest) ys = relayed-append rest ys
  relayed-append (radio m ∷ rest) ys = relayed-append rest ys
  relayed-append (task_panics ∷ rest) ys = relayed-append rest ys

  relayed-radio :
      (ms : List (TxPk N Q)) (tail : List (Out N T R Q))
      → relayed (map radio ms ++ tail) ≡ relayed tail
  relayed-radio [] tail = refl
  relayed-radio (m ∷ ms) tail = relayed-radio ms tail

  relayed-map_radio : (ms : List (TxPk N Q)) → relayed (map radio ms) ≡ []
  relayed-map_radio [] = refl
  relayed-map_radio (m ∷ ms) = relayed-map_radio ms

  relayed-task_effects : (task : Dispatched N Q) → relayed (task_effects task) ≡ []
  unfolding task_effects
  relayed-task_effects task =
      relayed-radio task.messages (if task.panics then task_panics ∷ [] else []) ∙ panic task.panics
    where
      panic : (b : Bool) → relayed (if b then task_panics ∷ [] else []) ≡ []
      panic true = refl
      panic false = refl

module _ ⦃le : LittleEndian⦄ ⦃random : Randomness⦄ (E : Type 0) {N T R : Type 0} (signer : Signer N)
    (parse : T → Option ProtoDataRate) (to_hz : N → ℕ) where
  -- The beaconer after some messages.
  abbrev after : List (BeaconerEvent E N T R) → Beaconer R → Beaconer R
  after events b = (beaconer_steps signer parse to_hz events b).0

  after-append :
      (xs ys : List (BeaconerEvent E N T R)) (b : Beaconer R)
      → after (xs ++ ys) b ≡ after ys (after xs b)
  unfolding beaconer_steps
  after-append [] ys b = refl
  after-append (x ∷ xs) ys b = after-append xs ys (beaconer_step signer parse to_hz x b).0

  after-packet :
      (Q : Type 0) (r : Result PacketError (Packet N T)) (b : Beaconer R)
      → (after (relayed E {Q = Q} (packet_effects r)) b).region_params ≡ b.region_params
  unfolding packet_effects route_packet beaconer_steps beaconer_step
  after-packet Q (err e) b = refl
  after-packet Q (ok packet) b = elim (Bool-cases (is_potential_beacon packet.payload)) [
    | inl e ↦ rw (packet_effects, route_packet, e) refl
    | inr e ↦ rw (packet_effects, route_packet, e) refl
  ]

  -- The region of the beaconer after what a gateway has sent, against that of the gateway.
  abbrev Agrees : {C Q : Type 0} → Gateway R C × List (Out N T R Q) → Beaconer R → Type 0
  Agrees result b = (after (relayed E result.1) b).region_params ≡ result.0.region_params

  module _ {C Q : Type 0} (air : Radio N T Q) where
    gateway_step-Agrees :
        (event : GatewayEvent N T R C) (self : Gateway R C) (b : Beaconer R)
        → b.region_params ≡ self.region_params
        → Agrees (gateway_step air event self) b
    unfolding gateway_step handle_udp_event handle_message beaconer_steps beaconer_step
        handle_region_params
    gateway_step-Agrees (udp_event (new_client mac)) self b h = h
    gateway_step-Agrees (udp_event (packet_received rxpk)) self b h =
        after-packet Q (packet_try_from rxpk) b ∙ h
    gateway_step-Agrees (udp_event unable_to_parse) self b h = h
    gateway_step-Agrees (udp_event (update_client mac)) self b h = h
    gateway_step-Agrees (udp_event (client_disconnected mac)) self b h = h
    gateway_step-Agrees (udp_event (no_client_with_mac mac)) self b h = h
    gateway_step-Agrees (udp_event (stat_received mac)) self b h = h
    gateway_step-Agrees closed_channel self b h = h
    gateway_step-Agrees (message (downlink packet)) self b h =
        ap (λ events. (after events b).region_params)
          (relayed-task_effects E (handle_downlink air.parse air.ack air.negative self packet))
        ∙ h
    gateway_step-Agrees (message (transmit_beacon beacon)) self b h =
        ap (λ events. (after events b).region_params)
          (relayed-map_radio E
            (handle_transmit_beacon air.negative air.to_mhz air.beacon_rate self beacon))
        ∙ h
    gateway_step-Agrees (message (region_params_changed params)) self b h = refl

    -- A beaconer that starts with the gateway's parameters of the region, or like it with none, has them
    -- again whenever it has taken all messages of the gateway, over any events of the gateway.
    pub gateway_steps-Agrees :
        (events : List (GatewayEvent N T R C)) (self : Gateway R C) (b : Beaconer R)
        → b.region_params ≡ self.region_params
        → (beaconer_steps signer parse to_hz
            (relayed E (gateway_steps air events self).1)
            b).0.region_params
          ≡ (gateway_steps air events self).0.region_params
    unfolding gateway_steps beaconer_steps
    gateway_steps-Agrees [] self b h = h
    gateway_steps-Agrees (event ∷ events) self b h =
        let first = gateway_step air event self in
        let later = (gateway_steps air events first.0).1 in
        let b' = after (relayed E first.1) b in
        ap (λ all_events. (after all_events b).region_params) (relayed-append E first.1 later)
        ∙ ap (λ last. last.region_params) (after-append (relayed E first.1) (relayed E later) b)
        ∙ gateway_steps-Agrees events first.0 b' (gateway_step-Agrees event self b h)
