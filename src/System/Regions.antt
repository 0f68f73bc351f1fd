-- ===== src/System/Regions.antt =====
-- src/server.rs: the parameters of the region, from the gateway to the beaconer.
use gateway_rs.Base.{
  ℕ, ◌≡◌, refl, ◌∙◌, List, [], ◌∷◌, ◌++◌, map, Eq, Result, ok, err, if◌then◌else◌, if_both, Option,
  some,
}
use gateway_rs.Radio.Region.{RegionParams}
use gateway_rs.Radio.Packet.{TxPk, PacketError, packet_try_from, is_potential_beacon}
use gateway_rs.Radio.Gateway.{Dispatched, handle_downlink, handle_transmit_beacon}
use gateway_rs.Radio.Gateway.Events.{
  route_packet, packet_effects, task_effects, handle_udp_event, handle_message, gateway_step,
  new_client, packet_received, unable_to_parse, update_client, client_disconnected,
  no_client_with_mac, stat_received, downlink, transmit_beacon,
}
use gateway_rs.Radio.Beaconer as Beaconer
use gateway_rs.Radio.Beaconer.{received, beaconer_step, handle_region_params, timer, beacon_message}
use gateway_rs.Lorawan.Wire.{LittleEndian}
use gateway_rs.Router.Filter.{Hashing}
use gateway_rs.Radio.Beacon.{Randomness}
use gateway_rs.Radio.Packet.{Packet}
use gateway_rs.Radio.Gateway.Events.{
  GatewayMessage, GatewayEvent, udp_event, message, Out, received_beacon, new_region, radio,
  task_panics,
}
use gateway_rs.Radio.Gateway.Events as Gateway
use gateway_rs.Radio.Beaconer.{
  Surroundings, BeaconMessage, Sent, transmitted, beacon_submitted, witness_submitted,
}
use gateway_rs.Router.Dispatcher.{
  start_client, stop_client, uplink, region_changed, region_params_changed,
}
use gateway_rs.Router.Dispatcher.Rounds.{DispatcherMessage, uplinked, other_message}
use gateway_rs.Router.Client.{Message}
use gateway_rs.Router.Client as Client
use gateway_rs.System.{Timed, Effects, System, World, start, has_room, gateway_size, has_place}
use gateway_rs.System.{dispatcher_size, beaconer_size}
use gateway_rs.System.Sends.{
  timed, send_out, send_to_client, send_effect, send_beacons, send_downlink, request,
}
use gateway_rs.System.Steps.{
  Notice, Action, gateway_event, gateway_takes, gateway_sends, dispatcher_event, dispatcher_takes,
  dispatcher_sends, api_request, beaconer_timer, beaconer_takes, beaconer_sends, client_takes,
  client_ticks, client_sends, while_sending, gateway_does, gateway_meets, gateway_next,
  dispatcher_does, dispatcher_meets, dispatcher_next, beaconer_does, beaconer_meets, beaconer_next,
  act, run_server,
}

module _ {N T R : Type 0} where
  -- The last parameters in a channel of the beaconer, or those that were there before.
  abbrev pub in_inbox :
      List (BeaconMessage N T R) → Option (RegionParams R) → Option (RegionParams R)
  in_inbox [] before = before
  in_inbox (received packet ∷ rest) before = in_inbox rest before
  in_inbox (Beaconer.region_changed params ∷ rest) before = in_inbox rest (some params)

  in_inbox-append :
      (xs ys : List (BeaconMessage N T R)) (before : Option (RegionParams R))
      → in_inbox (xs ++ ys) before ≡ in_inbox ys (in_inbox xs before)
  in_inbox-append [] ys before = refl
  in_inbox-append (received packet ∷ rest) ys before = in_inbox-append rest ys before
  in_inbox-append (Beaconer.region_changed params ∷ rest) ys before =
      in_inbox-append rest ys (some params)

module _ {N T R Q : Type 0} where
  -- The last parameters among what the gateway has to send, or those that were there before.
  abbrev pub on_the_way : List (Out N T R Q × ℕ) → Option (RegionParams R) → Option (RegionParams R)
  on_the_way [] before = before
  on_the_way ((received_beacon packet, now) ∷ rest) before = on_the_way rest before
  on_the_way ((new_region params, now) ∷ rest) before = on_the_way rest (some params)
  on_the_way ((Gateway.uplink packet, now) ∷ rest) before = on_the_way rest before
  on_the_way ((radio m, now) ∷ rest) before = on_the_way rest before
  on_the_way ((task_panics, now) ∷ rest) before = on_the_way rest before

  on_the_way-radio :
      (now : ℕ) (ms : List (TxPk N Q)) (tail : List (Out N T R Q))
      (before : Option (RegionParams R))
      → on_the_way (timed now (map radio ms ++ tail)) before ≡ on_the_way (timed now tail) before
  on_the_way-radio now [] tail before = refl
  on_the_way-radio now (m ∷ ms) tail before = on_the_way-radio now ms tail before

module _ (T : Type 0) {N R Q : Type 0} where
  on_the_way-map_radio :
      (now : ℕ) (ms : List (TxPk N Q)) (before : Option (RegionParams R))
      → on_the_way (timed {T = T} now (map radio ms)) before ≡ before
  on_the_way-map_radio now [] before = refl
  on_the_way-map_radio now (m ∷ ms) before = on_the_way-map_radio now ms before

  on_the_way-task_effects :
      (now : ℕ) (task : Dispatched N Q) (before : Option (RegionParams R))
      → on_the_way (timed now (task_effects {T = T} task)) before ≡ before
  unfolding task_effects
  on_the_way-task_effects now task before =
      on_the_way-radio now task.messages (if task.panics then task_panics ∷ [] else []) before
      ∙ if_both (λ (l : List (Out N T R Q)). on_the_way (timed now l) before ≡ before) task.panics
          (task_panics ∷ []) [] refl refl

module _ (Q : Type 0) {N T R : Type 0} where
  on_the_way-packet_effects :
      (now : ℕ) (r : Result PacketError (Packet N T)) (before : Option (RegionParams R))
      → on_the_way (timed now (packet_effects {Q = Q} r)) before ≡ before
  unfolding packet_effects route_packet
  on_the_way-packet_effects now (err e) before = refl
  on_the_way-packet_effects now (ok packet) before =
      if_both (λ (l : List (Out N T R Q)). on_the_way (timed now l) before ≡ before)
        (is_potential_beacon packet.payload) (received_beacon packet ∷ [])
        (Gateway.uplink packet ∷ []) refl refl

module _ {V N T R C Q K S : Type 0} where
  -- What the beaconer has, or will have after the messages in its channel.
  abbrev pub awaited : System V N T R C Q K S → Option (RegionParams R)
  awaited s = in_inbox s.beaconer_inbox s.beaconer.region_params

  abbrev Agrees : System V N T R C Q K S → Type 0
  Agrees s =
      (awaited s ≡ s.gateway.region_params)
      × (on_the_way s.gateway_unsent s.gateway.region_params ≡ s.announced)

  pub send_out-Agrees :
      (unsent : List (Out N T R Q × ℕ)) (s : System V N T R C Q K S)
      → awaited s ≡ s.gateway.region_params
      → on_the_way unsent s.gateway.region_params ≡ s.announced
      → Agrees s
      → Agrees (send_out unsent s)
  unfolding send_out
  send_out-Agrees [] s same known keep = keep
  send_out-Agrees ((received_beacon packet, now) ∷ rest) s same known keep =
      if_both Agrees (has_room beaconer_size s.beaconer_inbox) _ s
        (
          in_inbox-append s.beaconer_inbox (received packet ∷ []) s.beaconer.region_params ∙ same,
          known,
        )
        keep
  send_out-Agrees ((new_region params, now) ∷ rest) s same known keep =
      if_both Agrees (has_room beaconer_size s.beaconer_inbox) _ s
        (
          in_inbox-append s.beaconer_inbox (Beaconer.region_changed params ∷ [])
              s.beaconer.region_params,
          known,
        )
        keep
  send_out-Agrees ((Gateway.uplink packet, now) ∷ rest) s same known keep =
      if_both Agrees (has_room dispatcher_size s.dispatcher_inbox) _ s (same, known) keep
  send_out-Agrees ((radio m, now) ∷ rest) s same known keep = (same, known)
  send_out-Agrees ((task_panics, now) ∷ rest) s same known keep = (same, known)

  send_to_client-Agrees :
      (i : ℕ) (m : Message (Packet N T) R) (rest : Effects V N T R) (s : System V N T R C Q K S)
      → Agrees s
      → Agrees (send_to_client i m rest s)
  unfolding send_to_client
  send_to_client-Agrees i m rest s h =
      if_both Agrees (has_place (s.clients i).client (s.clients i)) _ s h h

  send_effect-Agrees :
      (max_packets : ℕ) (keypair : K) (unsent : Effects V N T R) (s : System V N T R C Q K S)
      → Agrees s
      → Agrees (send_effect max_packets keypair unsent s)
  unfolding send_effect
  send_effect-Agrees n k [] s h = h
  send_effect-Agrees n k (start_client i key ∷ rest) s h = h
  send_effect-Agrees n k (stop_client i ∷ rest) s h = send_to_client-Agrees i Client.stop rest s h
  send_effect-Agrees n k (uplink i packet ∷ rest) s h =
      send_to_client-Agrees i (Client.uplink packet.0 packet.1) rest s h
  send_effect-Agrees n k (region_changed i r ∷ rest) s h =
      send_to_client-Agrees i (Client.region_changed r) rest s h
  send_effect-Agrees n k (region_params_changed params ∷ rest) s h =
      if_both Agrees (has_room gateway_size s.gateway_inbox) _ s h h

  send_beacons-Agrees :
      (unsent : List (Sent N)) (s : System V N T R C Q K S)
      → Agrees s
      → Agrees (send_beacons unsent s)
  unfolding send_beacons
  send_beacons-Agrees [] s h = h
  send_beacons-Agrees (transmitted beacon ∷ rest) s h =
      if_both Agrees (has_room gateway_size s.gateway_inbox) _ s h h
  send_beacons-Agrees (beacon_submitted report ∷ rest) s h = h
  send_beacons-Agrees (witness_submitted report ∷ rest) s h = h

  send_downlink-Agrees :
      (i : ℕ) (to_send : List (Packet N T)) (s : System V N T R C Q K S)
      → Agrees s
      → Agrees (send_downlink i to_send s)
  unfolding send_downlink
  send_downlink-Agrees i [] s h = h
  send_downlink-Agrees i (packet ∷ rest) s h =
      if_both Agrees (has_room gateway_size s.gateway_inbox) _ s h h

  request-Agrees : (s : System V N T R C Q K S) → Agrees s → Agrees (request s)
  unfolding request
  request-Agrees s h = if_both Agrees (has_room dispatcher_size s.dispatcher_inbox) _ s h h

module _ {V N T R C Q K S E : Type 0} ⦃eq : Eq V⦄ ⦃le : LittleEndian⦄ ⦃hashing : Hashing⦄
    ⦃random : Randomness⦄ (world : World N T R Q K S E) where
  gateway_does-Agrees :
      (now : ℕ) (event : GatewayEvent N T R C) (s : System V N T R C Q K S)
      → awaited s ≡ s.gateway.region_params
      → s.gateway.region_params ≡ s.announced
      → Agrees (gateway_does world now event s)
  unfolding gateway_does while_sending gateway_step handle_udp_event handle_message
  gateway_does-Agrees now (udp_event (new_client mac)) s same known = (same, known)
  gateway_does-Agrees now (udp_event (packet_received rxpk)) s same known =
      (same, on_the_way-packet_effects Q now (packet_try_from rxpk) s.gateway.region_params ∙ known)
  gateway_does-Agrees now (udp_event unable_to_parse) s same known = (same, known)
  gateway_does-Agrees now (udp_event (update_client mac)) s same known = (same, known)
  gateway_does-Agrees now (udp_event (client_disconnected mac)) s same known = (same, known)
  gateway_does-Agrees now (udp_event (no_client_with_mac mac)) s same known = (same, known)
  gateway_does-Agrees now (udp_event (stat_received mac)) s same known = (same, known)
  gateway_does-Agrees now Gateway.closed_channel s same known = (same, known)
  gateway_does-Agrees now (message (downlink packet)) s same known = (
    same,
    on_the_way-task_effects T now
          (handle_downlink world.air.parse world.air.ack world.air.negative s.gateway packet)
          s.gateway.region_params
        ∙ known,
  )
  gateway_does-Agrees now (message (transmit_beacon beacon)) s same known = (
    same,
    on_the_way-map_radio T now
          (handle_transmit_beacon world.air.negative world.air.to_mhz world.air.beacon_rate
            s.gateway beacon)
          s.gateway.region_params
        ∙ known,
  )
  gateway_does-Agrees now (message (Gateway.region_params_changed params)) s same known =
      (same, refl)

  gateway_meets-Agrees :
      (now : ℕ) (event : Gateway.UdpEvent N T C) (unsent : List (Out N T R Q × ℕ))
      (s : System V N T R C Q K S)
      → awaited s ≡ s.gateway.region_params
      → on_the_way unsent s.gateway.region_params ≡ s.announced
      → Agrees s
      → Agrees (gateway_meets world now event unsent s)
  unfolding gateway_meets
  gateway_meets-Agrees now event [] s same known keep =
      gateway_does-Agrees now (udp_event event) s same known
  gateway_meets-Agrees now event (o ∷ unsent) s same known keep = keep

  gateway_next-Agrees :
      (now : ℕ) (unsent : List (Out N T R Q × ℕ)) (inbox : List (GatewayMessage N T R))
      (s : System V N T R C Q K S)
      → awaited s ≡ s.gateway.region_params
      → on_the_way unsent s.gateway.region_params ≡ s.announced
      → Agrees s
      → Agrees (gateway_next world now unsent inbox s)
  unfolding gateway_next
  gateway_next-Agrees now (o ∷ unsent) inbox s same known keep = keep
  gateway_next-Agrees now [] [] s same known keep = keep
  gateway_next-Agrees now [] (m ∷ rest) s same known keep =
      gateway_does-Agrees now (message m) (record s { gateway_inbox = rest }) same known

  dispatcher_next-Agrees :
      (unsent : Effects V N T R) (inbox : List (DispatcherMessage (Timed N T)))
      (s : System V N T R C Q K S)
      → Agrees s
      → Agrees (dispatcher_next world unsent inbox s)
  unfolding dispatcher_next dispatcher_does
  dispatcher_next-Agrees (e ∷ unsent) inbox s h = h
  dispatcher_next-Agrees [] [] s h = h
  dispatcher_next-Agrees [] (other_message ∷ rest) s h = h
  dispatcher_next-Agrees [] (uplinked packet ∷ rest) s h = h

  dispatcher_meets-Agrees :
      (notice : Notice V R) (unsent : Effects V N T R) (s : System V N T R C Q K S)
      → Agrees s
      → Agrees (dispatcher_meets world notice unsent s)
  unfolding dispatcher_meets dispatcher_does
  dispatcher_meets-Agrees notice [] s h = h
  dispatcher_meets-Agrees notice (e ∷ unsent) s h = h

  -- The beaconer takes the parameters that are first in its channel.
  beaconer_next-Agrees :
      (unsent : List (Sent N)) (inbox : List (BeaconMessage N T R)) (s : System V N T R C Q K S)
      → in_inbox inbox s.beaconer.region_params ≡ s.gateway.region_params
      → Agrees s
      → Agrees (beaconer_next world unsent inbox s)
  unfolding beaconer_next beaconer_does beaconer_step handle_region_params
  beaconer_next-Agrees (m ∷ unsent) inbox s same keep = keep
  beaconer_next-Agrees [] [] s same keep = keep
  beaconer_next-Agrees [] (received packet ∷ rest) s same keep = (same, keep.1)
  beaconer_next-Agrees [] (Beaconer.region_changed params ∷ rest) s same keep = (same, keep.1)

  beaconer_meets-Agrees :
      (around : Surroundings E) (unsent : List (Sent N)) (s : System V N T R C Q K S)
      → Agrees s
      → Agrees (beaconer_meets world around unsent s)
  unfolding beaconer_meets beaconer_does beaconer_step
  beaconer_meets-Agrees around [] s h = h
  beaconer_meets-Agrees around (m ∷ unsent) s h = h

  act-Agrees :
      (action : Action V N T R C E) (s : System V N T R C Q K S)
      → Agrees s
      → Agrees (act world action s)
  unfolding act
  act-Agrees (gateway_event now event) s h =
      gateway_meets-Agrees now event s.gateway_unsent s h.0 h.1 h
  act-Agrees (gateway_takes now) s h =
      gateway_next-Agrees now s.gateway_unsent s.gateway_inbox s h.0 h.1 h
  act-Agrees gateway_sends s h = send_out-Agrees s.gateway_unsent s h.0 h.1 h
  act-Agrees (dispatcher_event notice) s h = dispatcher_meets-Agrees notice s.dispatcher_unsent s h
  act-Agrees dispatcher_takes s h =
      dispatcher_next-Agrees s.dispatcher_unsent s.dispatcher_inbox s h
  act-Agrees dispatcher_sends s h =
      send_effect-Agrees world.max_packets world.keypair s.dispatcher_unsent s h
  act-Agrees api_request s h = request-Agrees s h
  act-Agrees (beaconer_timer around) s h = beaconer_meets-Agrees around s.beaconer_unsent s h
  act-Agrees beaconer_takes s h = beaconer_next-Agrees s.beaconer_unsent s.beaconer_inbox s h.0 h
  act-Agrees beaconer_sends s h = send_beacons-Agrees s.beaconer_unsent s h
  act-Agrees (client_takes i) s h = h
  act-Agrees (client_ticks i now) s h = h
  act-Agrees (client_sends i) s h = send_downlink-Agrees i (s.clients i).unsent s h

  run_server-keeps_Agrees :
      (actions : List (Action V N T R C E)) (s : System V N T R C Q K S)
      → Agrees s
      → Agrees (run_server world actions s)
  unfolding run_server
  run_server-keeps_Agrees [] s h = h
  run_server-keeps_Agrees (action ∷ rest) s h =
      run_server-keeps_Agrees rest (act world action s) (act-Agrees action s h)

  -- Over any interleaving of the parts from the start, the last parameters of a region in the beaconer's
  -- channel, or the beaconer's own where there are none, are the gateway's, so that both have the same once
  -- the channel is empty. And the last that the gateway has still to send, or its own where there are none,
  -- are the last that it has taken from its channel.
  pub run_server-awaited :
      (actions : List (Action V N T R C E)) (region : R) (default_routers : Option (List V))
      (mac : C) (beacon_interval : ℕ)
      → let s =
          run_server {Q = Q} {K = K} {S = S} world actions
            (start region default_routers mac beacon_interval) in
        (awaited s ≡ s.gateway.region_params)
        × (on_the_way s.gateway_unsent s.gateway.region_params ≡ s.announced)
  unfolding start Beaconer.new_beaconer
  run_server-awaited actions region default_routers mac beacon_interval =
      run_server-keeps_Agrees actions (start region default_routers mac beacon_interval)
        (refl, refl)
