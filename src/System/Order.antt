-- ===== src/System/Order.antt =====
-- src/server.rs: the way of the uplinks from the gateway to the dispatcher.
use gateway_rs.Base.{
  ℕ, ◌≡◌, refl, sym, ap, ◌∙◌, List, [], ◌∷◌, ◌++◌, append_assoc, append-nil, Eq, if_both, Option,
}
use gateway_rs.Lorawan.Wire.{LittleEndian}
use gateway_rs.Router.Filter.{Hashing}
use gateway_rs.Radio.Beacon.{Randomness}
use gateway_rs.Radio.Packet.{Packet}
use gateway_rs.Radio.Gateway.Events.{
  GatewayMessage, GatewayEvent, udp_event, message, Out, received_beacon, new_region, radio,
  task_panics,
}
use gateway_rs.Radio.Gateway.Events as Gateway
use gateway_rs.Radio.Beaconer.{
  Surroundings, BeaconMessage, Sent, transmitted, beacon_submitted, witness_submitted,
}
use gateway_rs.Router.Dispatcher.{
  start_client, stop_client, uplink, region_changed, region_params_changed,
}
use gateway_rs.Router.Dispatcher.Rounds.{DispatcherMessage, uplinked, other_message}
use gateway_rs.Router.Client.{Message}
use gateway_rs.Router.Client as Client
use gateway_rs.System.{Timed, Effects, System, World, start, has_room, gateway_size, has_place}
use gateway_rs.System.{dispatcher_size, beaconer_size}
use gateway_rs.System.Sends.{
  outgoing, timed, send_out, send_to_client, send_effect, send_beacons, send_downlink, request,
}
use gateway_rs.System.Steps.{
  Notice, Action, gateway_event, gateway_takes, gateway_sends, dispatcher_event, dispatcher_takes,
  dispatcher_sends, api_request, beaconer_timer, beaconer_takes, beaconer_sends, client_takes,
  client_ticks, client_sends, gateway_does, gateway_meets, gateway_next, dispatcher_does,
  dispatcher_meets, dispatcher_next, beaconer_does, beaconer_meets, beaconer_next, act, run_server,
}

module _ {P : Type 0} where
  -- The uplinks in the dispatcher's channel.
  abbrev pub uplinks : List (DispatcherMessage P) → List P
  uplinks [] = []
  uplinks (uplinked packet ∷ rest) = packet ∷ uplinks rest
  uplinks (other_message ∷ rest) = uplinks rest

  uplinks-append :
      (xs ys : List (DispatcherMessage P)) → uplinks (xs ++ ys) ≡ uplinks xs ++ uplinks ys
  uplinks-append [] ys = refl
  uplinks-append (uplinked packet ∷ rest) ys = ap (◌∷◌ packet) (uplinks-append rest ys)
  uplinks-append (other_message ∷ rest) ys = uplinks-append rest ys

  -- A message at the end of the channel.
  uplinks-push :
      (inbox : List (DispatcherMessage P)) (m : DispatcherMessage P) (later : List P)
      → uplinks (inbox ++ m ∷ []) ++ later ≡ uplinks inbox ++ (uplinks (m ∷ []) ++ later)
  uplinks-push inbox m later =
      ap (λ l. l ++ later) (uplinks-append inbox (m ∷ []))
      ∙ append_assoc (uplinks inbox) (uplinks (m ∷ [])) later

module _ {V N T R C Q K S : Type 0} where
  -- The uplinks that the gateway has heard are those that the dispatcher has taken, then those in its
  -- channel, then those that the gateway has still to send.
  abbrev Holds :
      List (Timed N T)
      → List (DispatcherMessage (Timed N T))
      → List (Out N T R Q × ℕ)
      → System V N T R C Q K S
      → Type 0
  Holds dispatched inbox unsent s = s.heard ≡ dispatched ++ (uplinks inbox ++ outgoing unsent)

  abbrev pub Conserves : System V N T R C Q K S → Type 0
  Conserves s = s.heard ≡ s.dispatched ++ (uplinks s.dispatcher_inbox ++ outgoing s.gateway_unsent)

  send_out-Conserves :
      (unsent : List (Out N T R Q × ℕ)) (s : System V N T R C Q K S)
      → Holds s.dispatched s.dispatcher_inbox unsent s
      → Conserves s
      → Conserves (send_out unsent s)
  unfolding send_out
  send_out-Conserves [] s h keep = keep
  send_out-Conserves ((received_beacon packet, now) ∷ rest) s h keep =
      if_both Conserves (has_room beaconer_size s.beaconer_inbox) _ s h keep
  send_out-Conserves ((new_region params, now) ∷ rest) s h keep =
      if_both Conserves (has_room beaconer_size s.beaconer_inbox) _ s h keep
  send_out-Conserves ((Gateway.uplink packet, now) ∷ rest) s h keep =
      if_both Conserves (has_room dispatcher_size s.dispatcher_inbox) _ s
        (h
          ∙ ap (λ l. s.dispatched ++ l)
              (sym (uplinks-push s.dispatcher_inbox (uplinked (packet, now)) (outgoing rest))))
        keep
  send_out-Conserves ((radio m, now) ∷ rest) s h keep = h
  send_out-Conserves ((task_panics, now) ∷ rest) s h keep = h

  send_to_client-Conserves :
      (i : ℕ) (m : Message (Packet N T) R) (rest : Effects V N T R) (s : System V N T R C Q K S)
      → Conserves s
      → Conserves (send_to_client i m rest s)
  unfolding send_to_client
  send_to_client-Conserves i m rest s h =
      if_both Conserves (has_place (s.clients i).client (s.clients i)) _ s h h

  send_effect-Conserves :
      (max_packets : ℕ) (keypair : K) (unsent : Effects V N T R) (s : System V N T R C Q K S)
      → Conserves s
      → Conserves (send_effect max_packets keypair unsent s)
  unfolding send_effect
  send_effect-Conserves n k [] s h = h
  send_effect-Conserves n k (start_client i key ∷ rest) s h = h
  send_effect-Conserves n k (stop_client i ∷ rest) s h =
      send_to_client-Conserves i Client.stop rest s h
  send_effect-Conserves n k (uplink i packet ∷ rest) s h =
      send_to_client-Conserves i (Client.uplink packet.0 packet.1) rest s h
  send_effect-Conserves n k (region_changed i r ∷ rest) s h =
      send_to_client-Conserves i (Client.region_changed r) rest s h
  send_effect-Conserves n k (region_params_changed params ∷ rest) s h =
      if_both Conserves (has_room gateway_size s.gateway_inbox) _ s h h

  send_beacons-Conserves :
      (unsent : List (Sent N)) (s : System V N T R C Q K S)
      → Conserves s
      → Conserves (send_beacons unsent s)
  unfolding send_beacons
  send_beacons-Conserves [] s h = h
  send_beacons-Conserves (transmitted beacon ∷ rest) s h =
      if_both Conserves (has_room gateway_size s.gateway_inbox) _ s h h
  send_beacons-Conserves (beacon_submitted report ∷ rest) s h = h
  send_beacons-Conserves (witness_submitted report ∷ rest) s h = h

  send_downlink-Conserves :
      (i : ℕ) (unsent : List (Packet N T)) (s : System V N T R C Q K S)
      → Conserves s
      → Conserves (send_downlink i unsent s)
  unfolding send_downlink
  send_downlink-Conserves i [] s h = h
  send_downlink-Conserves i (packet ∷ rest) s h =
      if_both Conserves (has_room gateway_size s.gateway_inbox) _ s h h

  request-Conserves : (s : System V N T R C Q K S) → Conserves s → Conserves (request s)
  unfolding request
  request-Conserves s h =
      if_both Conserves (has_room dispatcher_size s.dispatcher_inbox) _ s
        (h
          ∙ ap (λ l. s.dispatched ++ l)
              (sym (uplinks-push s.dispatcher_inbox other_message (outgoing s.gateway_unsent))))
        h

module _ {V N T R C Q K S E : Type 0} ⦃eq : Eq V⦄ ⦃le : LittleEndian⦄ ⦃hashing : Hashing⦄
    ⦃random : Randomness⦄ (world : World N T R Q K S E) where
  gateway_does-Conserves :
      (now : ℕ) (event : GatewayEvent N T R C) (s : System V N T R C Q K S)
      → Holds s.dispatched s.dispatcher_inbox [] s
      → Conserves (gateway_does world now event s)
  unfolding gateway_does
  gateway_does-Conserves now event s h =
      let sent = outgoing (timed now (Gateway.gateway_step world.air event s.gateway).1) in
      ap (λ l. l ++ sent)
        (h ∙ ap (λ l. s.dispatched ++ l) (append-nil (uplinks s.dispatcher_inbox)))
      ∙ append_assoc s.dispatched (uplinks s.dispatcher_inbox) sent

  gateway_meets-Conserves :
      (now : ℕ) (event : Gateway.UdpEvent N T C) (unsent : List (Out N T R Q × ℕ))
      (s : System V N T R C Q K S)
      → Holds s.dispatched s.dispatcher_inbox unsent s
      → Conserves s
      → Conserves (gateway_meets world now event unsent s)
  unfolding gateway_meets
  gateway_meets-Conserves now event [] s h keep = gateway_does-Conserves now (udp_event event) s h
  gateway_meets-Conserves now event (o ∷ unsent) s h keep = keep

  gateway_next-Conserves :
      (now : ℕ) (unsent : List (Out N T R Q × ℕ)) (inbox : List (GatewayMessage N T R))
      (s : System V N T R C Q K S)
      → Holds s.dispatched s.dispatcher_inbox unsent s
      → Conserves s
      → Conserves (gateway_next world now unsent inbox s)
  unfolding gateway_next
  gateway_next-Conserves now (o ∷ unsent) inbox s h keep = keep
  gateway_next-Conserves now [] [] s h keep = keep
  gateway_next-Conserves now [] (m ∷ rest) s h keep =
      gateway_does-Conserves now (message m) (record s { gateway_inbox = rest }) h

  dispatcher_next-Conserves :
      (unsent : Effects V N T R) (inbox : List (DispatcherMessage (Timed N T)))
      (s : System V N T R C Q K S)
      → Holds s.dispatched inbox s.gateway_unsent s
      → Conserves s
      → Conserves (dispatcher_next world unsent inbox s)
  unfolding dispatcher_next dispatcher_does
  dispatcher_next-Conserves (e ∷ unsent) inbox s h keep = keep
  dispatcher_next-Conserves [] [] s h keep = keep
  dispatcher_next-Conserves [] (other_message ∷ rest) s h keep = h
  dispatcher_next-Conserves [] (uplinked packet ∷ rest) s h keep =
      h ∙ sym (append_assoc s.dispatched (packet ∷ []) (uplinks rest ++ outgoing s.gateway_unsent))

  dispatcher_meets-Conserves :
      (notice : Notice V R) (unsent : Effects V N T R) (s : System V N T R C Q K S)
      → Conserves s
      → Conserves (dispatcher_meets world notice unsent s)
  unfolding dispatcher_meets dispatcher_does
  dispatcher_meets-Conserves notice [] s h = h
  dispatcher_meets-Conserves notice (e ∷ unsent) s h = h

  beaconer_next-Conserves :
      (unsent : List (Sent N)) (inbox : List (BeaconMessage N T R)) (s : System V N T R C Q K S)
      → Conserves s
      → Conserves (beaconer_next world unsent inbox s)
  unfolding beaconer_next beaconer_does
  beaconer_next-Conserves (m ∷ unsent) inbox s h = h
  beaconer_next-Conserves [] [] s h = h
  beaconer_next-Conserves [] (m ∷ rest) s h = h

  beaconer_meets-Conserves :
      (around : Surroundings E) (unsent : List (Sent N)) (s : System V N T R C Q K S)
      → Conserves s
      → Conserves (beaconer_meets world around unsent s)
  unfolding beaconer_meets beaconer_does
  beaconer_meets-Conserves around [] s h = h
  beaconer_meets-Conserves around (m ∷ unsent) s h = h

  pub act-Conserves :
      (action : Action V N T R C E) (s : System V N T R C Q K S)
      → Conserves s
      → Conserves (act world action s)
  unfolding act
  act-Conserves (gateway_event now event) s h =
      gateway_meets-Conserves now event s.gateway_unsent s h h
  act-Conserves (gateway_takes now) s h =
      gateway_next-Conserves now s.gateway_unsent s.gateway_inbox s h h
  act-Conserves gateway_sends s h = send_out-Conserves s.gateway_unsent s h h
  act-Conserves (dispatcher_event notice) s h =
      dispatcher_meets-Conserves notice s.dispatcher_unsent s h
  act-Conserves dispatcher_takes s h =
      dispatcher_next-Conserves s.dispatcher_unsent s.dispatcher_inbox s h h
  act-Conserves dispatcher_sends s h =
      send_effect-Conserves world.max_packets world.keypair s.dispatcher_unsent s h
  act-Conserves api_request s h = request-Conserves s h
  act-Conserves (beaconer_timer around) s h = beaconer_meets-Conserves around s.beaconer_unsent s h
  act-Conserves beaconer_takes s h = beaconer_next-Conserves s.beaconer_unsent s.beaconer_inbox s h
  act-Conserves beaconer_sends s h = send_beacons-Conserves s.beaconer_unsent s h
  act-Conserves (client_takes i) s h = h
  act-Conserves (client_ticks i now) s h = h
  act-Conserves (client_sends i) s h = send_downlink-Conserves i (s.clients i).unsent s h

  run_server-keeps :
      (actions : List (Action V N T R C E)) (s : System V N T R C Q K S)
      → Conserves s
      → Conserves (run_server world actions s)
  unfolding run_server
  run_server-keeps [] s h = h
  run_server-keeps (action ∷ rest) s h =
      run_server-keeps rest (act world action s) (act-Conserves action s h)

  -- Over any interleaving of the parts from the start, the uplinks that the gateway has made of what it
  -- received are, in this order, those that the dispatcher has taken, those that wait in its channel and
  -- those that the gateway has still to send: none is lost, doubled or overtaken on this way.
  pub run_server-Conserves :
      (actions : List (Action V N T R C E)) (region : R) (default_routers : Option (List V))
      (mac : C) (beacon_interval : ℕ)
      → Conserves {Q = Q} {K = K} {S = S}
          (run_server world actions (start region default_routers mac beacon_interval))
  unfolding start
  run_server-Conserves actions region default_routers mac beacon_interval =
      run_server-keeps actions (start region default_routers mac beacon_interval) refl
