-- ===== src/System/Handed.antt =====
-- src/server.rs: the way of the uplinks from the gateway to the clients of the routers.
use mathlib.Core.Path.{subst}
use mathlib.Core.List.{Sublist, sublist-append_left, nil-sublist}
use mathlib.Core.List.Sublist
use gateway_rs.Base.{
  ℕ, ◌≡◌, ◌⊎◌, refl, sym, false, List, [], ◌∷◌, ◌++◌, append_assoc, append-nil, inl, inr, Eq,
  if◌then◌else◌, if_both, Option, ◌==◌, ==_refl, arith,
}
use gateway_rs.Radio.Region.{RegionParams}
use gateway_rs.Router.Dispatcher.{Dispatcher}
use gateway_rs.Router.Dispatcher as Dispatcher
use gateway_rs.Router.Dispatcher.Events.{step, handle_uplink}
use gateway_rs.Router.Dispatcher.Channels.{Separate, step-Separate}
use gateway_rs.Router.Dispatcher.Sent.{
  sent_to, sent_to-handle_uplink, sent_to-handle_routing_update,
  sent_to-handle_region_params_update,
}
use gateway_rs.Router.Client.{Outside, RouterClient}
use gateway_rs.System.{receives, start_router}
use gateway_rs.System.Sends.{uplink_of, take_message, tick_client, routing_of}
use gateway_rs.System.Steps.{
  routing_notice, region_notice, height_notice, setup_notice, change_notice, notice_event,
}
use gateway_rs.System.Order.{run_server-Conserves, uplinks}
use gateway_rs.Lorawan.Wire.{LittleEndian}
use gateway_rs.Router.Filter.{Hashing}
use gateway_rs.Radio.Beacon.{Randomness}
use gateway_rs.Radio.Packet.{Packet}
use gateway_rs.Radio.Gateway.Events.{
  GatewayMessage, GatewayEvent, udp_event, message, Out, received_beacon, new_region, radio,
  task_panics,
}
use gateway_rs.Radio.Gateway.Events as Gateway
use gateway_rs.Radio.Beaconer.{
  Surroundings, BeaconMessage, Sent, transmitted, beacon_submitted, witness_submitted,
}
use gateway_rs.Router.Dispatcher.{
  start_client, stop_client, uplink, region_changed, region_params_changed,
}
use gateway_rs.Router.Dispatcher.Rounds.{DispatcherMessage, uplinked, other_message}
use gateway_rs.Router.Client.{Message}
use gateway_rs.Router.Client as Client
use gateway_rs.System.{Timed, Effects, System, World, start, has_room, gateway_size, has_place}
use gateway_rs.System.{dispatcher_size, beaconer_size}
use gateway_rs.System.Sends.{
  outgoing, send_out, send_to_client, send_effect, send_beacons, send_downlink, request,
}
use gateway_rs.System.Steps.{
  Notice, Action, gateway_event, gateway_takes, gateway_sends, dispatcher_event, dispatcher_takes,
  dispatcher_sends, api_request, beaconer_timer, beaconer_takes, beaconer_sends, client_takes,
  client_ticks, client_sends, gateway_does, gateway_meets, gateway_next, dispatcher_does,
  dispatcher_meets, dispatcher_next, beaconer_does, beaconer_meets, beaconer_next, act, run_server,
}
use gateway_rs.System.Tasks.{
  carried, Fine, at_client, receives-Fine, take_message-Fine, tick_client-Fine,
}

module _ {V N T R C Q K S : Type 0} where
  -- The clients' channels differ, and what goes to each is in order.
  abbrev Inv : System V N T R C Q K S → Type 0
  Inv s = Separate s.dispatcher × ((i : ℕ) → Fine i s.dispatcher_unsent s.dispatched (s.clients i))

  -- The same with other things to send.
  abbrev With : Effects V N T R → System V N T R C Q K S → Type 0
  With unsent s = Separate s.dispatcher × ((i : ℕ) → Fine i unsent s.dispatched (s.clients i))

  send_out-Inv :
      (unsent : List (Out N T R Q × ℕ)) (s : System V N T R C Q K S)
      → Inv s
      → Inv (send_out unsent s)
  unfolding send_out
  send_out-Inv [] s h = h
  send_out-Inv ((received_beacon packet, now) ∷ rest) s h =
      if_both Inv (has_room beaconer_size s.beaconer_inbox) _ s h h
  send_out-Inv ((new_region params, now) ∷ rest) s h =
      if_both Inv (has_room beaconer_size s.beaconer_inbox) _ s h h
  send_out-Inv ((Gateway.uplink packet, now) ∷ rest) s h =
      if_both Inv (has_room dispatcher_size s.dispatcher_inbox) _ s h h
  send_out-Inv ((radio m, now) ∷ rest) s h = h
  send_out-Inv ((task_panics, now) ∷ rest) s h = h

  send_to_client-Inv :
      (j : ℕ) (m : Message (Packet N T) R) (rest : Effects V N T R) (s : System V N T R C Q K S)
      → Sublist
          ((s.clients j).handed ++ (carried (s.clients j).inbox ++ (uplink_of m ++ sent_to j rest)))
          s.dispatched
      → ((i : ℕ) → (j == i) ≡ false → Fine i rest s.dispatched (s.clients i))
      → Inv s
      → Inv (send_to_client j m rest s)
  unfolding send_to_client
  send_to_client-Inv j m rest s first others h =
      if_both Inv (has_place (s.clients j).client (s.clients j)) _ s
        (
          h.0,
          at_client (λ i task. Fine i rest s.dispatched task) s.clients j
              (receives (s.clients j).client m (s.clients j))
              (receives-Fine (s.clients j).client m j rest s.dispatched (s.clients j) first) others,
        )
        h

  send_effect-Inv :
      (max_packets : ℕ) (keypair : K) (unsent : Effects V N T R) (s : System V N T R C Q K S)
      → With unsent s
      → Inv s
      → Inv (send_effect max_packets keypair unsent s)
  unfolding send_effect start_router
  send_effect-Inv n k [] s h keep = keep
  send_effect-Inv n k (start_client j key ∷ rest) s h keep = (
    h.0,
    at_client (λ i task. Fine i rest s.dispatched task) s.clients j
        (start_router n k s.dispatcher.region (s.clients j)) (h.1 j) (λ i e. h.1 i),
  )
  send_effect-Inv n k (stop_client j ∷ rest) s h keep =
      send_to_client-Inv j Client.stop rest s (h.1 j) (λ i e. h.1 i) keep
  send_effect-Inv n k (uplink j packet ∷ rest) s h keep =
      send_to_client-Inv j (Client.uplink packet.0 packet.1) rest s
        (subst
          (λ b.
            Sublist
              ((s.clients j).handed
                ++ (carried (s.clients j).inbox
                    ++ (if b then packet ∷ sent_to j rest else sent_to j rest)))
              s.dispatched)
          (==_refl j) (h.1 j))
        (λ i e.
          subst
            (λ b.
              Sublist
                ((s.clients i).handed
                  ++ (carried (s.clients i).inbox
                      ++ (if b then packet ∷ sent_to i rest else sent_to i rest)))
                s.dispatched)
            e (h.1 i))
        keep
  send_effect-Inv n k (region_changed j r ∷ rest) s h keep =
      send_to_client-Inv j (Client.region_changed r) rest s (h.1 j) (λ i e. h.1 i) keep
  send_effect-Inv n k (region_params_changed params ∷ rest) s h keep =
      if_both Inv (has_room gateway_size s.gateway_inbox) _ s h keep

  send_beacons-Inv :
      (unsent : List (Sent N)) (s : System V N T R C Q K S) → Inv s → Inv (send_beacons unsent s)
  unfolding send_beacons
  send_beacons-Inv [] s h = h
  send_beacons-Inv (transmitted beacon ∷ rest) s h =
      if_both Inv (has_room gateway_size s.gateway_inbox) _ s h h
  send_beacons-Inv (beacon_submitted report ∷ rest) s h = h
  send_beacons-Inv (witness_submitted report ∷ rest) s h = h

  send_downlink-Inv :
      (j : ℕ) (to_send : List (Packet N T)) (s : System V N T R C Q K S)
      → Inv s
      → Inv (send_downlink j to_send s)
  unfolding send_downlink
  send_downlink-Inv j [] s h = h
  send_downlink-Inv j (packet ∷ rest) s h =
      if_both Inv (has_room gateway_size s.gateway_inbox) _ s
        (
          h.0,
          at_client (λ i task. Fine i s.dispatcher_unsent s.dispatched task) s.clients j
              (record (s.clients j) { unsent = rest }) (h.1 j) (λ i e. h.1 i),
        )
        h

  request-Inv : (s : System V N T R C Q K S) → Inv s → Inv (request s)
  unfolding request
  request-Inv s h = if_both Inv (has_room dispatcher_size s.dispatcher_inbox) _ s h h

module _ {N T : Type 0} where
  at_most_once :
      (packet : Timed N T) (l : List (Timed N T))
      → (l ≡ []) ⊎ (l ≡ packet ∷ [])
      → Sublist l (packet ∷ [])
  at_most_once packet l (inl e) = rw e (nil-sublist (packet ∷ []))
  at_most_once packet l (inr e) = rw e (Sublist.refl (packet ∷ []))

module _ {V N T R : Type 0} ⦃eq : Eq V⦄ ⦃le : LittleEndian⦄ ⦃hashing : Hashing⦄ where
  -- What a notice makes the dispatcher send holds no uplink.
  notice_sends :
      (notice : Notice V R) (i : ℕ) (self : Dispatcher V R)
      → sent_to i
          (step {P = Timed N T} routing_of (λ params. params.region) (notice_event notice) self).1
        ≡ []
  unfolding step
  notice_sends (routing_notice h protos) i self =
      sent_to-handle_routing_update (Timed N T) R (RegionParams R) i h protos self
  notice_sends (region_notice h params) i self =
      sent_to-handle_region_params_update (Timed N T) R (RegionParams R) i (λ params. params.region)
        h params self
  notice_sends (height_notice answer) i self = refl
  notice_sends (setup_notice params) i self = refl
  notice_sends change_notice i self = refl

module _ {V N T R C Q K S E : Type 0} ⦃eq : Eq V⦄ ⦃le : LittleEndian⦄ ⦃hashing : Hashing⦄
    ⦃random : Randomness⦄ (world : World N T R Q K S E) where
  gateway_meets-Inv :
      (now : ℕ) (event : Gateway.UdpEvent N T C) (unsent : List (Out N T R Q × ℕ))
      (s : System V N T R C Q K S)
      → Inv s
      → Inv (gateway_meets world now event unsent s)
  unfolding gateway_meets gateway_does
  gateway_meets-Inv now event [] s h = h
  gateway_meets-Inv now event (o ∷ unsent) s h = h

  gateway_next-Inv :
      (now : ℕ) (unsent : List (Out N T R Q × ℕ)) (inbox : List (GatewayMessage N T R))
      (s : System V N T R C Q K S)
      → Inv s
      → Inv (gateway_next world now unsent inbox s)
  unfolding gateway_next gateway_does
  gateway_next-Inv now (o ∷ unsent) inbox s h = h
  gateway_next-Inv now [] [] s h = h
  gateway_next-Inv now [] (m ∷ rest) s h = h

  dispatcher_meets-Inv :
      (notice : Notice V R) (unsent : Effects V N T R) (s : System V N T R C Q K S)
      → With unsent s
      → Inv s
      → Inv (dispatcher_meets world notice unsent s)
  unfolding dispatcher_meets dispatcher_does
  dispatcher_meets-Inv notice (e ∷ unsent) s h keep = keep
  dispatcher_meets-Inv notice [] s h keep = (
    step-Separate routing_of (λ params. params.region) (notice_event notice) s.dispatcher h.0,
    λ i.
        subst
          (λ l. Sublist ((s.clients i).handed ++ (carried (s.clients i).inbox ++ l)) s.dispatched)
          (sym (notice_sends notice i s.dispatcher)) (h.1 i),
  )

  dispatcher_next-Inv :
      (unsent : Effects V N T R) (inbox : List (DispatcherMessage (Timed N T)))
      (s : System V N T R C Q K S)
      → With unsent s
      → Inv s
      → Inv (dispatcher_next world unsent inbox s)
  unfolding dispatcher_next dispatcher_does step
  dispatcher_next-Inv (e ∷ unsent) inbox s h keep = keep
  dispatcher_next-Inv [] [] s h keep = keep
  dispatcher_next-Inv [] (other_message ∷ rest) s h keep = keep
  dispatcher_next-Inv [] (uplinked packet ∷ rest) s h keep = (
    h.0,
    λ i.
        let sent = sent_to i (handle_uplink {G = RegionParams R} routing_of packet s.dispatcher) in
        let before = (s.clients i).handed in
        subst (λ l. Sublist l (s.dispatched ++ packet ∷ []))
          (append_assoc before (carried (s.clients i).inbox) sent)
          (Sublist.append
            (subst (λ l. Sublist (before ++ l) s.dispatched)
              (append-nil (carried (s.clients i).inbox)) (h.1 i))
            (at_most_once packet sent
              (sent_to-handle_uplink (RegionParams R) routing_of i packet s.dispatcher h.0))),
  )

  beaconer_next-Inv :
      (unsent : List (Sent N)) (inbox : List (BeaconMessage N T R)) (s : System V N T R C Q K S)
      → Inv s
      → Inv (beaconer_next world unsent inbox s)
  unfolding beaconer_next beaconer_does
  beaconer_next-Inv (m ∷ unsent) inbox s h = h
  beaconer_next-Inv [] [] s h = h
  beaconer_next-Inv [] (m ∷ rest) s h = h

  beaconer_meets-Inv :
      (around : Surroundings E) (unsent : List (Sent N)) (s : System V N T R C Q K S)
      → Inv s
      → Inv (beaconer_meets world around unsent s)
  unfolding beaconer_meets beaconer_does
  beaconer_meets-Inv around [] s h = h
  beaconer_meets-Inv around (m ∷ unsent) s h = h

  act-Inv :
      (action : Action V N T R C E) (s : System V N T R C Q K S) → Inv s → Inv (act world action s)
  unfolding act
  act-Inv (gateway_event now event) s h = gateway_meets-Inv now event s.gateway_unsent s h
  act-Inv (gateway_takes now) s h = gateway_next-Inv now s.gateway_unsent s.gateway_inbox s h
  act-Inv gateway_sends s h = send_out-Inv s.gateway_unsent s h
  act-Inv (dispatcher_event notice) s h = dispatcher_meets-Inv notice s.dispatcher_unsent s h h
  act-Inv dispatcher_takes s h = dispatcher_next-Inv s.dispatcher_unsent s.dispatcher_inbox s h h
  act-Inv dispatcher_sends s h =
      send_effect-Inv world.max_packets world.keypair s.dispatcher_unsent s h h
  act-Inv api_request s h = request-Inv s h
  act-Inv (beaconer_timer around) s h = beaconer_meets-Inv around s.beaconer_unsent s h
  act-Inv beaconer_takes s h = beaconer_next-Inv s.beaconer_unsent s.beaconer_inbox s h
  act-Inv beaconer_sends s h = send_beacons-Inv s.beaconer_unsent s h
  act-Inv (client_takes j) s h = (
    h.0,
    let task = s.clients j in
        at_client (λ i t. Fine i s.dispatcher_unsent s.dispatched t) s.clients j
          (take_message (world.services j) task.unsent task.inbox task.client task)
          (take_message-Fine (world.services j) task.unsent task.inbox task.client j
            s.dispatcher_unsent s.dispatched task (h.1 j) (h.1 j))
          (λ i e. h.1 i),
  )
  act-Inv (client_ticks j now) s h = (
    h.0,
    let task = s.clients j in
        at_client (λ i t. Fine i s.dispatcher_unsent s.dispatched t) s.clients j
          (tick_client (world.services j) now task.unsent task.client task)
          (tick_client-Fine (world.services j) now task.unsent task.client j s.dispatcher_unsent
            s.dispatched task (h.1 j))
          (λ i e. h.1 i),
  )
  act-Inv (client_sends j) s h = send_downlink-Inv j (s.clients j).unsent s h

  run_server-Inv :
      (actions : List (Action V N T R C E)) (s : System V N T R C Q K S)
      → Inv s
      → Inv (run_server world actions s)
  unfolding run_server
  run_server-Inv [] s h = h
  run_server-Inv (action ∷ rest) s h = run_server-Inv rest (act world action s) (act-Inv action s h)

  -- Over any interleaving of the parts from the start, what the client of each channel has been handed,
  -- followed by the uplinks in the channel, is a sublist of the uplinks that the gateway has made of what
  -- it received: a client is handed each of them once at most, in the order in which they were received,
  -- and nothing else.
  pub run_server-handed :
      (actions : List (Action V N T R C E)) (region : R) (default_routers : Option (List V))
      (mac : C) (beacon_interval i : ℕ)
      → let s =
          run_server {Q = Q} {K = K} {S = S} world actions
            (start region default_routers mac beacon_interval) in
        Sublist ((s.clients i).handed ++ carried (s.clients i).inbox) s.heard
  unfolding start Dispatcher.new
  run_server-handed actions region default_routers mac beacon_interval i =
      let initial : System V N T R C Q K S = start region default_routers mac beacon_interval in
      let s = run_server world actions initial in
      let handed = (s.clients i).handed in
      let fine = (run_server-Inv actions initial (omega arith, λ j. Sublist.refl [])).1 i in
      subst (λ l. Sublist (handed ++ carried (s.clients i).inbox) l)
        (sym (run_server-Conserves world actions region default_routers mac beacon_interval))
        (Sublist.trans
          (Sublist.append (Sublist.refl handed)
            (sublist-append_left (carried (s.clients i).inbox) (sent_to i s.dispatcher_unsent)))
          (Sublist.trans fine (
            sublist-append_left s.dispatched
              (uplinks s.dispatcher_inbox ++ outgoing s.gateway_unsent))))
