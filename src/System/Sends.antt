-- ===== src/System/Sends.antt =====
-- src/server.rs, src/sync.rs: what a part sends, in order, where the channel has room, and what a client
-- does with its next message. A client's downlinks go out after all calls of its handler.
use gateway_rs.Base.{ℕ, List, [], ◌∷◌, ◌++◌, map, Option, none, some, drop, length, if◌then◌else◌}
use gateway_rs.Router.Routing.{RoutingInformation}
use gateway_rs.Radio.Packet.{Packet}
use gateway_rs.Radio.Gateway.Events.{
  UdpEvent, GatewayMessage, GatewayEvent, udp_event, message, Out, received_beacon, new_region,
  radio, task_panics, gateway_step,
}
use gateway_rs.Radio.Gateway.Events as Gateway
use gateway_rs.Radio.Beaconer.{
  Surroundings, BeaconMessage, received, BeaconerEvent, timer, beacon_message, Sent, transmitted,
  beacon_submitted, witness_submitted, beaconer_step,
}
use gateway_rs.Radio.Beaconer as Beaconer
use gateway_rs.Router.Dispatcher.{
  start_client, stop_client, uplink, region_changed, region_params_changed,
}
use gateway_rs.Router.Dispatcher.Rounds.{uplinked, other_message}
use gateway_rs.Router.Client.{Call, sign, route, downlink, Message, Outside, RouterClient}
use gateway_rs.Router.Client as Client
use gateway_rs.System.{
  Timed, Effects, Task, System, gateway_size, dispatcher_size, beaconer_size, has_room, update,
  has_place, receives, start_router,
}

module _ {N T R Q : Type 0} where
  abbrev pub timed : ℕ → List (Out N T R Q) → List (Out N T R Q × ℕ)
  timed now outs = map (λ o. (o, now)) outs

  -- The uplinks among what the gateway sends.
  abbrev pub outgoing : List (Out N T R Q × ℕ) → List (Timed N T)
  outgoing [] = []
  outgoing ((received_beacon packet, now) ∷ rest) = outgoing rest
  outgoing ((new_region params, now) ∷ rest) = outgoing rest
  outgoing ((Gateway.uplink packet, now) ∷ rest) = (packet, now) ∷ outgoing rest
  outgoing ((radio m, now) ∷ rest) = outgoing rest
  outgoing ((task_panics, now) ∷ rest) = outgoing rest

module _ {N T R : Type 0} where
  abbrev pub uplink_of : Message (Packet N T) R → List (Timed N T)
  uplink_of (Client.uplink packet now) = (packet, now) ∷ []
  uplink_of (Client.region_changed r) = []
  uplink_of Client.stop = []

  -- A client that has returned leaves nothing in its channel.
  abbrev pub left :
      {K : Type 0}
      → Option (RouterClient (Packet N T) R K)
      → List (Message (Packet N T) R)
      → List (Message (Packet N T) R)
  left none rest = []
  left (some client) rest = rest

module _ {N T R K S : Type 0} where
  -- The downlinks among a client's calls.
  abbrev pub downlinks : List (Call (Packet N T) R K S) → List (Packet N T)
  downlinks [] = []
  downlinks (sign p ∷ rest) = downlinks rest
  downlinks (route m ∷ rest) = downlinks rest
  downlinks (downlink packet ∷ rest) = packet ∷ downlinks rest

  module _ {E : Type 0} (out : Outside (Packet N T) R K S E) where
    unfoldable pub take_message :
        List (Packet N T)
        → List (Message (Packet N T) R)
        → Option (RouterClient (Packet N T) R K)
        → Task N T R K S
        → Task N T R K S
    take_message (p ∷ unsent) inbox client task = task
    take_message [] [] client task = task
    take_message [] (m ∷ rest) none task = task
    take_message [] (m ∷ rest) (some client) task =
        let r = Client.handle_message out m client task.calls in
        record {
          client = r.0;
          inbox = left r.0 rest;
          unsent = downlinks (drop (length task.calls) r.1);
          calls = r.1;
          handed = task.handed ++ uplink_of m;
        }

    unfoldable pub tick_client :
        ℕ
        → List (Packet N T)
        → Option (RouterClient (Packet N T) R K)
        → Task N T R K S
        → Task N T R K S
    tick_client now (p ∷ unsent) client task = task
    tick_client now [] none task = task
    tick_client now [] (some client) task = record task {
      client = some (Client.handle_tick out now client);
    }

abbrev pub routing_of : {N T : Type 0} → Timed N T → Option RoutingInformation
routing_of p = p.0.routing

module _ {V N T R C Q K S : Type 0} where
  -- The gateway sends: to the beaconer, to the dispatcher, or to the forwarder.
  unfoldable pub send_out : List (Out N T R Q × ℕ) → System V N T R C Q K S → System V N T R C Q K S
  send_out [] s = s
  send_out ((received_beacon packet, now) ∷ rest) s =
      if has_room beaconer_size s.beaconer_inbox
      then record s {
        gateway_unsent = rest;
        beaconer_inbox = s.beaconer_inbox ++ received packet ∷ [];
      }
      else s
  send_out ((new_region params, now) ∷ rest) s =
      if has_room beaconer_size s.beaconer_inbox
      then record s {
        gateway_unsent = rest;
        beaconer_inbox = s.beaconer_inbox ++ Beaconer.region_changed params ∷ [];
        gateway = record s.gateway { region_params = some params };
      }
      else s
  send_out ((Gateway.uplink packet, now) ∷ rest) s =
      if has_room dispatcher_size s.dispatcher_inbox
      then record s {
        gateway_unsent = rest;
        dispatcher_inbox = s.dispatcher_inbox ++ uplinked (packet, now) ∷ [];
      }
      else s
  send_out ((radio m, now) ∷ rest) s = record s {
    gateway_unsent = rest;
    on_air = s.on_air ++ m ∷ [];
  }
  send_out ((task_panics, now) ∷ rest) s = record s { gateway_unsent = rest }

  unfoldable pub send_to_client :
      ℕ → Message (Packet N T) R → Effects V N T R → System V N T R C Q K S → System V N T R C Q K S
  send_to_client i m rest s =
      if has_place (s.clients i).client (s.clients i)
      then record s {
        dispatcher_unsent = rest;
        clients = update s.clients i (receives (s.clients i).client m (s.clients i));
      }
      else s

  -- The dispatcher sends: to a client, to the gateway, or it starts a client.
  unfoldable pub send_effect :
      ℕ → K → Effects V N T R → System V N T R C Q K S → System V N T R C Q K S
  send_effect max_packets keypair [] s = s
  send_effect max_packets keypair (start_client i key ∷ rest) s = record s {
    dispatcher_unsent = rest;
    clients =
        update s.clients i (start_router max_packets keypair s.dispatcher.region (s.clients i));
  }
  send_effect max_packets keypair (stop_client i ∷ rest) s = send_to_client i Client.stop rest s
  send_effect max_packets keypair (uplink i packet ∷ rest) s =
      send_to_client i (Client.uplink packet.0 packet.1) rest s
  send_effect max_packets keypair (region_changed i r ∷ rest) s =
      send_to_client i (Client.region_changed r) rest s
  send_effect max_packets keypair (region_params_changed params ∷ rest) s =
      if has_room gateway_size s.gateway_inbox
      then record s {
        dispatcher_unsent = rest;
        gateway_inbox = s.gateway_inbox ++ Gateway.region_params_changed params ∷ [];
      }
      else s

  -- The beaconer sends: to the gateway, or a report to the service.
  unfoldable pub send_beacons : List (Sent N) → System V N T R C Q K S → System V N T R C Q K S
  send_beacons [] s = s
  send_beacons (transmitted beacon ∷ rest) s =
      if has_room gateway_size s.gateway_inbox
      then record s {
        beaconer_unsent = rest;
        gateway_inbox = s.gateway_inbox ++ Gateway.transmit_beacon beacon ∷ [];
      }
      else s
  send_beacons (beacon_submitted report ∷ rest) s = record s {
    beaconer_unsent = rest;
    reports = s.reports ++ beacon_submitted report ∷ [];
  }
  send_beacons (witness_submitted report ∷ rest) s = record s {
    beaconer_unsent = rest;
    reports = s.reports ++ witness_submitted report ∷ [];
  }

  -- A client sends its first downlink to the gateway.
  unfoldable pub send_downlink :
      ℕ → List (Packet N T) → System V N T R C Q K S → System V N T R C Q K S
  send_downlink i [] s = s
  send_downlink i (packet ∷ rest) s =
      if has_room gateway_size s.gateway_inbox
      then record s {
        gateway_inbox = s.gateway_inbox ++ Gateway.downlink packet ∷ [];
        clients = update s.clients i (record (s.clients i) { unsent = rest });
      }
      else s

  -- A request of the local API, to the dispatcher.
  unfoldable pub request : System V N T R C Q K S → System V N T R C Q K S
  request s =
      if has_room dispatcher_size s.dispatcher_inbox
      then record s { dispatcher_inbox = s.dispatcher_inbox ++ other_message ∷ [] }
      else s
