-- ===== src/System/Steps.antt =====
-- src/server.rs: one step of one part. What is next in a part's loop, its timers and the answers of the
-- services come in any order; the handlers are those of the parts' own modules. A handler's state changes
-- at its start, and its messages go out after it, in order, but for the gateway's parameters of the region,
-- which change where these have gone out to the beaconer.
use gateway_rs.Base.{ℕ, List, [], ◌∷◌, ◌++◌, Option, some, Eq}
use gateway_rs.Lorawan.Wire.{LittleEndian}
use gateway_rs.Router.Filter.{Hashing}
use gateway_rs.Router.Routing.{Routing}
use gateway_rs.Radio.Region.{RegionParams}
use gateway_rs.Radio.Beacon.{Randomness}
use gateway_rs.Radio.Gateway.{Gateway}
use gateway_rs.Radio.Gateway.Events.{
  UdpEvent, GatewayMessage, downlink, transmit_beacon, region_params_changed, GatewayEvent,
  udp_event, message, closed_channel, Out, gateway_step,
}
use gateway_rs.Radio.Beaconer.{
  Surroundings, BeaconMessage, BeaconerEvent, timer, beacon_message, Sent, beaconer_step,
}
use gateway_rs.Router.Dispatcher.Events.{
  Event, routing_message, region_message, height_answer, uplink_message, gateway_setup,
  gateway_change, step,
}
use gateway_rs.Router.Dispatcher.Rounds.{DispatcherMessage, uplinked, other_message}
use gateway_rs.System.{Timed, Effects, System, World, update}
use gateway_rs.System.Sends.{
  timed, outgoing, take_message, tick_client, routing_of, send_out, send_effect, send_beacons,
  send_downlink, request,
}

-- What the dispatcher takes that no other part sends.
pub data Notice (V R : Type 0) : Type 0 where
  routing_notice : ℕ → Option (List (Option (Routing V))) → Notice V R
  region_notice : ℕ → Option (RegionParams R) → Notice V R
  height_notice : Option (ℕ × ℕ) → Notice V R
  setup_notice : RegionParams R → Notice V R
  change_notice : Notice V R

abbrev pub notice_event : {V P R : Type 0} → Notice V R → Event V P (RegionParams R)
notice_event (routing_notice h protos) = routing_message h protos
notice_event (region_notice h params) = region_message h params
notice_event (height_notice answer) = height_answer answer
notice_event (setup_notice params) = gateway_setup params
notice_event change_notice = gateway_change

-- One of the parts goes on: it takes an event of its own, a message of its channel at an instant, or sends
-- what it has to send first. An action for which the part is not ready does nothing.
pub data Action (V N T R C E : Type 0) : Type 0 where
  gateway_event : ℕ → UdpEvent N T C → Action V N T R C E
  gateway_takes : ℕ → Action V N T R C E
  gateway_sends : Action V N T R C E
  dispatcher_event : Notice V R → Action V N T R C E
  dispatcher_takes : Action V N T R C E
  dispatcher_sends : Action V N T R C E
  api_request : Action V N T R C E
  beaconer_timer : Surroundings E → Action V N T R C E
  beaconer_takes : Action V N T R C E
  beaconer_sends : Action V N T R C E
  client_takes : ℕ → Action V N T R C E
  client_ticks : ℕ → ℕ → Action V N T R C E
  client_sends : ℕ → Action V N T R C E

module _ {N T R C : Type 0} where
  -- The gateway while it waits to send: it sets new parameters after it has sent them.
  unfoldable pub while_sending : GatewayEvent N T R C → Gateway R C → Gateway R C → Gateway R C
  while_sending (message (region_params_changed params)) before after = before
  while_sending (message (downlink packet)) before after = after
  while_sending (message (transmit_beacon beacon)) before after = after
  while_sending (udp_event event) before after = after
  while_sending closed_channel before after = after

  abbrev pub announced_by : GatewayEvent N T R C → Option (RegionParams R) → Option (RegionParams R)
  announced_by (message (region_params_changed params)) earlier = some params
  announced_by (message (downlink packet)) earlier = earlier
  announced_by (message (transmit_beacon beacon)) earlier = earlier
  announced_by (udp_event event) earlier = earlier
  announced_by closed_channel earlier = earlier

module _ {V N T R C Q K S E : Type 0} ⦃eq : Eq V⦄ ⦃le : LittleEndian⦄ ⦃hashing : Hashing⦄
    ⦃random : Randomness⦄ (world : World N T R Q K S E) where
  unfoldable pub gateway_does :
      ℕ → GatewayEvent N T R C → System V N T R C Q K S → System V N T R C Q K S
  gateway_does now event s =
      let r = gateway_step world.air event s.gateway in
      record s {
        gateway = while_sending event s.gateway r.0;
        gateway_unsent = timed now r.1;
        heard = s.heard ++ outgoing (timed now r.1);
        announced = announced_by event s.announced;
      }

  unfoldable pub gateway_meets :
      ℕ → UdpEvent N T C → List (Out N T R Q × ℕ) → System V N T R C Q K S → System V N T R C Q K S
  gateway_meets now event [] s = gateway_does now (udp_event event) s
  gateway_meets now event (o ∷ unsent) s = s

  unfoldable pub gateway_next :
      ℕ
      → List (Out N T R Q × ℕ)
      → List (GatewayMessage N T R)
      → System V N T R C Q K S
      → System V N T R C Q K S
  gateway_next now (o ∷ unsent) inbox s = s
  gateway_next now [] [] s = s
  gateway_next now [] (m ∷ rest) s =
      gateway_does now (message m) (record s { gateway_inbox = rest })

  unfoldable pub dispatcher_does :
      Event V (Timed N T) (RegionParams R) → System V N T R C Q K S → System V N T R C Q K S
  dispatcher_does event s =
      let r = step routing_of (λ params. params.region) event s.dispatcher in
      record s { dispatcher = r.0; dispatcher_unsent = r.1 }

  unfoldable pub dispatcher_meets :
      Notice V R → Effects V N T R → System V N T R C Q K S → System V N T R C Q K S
  dispatcher_meets notice [] s = dispatcher_does (notice_event notice) s
  dispatcher_meets notice (e ∷ unsent) s = s

  unfoldable pub dispatcher_next :
      Effects V N T R
      → List (DispatcherMessage (Timed N T))
      → System V N T R C Q K S
      → System V N T R C Q K S
  dispatcher_next (e ∷ unsent) inbox s = s
  dispatcher_next [] [] s = s
  dispatcher_next [] (other_message ∷ rest) s = record s { dispatcher_inbox = rest }
  dispatcher_next [] (uplinked packet ∷ rest) s =
      dispatcher_does (uplink_message packet)
        (record s { dispatcher_inbox = rest; dispatched = s.dispatched ++ packet ∷ [] })

  unfoldable pub beaconer_does :
      BeaconerEvent E N T R → System V N T R C Q K S → System V N T R C Q K S
  beaconer_does event s =
      let r = beaconer_step world.signer world.parse_rate world.to_hz event s.beaconer in
      record s { beaconer = r.0; beaconer_unsent = r.1 }

  unfoldable pub beaconer_meets :
      Surroundings E → List (Sent N) → System V N T R C Q K S → System V N T R C Q K S
  beaconer_meets around [] s = beaconer_does (timer around) s
  beaconer_meets around (m ∷ unsent) s = s

  unfoldable pub beaconer_next :
      List (Sent N) → List (BeaconMessage N T R) → System V N T R C Q K S → System V N T R C Q K S
  beaconer_next (m ∷ unsent) inbox s = s
  beaconer_next [] [] s = s
  beaconer_next [] (m ∷ rest) s =
      beaconer_does (beacon_message m) (record s { beaconer_inbox = rest })

  unfoldable pub act : Action V N T R C E → System V N T R C Q K S → System V N T R C Q K S
  act (gateway_event now event) s = gateway_meets now event s.gateway_unsent s
  act (gateway_takes now) s = gateway_next now s.gateway_unsent s.gateway_inbox s
  act gateway_sends s = send_out s.gateway_unsent s
  act (dispatcher_event notice) s = dispatcher_meets notice s.dispatcher_unsent s
  act dispatcher_takes s = dispatcher_next s.dispatcher_unsent s.dispatcher_inbox s
  act dispatcher_sends s = send_effect world.max_packets world.keypair s.dispatcher_unsent s
  act api_request s = request s
  act (beaconer_timer around) s = beaconer_meets around s.beaconer_unsent s
  act beaconer_takes s = beaconer_next s.beaconer_unsent s.beaconer_inbox s
  act beaconer_sends s = send_beacons s.beaconer_unsent s
  act (client_takes i) s = record s {
    clients = update s.clients i (
        take_message (world.services i) (s.clients i).unsent (s.clients i).inbox
          (s.clients i).client (s.clients i));
  }
  act (client_ticks i now) s = record s {
    clients = update s.clients i (
        tick_client (world.services i) now (s.clients i).unsent (s.clients i).client (s.clients i));
  }
  act (client_sends i) s = send_downlink i (s.clients i).unsent s

  -- The tasks of `try_join!`, interleaved as the list says.
  unfoldable pub run_server :
      List (Action V N T R C E) → System V N T R C Q K S → System V N T R C Q K S
  run_server [] s = s
  run_server (action ∷ rest) s = run_server rest (act action s)
