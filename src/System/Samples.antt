-- ===== src/System/Samples.antt =====
-- A world of constant parts, to run the server of src/server.rs in.
use mathlib.Core.List.{Sublist}
use gateway_rs.Base.{
  ℕ, zero, suc, ◌≡◌, refl, arith, true, List, [], ◌∷◌, ◌++◌, length, none, some, ok, ◌==◌, ==_refl,
  Eq, ap,
}
use gateway_rs.Lorawan.Wire.{LittleEndian}
use gateway_rs.Lorawan.Endian.{byteorder, get_le}
use gateway_rs.Lorawan.Header.{mtype, mtype_from_u8}
use gateway_rs.Lorawan.Phy.{phy_read, check_size, split_mic}
use gateway_rs.Lorawan.Frame.{frame_read}
use gateway_rs.Router.Dispatcher as Dispatcher
use gateway_rs.Router.Dispatcher.{
  handle_routing_update, handle_routings, handle_oui_routing_update, update_routers, update_router,
  update_entry, is_removed,
}
use gateway_rs.Router.Dispatcher.Events.{step, handle_uplink, send_matching, send_default}
use gateway_rs.Router.Filter.{Hashing}
use gateway_rs.Router.Routing.{
  Routing, contains_uri, matches_routing_info, matches_routing_data, eui,
}
use gateway_rs.Radio.Packet.{
  Packet, RxPk, sf7bw125, is_potential_beacon, packet_try_from, parse_frame, of_frame,
  routing_information,
}
use gateway_rs.Radio.Region.{RegionParams, plus}
use gateway_rs.Radio.Beacon.{Randomness}
use gateway_rs.Radio.Gateway.{sent}
use gateway_rs.Radio.Gateway.Events as Gateway
use gateway_rs.Radio.Gateway.Events.{
  packet_received, gateway_step, handle_udp_event, packet_effects, route_packet,
}
use gateway_rs.Radio.Beaconer.{new_beaconer}
use gateway_rs.Router.Client.{Outside}
use gateway_rs.System.{System, World, start, start_router, has_place, receives}
use gateway_rs.System.Sends.{outgoing, send_out, send_effect, send_to_client, take_message, request}
use gateway_rs.System.Steps.{
  Action, gateway_event, gateway_takes, gateway_sends, dispatcher_event, dispatcher_takes,
  dispatcher_sends, api_request, client_takes, routing_notice, setup_notice, run_server, act,
  gateway_meets, gateway_next, gateway_does, dispatcher_meets, dispatcher_next, dispatcher_does,
}
use gateway_rs.System.Order.{uplinks, run_server-Conserves}
use gateway_rs.System.Tasks.{carried}
use gateway_rs.System.Handed.{run_server-handed}
use gateway_rs.System.Regions.{awaited, on_the_way, run_server-awaited}
use gateway_rs.System.Deadlock.{Deadlocked, ring, for_gateway, run_server-Deadlocked}

equal_symm : (a b : ℕ) → (a == b) ≡ true → (b == a) ≡ true
equal_symm a b h = ground arith

equal_trans : (a b c : ℕ) → (a == b) ≡ true → (b == c) ≡ true → (a == c) ≡ true
equal_trans a b c h h' = ground arith

instance abbrev uris : Eq ℕ
uris = record { beq = ◌==◌; beq_refl = ==_refl; beq_symm = equal_symm; beq_trans = equal_trans }

instance abbrev little_endian : LittleEndian
little_endian = byteorder

instance abbrev unhashed : Hashing
unhashed = record { xor16_contains = λ filter h. true; xxh64 = λ bytes. 0 }

abbrev copies : ℕ → List ℕ
copies zero = []
copies (suc n) = 1 ∷ copies n

length-copies : (n : ℕ) → length (copies n) ≡ n
length-copies zero = refl
length-copies (suc n) = ap suc (length-copies n)

instance abbrev always_one : Randomness
always_one = record {
  sha256 = λ bytes. copies 32;
  length_sha256 = λ bytes. refl;
  to_ne_bytes = λ timestamp. copies 8;
  from_seed = λ seed. 0;
  choose = λ frequencies rng. elim frequencies [ [] ↦ (none, rng) | f ∷ rest ↦ (some f, rng) ];
  gen_range = λ low high rng. (low, rng);
  gen_range_low = λ low high rng h. omega arith;
  gen_range_high = λ low high rng h. h;
}

-- A router that answers nothing.
abbrev silent : Outside (Packet ℕ ℕ) ℕ ℕ ℕ ℕ
silent = record {
  signature_of = λ calls p. ok 1;
  answer = λ calls m. ok none;
  clock = λ calls. 9;
  not_a_downlink = 0;
}

abbrev world : World ℕ ℕ ℕ ℕ ℕ ℕ ℕ
world = record {
  air = record {
    parse = λ t. some t;
    ack = λ m. sent;
    negative = λ n. none;
    to_mhz = λ f. f;
    beacon_rate = 7;
  };
  services = λ i. silent;
  signer = record { key_bytes = []; sign_beacon = λ r. none; sign_witness = λ r. none };
  parse_rate = λ t. some sf7bw125;
  to_hz = λ f. f;
  max_packets = 20;
  keypair = 5;
}

abbrev channel_plan : RegionParams ℕ
channel_plan = record {
  gain = plus 12;
  region = 1;
  params = record { channel_frequency = 903900000; max_eirp = 360 } ∷ [];
}

-- A join request.
abbrev join : RxPk ℕ ℕ
join = record {
  crc_ok = true;
  signal_rssi = none;
  channel_rssi = 7;
  snr = 8;
  frequency = 9;
  timestamp = 10;
  datarate = 11;
  bytes = 0 ∷ copies 22;
}

abbrev one_router : Routing ℕ
one_router = record { oui = 1; uris = 10 ∷ []; filters = []; subnets = [] }

abbrev begin : System ℕ ℕ ℕ ℕ ℕ ℕ ℕ ℕ
begin = start 1 (some (10 ∷ [])) 0 3600

-- A router is added, and a join request goes to its client.
abbrev joins : List (Action ℕ ℕ ℕ ℕ ℕ ℕ)
joins =
    dispatcher_event (routing_notice 3 (some (some one_router ∷ [])))
    ∷ dispatcher_sends
    ∷ gateway_event 4 (packet_received join)
    ∷ gateway_sends
    ∷ dispatcher_takes
    ∷ dispatcher_sends
    ∷ client_takes 0
    ∷ dispatcher_event (setup_notice channel_plan)
    ∷ dispatcher_sends
    ∷ gateway_takes 5
    ∷ gateway_sends
    ∷ []

joined : length ((run_server world joins begin).clients 0).handed ≡ 1
unfolding run_server act start Dispatcher.new new_beaconer gateway_meets gateway_next gateway_does
    gateway_step handle_udp_event Gateway.handle_message packet_effects route_packet
    is_potential_beacon packet_try_from parse_frame of_frame routing_information phy_read mtype
    mtype_from_u8 check_size split_mic frame_read get_le send_out dispatcher_meets dispatcher_next
    dispatcher_does step handle_routing_update handle_routings handle_oui_routing_update
    update_routers update_router update_entry is_removed contains_uri handle_uplink send_matching
    matches_routing_info matches_routing_data send_default send_effect start_router send_to_client
    has_place receives take_message request
joined = refl

run_server-Conserves_example :
    (run_server world joins begin).heard
    ≡ (run_server world joins begin).dispatched
      ++ (uplinks (run_server world joins begin).dispatcher_inbox
          ++ outgoing (run_server world joins begin).gateway_unsent)
run_server-Conserves_example = run_server-Conserves world joins 1 (some (10 ∷ [])) 0 3600

run_server-handed_example :
    Sublist
      (((run_server world joins begin).clients 0).handed
        ++ carried ((run_server world joins begin).clients 0).inbox)
      (run_server world joins begin).heard
run_server-handed_example = run_server-handed world joins 1 (some (10 ∷ [])) 0 3600 0

run_server-awaited_example :
    (awaited (run_server world joins begin) ≡ (run_server world joins begin).gateway.region_params)
    × (on_the_way
          (run_server world joins begin).gateway_unsent
          (run_server world joins begin).gateway.region_params
        ≡ (run_server world joins begin).announced)
run_server-awaited_example = run_server-awaited world joins 1 (some (10 ∷ [])) 0 3600

-- So many times the same.
abbrev times : ℕ → List (Action ℕ ℕ ℕ ℕ ℕ ℕ) → List (Action ℕ ℕ ℕ ℕ ℕ ℕ)
times zero l = []
times (suc n) l = l ++ times n l

-- The dispatcher meets eleven gateways while the gateway meets none of its messages, the local API fills the
-- dispatcher's channel, and a packet comes in.
abbrev jam : List (Action ℕ ℕ ℕ ℕ ℕ ℕ)
jam =
    times 11 (dispatcher_event (setup_notice channel_plan) ∷ dispatcher_sends ∷ [])
    ++ times 20 (api_request ∷ [])
    ++ gateway_event 4 (packet_received join) ∷ []

abbrev join_packet : Packet ℕ ℕ
join_packet = record {
  signal_strength = 7;
  snr = 8;
  frequency = 9;
  timestamp = 10;
  datarate = 11;
  routing = some (record {
    data_of = some (eui (record { deveui = 0x0101010101010101; appeui = 0x0101010101010101 }));
  });
  payload = join.bytes;
  rx2_window = none;
  oui = 0;
}

jammed : Deadlocked 0 (run_server world jam begin)
unfolding run_server act start Dispatcher.new new_beaconer gateway_meets gateway_next gateway_does
    gateway_step handle_udp_event Gateway.handle_message packet_effects route_packet
    is_potential_beacon packet_try_from parse_frame of_frame routing_information phy_read mtype
    mtype_from_u8 check_size split_mic frame_read get_le send_out dispatcher_meets dispatcher_next
    dispatcher_does step handle_routing_update handle_routings handle_oui_routing_update
    update_routers update_router update_entry is_removed contains_uri handle_uplink send_matching
    matches_routing_info matches_routing_data send_default send_effect start_router send_to_client
    has_place receives take_message request
jammed = record {
  packet = join_packet;
  now = 4;
  later = [];
  to_send = refl;
  gateway_full = refl;
  dispatcher_full = refl;
  waits = for_gateway channel_plan [];
}

run_server-Deadlocked_example :
    ring (
      run_server world
        (gateway_sends ∷ dispatcher_sends ∷ gateway_takes 5 ∷ dispatcher_takes ∷ [])
        (run_server world jam begin))
    ≡ ring (run_server world jam begin)
run_server-Deadlocked_example =
    run_server-Deadlocked world
      (gateway_sends ∷ dispatcher_sends ∷ gateway_takes 5 ∷ dispatcher_takes ∷ []) 0
      (run_server world jam begin) jammed
