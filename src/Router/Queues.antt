-- ===== src/Router/Queues.antt =====
-- A store for two packets and a client, to run src/router/store.rs and src/router/client.rs on.
use gateway_rs.Base.{
  ℕ, ◌<◌, ◌≤◌, ◌≡◌, refl, arith, List, [], ◌∷◌, ◌++◌, length, take, drop, ltb, if◌then◌else◌, none,
  some, ok, err, All,
}
use gateway_rs.Router.Store.{
  QuePacket, RouterStore, hold_time, gc_waiting_packets, store_waiting_packet, waiting_packets_len,
  pop_waiting_packet,
}
use gateway_rs.Router.Store.Window.{last, store_all, store_all-last, gc_waiting_packets-drop}
use gateway_rs.Router.Client.{
  Call, Outside, RouterClient, response, handle_uplink, send_waiting_packets, send_loop,
  send_packet, state_channel_packet, handle_answer, to_downlink,
}
use gateway_rs.Router.Client.Delivery.{Sends, handle_uplink-Sends}

abbrev queued : ℕ → ℕ → QuePacket ℕ
queued received packet = record { received = received; packet = packet }

abbrev store : RouterStore ℕ
store = record { waiting_packets = queued 100 1 ∷ queued 200 2 ∷ []; max_packets = 2 }

store_all-last_example :
    ((store_all (queued 300 3 ∷ []) store).waiting_packets
      ≡ last 2 ((queued 100 1 ∷ queued 200 2 ∷ []) ++ queued 300 3 ∷ []))
    × (length (store_all (queued 300 3 ∷ []) store).waiting_packets ≤ 2)
    × ((store_all (queued 300 3 ∷ []) store).max_packets ≡ 2)
store_all-last_example = store_all-last (queued 300 3 ∷ []) store (omega arith)

oldest_dropped :
    (store_all (queued 300 3 ∷ []) store).waiting_packets ≡ queued 200 2 ∷ queued 300 3 ∷ []
unfolding store_waiting_packet waiting_packets_len pop_waiting_packet
oldest_dropped = refl

gc_waiting_packets-drop_example :
    ((gc_waiting_packets 60150 60000 store).1.waiting_packets
      ≡ drop (gc_waiting_packets 60150 60000 store).0 store.waiting_packets)
    × All (λ q. hold_time 60150 q ≤ 60000) (gc_waiting_packets 60150 60000 store).1.waiting_packets
    × All
        (λ q. 60000 < hold_time 60150 q)
        (take (gc_waiting_packets 60150 60000 store).0 store.waiting_packets)
gc_waiting_packets-drop_example =
    gc_waiting_packets-drop 60150 60000 store ((omega arith, tt), (tt, tt))

one_collected : (gc_waiting_packets 60150 60000 store).0 ≡ 1
unfolding gc_waiting_packets hold_time
one_collected = refl

abbrev client : RouterClient ℕ ℕ ℕ
client = record { region = 5; keypair = 77; store = store }

-- Every call succeeds, until five of them have been made.
abbrev out : Outside ℕ ℕ ℕ ℕ ℕ
out = record {
  signature_of = λ calls draft. if ltb (length calls) 4 then ok 1 else err 9;
  answer = λ calls message. ok (some (response none));
  clock = λ calls. 400;
  not_a_downlink = 8;
}

abbrev none_yet : List (Call ℕ ℕ ℕ ℕ)
none_yet = []

handle_uplink-Sends_example :
    Sends out
      (last 2 ((queued 100 1 ∷ queued 200 2 ∷ []) ++ queued 300 3 ∷ []))
      none_yet
      (handle_uplink out 3 300 client none_yet).0
      (handle_uplink out 3 300 client none_yet).1.store.waiting_packets
      (handle_uplink out 3 300 client none_yet).2
handle_uplink-Sends_example = handle_uplink-Sends out 3 300 client none_yet (omega arith)

all_sent : (handle_uplink out 3 300 client none_yet).1.store.waiting_packets ≡ []
unfolding handle_uplink send_waiting_packets send_loop send_packet state_channel_packet
    handle_answer to_downlink store_waiting_packet waiting_packets_len pop_waiting_packet
all_sent = refl
