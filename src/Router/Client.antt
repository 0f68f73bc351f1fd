-- ===== src/Router/Client.antt =====
-- src/router/client.rs and src/state_channel/message.rs. What the client calls outside, the
-- signature, the router and the gateway, answers by any function of the calls so far, and each call
-- is written down.
pub mod Delivery
use gateway_rs.Base.{
  ℕ, List, [], ◌∷◌, ◌++◌, Option, none, some, Result, ok, err, ◌>>=◌, if◌then◌else◌, Bool, true,
  false,
}
use gateway_rs.Router.Store.{
  QuePacket, RouterStore, hold_time, store_waiting_packet, gc_waiting_packets,
}

-- `BlockchainStateChannelPacketV1`, before it is signed and after. `P` is the type of packets, `R` of
-- regions, `K` of key pairs and `S` of signatures.
pub record StateChannelPacket (P R K S : Type 0) : Type 0 where
  pub packet : P
  pub signature : Option S
  pub hotspot : K
  pub region : R
  pub hold_time : ℕ

-- `Msg`: the two kinds of message that the client sends and reads, and the others. A response holds
-- a downlink or none.
pub data Msg (P R K S : Type 0) : Type 0 where
  packet_msg : StateChannelPacket P R K S → Msg P R K S
  response : Option P → Msg P R K S
  other : Msg P R K S

pub data Call (P R K S : Type 0) : Type 0 where
  sign : StateChannelPacket P R K S → Call P R K S
  route : Msg P R K S → Call P R K S
  downlink : P → Call P R K S

-- The answers, and the clock that the hold time is taken from; `E` is the type of errors.
pub record Outside (P R K S E : Type 0) : Type 0 where
  pub signature_of : List (Call P R K S) → StateChannelPacket P R K S → Result E S
  pub answer : List (Call P R K S) → Msg P R K S → Result E (Option (Msg P R K S))
  pub clock : List (Call P R K S) → ℕ
  pub not_a_downlink : E

pub record RouterClient (P R K : Type 0) : Type 0 where
  pub region : R
  pub keypair : K
  pub store : RouterStore P

-- What the channel of a client carries.
pub data Message (P R : Type 0) : Type 0 where
  uplink : P → ℕ → Message P R
  region_changed : R → Message P R
  stop : Message P R

module _ {P R K S E : Type 0} (out : Outside P R K S E) where
  -- `StateChannelMessage::packet`
  unfoldable pub state_channel_packet :
      P → K → R → ℕ → List (Call P R K S) → Result E (Msg P R K S) × List (Call P R K S)
  state_channel_packet p keypair region hold calls =
      let draft : StateChannelPacket P R K S = record {
        packet = p;
        signature = none;
        hotspot = keypair;
        region = region;
        hold_time = hold;
      } in
      (
        out.signature_of calls draft >>= λ s. ok (
            packet_msg (record {
              packet = p;
              signature = some s;
              hotspot = keypair;
              region = region;
              hold_time = hold;
            })),
        calls ++ sign draft ∷ [],
      )

  unfoldable pub to_downlink : Msg P R K S → Result E (Option P)
  to_downlink (response p) = ok p
  to_downlink (packet_msg p) = err out.not_a_downlink
  to_downlink other = err out.not_a_downlink

  -- `send_packet`, without the answer of the router where the signature fails.
  unfoldable pub send_packet :
      K
      → R
      → QuePacket P
      → List (Call P R K S)
      → Result E (Option (Msg P R K S)) × List (Call P R K S)
  send_packet keypair region q calls =
      let (signed, calls') =
        state_channel_packet q.packet keypair region (hold_time (out.clock calls) q) calls in
      elim signed [ err e ↦ (err e, calls') | ok m ↦ (out.answer calls' m, calls' ++ route m ∷ []) ]

  -- What is done with the router's message; both errors are ignored.
  unfoldable pub handle_answer : Option (Msg P R K S) → List (Call P R K S) → List (Call P R K S)
  handle_answer none calls = calls
  handle_answer (some m) calls = elim (to_downlink m) [
    | ok (some p) ↦ calls ++ downlink p ∷ []
    | ok none ↦ calls
    | err e ↦ calls
  ]

  -- The `while` loop over the packets that are popped: the packets that are left, what was called,
  -- and the result.
  unfoldable pub send_loop :
      K
      → R
      → List (QuePacket P)
      → List (Call P R K S)
      → Result E (Unit {0}) × List (QuePacket P) × List (Call P R K S)
  send_loop keypair region [] calls = (ok tt, [], calls)
  send_loop keypair region (q ∷ rest) calls =
      let (sent, calls') = send_packet keypair region q calls in
      elim sent [
        | err e ↦ (err e, rest, calls')
        | ok reply ↦ send_loop keypair region rest (handle_answer reply calls')
      ]

  unfoldable pub send_waiting_packets :
      RouterClient P R K
      → List (Call P R K S)
      → Result E (Unit {0}) × RouterClient P R K × List (Call P R K S)
  send_waiting_packets self calls =
      let (result, left, calls') =
        send_loop self.keypair self.region self.store.waiting_packets calls in
      (
        result,
        record {
          region = self.region;
          keypair = self.keypair;
          store = record { waiting_packets = left; max_packets = self.store.max_packets };
        },
        calls',
      )

  unfoldable pub handle_uplink :
      P
      → ℕ
      → RouterClient P R K
      → List (Call P R K S)
      → Result E (Unit {0}) × RouterClient P R K × List (Call P R K S)
  handle_uplink p received self calls =
      send_waiting_packets
        (record {
          region = self.region;
          keypair = self.keypair;
          store = store_waiting_packet p received self.store;
        })
        calls

  -- A message in the loop of `run`; `none` is its return. A failed uplink is ignored.
  unfoldable pub handle_message :
      Message P R
      → RouterClient P R K
      → List (Call P R K S)
      → Option (RouterClient P R K) × List (Call P R K S)
  handle_message (uplink p received) self calls =
      let (_, client, calls') = handle_uplink p received self calls in (some client, calls')
  handle_message (region_changed region) self calls =
      (some (record { region = region; keypair = self.keypair; store = self.store }), calls)
  handle_message stop self calls = (none, calls)

  -- The tick of the timer, with the interval of 60 seconds.
  unfoldable pub handle_tick : ℕ → RouterClient P R K → RouterClient P R K
  handle_tick now self = record {
    region = self.region;
    keypair = self.keypair;
    store = (gc_waiting_packets now 60000 self.store).1;
  }
