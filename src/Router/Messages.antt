-- ===== src/Router/Messages.antt =====
-- src/state_channel/message.rs and src/packet.rs: the conversions between packets, state channel messages
-- and the messages that are transferred, and the hash of a packet.
use gateway_rs.Base.{ℕ, ◌≡◌, refl, List, Option, some, Text, text, length}
use gateway_rs.Router.Client.{StateChannelPacket, Msg, packet_msg, response, other}
use gateway_rs.Radio.Packet.{Packet}

-- `BlockchainStateChannelMessageV1`
pub record Transferred (P R K S : Type 0) : Type 0 where
  pub msg : Option (Msg P R K S)

-- A value, or a panic.
pub data Panicking (A : Type 0) : Type 0 where
  returns : A → Panicking A
  panics : Text → Panicking A

module _ {P R K S : Type 0} where
  unfoldable pub from_message : Transferred P R K S → Option (Msg P R K S)
  from_message m = m.msg

  unfoldable pub to_message : Msg P R K S → Transferred P R K S
  to_message m = record { msg = some m }

  unfoldable pub from_packet : StateChannelPacket P R K S → Msg P R K S
  from_packet inner = packet_msg inner

  unfoldable pub into_packet : Msg P R K S → Panicking (StateChannelPacket P R K S)
  into_packet (packet_msg inner) = returns inner
  into_packet (response p) = panics (text "invalid state channel message conversion")
  into_packet other = panics (text "invalid state channel message conversion")

  -- A message comes back from its transferred form, and a packet from its message.
  pub from_message-to_message :
      (m : Msg P R K S) (inner : StateChannelPacket P R K S)
      → (from_message (to_message m) ≡ some m) × (into_packet (from_packet inner) ≡ returns inner)
  unfolding from_message to_message into_packet from_packet
  from_message-to_message m inner = (refl, refl)

-- `Packet::from_state_channel_response`; the packet has the same fields as what is transferred.
unfoldable pub from_state_channel_response : {P : Type 0} → Option P → Option P
from_state_channel_response downlink = downlink

-- SHA-256 is a parameter.
unfoldable pub packet_hash : {N T : Type 0} → (List ℕ → List ℕ) → Packet N T → List ℕ
packet_hash sha256 packet = sha256 packet.payload

-- What `Display` prints of a packet: the frequency with two places, the parsed data rate, the signal to
-- noise ratio, the signal strength and the length of the data.
pub record Shown (N Q : Type 0) : Type 0 where
  pub shown_timestamp : ℕ
  pub shown_frequency : N
  pub shown_datarate : Option Q
  pub shown_snr : N
  pub shown_rssi : N
  pub shown_length : ℕ

unfoldable pub shown : {N T Q : Type 0} → (T → Option Q) → Packet N T → Shown N Q
shown parse packet = record {
  shown_timestamp = packet.timestamp;
  shown_frequency = packet.frequency;
  shown_datarate = parse packet.datarate;
  shown_snr = packet.snr;
  shown_rssi = packet.signal_strength;
  shown_length = length packet.payload;
}
