-- ===== src/Radio/Packet.antt =====
-- src/packet.rs. `N` is the type of the floating point numbers of the radio, of which nothing is
-- computed, and `T` of the texts of data rates, whose parsers are parameters.
pub mod Fees
pub mod Uplinks
use gateway_rs.Base.{
  ℕ, ◌+◌, ◌-◌, ◌*◌, ◌/◌, ◌%◌, ◌^◌, Bool, true, false, List, [], ◌∷◌, length, Option, none, some,
  Result, ok, err, ◌>>=◌, leb, if◌then◌else◌,
}
use gateway_rs.Lorawan.Header.{Direction, MType, uplink, mtype, proprietary}
use gateway_rs.Lorawan.Wire.{LittleEndian, Failure}
use gateway_rs.Lorawan.Frame.{
  PhyPayloadFrame, mac_frame, join_request_frame, join_accept_frame, proprietary_frame,
}
use gateway_rs.Lorawan.Phy.{phy_read}
use gateway_rs.Router.Routing.{RoutingInformation, eui, devaddr}

-- The received packet of the packet forwarder, with its numbers as they are cast.
pub record RxPk (N T : Type 0) : Type 0 where
  pub crc_ok : Bool
  pub signal_rssi : Option N
  pub channel_rssi : N
  pub snr : N
  pub frequency : N
  pub timestamp : ℕ
  pub datarate : T
  pub bytes : List ℕ

pub record Window (N T : Type 0) : Type 0 where
  pub timestamp : ℕ
  pub frequency : N
  pub datarate : T

-- `helium_proto::Packet`, of the type LoRaWAN.
pub record Packet (N T : Type 0) : Type 0 where
  pub signal_strength : N
  pub snr : N
  pub frequency : N
  pub timestamp : ℕ
  pub datarate : T
  pub routing : Option RoutingInformation
  pub payload : List ℕ
  pub rx2_window : Option (Window N T)
  pub oui : ℕ

pub data PacketError : Type 0 where
  frame_error : Failure → PacketError
  invalid_crc : PacketError
  invalid_datarate : PacketError
  not_a_beacon : PacketError

-- The data rates of `helium_proto` that a witness may have, and the others.
pub data ProtoDataRate : Type 0 where
  sf7bw125 sf8bw125 sf9bw125 sf10bw125 sf12bw125 : ProtoDataRate
  other_rate : ℕ → ProtoDataRate

-- `pull_resp::TxPk`, without the fields that are always the same; `Q` is the type of data rates.
pub record TxPk (N Q : Type 0) : Type 0 where
  pub imme : Bool
  pub ipol : Bool
  pub datr : Q
  pub freq : N
  pub payload : List ℕ
  pub size : ℕ
  pub powe : ℕ
  pub tmst : Option ℕ

pub record WitnessReport (N : Type 0) : Type 0 where
  pub payload : List ℕ
  pub timestamp : ℕ
  pub snr : N
  pub frequency : ℕ
  pub datarate : ProtoDataRate

unfoldable pub routing_information : PhyPayloadFrame → Option RoutingInformation
routing_information (join_request_frame request) = some (record {
  data_of = some (eui (record { deveui = request.dev_eui; appeui = request.app_eui }));
})
routing_information (mac_frame mac) = some (record { data_of = some (devaddr mac.fhdr.dev_addr) })
routing_information (join_accept_frame accept) = none
routing_information (proprietary_frame bytes) = none

-- The packet of a frame that parses.
unfoldable pub of_frame : {N T : Type 0} → RxPk N T → PhyPayloadFrame → Packet N T
of_frame rxpk frame = record {
  signal_strength = elim rxpk.signal_rssi [ some rssi ↦ rssi | none ↦ rxpk.channel_rssi ];
  snr = rxpk.snr;
  frequency = rxpk.frequency;
  timestamp = rxpk.timestamp;
  datarate = rxpk.datarate;
  routing = routing_information frame;
  payload = rxpk.bytes;
  rx2_window = none;
  oui = 0;
}

-- `MHDR::read` and the type of the header, of which an empty packet has none.
unfoldable pub is_potential_beacon : List ℕ → Bool
is_potential_beacon [] = false
is_potential_beacon (header ∷ rest) = elim (mtype header) [ proprietary ↦ true | _ ↦ false ]

unfoldable pub dc_payload : List ℕ → ℕ
dc_payload payload = if leb (length payload) 24 then 1 else (length payload + 24 - 1) / 24

module _ ⦃le : LittleEndian⦄ where
  unfoldable pub parse_frame : Direction → List ℕ → Result PacketError PhyPayloadFrame
  parse_frame direction payload = elim (phy_read direction payload) [
    | ok p ↦ ok p.payload
    | err e ↦ err (frame_error e)
  ]

  unfoldable pub packet_try_from : {N T : Type 0} → RxPk N T → Result PacketError (Packet N T)
  packet_try_from rxpk =
      if rxpk.crc_ok
      then (parse_frame uplink rxpk.bytes >>= λ frame. ok (of_frame rxpk frame))
      else err invalid_crc

  -- `to_hz` cuts a frequency to a whole number.
  unfoldable pub to_witness_report :
      {N T : Type 0}
      → (T → Option ProtoDataRate)
      → (N → ℕ)
      → Packet N T
      → Result PacketError (WitnessReport N)
  to_witness_report parse to_hz packet = elim (parse_frame uplink packet.payload) [
    | ok (proprietary_frame bytes) ↦ elim (parse packet.datarate) [
      | none ↦ err invalid_datarate
      | some (other_rate r) ↦ err invalid_datarate
      | some rate ↦ ok (record {
        payload = bytes;
        timestamp = packet.timestamp;
        snr = packet.snr;
        frequency = to_hz packet.frequency;
        datarate = rate;
      })
    ]
    | _ ↦ err not_a_beacon
  ]

-- `none` inside is a second window that was not asked for.
unfoldable pub to_pull_resp :
    {N T Q : Type 0}
    → (T → Option Q)
    → Bool
    → ℕ
    → Packet N T
    → Result PacketError (Option (TxPk N Q))
to_pull_resp {N} {T} {Q} parse use_rx2 tx_power packet =
    let response : ℕ → N → Q → TxPk N Q = λ timestamp frequency rate. record {
      imme = false;
      ipol = true;
      datr = rate;
      freq = frequency;
      payload = packet.payload;
      size = length packet.payload;
      powe = tx_power;
      tmst = some (timestamp % 2 ^ 32);
    } in
    let window : ℕ → N → T → Result PacketError (Option (TxPk N Q)) =
      λ timestamp frequency datarate. elim (parse datarate) [
        | none ↦ err invalid_datarate
        | some rate ↦ ok (some (response timestamp frequency rate))
      ] in
    if use_rx2
    then elim packet.rx2_window [
      | none ↦ ok none
      | some rx2 ↦ window rx2.timestamp rx2.frequency rx2.datarate
    ]
    else window packet.timestamp packet.frequency packet.datarate
