-- ===== src/Radio/Packet/Uplinks.antt =====
-- The routing information of a packet that a device sent.
use gateway_rs.Base.{ℕ, ◌≡◌, refl, true, List, length, some, ok}
use gateway_rs.Lorawan.Header.{mtype, join_request, uplink}
use gateway_rs.Lorawan.Wire.{LittleEndian}
use gateway_rs.Lorawan.Frame.{JoinRequest, join_request_frame}
use gateway_rs.Lorawan.Phy.{phy_write}
use gateway_rs.Lorawan.Joins.{JoinRequestFits}
use gateway_rs.Lorawan.Built.{phy_read-phy_write_join_request}
use gateway_rs.Router.Routing.{eui}
use gateway_rs.Radio.Packet.{
  RxPk, Packet, of_frame, packet_try_from, parse_frame, routing_information,
}

-- A join request that a device wrote, received with a good checksum, becomes a packet that holds its
-- bytes and is routed by the device and the application that the request names.
pub packet_try_from-phy_write :
    ⦃le : LittleEndian⦄
    → {N T : Type 0} → (rxpk : RxPk N T) (mhdr : ℕ) (j : JoinRequest) (mic : List ℕ)
    → rxpk.crc_ok ≡ true
    → rxpk.bytes
      ≡ (phy_write (record { mhdr = mhdr; payload = join_request_frame j; mic = some mic })).bytes
    → mtype mhdr ≡ join_request
    → JoinRequestFits j
    → length mic ≡ 4
    → (packet : Packet N T) × (packet_try_from rxpk ≡ ok packet)
      × (packet.payload ≡ rxpk.bytes)
      × (packet.routing
          ≡ some
              (record { data_of = some (eui (record { deveui = j.dev_eui; appeui = j.app_eui })) }))
unfolding packet_try_from of_frame parse_frame routing_information
packet_try_from-phy_write rxpk mhdr j mic good same typed fits four =
    let read = phy_read-phy_write_join_request uplink mhdr j mic typed fits four in
    (
      of_frame rxpk (join_request_frame j),
      rw (packet_try_from, good, parse_frame, same, read) refl,
      refl,
      refl,
    )
