-- ===== src/Lorawan/Samples.antt =====
-- A frame from the tests of lorawan/src/lib.rs, and the theorems at these.
use gateway_rs.Base.{ℕ, ◌≡◌, ◌≢◌, refl, arith, List, [], ◌∷◌, length, drop, ok, err, some}
use gateway_rs.Lorawan.Endian.{byteorder, put_le, get_le}
use gateway_rs.Lorawan.Header.{uplink, join_request, proprietary, mtype, mtype_from_u8}
use gateway_rs.Lorawan.Wire.{fails, panics, invalid_packet_size}
use gateway_rs.Lorawan.Frame.{
  JoinRequest, mac_frame, uplink_ctrl, unconfirmed_up_data, frame_read, join_request_frame,
}
use gateway_rs.Lorawan.Phy.{PhyPayload, phy_read, phy_write, phy_proprietary, check_size, split_mic}
use gateway_rs.Lorawan.Phy.Sizes.{GoodSize}
use gateway_rs.Lorawan.Types.{IsResult, IsPhyPayload}
use gateway_rs.Lorawan.Typed.{phy_read-IsPhyPayload}
use gateway_rs.Lorawan.Panics.{phy_read-ne-panics}
use gateway_rs.Lorawan.RoundTrip.{phy_read-Rewrites, Rewrites}
use gateway_rs.Lorawan.Built.{phy_read-phy_proprietary, phy_read-phy_write_join_request}

abbrev join_accept_bytes : List ℕ
join_accept_bytes =
    32 ∷ 189 ∷ 92 ∷ 136 ∷ 203 ∷ 187 ∷ 111 ∷ 118 ∷ 78 ∷ 63 ∷ 148 ∷ 53 ∷ 112 ∷ 16 ∷ 59 ∷ 138 ∷ 194
    ∷ []

-- An uplink with one byte of payload on port 7.
abbrev data_bytes : List ℕ
data_bytes = 0x40 ∷ 1 ∷ 2 ∷ 3 ∷ 4 ∷ 0 ∷ 9 ∷ 0 ∷ 7 ∷ 0xaa ∷ 10 ∷ 11 ∷ 12 ∷ 13 ∷ []

abbrev data_frame : PhyPayload
data_frame = record {
  mhdr = 0x40;
  payload = mac_frame (record {
    fhdr = record { dev_addr = 0x0403_0201; fctrl = uplink_ctrl 0; fcnt = 9; fopts = [] };
    fport = some 7;
    payload = some (unconfirmed_up_data (0xaa ∷ []));
  });
  mic = some (10 ∷ 11 ∷ 12 ∷ 13 ∷ []);
}

data_read : phy_read ⦃le = byteorder⦄ uplink data_bytes ≡ ok data_frame
unfolding phy_read mtype mtype_from_u8 check_size split_mic frame_read get_le
data_read = refl

data_written :
    (phy_write ⦃le = byteorder⦄ data_frame).bytes ≡ 0x40 ∷ 1 ∷ 2 ∷ 3 ∷ 4 ∷ drop 1 data_bytes
unfolding phy_write put_le
data_written = refl

join_accept_written :
    (p : PhyPayload) × (phy_read ⦃le = byteorder⦄ uplink join_accept_bytes ≡ ok p)
    × ((phy_write ⦃le = byteorder⦄ p).bytes ≡ join_accept_bytes)
unfolding phy_read mtype mtype_from_u8 check_size split_mic frame_read get_le phy_write put_le
join_accept_written = (_, refl, refl)

abbrev join_sample : JoinRequest
join_sample = record { app_eui = 0x1122; dev_eui = 0x3344; dev_nonce = 5 ∷ 6 ∷ [] }

phy_read-ne-panics_example : phy_read ⦃le = byteorder⦄ uplink (0x40 ∷ 1 ∷ []) ≢ err panics
phy_read-ne-panics_example = phy_read-ne-panics ⦃le = byteorder⦄ uplink (0x40 ∷ 1 ∷ [])

phy_read-Rewrites_example :
    GoodSize (mtype data_frame.mhdr) (length data_bytes)
    × Rewrites ⦃le = byteorder⦄ (mtype data_frame.mhdr) data_frame data_bytes
phy_read-Rewrites_example =
    phy_read-Rewrites ⦃le = byteorder⦄ uplink data_bytes data_frame (omega arith) data_read

phy_read-phy_proprietary_example :
    phy_read ⦃le = byteorder⦄ uplink
      (phy_write ⦃le = byteorder⦄ (phy_proprietary (1 ∷ 2 ∷ []))).bytes
    ≡ err (fails (invalid_packet_size proprietary 3))
phy_read-phy_proprietary_example = phy_read-phy_proprietary ⦃le = byteorder⦄ uplink (1 ∷ 2 ∷ [])

join_request_mtype : mtype 0 ≡ join_request
unfolding mtype mtype_from_u8
join_request_mtype = refl

phy_read-phy_write_join_request_example :
    phy_read ⦃le = byteorder⦄ uplink
      (phy_write ⦃le = byteorder⦄ (record {
        mhdr = 0;
        payload = join_request_frame join_sample;
        mic = some (1 ∷ 2 ∷ 3 ∷ 4 ∷ []);
      })).bytes
    ≡ ok (record {
      mhdr = 0;
      payload = join_request_frame join_sample;
      mic = some (1 ∷ 2 ∷ 3 ∷ 4 ∷ []);
    })
phy_read-phy_write_join_request_example =
    phy_read-phy_write_join_request ⦃le = byteorder⦄ uplink 0 join_sample (1 ∷ 2 ∷ 3 ∷ 4 ∷ [])
      join_request_mtype
      (record { app_fits = omega arith; dev_fits = omega arith; nonce_fits = refl }) refl

phy_read-IsPhyPayload_example : IsResult IsPhyPayload (phy_read ⦃le = byteorder⦄ uplink data_bytes)
phy_read-IsPhyPayload_example =
    phy_read-IsPhyPayload ⦃le = byteorder⦄ uplink data_bytes (omega arith)
