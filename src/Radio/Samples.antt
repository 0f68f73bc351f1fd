-- ===== src/Radio/Samples.antt =====
-- Packets and a beacon, to run src/packet.rs and the crate beacon on.
use gateway_rs.Base.{
  ℕ, ◌*◌, ◌≤◌, ◌≡◌, refl, arith, true, List, [], ◌∷◌, length, some, none, ok, err,
}
use gateway_rs.Lorawan.Header.{mtype, mtype_from_u8, join_request, proprietary}
use gateway_rs.Lorawan.Wire.{fails, invalid_packet_size}
use gateway_rs.Lorawan.Endian.{byteorder}
use gateway_rs.Lorawan.Frame.{JoinRequest, join_request_frame}
use gateway_rs.Lorawan.Phy.{phy_write}
use gateway_rs.Router.Routing.{eui}
use gateway_rs.Radio.Packet.{RxPk, Packet, packet_try_from, frame_error, dc_payload}
use gateway_rs.Radio.Packet.Fees.{dc_payload-least}
use gateway_rs.Radio.Packet.Uplinks.{packet_try_from-phy_write}
use gateway_rs.Radio.Beacon.{
  Entropy, Randomness, Beacon, beacon_new, rand_frequency, beacon_to_pull_resp,
}
use gateway_rs.Radio.Beacon.Witness.{packet_try_from-beacon_to_pull_resp}

abbrev sample : JoinRequest
sample = record { app_eui = 1; dev_eui = 2; dev_nonce = 3 ∷ 4 ∷ [] }

abbrev mic : List ℕ
mic = 1 ∷ 2 ∷ 3 ∷ 4 ∷ []

-- A packet with a good checksum.
abbrev received : List ℕ → RxPk ℕ ℕ
received bytes = record {
  crc_ok = true;
  signal_rssi = none;
  channel_rssi = 7;
  snr = 8;
  frequency = 9;
  timestamp = 10;
  datarate = 11;
  bytes = bytes;
}

join_header : mtype 0 ≡ join_request
unfolding mtype mtype_from_u8
join_header = refl

packet_try_from-phy_write_example :
    let bytes =
      (phy_write ⦃le = byteorder⦄
        (record { mhdr = 0; payload = join_request_frame sample; mic = some mic })).bytes in
    (packet : Packet ℕ ℕ) × (packet_try_from ⦃le = byteorder⦄ (received bytes) ≡ ok packet)
    × (packet.payload ≡ bytes)
    × (packet.routing ≡ some (record { data_of = some (eui (record { deveui = 2; appeui = 1 })) }))
packet_try_from-phy_write_example =
    packet_try_from-phy_write ⦃le = byteorder⦄
      (received
        (phy_write ⦃le = byteorder⦄
          (record { mhdr = 0; payload = join_request_frame sample; mic = some mic })).bytes)
      0 sample mic refl refl join_header
      (record { app_fits = omega arith; dev_fits = omega arith; nonce_fits = refl }) refl

dc_payload-least_example :
    (1 ≤ dc_payload mic)
    × (length mic ≤ 24 * dc_payload mic)
    × ((n : ℕ) → 1 ≤ n → length mic ≤ 24 * n → dc_payload mic ≤ n)
dc_payload-least_example = dc_payload-least mic

abbrev eight : List ℕ → List ℕ
eight rest = 1 ∷ 2 ∷ 3 ∷ 4 ∷ 5 ∷ 6 ∷ 7 ∷ 8 ∷ rest

-- Random numbers that are always the same.
abbrev fixed : Randomness
fixed = record {
  sha256 = λ bytes. eight (eight (eight (eight [])));
  length_sha256 = λ bytes. refl;
  to_ne_bytes = λ timestamp. eight [];
  from_seed = λ seed. 0;
  choose = λ frequencies rng. elim frequencies [ [] ↦ (none, rng) | f ∷ rest ↦ (some f, rng) ];
  gen_range = λ low high rng. (low, rng);
  gen_range_low = λ low high rng h. omega arith;
  gen_range_high = λ low high rng h. h;
}

abbrev entropy : Entropy
entropy = record { version = 0; timestamp = 5; bytes = 1 ∷ 2 ∷ [] }

abbrev beacon : Beacon
beacon = record {
  bytes = 1 ∷ 2 ∷ 3 ∷ 4 ∷ 5 ∷ [];
  frequency = 904300000;
  remote_entropy = entropy;
  local_entropy = entropy;
}

made : beacon_new ⦃random = fixed⦄ entropy entropy (904300000 ∷ []) ≡ ok beacon
unfolding beacon_new rand_frequency
made = refl

packet_try_from-beacon_to_pull_resp_example :
    packet_try_from ⦃le = byteorder⦄
      (received (beacon_to_pull_resp ⦃le = byteorder⦄ {N = ℕ} {Q = ℕ} (λ f. f) 7 beacon 27).payload)
    ≡ err (frame_error (fails (invalid_packet_size proprietary 6)))
packet_try_from-beacon_to_pull_resp_example =
    packet_try_from-beacon_to_pull_resp ⦃le = byteorder⦄ ⦃random = fixed⦄ {N = ℕ} {Q = ℕ} {T = ℕ}
      (λ f. f) 7 27 entropy entropy (904300000 ∷ []) beacon
      (received (beacon_to_pull_resp ⦃le = byteorder⦄ {N = ℕ} {Q = ℕ} (λ f. f) 7 beacon 27).payload)
      made refl refl
