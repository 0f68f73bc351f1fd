-- ===== src/Radio/Beacon/Witness.antt =====
-- What becomes of a beacon at a gateway that receives it.
use gateway_rs.Base.{
  ℕ, ◌+◌, ◌≤◌, ◌≡◌, refl, sym, ap, arith, Bool, true, false, List, [], length, length-take, take,
  Result, ok, err, >>=-eq-ok, if◌then◌else◌, lt→ltb, ◌==◌, ◌++◌,
}
use gateway_rs.Lorawan.Header.{uplink, proprietary}
use gateway_rs.Lorawan.Wire.{LittleEndian, fails, invalid_packet_size}
use gateway_rs.Lorawan.Built.{phy_read-phy_proprietary}
use gateway_rs.Radio.Packet.{RxPk, frame_error, parse_frame, packet_try_from}
use gateway_rs.Radio.Beacon.{
  Entropy, Randomness, BeaconError, invalid_version, Beacon, digest, beacon_new, rand_frequency,
  beacon_to_pull_resp,
}

if-ok :
    {A : Type 0} (c : Bool) (r : Result BeaconError A) (x : BeaconError) {value : A}
    → (if c then r else err x) ≡ ok value
    → r ≡ ok value
if-ok true r x h = h
if-ok false r x h = cc

abbrev made_bytes : Result BeaconError Beacon → List ℕ
made_bytes (ok beacon) = beacon.bytes
made_bytes (err e) = []

module _ ⦃random : Randomness⦄ where
  -- A beacon that is made holds from five to ten bytes.
  length-beacon_new :
      (remote_entropy local_entropy : Entropy) (region_params : List ℕ) (beacon : Beacon)
      → beacon_new remote_entropy local_entropy region_params ≡ ok beacon
      → (5 ≤ length beacon.bytes) × (length beacon.bytes ≤ 10)
  unfolding beacon_new
  length-beacon_new remote_entropy local_entropy region_params beacon made =
      let hash = random.sha256 (digest remote_entropy ++ digest local_entropy) in
      let drawn = rand_frequency region_params (random.from_seed (take 32 hash)) in
      let (f, got, e) =
        >>=-eq-ok drawn.0 _ (if-ok (remote_entropy.version == 0) _ invalid_version made) in
      let same = ap made_bytes e in
      let size = length-take (random.gen_range 5 10 drawn.1).0 hash in
      let low = random.gen_range_low 5 10 drawn.1 (omega arith) in
      let high = random.gen_range_high 5 10 drawn.1 (omega arith) in
      let whole = random.length_sha256 (digest remote_entropy ++ digest local_entropy) in
      rw (sym same) (omega arith, omega arith)

module _ ⦃le : LittleEndian⦄ ⦃random : Randomness⦄ {N Q T : Type 0} where
  -- A packet of the radio whose bytes are those of a beacon that a gateway transmits is refused for
  -- its size, whatever the entropies, the channels and the rest of the packet, if its checksum is
  -- good: so no beacon is ever seen as a witness.
  pub packet_try_from-beacon_to_pull_resp :
      (to_mhz : ℕ → N) (datarate : Q) (tx_power : ℕ) (remote_entropy local_entropy : Entropy)
      (region_params : List ℕ) (beacon : Beacon) (rxpk : RxPk N T)
      → beacon_new remote_entropy local_entropy region_params ≡ ok beacon
      → rxpk.crc_ok ≡ true
      → rxpk.bytes ≡ (beacon_to_pull_resp to_mhz datarate beacon tx_power).payload
      → packet_try_from rxpk
        ≡ err (frame_error (fails (invalid_packet_size proprietary (length beacon.bytes + 1))))
  unfolding packet_try_from parse_frame beacon_to_pull_resp
  packet_try_from-beacon_to_pull_resp to_mhz datarate tx_power remote_entropy local_entropy
        region_params beacon rxpk made good same =
      let (low, high) = length-beacon_new remote_entropy local_entropy region_params beacon made in
      let read = phy_read-phy_proprietary uplink beacon.bytes in
      rw
        (
          packet_try_from,
          good,
          parse_frame,
          same,
          read,
          lt→ltb (length beacon.bytes) 11 (omega arith),
        )
        refl
