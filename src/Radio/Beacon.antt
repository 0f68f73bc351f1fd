-- ===== src/Radio/Beacon.antt =====
-- The crate beacon (beacon/src/beacon.rs and beacon/src/entropy.rs), and `beacon_to_pull_resp` of
-- src/gateway.rs. SHA-256 and the random numbers are parameters with the laws that are documented.
pub mod Witness
pub mod Local
use mathlib.Core.Path.{◌≡◌}
use gateway_rs.Base.{
  ℕ, ◌+◌, ◌^◌, ◌≤◌, Bool, true, false, List, [], ◌∷◌, ◌++◌, length, take, Option, none, some,
  Result, ok, err, ◌>>=◌, ◌==◌, if◌then◌else◌,
}
use gateway_rs.Lorawan.Wire.{LittleEndian}
use gateway_rs.Lorawan.Phy.{phy_proprietary, phy_write}
use gateway_rs.Radio.Packet.{TxPk}

-- A timestamp is what its 64 bits are as a natural number.
pub record Entropy : Type 0 where
  pub version : ℕ
  pub timestamp : ℕ
  pub bytes : List ℕ

-- `Sha256::digest`, `to_ne_bytes`, `ChaCha12Rng` on a seed of 32 bytes, and `choose` and `gen_range`
-- on it; a state of the generator is a number.
pub record Randomness : Type 0 where
  pub sha256 : List ℕ → List ℕ
  pub length_sha256 : (bytes : List ℕ) → length (sha256 bytes) ≡ 32
  pub to_ne_bytes : ℕ → List ℕ
  pub from_seed : List ℕ → ℕ
  pub choose : List ℕ → ℕ → Option ℕ × ℕ
  pub gen_range : ℕ → ℕ → ℕ → ℕ × ℕ
  pub gen_range_low : (low high rng : ℕ) → low ≤ high → low ≤ (gen_range low high rng).0
  pub gen_range_high : (low high rng : ℕ) → low ≤ high → (gen_range low high rng).0 ≤ high

pub data BeaconError : Type 0 where
  invalid_version : BeaconError
  no_region_params : BeaconError

abbrev pub max_beacon_v0_payload_size : ℕ
max_beacon_v0_payload_size = 10

abbrev pub min_beacon_v0_payload_size : ℕ
min_beacon_v0_payload_size = 5

-- The data rate is always SF7BW125. `truncate` is `take`.
pub record Beacon : Type 0 where
  pub bytes : List ℕ
  pub frequency : ℕ
  pub remote_entropy : Entropy
  pub local_entropy : Entropy

module _ ⦃random : Randomness⦄ where
  -- The bytes that an entropy adds to a digest.
  unfoldable pub digest : Entropy → List ℕ
  digest entropy = entropy.bytes ++ random.to_ne_bytes entropy.timestamp

  -- Of the parameters of a region, only the frequencies of the channels are read.
  unfoldable pub rand_frequency : List ℕ → ℕ → Result BeaconError ℕ × ℕ
  rand_frequency region_params rng =
      let (chosen, rng') = random.choose region_params rng in
      (elim chosen [ none ↦ err no_region_params | some frequency ↦ ok frequency ], rng')

  unfoldable pub beacon_new : Entropy → Entropy → List ℕ → Result BeaconError Beacon
  beacon_new remote_entropy local_entropy region_params =
      let hash = random.sha256 (digest remote_entropy ++ digest local_entropy) in
      let (frequency, rng) = rand_frequency region_params (random.from_seed (take 32 hash)) in
      let (payload_size, _) =
        random.gen_range min_beacon_v0_payload_size max_beacon_v0_payload_size rng in
      if remote_entropy.version == 0
      then (frequency >>= λ f. ok (record {
        bytes = take payload_size hash;
        frequency = f;
        remote_entropy = remote_entropy;
        local_entropy = local_entropy;
      }))
      else err invalid_version

-- The frequency in MHz and the data rate are computed by the types of the packet forwarder.
unfoldable pub beacon_to_pull_resp :
    ⦃le : LittleEndian⦄ → {N Q : Type 0} → (ℕ → N) → Q → Beacon → ℕ → TxPk N Q
beacon_to_pull_resp to_mhz datarate beacon tx_power = record {
  imme = true;
  ipol = false;
  datr = datarate;
  freq = to_mhz beacon.frequency;
  payload = (phy_write (phy_proprietary beacon.bytes)).bytes;
  size = length beacon.bytes;
  powe = tx_power;
  tmst = none;
}
