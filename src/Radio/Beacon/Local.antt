-- ===== src/Radio/Beacon/Local.antt =====
-- beacon/src/entropy.rs: the local entropy, and the bytes of an entropy as text. The random bytes of the
-- system, its clock and base64 are parameters.
use gateway_rs.Base.{
  ℕ, ◌%◌, ◌^◌, ◌≡◌, refl, List, length, Option, none, some, Result, ok, err, Text,
}
use gateway_rs.Radio.Beacon.{Entropy}

abbrev pub local_entropy_size : ℕ
local_entropy_size = 4

-- `OsRng::fill_bytes` gives as many bytes as it is asked for. The clock gives the seconds since the epoch,
-- or that it stands before it.
pub record Platform : Type 0 where
  pub fill_bytes : ℕ → List ℕ
  pub length_fill_bytes : (n : ℕ) → length (fill_bytes n) ≡ n
  pub since_epoch : Option ℕ

pub data LocalError : Type 0 where
  before_epoch : LocalError

-- `as i64` keeps the 64 bits.
unfoldable pub local : Platform → Result LocalError Entropy
local platform = elim platform.since_epoch [
  | none ↦ err before_epoch
  | some seconds ↦ ok (record {
    version = 0;
    timestamp = seconds % 2 ^ 64;
    bytes = platform.fill_bytes local_entropy_size;
  })
]

-- `default_version`, of an entropy that is read.
abbrev pub default_version : ℕ
default_version = 0

-- `serde_base64`
pub record Base64Text : Type 0 where
  pub encode : List ℕ → Text
  pub decode : Text → Option (List ℕ)
  pub decode_encode : (bytes : List ℕ) → decode (encode bytes) ≡ some bytes

-- An entropy as it is transferred: the version may be missing.
pub record EntropyJson : Type 0 where
  pub json_version : Option ℕ
  pub json_timestamp : ℕ
  pub json_data : Text

unfoldable pub version_or_default : Option ℕ → ℕ
version_or_default none = default_version
version_or_default (some v) = v

module _ (base64 : Base64Text) where
  unfoldable pub serialize : Entropy → EntropyJson
  serialize entropy = record {
    json_version = some entropy.version;
    json_timestamp = entropy.timestamp;
    json_data = base64.encode entropy.bytes;
  }

  unfoldable pub deserialize : EntropyJson → Option Entropy
  deserialize json = elim (base64.decode json.json_data) [
    | none ↦ none
    | some bytes ↦ some (record {
      version = version_or_default json.json_version;
      timestamp = json.json_timestamp;
      bytes = bytes;
    })
  ]

  -- An entropy that is written is read as it was.
  pub deserialize-serialize : (entropy : Entropy) → deserialize (serialize entropy) ≡ some entropy
  unfolding deserialize serialize version_or_default
  deserialize-serialize entropy =
      rw (deserialize, serialize, base64.decode_encode entropy.bytes) refl

-- A local entropy is four bytes of version 0.
pub local-sized :
    (platform : Platform) (seconds : ℕ)
    → platform.since_epoch ≡ some seconds
    → (entropy : Entropy) × (local platform ≡ ok entropy)
      × (entropy.version ≡ 0)
      × (length entropy.bytes ≡ 4)
unfolding local
local-sized platform seconds e = (
  record { version = 0; timestamp = seconds % 2 ^ 64; bytes = platform.fill_bytes 4 },
  rw (local, e) refl,
  refl,
  platform.length_fill_bytes 4,
)
