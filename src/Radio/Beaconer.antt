-- ===== src/Radio/Beaconer.antt =====
-- src/beaconer.rs, and the two calls of src/service/poc.rs. The services, the clock and the signature are
-- parameters; the answers of the service are not used.
pub mod Reports
pub mod Agreement
use gateway_rs.Base.{ℕ, List, [], ◌∷◌, ◌++◌, map, Option, none, some, Result, ok, err}
use gateway_rs.Lorawan.Wire.{LittleEndian}
use gateway_rs.Radio.Packet.{Packet, PacketError, ProtoDataRate, WitnessReport, to_witness_report}
use gateway_rs.Radio.Region.{RegionParams}
use gateway_rs.Radio.Beacon.{Entropy, Randomness, Beacon, BeaconError, beacon_new}

pub record Beaconer (R : Type 0) : Type 0 where
  pub interval : ℕ
  pub region_params : Option (RegionParams R)

unfoldable pub new_beaconer : {R : Type 0} → ℕ → Beaconer R
new_beaconer beacon_interval = record { interval = beacon_interval; region_params = none }

-- `LoraBeaconReportReqV1`, without the fields that are always the same or filled in when it is sent.
pub record BeaconReport : Type 0 where
  pub local_entropy : List ℕ
  pub remote_entropy : List ℕ
  pub payload : List ℕ
  pub frequency : ℕ
  pub timestamp : ℕ

-- A report with the public key and the signature.
pub record SignedReport (M : Type 0) : Type 0 where
  pub report : M
  pub pub_key : List ℕ
  pub signature : List ℕ

-- What happens at one tick of the timer: the two entropies and the clock, each an error or a value.
pub record Surroundings (E : Type 0) : Type 0 where
  pub get_entropy : Result E Entropy
  pub local : Result E Entropy
  pub now : Result E ℕ

pub data BeaconMessage (N T R : Type 0) : Type 0 where
  received : Packet N T → BeaconMessage N T R
  region_changed : RegionParams R → BeaconMessage N T R

pub data BeaconerEvent (E N T R : Type 0) : Type 0 where
  timer : Surroundings E → BeaconerEvent E N T R
  beacon_message : BeaconMessage N T R → BeaconerEvent E N T R
  closed : BeaconerEvent E N T R

pub data Sent (N : Type 0) : Type 0 where
  transmitted : Beacon → Sent N
  beacon_submitted : SignedReport BeaconReport → Sent N
  witness_submitted : SignedReport (WitnessReport N) → Sent N

pub data MakeError (E : Type 0) : Type 0 where
  outside : E → MakeError E
  beacon_error : BeaconError → MakeError E
  no_region_set : MakeError E

-- The gateway's public key and its signatures on both kinds of reports.
pub record Signer (N : Type 0) : Type 0 where
  pub key_bytes : List ℕ
  pub sign_beacon : SignedReport BeaconReport → Option (List ℕ)
  pub sign_witness : SignedReport (WitnessReport N) → Option (List ℕ)

-- `submit_beacon` and `submit_witness`: a report that cannot be signed is not sent.
unfoldable pub sign_report :
    {M : Type 0} → List ℕ → (SignedReport M → Option (List ℕ)) → M → Option (SignedReport M)
sign_report {M} key_bytes sign report =
    let req : SignedReport M = record { report = report; pub_key = key_bytes; signature = [] } in
    elim (sign req) [ none ↦ none | some signature ↦ some (record req { signature = signature }) ]

abbrev submitted : {A B : Type 0} → (A → B) → Option A → List B
submitted f none = []
submitted f (some a) = f a ∷ []

unfoldable pub beacon_report : ℕ → Beacon → BeaconReport
beacon_report now beacon = record {
  local_entropy = beacon.local_entropy.bytes;
  remote_entropy = beacon.remote_entropy.bytes;
  payload = beacon.bytes;
  frequency = beacon.frequency;
  timestamp = now;
}

module _ ⦃random : Randomness⦄ {E R : Type 0} where
  unfoldable pub of_region :
      Entropy → Entropy → Option (RegionParams R) → Result (MakeError E) Beacon
  of_region remote_entropy local_entropy none = err no_region_set
  of_region remote_entropy local_entropy (some region) =
      elim (beacon_new remote_entropy local_entropy
        (map (λ p. p.channel_frequency) region.params)) [
          | ok beacon ↦ ok beacon
          | err e ↦ err (beacon_error e)
        ]

  unfoldable pub mk_beacon : Surroundings E → Beaconer R → Result (MakeError E) Beacon
  mk_beacon around self = elim around.get_entropy [
    | err e ↦ err (outside e)
    | ok remote_entropy ↦ elim around.local [
      | err e ↦ err (outside e)
      | ok local_entropy ↦ of_region remote_entropy local_entropy self.region_params
    ]
  ]

unfoldable pub handle_region_params : {R : Type 0} → RegionParams R → Beaconer R → Beaconer R
handle_region_params params self = record self { region_params = some params }

module _ ⦃le : LittleEndian⦄ ⦃random : Randomness⦄ {N T : Type 0} (signer : Signer N)
    (parse : T → Option ProtoDataRate) (to_hz : N → ℕ) where
  unfoldable pub transmit_and_report : {E : Type 0} → Result E ℕ → Beacon → List (Sent N)
  transmit_and_report (err e) beacon = []
  transmit_and_report (ok now) beacon =
      transmitted beacon
      ∷ submitted beacon_submitted
          (sign_report signer.key_bytes signer.sign_beacon (beacon_report now beacon))

  unfoldable pub send_beacon : {E R : Type 0} → Surroundings E → Beaconer R → List (Sent N)
  send_beacon around self = elim (mk_beacon around self) [
    | err e ↦ []
    | ok beacon ↦ transmit_and_report around.now beacon
  ]

  unfoldable pub handle_received_beacon : Packet N T → List (Sent N)
  handle_received_beacon packet = elim (to_witness_report parse to_hz packet) [
    | err e ↦ []
    | ok report ↦
        submitted witness_submitted (sign_report signer.key_bytes signer.sign_witness report)
  ]

  unfoldable pub beaconer_step :
      {E R : Type 0} → BeaconerEvent E N T R → Beaconer R → Beaconer R × List (Sent N)
  beaconer_step (timer around) self = (self, send_beacon around self)
  beaconer_step (beacon_message (received packet)) self = (self, handle_received_beacon packet)
  beaconer_step (beacon_message (region_changed params)) self =
      (handle_region_params params self, [])
  beaconer_step closed self = (self, [])

  unfoldable pub beaconer_steps :
      {E R : Type 0} → List (BeaconerEvent E N T R) → Beaconer R → Beaconer R × List (Sent N)
  beaconer_steps [] self = (self, [])
  beaconer_steps (event ∷ events) self =
      let (first, sent) = beaconer_step event self in
      let (last, more) = beaconer_steps events first in (last, sent ++ more)
