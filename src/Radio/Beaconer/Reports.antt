-- ===== src/Radio/Beaconer/Reports.antt =====
-- src/beaconer.rs: the reports of the beacons that are sent, and when a beacon is sent at all.
use gateway_rs.Base.{
  ℕ, ◌≡◌, refl, List, [], ◌∷◌, ◌++◌, map, Option, none, some, Option-cases, Result, ok, err,
  Result-cases, inl, inr,
}
use gateway_rs.Lorawan.Wire.{LittleEndian}
use gateway_rs.Radio.Region.{RegionParams}
use gateway_rs.Radio.Packet.{Packet, ProtoDataRate, WitnessReport, to_witness_report}
use gateway_rs.Radio.Beacon.{Entropy, Randomness, Beacon, BeaconError, beacon_new}
use gateway_rs.Radio.Beaconer.{
  Beaconer, BeaconReport, MakeError, beacon_error, SignedReport, Surroundings, received,
  region_changed, BeaconerEvent, timer, beacon_message, closed, Sent, transmitted, beacon_submitted,
  witness_submitted, Signer, sign_report, beacon_report, submitted, of_region, mk_beacon,
  handle_region_params, transmit_and_report, send_beacon, handle_received_beacon, beaconer_step,
  beaconer_steps,
}

-- A report of a beacon at an instant: its data, frequency and both entropies.
pub record ReportOf (beacon : Beacon) (now : ℕ) (report : BeaconReport) : Type 0 where
  pub of_local : report.local_entropy ≡ beacon.local_entropy.bytes
  pub of_remote : report.remote_entropy ≡ beacon.remote_entropy.bytes
  pub of_payload : report.payload ≡ beacon.bytes
  pub of_frequency : report.frequency ≡ beacon.frequency
  pub of_time : report.timestamp ≡ now

beacon_report-ReportOf :
    (now : ℕ) (beacon : Beacon) → ReportOf beacon now (beacon_report now beacon)
unfolding beacon_report
beacon_report-ReportOf now beacon = record {
  of_local = refl;
  of_remote = refl;
  of_payload = refl;
  of_frequency = refl;
  of_time = refl;
}

as_ok :
    {E : Type 0} (r : Result BeaconError Beacon) (beacon : Beacon)
    → ◌≡◌ {A = Result (MakeError E) Beacon}
        (elim r [ ok b ↦ ok b | err e ↦ err (beacon_error e) ])
        (ok beacon)
    → r ≡ ok beacon
as_ok (ok b) beacon h = cc
as_ok (err e) beacon h = cc

module _ ⦃random : Randomness⦄ {E R : Type 0} where
  -- A beacon of the two entropies of a tick and of the channels of the region.
  pub record Made (around : Surroundings E) (region : Option (RegionParams R)) (beacon : Beacon)
      : Type 0 where
    pub remote : Entropy
    pub local : Entropy
    pub params : RegionParams R
    pub fetched : around.get_entropy ≡ ok remote
    pub drawn : around.local ≡ ok local
    pub in_region : region ≡ some params
    pub made : beacon_new remote local (map (λ p. p.channel_frequency) params.params) ≡ ok beacon

  Made-mk_beacon :
      (get_entropy local : Result E Entropy) (now : Result E ℕ) (interval : ℕ)
      (region : Option (RegionParams R)) (beacon : Beacon)
      → mk_beacon
          (record { get_entropy = get_entropy; local = local; now = now })
          (record { interval = interval; region_params = region })
        ≡ ok beacon
      → Made (record { get_entropy = get_entropy; local = local; now = now }) region beacon
  unfolding mk_beacon of_region
  Made-mk_beacon (err e) local now interval region beacon h = cc
  Made-mk_beacon (ok remote) (err e) now interval region beacon h = cc
  Made-mk_beacon (ok remote) (ok local) now interval none beacon h = cc
  Made-mk_beacon (ok remote) (ok local) now interval (some params) beacon h = record {
    remote = remote;
    local = local;
    params = params;
    fetched = refl;
    drawn = refl;
    in_region = refl;
    made =
        as_ok {E = E} (beacon_new remote local (map (λ p. p.channel_frequency) params.params))
          beacon h;
  }

  mk_beacon-Made :
      (around : Surroundings E) (self : Beaconer R) (beacon : Beacon)
      → Made around self.region_params beacon
      → mk_beacon around self ≡ ok beacon
  unfolding mk_beacon of_region
  mk_beacon-Made around self beacon m =
      rw (mk_beacon, m.fetched, m.drawn, m.in_region, of_region, m.made) refl

module _ {N : Type 0} where
  -- What a packet sends: a report of a witness, or nothing.
  pub data Heard : List (Sent N) → Type 0 where
    unheard : Heard []
    witnessed : {witness : SignedReport (WitnessReport N)} → Heard (witness_submitted witness ∷ [])

module _ ⦃random : Randomness⦄ {N E R : Type 0} (signer : Signer N) where
  -- What a tick sends: a beacon, and at once its report, with the public key and a signature, unless
  -- it cannot be signed; or nothing, where no beacon is made or the clock fails.
  pub data Tick (region : Option (RegionParams R)) (around : Surroundings E)
      : List (Sent N) → Type 0 where
    reports :
        {beacon : Beacon} {now : ℕ} {report : BeaconReport} {signature : List ℕ}
        → Made around region beacon
        → around.now ≡ ok now
        → ReportOf beacon now report
        → signer.sign_beacon
            (record { report = report; pub_key = signer.key_bytes; signature = [] })
          ≡ some signature
        → Tick region around (
            transmitted beacon
            ∷ beacon_submitted
                (record { report = report; pub_key = signer.key_bytes; signature = signature })
            ∷ [])
    cannot_sign :
        {beacon : Beacon} {now : ℕ} {report : BeaconReport}
        → Made around region beacon
        → around.now ≡ ok now
        → ReportOf beacon now report
        → signer.sign_beacon
            (record { report = report; pub_key = signer.key_bytes; signature = [] })
          ≡ none
        → Tick region around (transmitted beacon ∷ [])
    no_beacon : ((beacon : Beacon) → ¬ Made around region beacon) → Tick region around []
    no_clock : {e : E} → around.now ≡ err e → Tick region around []

  -- What a list of events sends, from the parameters of the region that are known.
  pub data Reported {T : Type 0}
      : Option (RegionParams R) → List (BeaconerEvent E N T R) → List (Sent N) → Type 0 where
    nothing : {region : Option (RegionParams R)} → Reported region [] []
    ticked :
        {region : Option (RegionParams R)} {around : Surroundings E}
        {events : List (BeaconerEvent E N T R)} {sent rest : List (Sent N)}
        → Tick region around sent
        → Reported region events rest
        → Reported region (timer around ∷ events) (sent ++ rest)
    heard :
        {region : Option (RegionParams R)} {packet : Packet N T}
        {events : List (BeaconerEvent E N T R)} {sent rest : List (Sent N)}
        → Heard sent
        → Reported region events rest
        → Reported region (beacon_message (received packet) ∷ events) (sent ++ rest)
    changed :
        {region : Option (RegionParams R)} {params : RegionParams R}
        {events : List (BeaconerEvent E N T R)} {rest : List (Sent N)}
        → Reported (some params) events rest
        → Reported region (beacon_message (region_changed params) ∷ events) rest
    ignored :
        {region : Option (RegionParams R)} {events : List (BeaconerEvent E N T R)}
        {rest : List (Sent N)}
        → Reported region events rest
        → Reported region (closed ∷ events) rest

module _ ⦃le : LittleEndian⦄ ⦃random : Randomness⦄ {N T : Type 0} (signer : Signer N)
    (parse : T → Option ProtoDataRate) (to_hz : N → ℕ) where
  submitted-Heard :
      (report : Option (SignedReport (WitnessReport N)))
      → Heard (submitted witness_submitted report)
  submitted-Heard none = unheard
  submitted-Heard (some report) = witnessed

  handle_received_beacon-Heard :
      (packet : Packet N T) → Heard (handle_received_beacon signer parse to_hz packet)
  unfolding handle_received_beacon
  handle_received_beacon-Heard packet = elim (Result-cases (to_witness_report parse to_hz packet)) [
    | inr (e, failed) ↦ rw (handle_received_beacon, failed) unheard
    | inl (report, e) ↦
        rw (handle_received_beacon, e)
          (submitted-Heard (sign_report signer.key_bytes signer.sign_witness report))
  ]

module _ ⦃le : LittleEndian⦄ ⦃random : Randomness⦄ {N T E R : Type 0} (signer : Signer N)
    (parse : T → Option ProtoDataRate) (to_hz : N → ℕ) where
  transmit_and_report-Tick :
      (around : Surroundings E) (region : Option (RegionParams R)) (beacon : Beacon)
      (clock : Result E ℕ)
      → Made around region beacon
      → around.now ≡ clock
      → Tick signer region around (transmit_and_report signer parse to_hz clock beacon)
  unfolding transmit_and_report sign_report
  transmit_and_report-Tick around region beacon (err e) made read = no_clock read
  transmit_and_report-Tick around region beacon (ok now) made read =
      let report = beacon_report-ReportOf now beacon in
      elim (Option-cases (
        signer.sign_beacon (record {
          report = beacon_report now beacon;
          pub_key = signer.key_bytes;
          signature = [];
        }))) [
          | inl failed ↦
              rw (transmit_and_report, sign_report, failed) (cannot_sign made read report failed)
          | inr (signature, signed) ↦
              rw (transmit_and_report, sign_report, signed) (reports made read report signed)
        ]

  send_beacon-Tick :
      (around : Surroundings E) (self : Beaconer R)
      → Tick signer self.region_params around (send_beacon signer parse to_hz around self)
  unfolding send_beacon
  send_beacon-Tick around self = elim (Result-cases (mk_beacon around self)) [
    | inl (beacon, e) ↦
        rw (send_beacon, e)
          (transmit_and_report-Tick around self.region_params beacon around.now
            (Made-mk_beacon around.get_entropy around.local around.now self.interval
              self.region_params beacon e)
            refl)
    | inr (failure, e) ↦
        rw (send_beacon, e)
          (no_beacon (λ beacon made. let e' = mk_beacon-Made around self beacon made in cc (e, e')))
  ]

  -- Over any events, a tick sends a beacon just where one is made of the two entropies that it is given and
  -- of the region that is known by then, and the clock can be read: this beacon, followed at once by its
  -- report, with the beacon's data, frequency and entropies, the time, the public key and the gateway's
  -- signature, unless the report cannot be signed. Besides, only reports of witnesses are sent, one at
  -- most for a packet.
  pub beaconer_steps-Reported :
      (events : List (BeaconerEvent E N T R)) (self : Beaconer R)
      → Reported signer self.region_params events (beaconer_steps signer parse to_hz events self).1
  unfolding beaconer_steps beaconer_step handle_region_params
  beaconer_steps-Reported [] self = nothing
  beaconer_steps-Reported (timer around ∷ events) self =
      ticked (send_beacon-Tick around self) (beaconer_steps-Reported events self)
  beaconer_steps-Reported (beacon_message (received packet) ∷ events) self =
      heard (handle_received_beacon-Heard signer parse to_hz packet)
        (beaconer_steps-Reported events self)
  beaconer_steps-Reported (beacon_message (region_changed params) ∷ events) self =
      changed (beaconer_steps-Reported events (handle_region_params params self))
  beaconer_steps-Reported (closed ∷ events) self = ignored (beaconer_steps-Reported events self)
