-- ===== src/Radio/Loops.antt =====
-- Events of the gateway and of the beaconer, to run src/gateway.rs and src/beaconer.rs on.
use gateway_rs.Base.{arith, ℕ, ◌≡◌, refl, List, [], ◌∷◌, All, none, some, ok}
use gateway_rs.Lorawan.Endian.{byteorder}
use gateway_rs.Radio.Packet.{sf7bw125}
use gateway_rs.Radio.Region.{RegionParams, plus}
use gateway_rs.Radio.Beacon.{Entropy, Beacon, Randomness}
use gateway_rs.Radio.Gateway.{Gateway, sent}
use gateway_rs.Radio.Gateway.Events.{
  GatewayEvent, udp_event, message, new_client, transmit_beacon, region_params_changed, Radio,
  gateway_steps,
}
use gateway_rs.Radio.Gateway.Powers.{Allowed, gateway_steps-Allowed}
use gateway_rs.Radio.Beaconer.{BeaconerEvent, timer, closed, Signer, beaconer_steps}
use gateway_rs.Radio.Beaconer.Reports.{Reported, beaconer_steps-Reported}

abbrev channel_plan : RegionParams ℕ
channel_plan = record {
  gain = plus 12;
  region = 1;
  params = record { channel_frequency = 903900000; max_eirp = 360 } ∷ [];
}

abbrev entropy : Entropy
entropy = record { version = 0; timestamp = 5; bytes = 1 ∷ 2 ∷ [] }

abbrev beacon : Beacon
beacon = record {
  bytes = 1 ∷ 2 ∷ 3 ∷ 4 ∷ 5 ∷ [];
  frequency = 904300000;
  remote_entropy = entropy;
  local_entropy = entropy;
}

abbrev air : Radio ℕ ℕ ℕ
air = record {
  parse = λ t. some t;
  ack = λ m. sent;
  negative = λ n. none;
  to_mhz = λ f. f;
  beacon_rate = 7;
}

abbrev idle : Gateway ℕ ℕ
idle = record { downlink_mac = 0; region_params = none }

abbrev sends_beacon : List (GatewayEvent ℕ ℕ ℕ ℕ)
sends_beacon = udp_event (new_client 3) ∷ message (transmit_beacon beacon) ∷ []

abbrev learns_region : List (GatewayEvent ℕ ℕ ℕ ℕ)
learns_region =
    message (transmit_beacon beacon) ∷ message (region_params_changed channel_plan) ∷ sends_beacon

-- The parameters are not known, and the beacon is not sent.
gateway_steps-Allowed_example :
    ((gateway_steps ⦃le = byteorder⦄ air sends_beacon idle).0.region_params ≡ none)
    × All (Allowed air none) (gateway_steps ⦃le = byteorder⦄ air sends_beacon idle).1
gateway_steps-Allowed_example =
    gateway_steps-Allowed ⦃le = byteorder⦄ air sends_beacon idle (refl, (refl, tt))

-- The hash is always the same, and so are the random numbers.
abbrev ones : ℕ → List ℕ
ones ℕ.zero = []
ones (ℕ.suc n) = 1 ∷ ones n

abbrev constant : Randomness
constant = record {
  sha256 = λ bytes. ones 32;
  length_sha256 = λ bytes. refl;
  to_ne_bytes = λ timestamp. ones 8;
  from_seed = λ seed. 0;
  choose = λ frequencies rng. elim frequencies [ [] ↦ (none, rng) | f ∷ rest ↦ (some f, rng) ];
  gen_range = λ low high rng. (high, rng);
  gen_range_low = λ low high rng h. h;
  gen_range_high = λ low high rng h. omega arith;
}

abbrev signer : Signer ℕ
signer = record {
  key_bytes = 1 ∷ [];
  sign_beacon = λ report. some (2 ∷ []);
  sign_witness = λ report. none;
}

abbrev ticks : List (BeaconerEvent ℕ ℕ ℕ ℕ)
ticks = closed ∷ timer (record { get_entropy = ok entropy; local = ok entropy; now = ok 9 }) ∷ []

beaconer_steps-Reported_example :
    Reported ⦃random = constant⦄ signer
      (some channel_plan)
      ticks
      (beaconer_steps ⦃le = byteorder⦄ ⦃random = constant⦄ signer
        (λ (t : ℕ). some sf7bw125)
        (λ f. f)
        ticks
        (record { interval = 28792; region_params = some channel_plan })).1
beaconer_steps-Reported_example =
    beaconer_steps-Reported ⦃le = byteorder⦄ ⦃random = constant⦄ signer (λ t. some sf7bw125)
      (λ f. f) ticks (record { interval = 28792; region_params = some channel_plan })
