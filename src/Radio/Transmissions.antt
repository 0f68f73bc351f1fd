-- ===== src/Radio/Transmissions.antt =====
-- A region and a downlink, to run src/region.rs and src/gateway.rs on.
use gateway_rs.Base.{
  ℕ, ◌+◌, ◌*◌, ◌≤◌, ◌<◌, ◌≡◌, refl, arith, [], ◌∷◌, length, All, Option, some, none, true, any,
  ◌==◌,
}
use gateway_rs.Radio.Packet.{Packet, to_pull_resp}
use gateway_rs.Radio.Region.{
  RegionParams, plus, max_from, greatest, max_eirp, subtract, to_u32, tx_power,
}
use gateway_rs.Radio.Region.Power.{tx_power-greatest}
use gateway_rs.Radio.Gateway.{Gateway, too_late, retry, dispatch_windows, handle_downlink}
use gateway_rs.Radio.Gateway.Downlinks.{Carries, handle_downlink-Carries}

abbrev no_negative : ℕ → Option ℕ
no_negative n = none

abbrev region : RegionParams ℕ
region = record {
  gain = plus 12;
  region = 1;
  params =
      record { channel_frequency = 903900000; max_eirp = 300 }
      ∷ record { channel_frequency = 904100000; max_eirp = 360 }
      ∷ [];
}

limit_of : max_eirp region ≡ some 360
unfolding max_eirp greatest max_from
limit_of = refl

tx_power-greatest_example :
    (All (λ q. q.max_eirp ≤ 360) region.params)
    × (any (λ q. q.max_eirp == 360) region.params ≡ true)
    × ((p : ℕ) × (tx_power no_negative region ≡ some p)
        × (10 * p + 12 ≤ 360)
        × (360 < 10 * (p + 1) + 12))
tx_power-greatest_example =
    tx_power-greatest no_negative region 12 360 refl limit_of (omega arith) (omega arith)

power_of : tx_power no_negative region ≡ some 34
unfolding tx_power max_eirp greatest max_from subtract to_u32
power_of = refl

abbrev gateway : Gateway ℕ ℕ
gateway = record { downlink_mac = 1; region_params = some region }

abbrev downlink : Packet ℕ ℕ
downlink = record {
  signal_strength = 0;
  snr = 0;
  frequency = 1;
  timestamp = 1000;
  datarate = 7;
  routing = none;
  payload = 1 ∷ 2 ∷ [];
  rx2_window = some (record { timestamp = 2000; frequency = 2; datarate = 8 });
  oui = 0;
}

handle_downlink-Carries_example :
    All
      (λ m. Carries (λ rate. some rate) (λ m. too_late) downlink 34 m)
      (handle_downlink (λ rate. some rate) (λ m. too_late) no_negative gateway downlink).messages
    × (length
          (handle_downlink
            (λ rate. some rate)
            (λ m. too_late)
            no_negative
            gateway
            downlink).messages
        ≤ 2)
handle_downlink-Carries_example =
    handle_downlink-Carries (λ rate. some rate) (λ m. too_late) no_negative gateway downlink region
      34 refl power_of

both_windows :
    length
      (handle_downlink (λ rate. some rate) (λ m. too_late) no_negative gateway downlink).messages
    ≡ 2
unfolding handle_downlink dispatch_windows retry to_pull_resp tx_power max_eirp greatest max_from
    subtract to_u32
both_windows = refl
