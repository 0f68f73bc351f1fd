-- ===== src/Router/Loops.antt =====
-- Rounds of the dispatcher, to run the loops of src/router/dispatcher.rs on.
use gateway_rs.Base.{
  ℕ, arith, ◌≡◌, true, false, [], ◌∷◌, Option, none, some, ok, err, ◌==◌, ==_refl, Eq,
}
use gateway_rs.Lorawan.Endian.{byteorder}
use gateway_rs.Router.Filter.{Hashing}
use gateway_rs.Router.Routing.{Routing, RoutingInformation}
use gateway_rs.Router.Dispatcher.{new}
use gateway_rs.Router.Dispatcher.Rounds.{
  routing_stream, message, stream_error, uplinked, slept, Round, running, run_rounds,
}
use gateway_rs.Router.Dispatcher.Events.{
  steps, gateway_change, gateway_setup, routing_message, uplink_message,
}
use gateway_rs.Router.Dispatcher.Refines.{run_rounds-rounds_events}

equal_symm : (a b : ℕ) → (a == b) ≡ true → (b == a) ≡ true
equal_symm a b h = ground arith

equal_trans : (a b c : ℕ) → (a == b) ≡ true → (b == c) ≡ true → (a == c) ≡ true
equal_trans a b c h h' = ground arith

abbrev uris : Eq ℕ
uris = record { beq = ◌==◌; beq_refl = ==_refl; beq_symm = equal_symm; beq_trans = equal_trans }

abbrev unhashed : Hashing
unhashed = record { xor16_contains = λ filter h. true; xxh64 = λ bytes. 0 }

abbrev routing_of_five : Routing ℕ
routing_of_five = record { oui = 5; uris = 10 ∷ []; filters = []; subnets = [] }

-- A gateway whose routing stream fails after one update and an uplink.
abbrev round : Round ℕ ℕ ℕ ℕ ℕ
round = record {
  triggered = false;
  seed = some 1;
  stopped = false;
  selected = ok (some 2);
  default_region_params = ok 3;
  routing = ok tt;
  region_params = ok tt;
  turns =
      routing_stream 7 (some (some routing_of_five ∷ []))
      ∷ message (uplinked 4)
      ∷ stream_error
      ∷ [];
  triggered_after = false;
  wait = slept;
}

-- A gateway that cannot be set up.
abbrev failing_round : Round ℕ ℕ ℕ ℕ ℕ
failing_round = record round { default_region_params = err 9 }

abbrev nowhere : ℕ → Option RoutingInformation
nowhere packet = none

run_rounds-rounds_events_example :
    run_rounds ⦃eq = uris⦄ ⦃le = byteorder⦄ ⦃hashing = unhashed⦄ nowhere
      (λ (g : ℕ). g)
      (failing_round ∷ round ∷ [])
      (new 1 none)
    ≡ (
      steps ⦃eq = uris⦄ ⦃le = byteorder⦄ ⦃hashing = unhashed⦄ nowhere
          (λ (g : ℕ). g)
          (gateway_change
            ∷ gateway_setup 3
            ∷ routing_message 7 (some (some routing_of_five ∷ []))
            ∷ uplink_message 4
            ∷ gateway_change
            ∷ [])
          (new 1 none),
      running,
    )
run_rounds-rounds_events_example =
    run_rounds-rounds_events ⦃eq = uris⦄ ⦃le = byteorder⦄ ⦃hashing = unhashed⦄ nowhere (λ g. g)
      (failing_round ∷ round ∷ []) (new 1 none)
