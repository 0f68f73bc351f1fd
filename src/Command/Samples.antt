-- ===== src/Command/Samples.antt =====
-- Keys and a local server, to run src/cmd/info.rs on.
use gateway_rs.Base.{ℕ, ◌≤◌, [], ◌∷◌, none, ok, err, text}
use gateway_rs.Command.Info.{fw, gateway, region}
use gateway_rs.Command.Cache.{height_call, LocalClient, Printers, new_state, run_keys}
use gateway_rs.Command.Sparing.{count}
use gateway_rs.Command.Calls.{run_keys-count}

abbrev client : LocalClient ℕ ℕ ℕ ℕ
client = record {
  pubkey = λ calls. ok (1, 2);
  height =
      λ calls. ok (record { height = 100; block_age = 60; gateway = none; gateway_version = 1 });
  region = λ calls. err 3;
}

abbrev printers : Printers ℕ ℕ ℕ ℕ ℕ ℕ
printers = record {
  key_text = λ k. text "key";
  animal_name = λ t. text "three-word-name";
  region_text = λ r. text "US915";
  keyed_uri = λ u. ok (record { uri = u; pubkey = u });
  no_uri = 4;
  version = text "1.0.0";
}

run_keys-count_example :
    count height_call
      (run_keys client printers
        (fw ∷ gateway ∷ gateway ∷ region ∷ [])
        []
        (new_state (text "klkgw"))).1.calls
    ≤ 1
run_keys-count_example =
    run_keys-count client printers (text "klkgw") (fw ∷ gateway ∷ gateway ∷ region ∷ []) height_call
