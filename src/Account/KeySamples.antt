-- ===== src/Account/KeySamples.antt =====
-- A file system of one file, to run src/keypair.rs on.
use gateway_rs.Base.{◌≡◌, refl, ap, List, [], ◌∷◌, ℕ, Option, none, some, ok, err, text}
use gateway_rs.Account.Keypair.{
  not_found, FileSystem, Stores, main_net, Uri, KeyCrates, from_str, args_from_uri, get_argument,
  network_of, create_parent,
}
use gateway_rs.Account.Keyfiles.{no_scheme, from_str-again, from_str-keeps}

abbrev files : FileSystem (Option (List ℕ))
files = record {
  read = λ fs path. elim fs [ none ↦ err not_found | some bytes ↦ ok bytes ];
  write = λ fs path bytes. (ok tt, some bytes);
  create_dir_all = λ fs path. (ok tt, fs);
  parent = λ path. some (text "/etc");
}

files-Stores : Stores files
files-Stores fs last path bytes written = rw⁻¹ (ap (λ p. p.1) written) refl

abbrev url : Uri
url = record {
  scheme = none;
  host = none;
  port = none;
  path = text "/etc/gateway_key.bin";
  query = none;
}

abbrev crates : KeyCrates ℕ ℕ ℕ
crates = record {
  parse_uri = λ t. some url;
  from_urlencoded = λ t. none;
  parse_network = λ t. none;
  parse_u8 = λ t. none;
  key_try_from = λ bytes. elim bytes [ [] ↦ err 1 | b ∷ rest ↦ ok b ];
  key_to_vec = λ key. key ∷ [];
  generate = λ network seed. seed;
  ecc_init = λ path bus. err 1;
  ecc_from_slot = λ network slot. err 1;
}

from_str-again_example :
    (from_str files crates 5 none (text "/etc/gateway_key.bin") ≡ (ok 5, some (5 ∷ [])))
    × (from_str files crates 6 (some (5 ∷ [])) (text "/etc/gateway_key.bin")
        ≡ (ok 5, some (5 ∷ [])))
unfolding network_of args_from_uri get_argument create_parent
from_str-again_example =
    from_str-again files crates 5 6 none none (some (5 ∷ [])) (text "/etc/gateway_key.bin") url
      main_net files-Stores (λ key. refl) refl no_scheme refl refl refl refl

from_str-keeps_example :
    (from_str files crates 6 (some []) (text "/etc/gateway_key.bin")).1 ≡ some []
from_str-keeps_example =
    from_str-keeps files crates 6 (some []) (text "/etc/gateway_key.bin") (λ u e h. cc)
