-- ===== src/Account/Onboarding.antt =====
-- src/settings.rs: the defaults of the settings and the onboarding key; and the local server made of them.
use gateway_rs.Base.{ℕ, ◌-◌, ◌*◌, Option, none, some, Result, ok, err, Text, text}
use gateway_rs.Account.Keypair.{FileSystem, KeyCrates, KeyError, from_str}
use gateway_rs.Account.Api.{LocalServer}

abbrev pub default_listen : Text
default_listen = text "127.0.0.1:1680"

abbrev pub default_api : ℕ
default_api = 4467

abbrev pub default_beacon_interval : ℕ
default_beacon_interval = 8 * (3600 - 1)

module _ {E K R FS P : Type 0} (files : FileSystem FS) (crates : KeyCrates E K R)
    (public_key : K → P) where
  -- The key of a result, or the gateway's own.
  unfoldable pub key_or_own : K → Result (KeyError E) K → P
  key_or_own keypair (ok key) = public_key key
  key_or_own keypair (err e) = public_key keypair

  -- The key file of an onboarding setting may be made on the way.
  unfoldable pub onboarding_key : R → FS → Option Text → K → P × FS
  onboarding_key seed fs none keypair = (public_key keypair, fs)
  onboarding_key seed fs (some str) keypair =
      let (key, next) = from_str files crates seed fs str in (key_or_own keypair key, next)

  -- `LocalServer::new`
  unfoldable pub new_server : R → FS → Option Text → ℕ → K → LocalServer K P × FS
  new_server seed fs onboarding port keypair =
      let (key, next) = onboarding_key seed fs onboarding keypair in
      (record { keypair = keypair; onboarding_key = key; listen_port = port }, next)
