-- ===== src/Account/Settings.antt =====
-- src/settings.rs: the settings, from where they are read, and the levels of the log. The crate `config`
-- with its files and its environment is a parameter, and so are the parsers of the fields.
use gateway_rs.Base.{
  ℕ, ◌≡◌, ◌∙◌, List, [], ◌∷◌, Option, none, some, Result, ok, err, ◌>>=◌, ◌++◌, Text, text, Bool,
  true, false,
}
use gateway_rs.Account.Modes.{LogMethod}
use gateway_rs.Account.Onboarding.{default_listen, default_api, default_beacon_interval}

pub record CacheSettings : Type 0 where
  pub max_packets : ℕ

-- `U` is the type of uris.
pub record PocSettings (U : Type 0) : Type 0 where
  pub entropy_uri : U
  pub ingest_uri : U
  pub beacon_interval : ℕ

pub record LogConfig (V : Type 0) : Type 0 where
  pub level : V
  pub method : LogMethod
  pub timestamp : Bool

-- `K` is the type of keypairs, `R` of regions, `W` of the settings of the updater and `Q` of keyed uris.
pub record Settings (K R V W Q U : Type 0) : Type 0 where
  pub listen : Text
  pub api : ℕ
  pub keypair : K
  pub onboarding : Option Text
  pub region : R
  pub log : LogConfig V
  pub update : W
  pub routers : Option (List Q)
  pub gateways : List Q
  pub cache : CacheSettings
  pub poc : PocSettings U

-- What the sources say, each field parsed: the three fields with a default may be missing.
pub record Given (K R V W Q U : Type 0) : Type 0 where
  pub given_listen : Option Text
  pub given_api : Option ℕ
  pub given_keypair : K
  pub given_onboarding : Option Text
  pub given_region : R
  pub given_log : LogConfig V
  pub given_update : W
  pub given_routers : Option (List Q)
  pub given_gateways : List Q
  pub given_cache : CacheSettings
  pub given_entropy_uri : U
  pub given_ingest_uri : U
  pub given_interval : Option ℕ

abbrev or_default {ℓ} : {A : Type ℓ} → A → Option A → A
or_default default none = default
or_default default (some a) = a

unfoldable pub with_defaults : {K R V W Q U : Type 0} → Given K R V W Q U → Settings K R V W Q U
with_defaults given = record {
  listen = or_default default_listen given.given_listen;
  api = or_default default_api given.given_api;
  keypair = given.given_keypair;
  onboarding = given.given_onboarding;
  region = given.given_region;
  log = given.given_log;
  update = given.given_update;
  routers = given.given_routers;
  gateways = given.given_gateways;
  cache = given.given_cache;
  poc = record {
    entropy_uri = given.given_entropy_uri;
    ingest_uri = given.given_ingest_uri;
    beacon_interval = or_default default_beacon_interval given.given_interval;
  };
}

-- The crate `config`: a file that is required or not, the environment, and the sources merged in order,
-- where of a key that several sources hold the last one stays.
pub record ConfigCrate (E Y : Type 0) : Type 1 where
  pub file : Text → Bool → Result E Y
  pub environment : Text → Text → Result E Y
  pub merge : List Y → Y
  pub find : Y → Text → Option Text
  pub merge_one : (y : Y) (key : Text) → find (merge (y ∷ [])) key ≡ find y key
  pub merge_held :
      (ys : List Y) (y : Y) (key value : Text)
      → find y key ≡ some value
      → find (merge (ys ++ y ∷ [])) key ≡ some value
  pub merge_missing :
      (ys : List Y) (y : Y) (key : Text)
      → find y key ≡ none
      → find (merge (ys ++ y ∷ [])) key ≡ find (merge ys) key

module _ {E Y : Type 0} (config : ConfigCrate E Y) (join : Text → Text → Text) where
  -- The sources, in their order.
  unfoldable pub sources : Text → Result E (List Y)
  sources path = config.file (join path (text "default.toml")) true >>= (λ defaults.
      config.file (join path (text "settings.toml")) false >>= (λ custom.
        config.environment (text "gw") (text "_")
        >>= (λ overrides. ok (defaults ∷ custom ∷ overrides ∷ []))))

  -- `Settings::new`
  unfoldable pub settings_new :
      {K R V W Q U : Type 0}
      → (Y → Result E (Given K R V W Q U))
      → Text
      → Result E (Settings K R V W Q U)
  settings_new try_deserialize path =
      sources path
      >>= (λ found. try_deserialize (config.merge found) >>= (λ given. ok (with_defaults given)))

  -- The environment stands before the custom file, and this before the default file.
  pub sources-find :
      (defaults custom overrides : Y) (key : Text)
      → ((value : Text)
          → config.find overrides key ≡ some value
          → config.find (config.merge (defaults ∷ custom ∷ overrides ∷ [])) key ≡ some value)
        × ((value : Text)
            → config.find overrides key ≡ none
            → config.find custom key ≡ some value
            → config.find (config.merge (defaults ∷ custom ∷ overrides ∷ [])) key ≡ some value)
        × (config.find overrides key ≡ none
            → config.find custom key ≡ none
            → config.find (config.merge (defaults ∷ custom ∷ overrides ∷ [])) key
              ≡ config.find defaults key)
  sources-find defaults custom overrides key = (
    λ value h. config.merge_held (defaults ∷ custom ∷ []) overrides key value h,
    λ value missing h.
        config.merge_missing (defaults ∷ custom ∷ []) overrides key missing
        ∙ config.merge_held (defaults ∷ []) custom key value h,
    λ missing too.
        config.merge_missing (defaults ∷ custom ∷ []) overrides key missing
        ∙ config.merge_missing (defaults ∷ []) custom key too
        ∙ config.merge_one defaults key,
  )

-- `visit_str` of a log level; the parser is that of the crate `slog`.
unfoldable pub visit_level : {V : Type 0} → (Text → Option V) → Text → Result Text V
visit_level parse value = elim (parse value) [
  | some level ↦ ok level
  | none ↦ err (text "invalid log level \"" ++ value ++ text "\"")
]
