-- ===== src/Command/Cache.antt =====
-- src/cmd/info.rs: the cache of what the local server answers, and the command. The answers are a
-- function of the calls so far; connecting is a part of a call.
use gateway_rs.Base.{
  ℕ, List, [], ◌∷◌, ◌++◌, Option, none, some, Result, ok, err, if◌then◌else◌, Text, text, text_eq,
}
use gateway_rs.Router.Routing.{KeyedUri}
use gateway_rs.Service.Version.{GatewayVersion, version_from}
use gateway_rs.Account.Api.{HeightRes}
use gateway_rs.Command.Info.{InfoKey, fw, key, onboarding_key, name, gateway, region, info_key_text}

pub data Call : Type 0 where
  pubkey_call height_call region_call : Call

-- The local server: keys `P`, uris `U` of its messages and regions `R`.
pub record LocalClient (E P U R : Type 0) : Type 0 where
  pub pubkey : List Call → Result E (P × P)
  pub height : List Call → Result E (HeightRes U)
  pub region : List Call → Result E R

-- What prints, and the parser of the uri of a message.
pub record Printers (E P U V K R : Type 0) : Type 0 where
  pub key_text : P → Text
  pub animal_name : Text → Text
  pub region_text : R → Text
  pub keyed_uri : U → Result E (KeyedUri V K)
  pub no_uri : E
  pub version : Text

pub record InfoCache (P U R : Type 0) : Type 0 where
  pub platform : Text
  pub public_keys : Option (P × P)
  pub height : Option (HeightRes U)
  pub region : Option R

pub record State (P U R : Type 0) : Type 0 where
  pub cache : InfoCache P U R
  pub calls : List Call

unfoldable pub new_state : {P U R : Type 0} → Text → State P U R
new_state platform = record {
  cache = record { platform = platform; public_keys = none; height = none; region = none };
  calls = [];
}

-- A value of the output.
pub data Value (V K : Type 0) : Type 0 where
  text_value : Text → Value V K
  gateway_value : KeyedUri V K → ℕ → ℕ → Option GatewayVersion → Value V K

-- A step that may fail, and that changes the state.
abbrev pub Run : Type 0 → Type 0 → Type 0 → Type 0
Run S E A = S → Result E A × S

module _ {S E : Type 0} where
  abbrev pub pure : {A : Type 0} → A → Run S E A
  pure a s = (ok a, s)

  abbrev pub continued : {A B : Type 0} → Result E A → S → (A → Run S E B) → Result E B × S
  continued (ok a) next f = f a next
  continued (err e) next f = (err e, next)

  unfoldable pub bind : {A B : Type 0} → Run S E A → (A → Run S E B) → Run S E B
  bind m f s = let (r, next) = m s in continued r next f

module _ {E P U R A : Type 0} where
  -- A value that is not in the cache is asked for and kept.
  unfoldable pub answered : Call → Result E A → (A → InfoCache P U R) → Run (State P U R) E A
  answered call (ok a) store s = (ok a, record { cache = store a; calls = s.calls ++ call ∷ [] })
  answered call (err e) store s = (err e, record s { calls = s.calls ++ call ∷ [] })

  unfoldable pub cached :
      Option A → Call → Result E A → (A → InfoCache P U R) → Run (State P U R) E A
  cached (some a) call answer store s = (ok a, s)
  cached none call answer store s = answered call answer store s

module _ {E P U V K R : Type 0} (client : LocalClient E P U R)
    (printers : Printers E P U V K R) where
  unfoldable pub get_public_keys : Run (State P U R) E (P × P)
  get_public_keys s =
      cached s.cache.public_keys pubkey_call (client.pubkey s.calls)
        (λ keys. record s.cache { public_keys = some keys }) s

  unfoldable pub get_height : Run (State P U R) E (HeightRes U)
  get_height s =
      cached s.cache.height height_call (client.height s.calls)
        (λ height. record s.cache { height = some height }) s

  unfoldable pub get_region : Run (State P U R) E R
  get_region s =
      cached s.cache.region region_call (client.region s.calls)
        (λ region. record s.cache { region = some region }) s

  unfoldable pub public_key : Run (State P U R) E P
  public_key = bind get_public_keys (λ keys. pure keys.0)

  unfoldable pub get_onboarding_key : Run (State P U R) E P
  get_onboarding_key = bind get_public_keys (λ keys. pure keys.1)

  unfoldable pub uri_of : Option U → Result E (KeyedUri V K)
  uri_of none = err printers.no_uri
  uri_of (some uri) = printers.keyed_uri uri

  unfoldable pub get_gateway : Run (State P U R) E (KeyedUri V K)
  get_gateway = bind get_height (λ height s. (uri_of height.gateway, s))

  unfoldable pub to_status : InfoKey → Run (State P U R) E (Value V K)
  to_status fw s = (ok (text_value (s.cache.platform ++ text "-" ++ printers.version)), s)
  to_status key s = bind public_key (λ k. pure (text_value (printers.key_text k))) s
  to_status onboarding_key s =
      bind get_onboarding_key (λ k. pure (text_value (printers.key_text k))) s
  to_status name s =
      bind public_key (λ k. pure (text_value (printers.animal_name (printers.key_text k)))) s
  to_status gateway s =
      bind get_gateway
        (λ uri. bind get_height (λ height. bind get_height (λ age. bind get_height (λ version.
          pure (
            gateway_value uri height.height age.block_age
              (some (version_from version.gateway_version)))))))
        s
  to_status region s = bind get_region (λ r. pure (text_value (printers.region_text r))) s

  -- `HashMap::insert`
  unfoldable pub insert : Text → Value V K → List (Text × Value V K) → List (Text × Value V K)
  insert k v [] = (k, v) ∷ []
  insert k v ((k', v') ∷ rest) =
      let later = insert k v rest in if text_eq k k' then (k, v) ∷ rest else (k', v') ∷ later

  unfoldable pub run_keys :
      List InfoKey → List (Text × Value V K) → Run (State P U R) E (List (Text × Value V K))
  run_keys [] info s = (ok info, s)
  run_keys (k ∷ keys) info s =
      bind (to_status k) (λ v. run_keys keys (insert (info_key_text k) v info)) s
