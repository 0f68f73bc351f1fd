-- ===== src/Router/Dispatcher/Replies.antt =====
-- The replies of the dispatcher to the messages of the local API. The connected gateway service is
-- its answers; without one, the reply is an error.
use gateway_rs.Base.{ℕ, List, Option, none, some, Result, ok, err, ◌>>=◌}
use gateway_rs.Router.Dispatcher.{Dispatcher}

pub data Request : Type 0 where
  config : List (List ℕ) → Request
  height : Request
  region : Request

-- `X` is the type of the variables of a configuration, and `E` of errors.
pub record GatewayAnswers (V X E : Type 0) : Type 0 where
  pub uri : V
  pub config_of : List (List ℕ) → Result E X
  pub version_of : Result E ℕ
  pub height_of : Result E (ℕ × ℕ)

pub record HeightResponse (V : Type 0) : Type 0 where
  pub gateway : V
  pub height : ℕ
  pub block_age : ℕ
  pub gateway_version : ℕ

pub data Reply (V R X E : Type 0) : Type 0 where
  config_reply : Result E X → Reply V R X E
  height_reply : Result E (HeightResponse V) → Reply V R X E
  region_reply : R → Reply V R X E

abbrev unwrap_or : {E : Type 0} → Result E ℕ → ℕ → ℕ
unwrap_or (ok n) m = n
unwrap_or (err e) m = m

module _ {V R X E : Type 0} (no_service : E) where
  unfoldable pub handle_request :
      Request → Option (GatewayAnswers V X E) → Dispatcher V R → Reply V R X E
  handle_request (config keys) (some gateway) self = config_reply (gateway.config_of keys)
  handle_request (config keys) none self = config_reply (err no_service)
  handle_request height (some gateway) self = height_reply (
      gateway.height_of >>= λ (h, block_age). ok (record {
        gateway = gateway.uri;
        height = h;
        block_age = block_age;
        gateway_version = unwrap_or gateway.version_of 0;
      }))
  handle_request height none self = height_reply (err no_service)
  handle_request region gateway self = region_reply self.region
