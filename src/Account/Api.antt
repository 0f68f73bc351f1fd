-- ===== src/Account/Api.antt =====
-- src/api/server.rs: the local API. What the dispatcher answers, the codec of transactions and the keys
-- are interfaces.
use gateway_rs.Base.{ℕ, List, [], ◌∷◌, map, Option, some, Result, ok, err, ◌>>=◌, Text, text}
use gateway_rs.Account.Modes.{GatewayStakingMode, mode_from_gateway}
use gateway_rs.Account.Transactions.{
  AddGatewayTxn, add_gateway_txn, BlockchainTxn, Codec, in_envelope_vec,
}
use gateway_rs.Account.Fees.{
  TxnFeeConfig, get_staking_fee, add_gateway_fee, ConfigValue, Parsers, config_try_from,
}
use gateway_rs.Account.Keys.{Crypto}

pub data Status : Type 0 where
  invalid_argument : Text → Status
  internal : Text → Status

pub record HeightReply (U : Type 0) : Type 0 where
  pub height : ℕ
  pub block_age : ℕ
  pub gateway : U
  pub gateway_version : ℕ

pub record HeightRes (U : Type 0) : Type 0 where
  pub height : ℕ
  pub block_age : ℕ
  pub gateway : Option U
  pub gateway_version : ℕ

-- The answers of the dispatcher: `V` are the variables of the chain, `R` the regions and `U` the
-- keyed uris. `error_text` prints an error.
pub record Answers (E V R U : Type 0) : Type 0 where
  pub config : List Text → Result E (List V)
  pub region : Result E R
  pub height : Result E (HeightReply U)
  pub error_text : E → Text

pub record LocalServer (K P : Type 0) : Type 0 where
  pub keypair : K
  pub onboarding_key : P
  pub listen_port : ℕ

pub record PubkeyRes : Type 0 where
  pub address : List ℕ
  pub onboarding_address : List ℕ

pub record AddGatewayReq : Type 0 where
  pub owner : List ℕ
  pub payer : List ℕ
  pub staking_mode : GatewayStakingMode

abbrev pub map_err {ℓ} : {E F : Type 0} {A : Type ℓ} → (E → F) → Result E A → Result F A
map_err f (ok a) = ok a
map_err f (err e) = err (f e)

abbrev config_fee_keys : List Text
config_fee_keys =
    text "txn_fees"
    ∷ text "txn_fee_multiplier"
    ∷ text "staking_fee_txn_add_gateway_v1"
    ∷ text "staking_fee_txn_add_light_gateway_v1"
    ∷ text "staking_fee_txn_add_dataonly_gateway_v1"
    ∷ []

module _ {E V R U : Type 0} (answers : Answers E V R U) where
  unfoldable pub get_config : (V → ConfigValue) → List Text → Result Status (List ConfigValue)
  get_config config_value keys =
      map_err (λ e. internal (answers.error_text e)) (answers.config keys)
      >>= (λ reply. ok (map config_value reply))

  unfoldable pub api_config : (V → ConfigValue) → List Text → Result Status (List ConfigValue)
  api_config config_value keys = get_config config_value keys

  unfoldable pub api_region : Result Status R
  api_region = map_err (λ e. internal (text "Failed to get region")) answers.region

  unfoldable pub api_height : Result Status (HeightRes U)
  api_height = map_err (λ e. internal (answers.error_text e)) answers.height >>= (λ reply.
      ok (record {
        height = reply.height;
        block_age = reply.block_age;
        gateway = some reply.gateway;
        gateway_version = reply.gateway_version;
      }))

module _ {E K P : Type 0} (crypto : Crypto E K P) where
  unfoldable pub api_pubkey : LocalServer K P → PubkeyRes
  api_pubkey self = record {
    address = crypto.to_vec (crypto.public_key self.keypair);
    onboarding_address = crypto.to_vec self.onboarding_key;
  }

  unfoldable pub api_sign : LocalServer K P → List ℕ → Result Status (List ℕ)
  api_sign self data_ =
      map_err (λ e. internal (text "Failed signing data")) (crypto.sign self.keypair data_)

  -- `ecdh` is the agreement on a secret of the crate.
  unfoldable pub api_ecdh :
      (K → P → Result E (List ℕ)) → LocalServer K P → List ℕ → Result Status (List ℕ)
  api_ecdh ecdh self address =
      map_err (λ e. invalid_argument (text "Invalid public key")) (crypto.from_bytes address)
      >>= (λ public_key.
          map_err (λ e. internal (text "Failed ecdh")) (ecdh self.keypair public_key))

  unfoldable pub new_txn : LocalServer K P → AddGatewayReq → TxnFeeConfig → AddGatewayTxn
  new_txn self request fee_config = record {
    gateway = crypto.to_vec (crypto.public_key self.keypair);
    owner = request.owner;
    payer = request.payer;
    fee = 0;
    staking_fee = get_staking_fee fee_config (mode_from_gateway request.staking_mode);
    owner_signature = [];
    gateway_signature = [];
    payer_signature = [];
  }

  module _ {C O D V R U : Type 0} (codec : Codec D (BlockchainTxn C O))
      (encode : AddGatewayTxn → List ℕ) (answers : Answers E V R U) (config_value : V → ConfigValue)
      (parsers : Parsers) where
    unfoldable pub fee_config_of : Result Status TxnFeeConfig
    fee_config_of = get_config answers config_value config_fee_keys >>= (λ values.
        map_err (λ e. internal (text "Failed to parse txn fees")) (config_try_from parsers values))

    unfoldable pub with_fee : LocalServer K P → AddGatewayReq → TxnFeeConfig → AddGatewayTxn
    with_fee self request fee_config =
        let txn = new_txn self request fee_config in
        record txn { fee = add_gateway_fee codec fee_config txn }

    unfoldable pub add_gateway : LocalServer K P → AddGatewayReq → Result Status (List ℕ)
    add_gateway self request =
        map_err (λ e. invalid_argument (text "Invalid owner address"))
          (crypto.from_bytes request.owner)
        >>= (λ owner.
            map_err (λ e. invalid_argument (text "Invalid payer address"))
              (crypto.from_bytes request.payer)
            >>= (λ payer. fee_config_of >>= (λ fee_config.
                let txn = with_fee self request fee_config in
                map_err (λ e. internal (text "Failed signing txn"))
                  (crypto.sign self.keypair (encode txn))
                >>= (λ signature. ok (
                    in_envelope_vec codec
                      (add_gateway_txn (record txn { gateway_signature = signature })))))))
