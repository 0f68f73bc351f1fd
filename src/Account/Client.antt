-- ===== src/Account/Client.antt =====
-- src/api/client.rs: the client of the local API. A call of the server is a function that answers a
-- request.
use gateway_rs.Base.{ℕ, ◌≡◌, refl, List, Option, none, some, Result, ok, err, ◌>>=◌, Text}
use gateway_rs.Account.Modes.{
  StakingMode, mode_to_gateway, mode_from_gateway, mode_from_gateway-mode_to_gateway,
}
use gateway_rs.Account.Transactions.{
  AddGatewayTxn, BlockchainTxn, Codec, Decodes, EnvelopeError, add_gateway_from_vec,
}
use gateway_rs.Account.Fees.{TxnFeeConfig, ConfigValue, Parsers}
use gateway_rs.Account.Keys.{Crypto, Sound, Signs}
use gateway_rs.Account.Api.{
  Status, Answers, LocalServer, PubkeyRes, AddGatewayReq, HeightRes, map_err, fee_config_of,
  add_gateway,
}
use gateway_rs.Account.Transfers.{Valid, add_gateway-Valid}

-- The errors of a call, of the envelope, of keys and of regions.
pub data ClientError (E D : Type 0) : Type 0 where
  rpc_error : Status → ClientError E D
  envelope_error : EnvelopeError D → ClientError E D
  key_error : E → ClientError E D
  unsupported_region : ℕ → ClientError E D

module _ {E D : Type 0} where
  unfoldable pub client_pubkey :
      {K P : Type 0} → Crypto E K P → Result Status PubkeyRes → Result (ClientError E D) (P × P)
  client_pubkey crypto answer = map_err rpc_error answer >>= (λ response.
      map_err key_error (crypto.from_bytes response.address) >>= (λ public_key.
        map_err key_error (crypto.from_bytes response.onboarding_address)
        >>= (λ onboarding_key. ok (public_key, onboarding_key))))

  unfoldable pub client_sign :
      (List ℕ → Result Status (List ℕ)) → List ℕ → Result (ClientError E D) (List ℕ)
  client_sign call bytes = map_err rpc_error (call bytes)

  unfoldable pub client_config :
      (List Text → Result Status (List ConfigValue))
      → List Text
      → Result (ClientError E D) (List ConfigValue)
  client_config call keys = map_err rpc_error (call keys)

  unfoldable pub client_height :
      {U : Type 0} → Result Status (HeightRes U) → Result (ClientError E D) (HeightRes U)
  client_height answer = map_err rpc_error answer

  unfoldable pub region_of_number : {R : Type 0} → (ℕ → Option R) → ℕ → Result (ClientError E D) R
  region_of_number from_i32 number = elim (from_i32 number) [
    | none ↦ err (unsupported_region number)
    | some region ↦ ok region
  ]

  unfoldable pub client_region :
      {R : Type 0} → (ℕ → Option R) → Result Status ℕ → Result (ClientError E D) R
  client_region from_i32 answer =
      map_err rpc_error answer >>= (λ number. region_of_number from_i32 number)

  unfoldable pub client_add_gateway :
      {K P C O : Type 0}
      → Crypto E K P
      → Codec D (BlockchainTxn C O)
      → (AddGatewayReq → Result Status (List ℕ))
      → P
      → P
      → StakingMode
      → Result (ClientError E D) AddGatewayTxn
  client_add_gateway crypto codec call owner payer mode =
      map_err rpc_error (
        call (record {
          owner = crypto.to_vec owner;
          payer = crypto.to_vec payer;
          staking_mode = mode_to_gateway mode;
        }))
      >>= (λ encoded. map_err envelope_error (add_gateway_from_vec codec encoded))

module _ {E K P C O D V R U : Type 0} (crypto : Crypto E K P) (codec : Codec D (BlockchainTxn C O))
    (encode : AddGatewayTxn → List ℕ) (answers : Answers E V R U) (config_value : V → ConfigValue)
    (parsers : Parsers) where
  -- Where messages are decoded as they were, keys are sound and are read as they were written, the client
  -- that asks a server for a transaction gets one, if the server can sign and gets the settings of
  -- the fees: with the addresses of the server's gateway, of the owner and of the payer, the staking
  -- fee of the mode, a fee that stays the transaction's own now that it is signed, and a signature
  -- that the gateway's key verifies.
  pub client_add_gateway-add_gateway :
      (self : LocalServer K P) (owner payer : P) (mode : StakingMode) (config : TxnFeeConfig)
      → Decodes codec
      → Sound crypto
      → Signs crypto self.keypair
      → crypto.from_bytes (crypto.to_vec owner) ≡ ok owner
      → crypto.from_bytes (crypto.to_vec payer) ≡ ok payer
      → fee_config_of crypto codec encode answers config_value parsers ≡ ok config
      → (answer : List ℕ) × (txn : AddGatewayTxn) × (client_add_gateway crypto codec
            (add_gateway crypto codec encode answers config_value parsers self)
            owner
            payer
            mode
          ≡ ok txn)
        × (mode_from_gateway (mode_to_gateway mode) ≡ mode)
        × Valid crypto codec encode self
            (record {
              owner = crypto.to_vec owner;
              payer = crypto.to_vec payer;
              staking_mode = mode_to_gateway mode;
            })
            config
            answer
            txn
  unfolding client_add_gateway
  client_add_gateway-add_gateway self owner payer mode config decodes sound signs is_owner is_payer
        configured =
      let (answer, txn, answered, valid) =
        add_gateway-Valid crypto codec encode answers config_value parsers self
          (record {
            owner = crypto.to_vec owner;
            payer = crypto.to_vec payer;
            staking_mode = mode_to_gateway mode;
          })
          config decodes sound signs is_owner is_payer configured in
      (
        answer,
        txn,
        rw (client_add_gateway, answered, valid.enveloped) refl,
        mode_from_gateway-mode_to_gateway mode,
        valid,
      )
