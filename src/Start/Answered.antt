-- ===== src/Start/Answered.antt =====
-- src/cmd/add.rs with src/api/server.rs: the command that adds a gateway, answered by the local server.
use gateway_rs.Base.{ℕ, ◌≡◌, ◌∙◌, ap, refl, List, some, ok, Text}
use gateway_rs.Account.Modes.{StakingMode, full, light, data_only, mode_to_gateway}
use gateway_rs.Account.Transactions.{AddGatewayTxn, BlockchainTxn, Codec, Decodes}
use gateway_rs.Account.Fees.{get_staking_fee, TxnFeeConfig, ConfigValue, Parsers}
use gateway_rs.Account.Keys.{Crypto, Sound, Signs}
use gateway_rs.Account.Api.{Answers, LocalServer, fee_config_of, add_gateway}
use gateway_rs.Account.Transfers.{Valid}
use gateway_rs.Account.Client.{client_add_gateway-add_gateway}
use gateway_rs.Start.Added.{
  Base64, Table, address_text, built, print_txn, to_b64, run_add, Shows, print_txn-Shows,
}

-- The staking fee that the settings of the chain name for a mode.
abbrev pub Staked : TxnFeeConfig → StakingMode → ℕ → Type 0
Staked config full fee = fee ≡ config.staking_fee_txn_add_gateway_v1
Staked config light fee = fee ≡ config.staking_fee_txn_add_light_gateway_v1
Staked config data_only fee = fee ≡ config.staking_fee_txn_add_dataonly_gateway_v1

Staked-get_staking_fee :
    (config : TxnFeeConfig) (mode : StakingMode) (fee : ℕ)
    → fee ≡ get_staking_fee config mode
    → Staked config mode fee
unfolding get_staking_fee
Staked-get_staking_fee config full fee e = e
Staked-get_staking_fee config light fee e = e
Staked-get_staking_fee config data_only fee e = e

module _ {E K P C O D : Type 0} (crypto : Crypto E K P) (codec : Codec D (BlockchainTxn C O))
    (base64 : Base64) (key_text : P → Text) where
  address_text-to_vec :
      (bytes : List ℕ) (key : P)
      → bytes ≡ crypto.to_vec key
      → crypto.from_bytes (crypto.to_vec key) ≡ ok key
      → address_text crypto codec base64 key_text bytes ≡ ok (key_text key)
  unfolding address_text
  address_text-to_vec bytes key e read = rw (address_text, e, read) refl

  print_txn-built :
      (mode : StakingMode) (txn : AddGatewayTxn) (address payer owner : Text)
      → address_text crypto codec base64 key_text txn.gateway ≡ ok address
      → address_text crypto codec base64 key_text txn.payer ≡ ok payer
      → address_text crypto codec base64 key_text txn.owner ≡ ok owner
      → print_txn crypto codec base64 key_text mode txn
        ≡ ok (built crypto codec base64 key_text mode txn address payer owner)
  unfolding print_txn to_b64
  print_txn-built mode txn address payer owner h1 h2 h3 = rw (print_txn, h1, h2, h3) refl

module _ {E K P C O D V R U : Type 0} (crypto : Crypto E K P) (codec : Codec D (BlockchainTxn C O))
    (base64 : Base64) (key_text : P → Text) (encode : AddGatewayTxn → List ℕ)
    (answers : Answers E V R U) (config_value : V → ConfigValue) (parsers : Parsers) where
  -- Where messages are decoded as they were, keys are sound, and the keys of the gateway, the owner and
  -- the payer are read as they were written, the command that asks a server that can sign and gets the
  -- settings of the fees prints an object: with the texts of the three keys, and of a transaction
  -- that comes out of the printed text. This transaction has the addresses of the three keys, the
  -- staking fee of the mode that was asked for, which the object shows too, a fee that is its own now that it is signed, and a signature that the
  -- gateway's key verifies.
  pub run_add-add_gateway :
      (self : LocalServer K P) (owner payer : P) (mode : StakingMode) (config : TxnFeeConfig)
      → Decodes codec
      → Sound crypto
      → Signs crypto self.keypair
      → crypto.from_bytes (crypto.to_vec (crypto.public_key self.keypair))
        ≡ ok (crypto.public_key self.keypair)
      → crypto.from_bytes (crypto.to_vec owner) ≡ ok owner
      → crypto.from_bytes (crypto.to_vec payer) ≡ ok payer
      → fee_config_of crypto codec encode answers config_value parsers ≡ ok config
      → (table : Table) × (answer : List ℕ) × (txn : AddGatewayTxn) × (run_add crypto codec base64
            key_text
            (some (add_gateway crypto codec encode answers config_value parsers self))
            owner
            payer
            mode
          ≡ ok table)
        × (table.address ≡ key_text (crypto.public_key self.keypair))
        × (table.owner ≡ key_text owner)
        × (table.payer ≡ key_text payer)
        × Staked config mode txn.staking_fee
        × (table.staking_fee ≡ txn.staking_fee)
        × Shows crypto codec base64 key_text txn mode table
        × Valid crypto codec encode self
            (record {
              owner = crypto.to_vec owner;
              payer = crypto.to_vec payer;
              staking_mode = mode_to_gateway mode;
            })
            config
            answer
            txn
  unfolding run_add
  run_add-add_gateway self owner payer mode config decodes sound signs is_key is_owner is_payer
        configured =
      let (answer, txn, asked, same_mode, valid) =
        client_add_gateway-add_gateway crypto codec encode answers config_value parsers self owner
          payer mode config decodes sound signs is_owner is_payer configured in
      let key = crypto.public_key self.keypair in
      let table =
        built crypto codec base64 key_text mode txn (key_text key) (key_text payer)
          (key_text owner) in
      let printed =
        print_txn-built crypto codec base64 key_text mode txn (key_text key) (key_text payer)
          (key_text owner)
          (address_text-to_vec crypto codec base64 key_text txn.gateway key valid.gateway is_key)
          (address_text-to_vec crypto codec base64 key_text txn.payer payer valid.payer is_payer)
          (address_text-to_vec crypto codec base64 key_text txn.owner owner valid.owner is_owner) in
      (
        table,
        answer,
        txn,
        rw (run_add, asked, printed) refl,
        refl,
        refl,
        refl,
        Staked-get_staking_fee config mode txn.staking_fee
            (valid.staking ∙ ap (get_staking_fee config) same_mode),
        refl,
        print_txn-Shows crypto codec base64 key_text mode txn table decodes printed,
        valid,
      )
