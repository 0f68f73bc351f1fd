-- ===== src/Account/Fees.antt =====
-- src/traits/txn_fee.rs: the fees of transactions, and the settings of the chain that they stand on.
use gateway_rs.Base.{
  ℕ, ◌+◌, ◌-◌, ◌*◌, ◌/◌, ◌%◌, ◌^◌, Bool, true, List, [], ◌∷◌, length, Option, none, some, Result,
  ok, err, ◌>>=◌, leb, if◌then◌else◌, Text, text, text_eq,
}
use gateway_rs.Updater.Channel.{is_empty}
use gateway_rs.Account.Modes.{StakingMode, data_only, light, full}
use gateway_rs.Account.Transactions.{
  AddGatewayTxn, CloseTxn, add_gateway_txn, state_channel_close, BlockchainTxn, Codec,
  in_envelope_vec,
}

abbrev txn_fee_signature_size : ℕ
txn_fee_signature_size = 64

abbrev txn_fee_multiplier_default : ℕ
txn_fee_multiplier_default = 5000

abbrev pub zeros : ℕ → List ℕ
zeros ℕ.zero = []
zeros (ℕ.suc n) = 0 ∷ zeros n

pub record TxnFeeConfig : Type 0 where
  pub txn_fees : Bool
  pub txn_fee_multiplier : ℕ
  pub staking_fee_txn_add_gateway_v1 : ℕ
  pub staking_fee_txn_add_light_gateway_v1 : ℕ
  pub staking_fee_txn_add_dataonly_gateway_v1 : ℕ

unfoldable pub default_config : TxnFeeConfig
default_config = record {
  txn_fees = true;
  txn_fee_multiplier = txn_fee_multiplier_default;
  staking_fee_txn_add_gateway_v1 = 4000000;
  staking_fee_txn_add_light_gateway_v1 = 4000000;
  staking_fee_txn_add_dataonly_gateway_v1 = 1000000;
}

unfoldable pub get_staking_fee : TxnFeeConfig → StakingMode → ℕ
get_staking_fee self full = self.staking_fee_txn_add_gateway_v1
get_staking_fee self data_only = self.staking_fee_txn_add_dataonly_gateway_v1
get_staking_fee self light = self.staking_fee_txn_add_light_gateway_v1

-- Sizes and fees have 64 bits.
abbrev pub u64 : ℕ → ℕ
u64 n = n % 2 ^ 64

unfoldable pub get_txn_fee : TxnFeeConfig → ℕ → ℕ
get_txn_fee self payload_size =
    let dc_payload_size = if self.txn_fees then 24 else 1 in
    let fee =
      if leb payload_size dc_payload_size
      then 1
      else u64 (u64 (payload_size + dc_payload_size) + (2 ^ 64 - 1)) / dc_payload_size in
    u64 (fee * self.txn_fee_multiplier)

-- The transaction with room for the signatures that it will have.
unfoldable pub add_gateway_cleared : AddGatewayTxn → AddGatewayTxn
add_gateway_cleared txn = record txn {
  fee = 0;
  owner_signature = zeros txn_fee_signature_size;
  gateway_signature = zeros txn_fee_signature_size;
  payer_signature = if is_empty txn.payer then [] else zeros txn_fee_signature_size;
}

unfoldable pub close_cleared : {C : Type 0} → CloseTxn C → CloseTxn C
close_cleared txn = record txn { fee = 0; signature = zeros txn_fee_signature_size }

module _ {C O E : Type 0} (codec : Codec E (BlockchainTxn C O)) where
  unfoldable pub add_gateway_fee : TxnFeeConfig → AddGatewayTxn → ℕ
  add_gateway_fee config self =
      get_txn_fee config
        (length (in_envelope_vec codec (add_gateway_txn (add_gateway_cleared self))))

  unfoldable pub close_fee : TxnFeeConfig → CloseTxn C → ℕ
  close_fee config self =
      get_txn_fee config (length (in_envelope_vec codec (state_channel_close (close_cleared self))))

pub record ConfigValue : Type 0 where
  pub name : Text
  pub kind : Text
  pub value : List ℕ

pub data ConfigError : Type 0 where
  not_boolean_variable not_boolean_value not_int_variable not_valid_value not_valid_int_value :
      Text → ConfigError

-- `str::from_utf8` and `str::parse::<u64>`.
pub record Parsers : Type 0 where
  pub from_utf8 : List ℕ → Option Text
  pub parse_u64 : Text → Option ℕ

module _ (parsers : Parsers) where
  unfoldable pub to_bool : ConfigValue → Result ConfigError Bool
  to_bool self =
      if text_eq self.kind (text "atom")
      then elim (parsers.from_utf8 self.value) [
        | none ↦ err (not_boolean_value self.name)
        | some value ↦ ok (text_eq value (text "true"))
      ]
      else err (not_boolean_variable self.name)

  unfoldable pub to_u64 : ConfigValue → Result ConfigError ℕ
  to_u64 self =
      if text_eq self.kind (text "int")
      then elim (parsers.from_utf8 self.value) [
        | none ↦ err (not_valid_value self.name)
        | some value ↦ elim (parsers.parse_u64 value) [
          | none ↦ err (not_valid_int_value self.name)
          | some n ↦ ok n
        ]
      ]
      else err (not_int_variable self.name)

  -- One round of the loop over the values.
  unfoldable pub set_value : TxnFeeConfig → ConfigValue → Result ConfigError TxnFeeConfig
  set_value result var =
      if text_eq var.name (text "txn_fees")
      then to_bool var >>= (λ b. ok (record result { txn_fees = b }))
      else if text_eq var.name (text "txn_fee_multiplier")
      then to_u64 var >>= (λ n. ok (record result { txn_fee_multiplier = n }))
      else if text_eq var.name (text "staking_fee_txn_add_gateway_v1")
      then to_u64 var >>= (λ n. ok (record result { staking_fee_txn_add_gateway_v1 = n }))
      else if text_eq var.name (text "staking_fee_txn_add_light_gateway_v1")
      then to_u64 var >>= (λ n. ok (record result { staking_fee_txn_add_light_gateway_v1 = n }))
      else if text_eq var.name (text "staking_fee_txn_add_dataonly_gateway_v1")
      then to_u64 var >>= (λ n. ok (record result { staking_fee_txn_add_dataonly_gateway_v1 = n }))
      else ok result

  unfoldable pub set_values : TxnFeeConfig → List ConfigValue → Result ConfigError TxnFeeConfig
  set_values result [] = ok result
  set_values result (var ∷ v) = elim (set_value result var) [
    | ok next ↦ set_values next v
    | err e ↦ err e
  ]

  unfoldable pub config_try_from : List ConfigValue → Result ConfigError TxnFeeConfig
  config_try_from v = set_values default_config v
