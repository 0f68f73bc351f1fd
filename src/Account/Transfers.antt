-- ===== src/Account/Transfers.antt =====
-- src/api/server.rs, src/traits/: the transaction that the local API builds.
use gateway_rs.Base.{ℕ, ◌≡◌, refl, List, [], ok}
use gateway_rs.Account.Modes.{mode_from_gateway}
use gateway_rs.Account.Transactions.{
  AddGatewayTxn, add_gateway_txn, BlockchainTxn, Codec, Decodes, in_envelope_vec,
  add_gateway_from_vec, add_gateway_of, from_vec-in_envelope,
}
use gateway_rs.Account.Fees.{
  TxnFeeConfig, get_staking_fee, add_gateway_cleared, add_gateway_fee, Parsers, ConfigValue,
}
use gateway_rs.Account.Keys.{Crypto, Sound, Signs}
use gateway_rs.Account.Api.{
  Answers, LocalServer, AddGatewayReq, new_txn, fee_config_of, with_fee, add_gateway,
}

-- The transaction before it is signed.
abbrev pub unsigned : AddGatewayTxn → AddGatewayTxn
unsigned txn = record txn { owner_signature = []; gateway_signature = []; payer_signature = [] }

-- What an answer of `add_gateway` holds: a transaction that comes out of the envelope, its parts those
-- of the request and of the settings of the chain, its fee its own, its signature the gateway's.
pub record Valid {E K P C O D : Type 0} (crypto : Crypto E K P)
    (codec : Codec D (BlockchainTxn C O)) (encode : AddGatewayTxn → List ℕ) (self : LocalServer K P)
    (request : AddGatewayReq) (config : TxnFeeConfig) (answer : List ℕ) (txn : AddGatewayTxn)
    : Type 0 where
  pub enveloped : add_gateway_from_vec codec answer ≡ ok txn
  pub gateway : txn.gateway ≡ crypto.to_vec (crypto.public_key self.keypair)
  pub owner : txn.owner ≡ request.owner
  pub payer : txn.payer ≡ request.payer
  pub staking : txn.staking_fee ≡ get_staking_fee config (mode_from_gateway request.staking_mode)
  pub own_fee : txn.fee ≡ add_gateway_fee codec config txn
  pub verifies :
      crypto.verify (crypto.public_key self.keypair) (encode (unsigned txn)) txn.gateway_signature
      ≡ ok tt

module _ {C O D : Type 0} (codec : Codec D (BlockchainTxn C O)) where
  -- The fee of a transaction does not depend on the fee nor on the signatures that it has.
  pub add_gateway_fee-unsigned :
      (config : TxnFeeConfig) (txn : AddGatewayTxn)
      → add_gateway_fee codec config (record (unsigned txn) { fee = 0 })
        ≡ add_gateway_fee codec config txn
  unfolding add_gateway_fee add_gateway_cleared
  add_gateway_fee-unsigned config txn = refl

module _ {E K P C O D V R U : Type 0} (crypto : Crypto E K P) (codec : Codec D (BlockchainTxn C O))
    (encode : AddGatewayTxn → List ℕ) (answers : Answers E V R U) (config_value : V → ConfigValue)
    (parsers : Parsers) where
  -- Where messages are decoded as they were and keys are sound, a gateway that can sign answers a request
  -- with good addresses, if it gets the settings of the fees, by a transaction in its envelope: with
  -- its own address and those of the request, the staking fee of the mode, a fee that stays the
  -- transaction's own now that it is signed, and a signature that its key verifies.
  pub add_gateway-Valid :
      (self : LocalServer K P) (request : AddGatewayReq) (config : TxnFeeConfig) {owner payer : P}
      → Decodes codec
      → Sound crypto
      → Signs crypto self.keypair
      → crypto.from_bytes request.owner ≡ ok owner
      → crypto.from_bytes request.payer ≡ ok payer
      → fee_config_of crypto codec encode answers config_value parsers ≡ ok config
      → (answer : List ℕ) × (txn : AddGatewayTxn) × (add_gateway crypto codec encode answers
            config_value parsers self request
          ≡ ok answer)
        × Valid crypto codec encode self request config answer txn
  unfolding add_gateway with_fee new_txn add_gateway_fee add_gateway_cleared add_gateway_of
  add_gateway-Valid self request config decodes sound signs is_owner is_payer configured =
      let txn = with_fee crypto codec encode answers config_value parsers self request config in
      let (signature, signed) = signs (encode txn) in
      let final = record txn { gateway_signature = signature } in
      (
        in_envelope_vec codec (add_gateway_txn final),
        final,
        rw (add_gateway, is_owner, is_payer, configured, signed) refl,
        record {
          enveloped = (from_vec-in_envelope codec (add_gateway_txn final) decodes).0;
          gateway = refl;
          owner = refl;
          payer = refl;
          staking = refl;
          own_fee = refl;
          verifies = sound self.keypair (encode txn) signature signed;
        },
      )
