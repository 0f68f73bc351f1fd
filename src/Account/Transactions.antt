-- ===== src/Account/Transactions.antt =====
-- src/traits/txn_envelope.rs: transactions and their envelope. The fields of a state channel close that
-- the program does not touch are of a type of their own, and so are the other kinds of transactions.
use gateway_rs.Base.{ℕ, ◌≡◌, refl, List, Option, none, some, Result, ok, err}

pub record AddGatewayTxn : Type 0 where
  pub gateway : List ℕ
  pub owner : List ℕ
  pub payer : List ℕ
  pub fee : ℕ
  pub staking_fee : ℕ
  pub owner_signature : List ℕ
  pub gateway_signature : List ℕ
  pub payer_signature : List ℕ

pub record CloseTxn (C : Type 0) : Type 0 where
  pub content : C
  pub fee : ℕ
  pub signature : List ℕ

pub data Txn (C O : Type 0) : Type 0 where
  add_gateway_txn : AddGatewayTxn → Txn C O
  state_channel_close : CloseTxn C → Txn C O
  other_txn : O → Txn C O

pub record BlockchainTxn (C O : Type 0) : Type 0 where
  pub txn : Option (Txn C O)

-- `Message` of the crate `prost`.
pub record Codec (E M : Type 0) : Type 0 where
  pub encode : M → List ℕ
  pub decode : List ℕ → Result E M

-- A message that is encoded is decoded as it was.
abbrev pub Decodes : {E M : Type 0} → Codec E M → Type 0
Decodes {E} {M} codec = (m : M) → codec.decode (codec.encode m) ≡ ok m

pub data EnvelopeError (E : Type 0) : Type 0 where
  prost_error : E → EnvelopeError E
  invalid_envelope : EnvelopeError E

module _ {C O : Type 0} where
  unfoldable pub in_envelope : Txn C O → BlockchainTxn C O
  in_envelope txn = record { txn = some txn }

  unfoldable pub add_gateway_of :
      {E : Type 0} → Option (Txn C O) → Result (EnvelopeError E) AddGatewayTxn
  add_gateway_of (some (add_gateway_txn result)) = ok result
  add_gateway_of (some (state_channel_close other)) = err invalid_envelope
  add_gateway_of (some (other_txn other)) = err invalid_envelope
  add_gateway_of none = err invalid_envelope

  unfoldable pub close_of : {E : Type 0} → Option (Txn C O) → Result (EnvelopeError E) (CloseTxn C)
  close_of (some (state_channel_close result)) = ok result
  close_of (some (add_gateway_txn other)) = err invalid_envelope
  close_of (some (other_txn other)) = err invalid_envelope
  close_of none = err invalid_envelope

module _ {C O E : Type 0} (codec : Codec E (BlockchainTxn C O)) where
  unfoldable pub in_envelope_vec : Txn C O → List ℕ
  in_envelope_vec txn = codec.encode (in_envelope txn)

  unfoldable pub decode_envelope : List ℕ → Result (EnvelopeError E) (BlockchainTxn C O)
  decode_envelope buf = elim (codec.decode buf) [
    | ok envelope ↦ ok envelope
    | err e ↦ err (prost_error e)
  ]

  -- `from_envelope_vec` of the two kinds of transactions.
  unfoldable pub add_gateway_from_vec : List ℕ → Result (EnvelopeError E) AddGatewayTxn
  add_gateway_from_vec buf = elim (decode_envelope buf) [
    | ok envelope ↦ add_gateway_of envelope.txn
    | err e ↦ err e
  ]

  unfoldable pub close_from_vec : List ℕ → Result (EnvelopeError E) (CloseTxn C)
  close_from_vec buf = elim (decode_envelope buf) [
    | ok envelope ↦ close_of envelope.txn
    | err e ↦ err e
  ]

  -- An envelope that is decoded as it was gives what it holds.
  pub from_vec-in_envelope :
      (txn : Txn C O)
      → Decodes codec
      → (add_gateway_from_vec (in_envelope_vec txn) ≡ add_gateway_of (some txn))
        × (close_from_vec (in_envelope_vec txn) ≡ close_of (some txn))
  unfolding add_gateway_from_vec close_from_vec in_envelope_vec decode_envelope in_envelope
  from_vec-in_envelope txn decodes =
      rw
        (
          add_gateway_from_vec,
          close_from_vec,
          in_envelope_vec,
          decode_envelope,
          decodes (in_envelope txn),
        )
        (refl, refl)

  -- Where messages are decoded as they were, a transaction comes back out of its envelope, and one of
  -- another kind is refused.
  pub from_vec-in_envelope_vec :
      (txn : AddGatewayTxn) (close : CloseTxn C)
      → Decodes codec
      → (add_gateway_from_vec (in_envelope_vec (add_gateway_txn txn)) ≡ ok txn)
        × (close_from_vec (in_envelope_vec (state_channel_close close)) ≡ ok close)
        × (add_gateway_from_vec (in_envelope_vec (state_channel_close close))
            ≡ err invalid_envelope)
        × (close_from_vec (in_envelope_vec (add_gateway_txn txn)) ≡ err invalid_envelope)
  unfolding add_gateway_of close_of
  from_vec-in_envelope_vec txn close decodes =
      let (to_add, not_close) = from_vec-in_envelope (add_gateway_txn txn) decodes in
      let (not_add, to_close) = from_vec-in_envelope (state_channel_close close) decodes in
      (to_add, to_close, not_add, not_close)
