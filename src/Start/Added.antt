-- ===== src/Start/Added.antt =====
-- src/cmd/add.rs, src/traits/base64.rs: the command that makes a transaction to add the gateway, and prints
-- it. Base64, the keys and the local server are parameters.
use mathlib.Core.Path.{subst}
use gateway_rs.Base.{
  ℕ, ◌≡◌, refl, List, Option, none, some, Result, ok, err, ◌>>=◌, >>=-eq-ok, Text,
}
use gateway_rs.Account.Modes.{StakingMode, mode_text}
use gateway_rs.Account.Transactions.{
  AddGatewayTxn, add_gateway_txn, BlockchainTxn, Codec, Decodes, in_envelope_vec,
  add_gateway_from_vec, from_vec-in_envelope, add_gateway_of,
}
use gateway_rs.Account.Keys.{Crypto}
use gateway_rs.Account.Api.{Status, AddGatewayReq, map_err}
use gateway_rs.Account.Client.{ClientError, key_error, client_add_gateway}

ok_injective : {E A : Type 0} (a b : A) → ◌≡◌ {A = Result E A} (ok a) (ok b) → a ≡ b
ok_injective a b h = cc

-- `LocalClient::new` fails, or the command does.
pub data AddError (E D : Type 0) : Type 0 where
  not_connected : AddError E D
  client_failed : ClientError E D → AddError E D

ok-map_err : {E F A : Type 0} (f : E → F) (r : Result E A) (a : A) → map_err f r ≡ ok a → r ≡ ok a
ok-map_err f (ok b) a h = cc
ok-map_err f (err e) a h = cc

-- The crate `base64`, in its two alphabets.
pub record Base64 : Type 0 where
  pub encode : List ℕ → Text
  pub decode : Text → Option (List ℕ)
  pub encode_url : List ℕ → Text
  pub decode_encode : (bytes : List ℕ) → decode (encode bytes) ≡ some bytes

unfoldable pub to_b64 : Base64 → List ℕ → Text
to_b64 base64 bytes = base64.encode bytes

unfoldable pub to_b64url : Base64 → List ℕ → Text
to_b64url base64 bytes = base64.encode_url bytes

-- The fields of the object that is printed.
pub record Table : Type 0 where
  pub mode : Text
  pub address : Text
  pub payer : Text
  pub owner : Text
  pub fee : ℕ
  pub staking_fee : ℕ
  pub txn : Text

module _ {E K P C O D : Type 0} (crypto : Crypto E K P) (codec : Codec D (BlockchainTxn C O))
    (base64 : Base64) (key_text : P → Text) where
  unfoldable pub address_text : List ℕ → Result (ClientError E D) Text
  address_text bytes = map_err key_error (crypto.from_bytes bytes) >>= (λ key. ok (key_text key))

  unfoldable pub print_txn : StakingMode → AddGatewayTxn → Result (ClientError E D) Table
  print_txn mode txn = address_text txn.gateway >>= (λ address. address_text txn.payer >>= (λ payer.
      address_text txn.owner >>= (λ owner. ok (record {
        mode = mode_text mode;
        address = address;
        payer = payer;
        owner = owner;
        fee = txn.fee;
        staking_fee = txn.staking_fee;
        txn = to_b64 base64 (in_envelope_vec codec (add_gateway_txn txn));
      }))))

  -- `Cmd::run`: the local server cannot be reached, or answers.
  unfoldable pub run_add :
      Option (AddGatewayReq → Result Status (List ℕ))
      → P
      → P
      → StakingMode
      → Result (AddError E D) Table
  run_add none owner payer mode = err not_connected
  run_add (some call) owner payer mode =
      map_err client_failed
        (client_add_gateway crypto codec call owner payer mode >>= (λ txn. print_txn mode txn))

  -- What the object says of the transaction.
  pub record Shows (txn : AddGatewayTxn) (mode : StakingMode) (table : Table) : Type 0 where
    pub shown_mode : table.mode ≡ mode_text mode
    pub shown_gateway : address_text txn.gateway ≡ ok table.address
    pub shown_payer : address_text txn.payer ≡ ok table.payer
    pub shown_owner : address_text txn.owner ≡ ok table.owner
    pub shown_fee : table.fee ≡ txn.fee
    pub shown_staking_fee : table.staking_fee ≡ txn.staking_fee
    pub bytes : List ℕ
    pub shown_txn : base64.decode table.txn ≡ some bytes
    pub shown_envelope : add_gateway_from_vec codec bytes ≡ ok txn

  abbrev pub built : StakingMode → AddGatewayTxn → Text → Text → Text → Table
  built mode txn address payer owner = record {
    mode = mode_text mode;
    address = address;
    payer = payer;
    owner = owner;
    fee = txn.fee;
    staking_fee = txn.staking_fee;
    txn = base64.encode (in_envelope_vec codec (add_gateway_txn txn));
  }

  pub print_txn-Shows :
      (mode : StakingMode) (txn : AddGatewayTxn) (table : Table)
      → Decodes codec
      → print_txn mode txn ≡ ok table
      → Shows txn mode table
  unfolding print_txn to_b64 add_gateway_of
  print_txn-Shows mode txn table decodes h =
      let (address, e1, h1) = >>=-eq-ok (address_text txn.gateway) _ h in
      let (payer, e2, h2) = >>=-eq-ok (address_text txn.payer) _ h1 in
      let (owner, e3, h3) = >>=-eq-ok (address_text txn.owner) _ h2 in
      let bytes = in_envelope_vec codec (add_gateway_txn txn) in
      subst (Shows txn mode)
        (ok_injective {E = ClientError E D} (built mode txn address payer owner) table h3)
        (record {
          shown_mode = refl;
          shown_gateway = e1;
          shown_payer = e2;
          shown_owner = e3;
          shown_fee = refl;
          shown_staking_fee = refl;
          bytes = bytes;
          shown_txn = base64.decode_encode bytes;
          shown_envelope = (from_vec-in_envelope codec (add_gateway_txn txn) decodes).0;
        })

  -- Where messages are decoded as they were, whatever the command prints shows the transaction that the
  -- local server gave: its mode, its fees, the texts of its three addresses, and a text that is decoded
  -- from base64 and out of its envelope as the same transaction.
  pub run_add-Shows :
      (server : Option (AddGatewayReq → Result Status (List ℕ))) (owner payer : P)
      (mode : StakingMode) (table : Table)
      → Decodes codec
      → run_add server owner payer mode ≡ ok table
      → (call : AddGatewayReq → Result Status (List ℕ)) × (txn : AddGatewayTxn) × (server
          ≡ some call)
        × (client_add_gateway crypto codec call owner payer mode ≡ ok txn)
        × Shows txn mode table
  unfolding run_add
  run_add-Shows none owner payer mode table decodes h = cc
  run_add-Shows (some call) owner payer mode table decodes h =
      let (txn, answered, printed) =
        >>=-eq-ok (client_add_gateway crypto codec call owner payer mode) _
          (ok-map_err client_failed _ table h) in
      (call, txn, refl, answered, print_txn-Shows mode txn table decodes printed)
