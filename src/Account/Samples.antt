-- ===== src/Account/Samples.antt =====
-- A chain of small parts, to run src/traits/, src/keypair.rs and src/api/server.rs on.
use gateway_rs.Base.{
  ℕ, zero, suc, ◌≡◌, refl, ap, List, [], ◌∷◌, ◌++◌, Option, none, some, Result, ok, err,
  if◌then◌else◌, Text, text_eq, text_eq_refl, length, take, drop, take-append, drop-append, ap₂,
}
use gateway_rs.Account.Modes.{light, mode_to_gateway}
use gateway_rs.Account.Transactions.{
  other_txn, Decodes, AddGatewayTxn, CloseTxn, Txn, add_gateway_txn, state_channel_close,
  BlockchainTxn, Codec,
}
use gateway_rs.Account.Fees.{ConfigValue, Parsers, default_config, set_values, config_try_from}
use gateway_rs.Account.Keys.{Crypto, Sound}
use gateway_rs.Account.Api.{Answers, LocalServer, get_config, fee_config_of, add_gateway}
use gateway_rs.Account.Transfers.{Valid}
use gateway_rs.Start.Added.{Base64, Table, run_add, Shows}
use gateway_rs.Start.Answered.{Staked, run_add-add_gateway}

abbrev txn : AddGatewayTxn
txn = record {
  gateway = 1 ∷ [];
  owner = 2 ∷ [];
  payer = [];
  fee = 3;
  staking_fee = 4;
  owner_signature = [];
  gateway_signature = [];
  payer_signature = [];
}

abbrev close : CloseTxn (Unit {0})
close = record { content = tt; fee = 5; signature = 6 ∷ [] }

-- A list in front of others, with its length.
abbrev put : List ℕ → List ℕ → List ℕ
put xs rest = length xs ∷ xs ++ rest

unfoldable get : List ℕ → List ℕ × List ℕ
get [] = ([], [])
get (n ∷ bytes) = (take n bytes, drop n bytes)

get-put : (xs rest : List ℕ) → get (put xs rest) ≡ (xs, rest)
unfolding get
get-put xs rest =
    ap₂ (λ a b. (a, b)) (take-append (length xs) xs rest refl)
      (drop-append (length xs) xs rest refl)

abbrev encode_txn : AddGatewayTxn → List ℕ
encode_txn t =
    t.fee
    ∷ t.staking_fee
    ∷ put t.gateway (
        put t.owner (
          put t.payer (put t.owner_signature (put t.gateway_signature (put t.payer_signature [])))))

abbrev decode_parts : ℕ → ℕ → List ℕ → AddGatewayTxn
decode_parts fee staking_fee b0 =
    let (gateway, b1) = get b0 in
    let (owner, b2) = get b1 in
    let (payer, b3) = get b2 in
    let (owner_signature, b4) = get b3 in
    let (gateway_signature, b5) = get b4 in
    let (payer_signature, b6) = get b5 in
    record {
      gateway = gateway;
      owner = owner;
      payer = payer;
      fee = fee;
      staking_fee = staking_fee;
      owner_signature = owner_signature;
      gateway_signature = gateway_signature;
      payer_signature = payer_signature;
    }

abbrev Envelope : Type 0
Envelope = BlockchainTxn (Unit {0}) (Unit {0})

abbrev encode_envelope : Option (Txn (Unit {0}) (Unit {0})) → List ℕ
encode_envelope none = []
encode_envelope (some (add_gateway_txn t)) = 0 ∷ encode_txn t
encode_envelope (some (state_channel_close c)) = 1 ∷ c.fee ∷ c.signature
encode_envelope (some (other_txn o)) = 2 ∷ []

abbrev decode_sample : List ℕ → Result ℕ Envelope
decode_sample [] = ok (record { txn = none })
decode_sample (zero ∷ fee ∷ staking_fee ∷ rest) =
    ok (record { txn = some (add_gateway_txn (decode_parts fee staking_fee rest)) })
decode_sample (suc zero ∷ fee ∷ signature) = ok (record {
  txn = some (state_channel_close (record { content = tt; fee = fee; signature = signature }));
})
decode_sample (suc (suc n) ∷ rest) = ok (record { txn = some (other_txn tt) })
decode_sample (zero ∷ fee ∷ []) = err 1
decode_sample (zero ∷ []) = err 1
decode_sample (suc zero ∷ []) = err 1

abbrev codec : Codec ℕ Envelope
codec = record { encode = λ m. encode_envelope m.txn; decode = decode_sample }

decode_parts_lem :
    (t : AddGatewayTxn)
    → decode_parts t.fee t.staking_fee (
        put t.gateway (
          put t.owner (
            put t.payer
              (put t.owner_signature (put t.gateway_signature (put t.payer_signature []))))))
      ≡ t
decode_parts_lem t =
    let p5 = get-put t.payer_signature [] in
    let p4 = get-put t.gateway_signature (put t.payer_signature []) in
    let p3 = get-put t.owner_signature (put t.gateway_signature (put t.payer_signature [])) in
    let p2 =
      get-put t.payer
        (put t.owner_signature (put t.gateway_signature (put t.payer_signature []))) in
    let p1 =
      get-put t.owner (
        put t.payer (put t.owner_signature (put t.gateway_signature (put t.payer_signature [])))) in
    let p0 = get-put t.gateway (
      put t.owner (
        put t.payer
          (put t.owner_signature (put t.gateway_signature (put t.payer_signature []))))) in
    rw (p0, p1, p2, p3, p4, p5) refl

decode_sample-encode_envelope :
    (o : Option (Txn (Unit {0}) (Unit {0})))
    → decode_sample (encode_envelope o) ≡ ok (record { txn = o })
decode_sample-encode_envelope none = refl
decode_sample-encode_envelope (some (add_gateway_txn t)) =
    ap (λ x. ok (record { txn = some (add_gateway_txn x) })) (decode_parts_lem t)
decode_sample-encode_envelope (some (state_channel_close c)) = refl
decode_sample-encode_envelope (some (other_txn o)) = refl

codec-Decodes : Decodes codec
codec-Decodes m = decode_sample-encode_envelope m.txn

-- Keys are numbers, and a signature is the key and the message.
abbrev crypto : Crypto ℕ ℕ ℕ
crypto = record {
  public_key = λ key. key;
  to_vec = λ key. key ∷ [];
  from_bytes = λ bytes. elim bytes [ [] ↦ err 1 | b ∷ rest ↦ ok b ];
  sign = λ key msg. ok (key ∷ msg);
  verify = λ key msg signature. if text_eq signature (key ∷ msg) then ok tt else err 2;
}

crypto-Sound : Sound crypto
crypto-Sound key msg signature signed =
    let same : signature ≡ key ∷ msg = cc in rw (same, text_eq_refl (key ∷ msg)) refl

abbrev answers : Answers ℕ ConfigValue ℕ ℕ
answers = record { config = λ keys. ok []; region = ok 1; height = err 3; error_text = λ e. [] }

abbrev parsers : Parsers
parsers = record { from_utf8 = λ bytes. some bytes; parse_u64 = λ t. none }

abbrev server : LocalServer ℕ ℕ
server = record { keypair = 7; onboarding_key = 7; listen_port = 4467 }

fees : fee_config_of crypto codec encode_txn answers (λ v. v) parsers ≡ ok default_config
unfolding fee_config_of get_config config_try_from set_values
fees = refl

-- Texts are written as they are, in place of base64, and a key is printed as its number.
abbrev plain : Base64
plain = record {
  encode = λ bytes. bytes;
  decode = λ t. some t;
  encode_url = λ bytes. bytes;
  decode_encode = λ bytes. refl;
}

abbrev key_text : ℕ → Text
key_text key = key ∷ []

run_add-add_gateway_example :
    (table : Table) × (answer : List ℕ) × (t : AddGatewayTxn) × (run_add crypto codec plain key_text
        (some (add_gateway crypto codec encode_txn answers (λ v. v) parsers server))
        2
        4
        light
      ≡ ok table)
    × (table.address ≡ 7 ∷ [])
    × (table.owner ≡ 2 ∷ [])
    × (table.payer ≡ 4 ∷ [])
    × Staked default_config light t.staking_fee
    × (table.staking_fee ≡ t.staking_fee)
    × Shows crypto codec plain key_text t light table
    × Valid crypto codec encode_txn server
        (record { owner = 2 ∷ []; payer = 4 ∷ []; staking_mode = mode_to_gateway light })
        default_config
        answer
        t
run_add-add_gateway_example =
    run_add-add_gateway crypto codec plain key_text encode_txn answers (λ v. v) parsers server 2 4
      light default_config codec-Decodes crypto-Sound (λ msg. (7 ∷ msg, refl)) refl refl refl fees
