-- ===== src/Account/Keys.antt =====
-- src/traits/msg_sign.rs, src/traits/msg_verify.rs: signing and verifying messages.
use gateway_rs.Base.{ℕ, ◌≡◌, List, [], Option, none, some, Result, ok, err}

-- The crate `helium_crypto`: keys, signing and verifying.
pub record Crypto (E K P : Type 0) : Type 0 where
  pub public_key : K → P
  pub to_vec : P → List ℕ
  pub from_bytes : List ℕ → Result E P
  pub sign : K → List ℕ → Result E (List ℕ)
  pub verify : P → List ℕ → List ℕ → Result E (Unit {0})

module _ {E K P : Type 0} (crypto : Crypto E K P) where
  -- What a key signs, its public key verifies.
  abbrev pub Sound : Type 0
  Sound =
      (key : K) (msg signature : List ℕ)
      → crypto.sign key msg ≡ ok signature
      → crypto.verify (crypto.public_key key) msg signature ≡ ok tt

  -- A key that signs every message.
  abbrev pub Signs : K → Type 0
  Signs key = (msg : List ℕ) → (signature : List ℕ) × (crypto.sign key msg ≡ ok signature)

-- A message with its signature, as the messages that are signed have it: the parts without the
-- signature are `M`, and `encode` is that of the message whose signature is empty or not.
pub record Signed (M : Type 0) : Type 0 where
  pub message : M
  pub signature : List ℕ

module _ {E K P M : Type 0} (crypto : Crypto E K P) (encode : Signed M → List ℕ) where
  -- `MsgSign::sign`
  unfoldable pub msg_sign : Signed M → K → Result E (List ℕ)
  msg_sign self keypair = crypto.sign keypair (encode (record self { signature = [] }))

  -- `MsgVerify::verify`
  unfoldable pub msg_verify : Signed M → P → Result E (Unit {0})
  msg_verify self verifier =
      crypto.verify verifier (encode (record self { signature = [] })) self.signature

-- The message of a state channel; `B` are the contents that are not looked at.
pub data StateChannelMsg (B M : Type 0) : Type 0 where
  response offer purchase banner reject : B → StateChannelMsg B M
  packet : Signed M → StateChannelMsg B M

pub data VerifyError (E : Type 0) : Type 0 where
  crypto_error : E → VerifyError E
  empty_message : VerifyError E

abbrev checked : {E : Type 0} → Result E (Unit {0}) → Result (VerifyError E) (Unit {0})
checked (ok _) = ok tt
checked (err e) = err (crypto_error e)

module _ {E K P B M : Type 0} (crypto : Crypto E K P) (encode : Signed M → List ℕ) where
  -- `verify` of a message of a state channel: only a packet is looked at.
  unfoldable pub verify_message :
      Option (StateChannelMsg B M) → P → Result (VerifyError E) (Unit {0})
  verify_message (some (packet m)) verifier = checked (msg_verify crypto encode m verifier)
  verify_message (some (response m)) verifier = ok tt
  verify_message (some (offer m)) verifier = ok tt
  verify_message (some (purchase m)) verifier = ok tt
  verify_message (some (banner m)) verifier = ok tt
  verify_message (some (reject m)) verifier = ok tt
  verify_message none verifier = err empty_message
