-- ===== src/Service/Samples.antt =====
-- Answers of a gateway, to run src/service/ on.
use gateway_rs.Base.{
  ℕ, ◌≡◌, refl, List, [], ◌∷◌, some, Result, ok, err, text_eq, text_eq_refl, if◌then◌else◌,
}
use gateway_rs.Router.Routing.{KeyedUri}
use gateway_rs.Account.Keys.{Crypto, Signed, Sound, msg_verify}
use gateway_rs.Service.Gateway.{
  version_resp, GatewayBody, GatewayError, external, region_params, region_params_for, poll_next,
  is_active_sc, config, height, validators, version,
}
use gateway_rs.Service.Verified.{msg_verify-refuses, msg_verify-accepts}

-- Keys are numbers, and a signature is the key and the message.
abbrev crypto : Crypto ℕ ℕ ℕ
crypto = record {
  public_key = λ key. key;
  to_vec = λ key. key ∷ [];
  from_bytes = λ bytes. err 1;
  sign = λ key msg. ok (key ∷ msg);
  verify = λ key msg signature. if text_eq signature (key ∷ msg) then ok tt else err 2;
}

crypto-Sound : Sound crypto
crypto-Sound key msg signature signed =
    let same : signature ≡ key ∷ msg = cc in rw (same, text_eq_refl (key ∷ msg)) refl

abbrev Body : Type 0
Body = GatewayBody ℕ ℕ ℕ ℕ

abbrev body : Body
body = record { height = 100; block_age = 60; msg = some (version_resp 10110000) }

abbrev encode : Signed Body → List ℕ
encode m = m.message.height ∷ m.message.block_age ∷ m.signature

abbrev keyed : KeyedUri ℕ ℕ
keyed = record { uri = 1; pubkey = 5 }

abbrev forged : Signed Body
forged = record { message = body; signature = 6 ∷ 100 ∷ 60 ∷ [] }

abbrev params_of : ℕ → Result (GatewayError ℕ) ℕ
params_of n = ok n

abbrev keyed_uri_of : ℕ → Result (GatewayError ℕ) (KeyedUri ℕ ℕ)
keyed_uri_of n = ok keyed

msg_verify-refuses_example :
    (poll_next crypto encode keyed (some (ok forged)) ≡ some (err (external 2)))
    × (is_active_sc crypto encode keyed (ok forged) [] [] ≡ err (external 2))
    × (config crypto encode keyed (ok forged) ≡ err (external 2))
    × (height crypto encode keyed (ok forged) ≡ err (external 2))
    × (validators crypto encode keyed keyed_uri_of (ok forged) ≡ err (external 2))
    × (version crypto encode keyed (ok forged) ≡ err (external 2))
    × (region_params_for params_of (ok forged) ≡ region_params params_of body)
unfolding msg_verify
msg_verify-refuses_example =
    msg_verify-refuses crypto encode keyed params_of keyed_uri_of forged [] [] refl

abbrev signed : Signed Body
signed = record { message = body; signature = 5 ∷ 100 ∷ 60 ∷ [] }

msg_verify-accepts_example :
    (poll_next crypto encode keyed (some (ok signed)) ≡ some (ok signed))
    × (height crypto encode keyed (ok signed) ≡ ok (100, 60))
    × (version crypto encode keyed (ok signed) ≡ ok 10110000)
msg_verify-accepts_example =
    msg_verify-accepts crypto encode keyed params_of keyed_uri_of 5 body (version_resp 10110000)
      (5 ∷ 100 ∷ 60 ∷ []) crypto-Sound refl refl refl
