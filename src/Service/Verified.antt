-- ===== src/Service/Verified.antt =====
-- src/service/gateway.rs: which answers the program takes for those of the gateway.
use gateway_rs.Base.{ℕ, ◌≡◌, refl, List, [], some, Result, ok, err, text_eq_refl}
use gateway_rs.Router.Routing.{KeyedUri}
use gateway_rs.Account.Keys.{Crypto, Sound, Signed, msg_verify}
use gateway_rs.Service.Gateway.{
  Msg, is_active, config_resp, validators_resp, version_resp, GatewayBody, GatewayError, external,
  routings, region_params, region_params_for, verify, poll_next, verified, is_active_sc, get_config,
  config, height, validators, version, collect,
}

module _ {E K P U Q X V N : Type 0} (crypto : Crypto E K P)
    (encode : Signed (GatewayBody Q X V N) → List ℕ) (uri : KeyedUri U P) where
  verified-forged :
      (resp : Signed (GatewayBody Q X V N)) {e : E}
      → msg_verify crypto encode resp uri.pubkey ≡ err e
      → verified crypto encode uri (ok resp) ≡ err (external e)
  unfolding verified verify
  verified-forged resp forged = rw (verified, verify, forged) refl

  verified-good :
      (resp : Signed (GatewayBody Q X V N))
      → msg_verify crypto encode resp uri.pubkey ≡ ok tt
      → verified crypto encode uri (ok resp) ≡ ok resp
  unfolding verified verify
  verified-good resp good = rw (verified, verify, good) refl

  -- An answer that the key of the gateway does not verify is an error of every call and of the stream,
  -- except that the call for the parameters of a region takes it like any other.
  pub msg_verify-refuses :
      {G : Type 0} (region_params_try_from : X → Result (GatewayError E) G)
      (keyed_uri : N → Result (GatewayError E) (KeyedUri U P)) (resp : Signed (GatewayBody Q X V N))
      (id owner : List ℕ) {e : E}
      → msg_verify crypto encode resp uri.pubkey ≡ err e
      → (poll_next crypto encode uri (some (ok resp)) ≡ some (err (external e)))
        × (is_active_sc crypto encode uri (ok resp) id owner ≡ err (external e))
        × (config crypto encode uri (ok resp) ≡ err (external e))
        × (height crypto encode uri (ok resp) ≡ err (external e))
        × (validators crypto encode uri keyed_uri (ok resp) ≡ err (external e))
        × (version crypto encode uri (ok resp) ≡ err (external e))
        × (region_params_for region_params_try_from (ok resp)
            ≡ region_params region_params_try_from resp.message)
  unfolding poll_next verify is_active_sc config height get_config validators version
      region_params_for
  msg_verify-refuses region_params_try_from keyed_uri resp id owner forged =
      let refused = verified-forged resp forged in
      (
        rw (poll_next, verify, forged) refl,
        rw (is_active_sc, refused) refl,
        rw (config, get_config, refused) refl,
        rw (height, get_config, refused) refl,
        rw (validators, refused) refl,
        rw (version, refused) refl,
        refl,
      )

  poll_next-good :
      (resp : Signed (GatewayBody Q X V N))
      → msg_verify crypto encode resp uri.pubkey ≡ ok tt
      → poll_next crypto encode uri (some (ok resp)) ≡ some (ok resp)
  unfolding poll_next verify
  poll_next-good resp good = rw (poll_next, verify, good) refl

  module _ {G : Type 0} (region_params_try_from : X → Result (GatewayError E) G)
      (keyed_uri : N → Result (GatewayError E) (KeyedUri U P)) where
    -- What the program makes of an answer, by its message: the call that such an answer belongs to gives its
    -- content, and of the messages of the streams, what is read of the message that the stream yields.
    abbrev pub Gives : Signed (GatewayBody Q X V N) → Msg Q X V N → Type 0
    Gives resp (is_active found) =
        is_active_sc crypto encode uri (ok resp) found.sc_id found.sc_owner ≡ ok found
    Gives resp (config_resp result) = config crypto encode uri (ok resp) ≡ ok result
    Gives resp (validators_resp result) =
        validators crypto encode uri keyed_uri (ok resp) ≡ collect keyed_uri result
    Gives resp (version_resp found) = version crypto encode uri (ok resp) ≡ ok found
    Gives resp (Msg.routing_streamed found) =
        routings region_params_try_from resp.message ≡ ok found
    Gives resp (Msg.region_params_streamed params) =
        region_params region_params_try_from resp.message ≡ region_params_try_from params
    Gives resp (Msg.region_params_resp params) =
        region_params_for region_params_try_from (ok resp) ≡ region_params_try_from params

    verified-Gives :
        (resp : Signed (GatewayBody Q X V N)) (msg : Msg Q X V N)
        → msg_verify crypto encode resp uri.pubkey ≡ ok tt
        → resp.message.msg ≡ some msg
        → Gives resp msg
    unfolding is_active_sc config get_config validators version routings region_params
        region_params_for
    verified-Gives resp (is_active found) good is_msg =
        rw
          (
            is_active_sc,
            verified-good resp good,
            is_msg,
            text_eq_refl found.sc_id,
            text_eq_refl found.sc_owner,
          )
          refl
    verified-Gives resp (config_resp result) good is_msg =
        rw (config, get_config, verified-good resp good, is_msg) refl
    verified-Gives resp (validators_resp result) good is_msg =
        rw (validators, verified-good resp good, is_msg) refl
    verified-Gives resp (version_resp found) good is_msg =
        rw (version, verified-good resp good, is_msg) refl
    verified-Gives resp (Msg.routing_streamed found) good is_msg = rw (routings, is_msg) refl
    verified-Gives resp (Msg.region_params_streamed params) good is_msg =
        rw (region_params, is_msg) refl
    verified-Gives resp (Msg.region_params_resp params) good is_msg =
        rw (region_params_for, region_params, is_msg) refl

    -- Where keys are sound, an answer is taken whose signature is that of the gateway's key on the answer
    -- without its signature: the stream yields it, the height is that of the answer, and the call that
    -- the message belongs to, that for the parameters of a region among them, gives its content; of a
    -- message of the streams, the routings or the parameters are those of the message.
    pub msg_verify-accepts :
        (key : K) (body : GatewayBody Q X V N) (msg : Msg Q X V N) (signature : List ℕ)
        → Sound crypto
        → uri.pubkey ≡ crypto.public_key key
        → crypto.sign key (encode (record { message = body; signature = [] })) ≡ ok signature
        → body.msg ≡ some msg
        → (poll_next crypto encode uri
              (some (ok (record { message = body; signature = signature })))
            ≡ some (ok (record { message = body; signature = signature })))
          × (height crypto encode uri (ok (record { message = body; signature = signature }))
              ≡ ok (body.height, body.block_age))
          × Gives (record { message = body; signature = signature }) msg
    unfolding msg_verify height get_config
    msg_verify-accepts key body msg signature sound is_key signed is_msg =
        let resp : Signed (GatewayBody Q X V N) = record {
          message = body;
          signature = signature;
        } in
        let good : msg_verify crypto encode resp uri.pubkey ≡ ok tt =
          rw (msg_verify, is_key)
            (sound key (encode (record { message = body; signature = [] })) signature signed) in
        (
          poll_next-good resp good,
          rw (height, get_config, verified-good resp good) refl,
          verified-Gives resp msg good is_msg,
        )
