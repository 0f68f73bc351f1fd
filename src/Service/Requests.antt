-- ===== src/Service/Requests.antt =====
-- src/service/gateway.rs, src/service/router.rs, src/service/mod.rs: the connections and the requests to
-- gateways and routers. The client of a connection is a parameter.
use gateway_rs.Base.{ℕ, ◌≡◌, List, [], Result, ok, ◌>>=◌, >>=-eq-ok}
use gateway_rs.Account.Keys.{Crypto, Sound, Signed, msg_sign, msg_verify}
use gateway_rs.Router.Routing.{KeyedUri}

-- In seconds.
abbrev pub connect_timeout : ℕ
connect_timeout = 10

abbrev pub rpc_timeout : ℕ
rpc_timeout = 5

pub record Endpoint (U : Type 0) : Type 0 where
  pub uri : U
  pub timeout : ℕ
  pub connect_limit : ℕ

-- A service is a keyed uri with the client of its connection, which is made on the first call.
pub record Connected (U P C : Type 0) : Type 0 where
  pub keyed_uri : KeyedUri U P
  pub client : C

-- A stream of answers, with the key that verifies them.
pub record Streaming (P S : Type 0) : Type 0 where
  pub streaming : S
  pub verifier : P

pub record RegionParamsUpdateReq : Type 0 where
  pub address : List ℕ

pub record RegionParamsReq : Type 0 where
  pub address : List ℕ
  pub region : ℕ

module _ {U P C : Type 0} (connect_lazy : Endpoint U → C) where
  -- `GatewayService::new` and `RouterService::new`
  unfoldable pub gateway_service : KeyedUri U P → Connected U P C
  gateway_service keyed_uri = record {
    keyed_uri = keyed_uri;
    client =
        connect_lazy
          (record { uri = keyed_uri.uri; timeout = rpc_timeout; connect_limit = connect_timeout });
  }

  unfoldable pub router_service : KeyedUri U P → Connected U P C
  router_service keyed_uri = record {
    keyed_uri = keyed_uri;
    client =
        connect_lazy
          (record { uri = keyed_uri.uri; timeout = rpc_timeout; connect_limit = connect_timeout });
  }

module _ {E K P M : Type 0} (crypto : Crypto E K P) (encode : Signed M → List ℕ) where
  -- A request that is signed before it is sent.
  unfoldable pub signed_request : M → K → Result E (Signed M)
  signed_request request keypair =
      msg_sign crypto encode (record { message = request; signature = [] }) keypair
      >>= (λ signature. ok (record { message = request; signature = signature }))

  ok_injective : (a b : Signed M) → ◌≡◌ {A = Result E (Signed M)} (ok a) (ok b) → a ≡ b
  ok_injective a b h = cc

  -- The receiver verifies what was signed with the public key of the gateway.
  pub msg_verify-signed_request :
      (request : M) (keypair : K) (signed : Signed M)
      → Sound crypto
      → signed_request request keypair ≡ ok signed
      → msg_verify crypto encode signed (crypto.public_key keypair) ≡ ok tt
  unfolding signed_request msg_sign msg_verify
  msg_verify-signed_request request keypair signed sound h =
      let draft : Signed M = record { message = request; signature = [] } in
      let (signature, made, e) = >>=-eq-ok (msg_sign crypto encode draft keypair) _ h in
      rw (msg_verify, ← ok_injective (record { message = request; signature = signature }) signed e)
        (sound keypair (encode draft) signature made)

module _ {E K P : Type 0} (crypto : Crypto E K P) where
  unfoldable pub region_params_update_req :
      (Signed RegionParamsUpdateReq → List ℕ) → K → Result E (Signed RegionParamsUpdateReq)
  region_params_update_req encode keypair =
      signed_request crypto encode (record { address = crypto.to_vec (crypto.public_key keypair) })
        keypair

  unfoldable pub region_params_req :
      (Signed RegionParamsReq → List ℕ) → ℕ → K → Result E (Signed RegionParamsReq)
  region_params_req encode region keypair =
      signed_request crypto encode
        (record { address = crypto.to_vec (crypto.public_key keypair); region = region }) keypair

module _ {E U P C S : Type 0} where
  -- `GatewayService::routing` and `region_params`: the stream of an answer is verified by the key of the
  -- gateway that was asked.
  unfoldable pub routing_streaming :
      Connected U P C → (C → ℕ → Result E S) → ℕ → Result E (Streaming P S)
  routing_streaming self call height =
      call self.client height
      >>= (λ stream. ok (record { streaming = stream; verifier = self.keyed_uri.pubkey }))

  unfoldable pub region_params_streaming :
      {K : Type 0}
      → Crypto E K P
      → (Signed RegionParamsUpdateReq → List ℕ)
      → Connected U P C
      → (C → Signed RegionParamsUpdateReq → Result E S)
      → K
      → Result E (Streaming P S)
  region_params_streaming crypto encode self call keypair =
      region_params_update_req crypto encode keypair >>= (λ req.
        call self.client req
        >>= (λ stream. ok (record { streaming = stream; verifier = self.keyed_uri.pubkey })))
