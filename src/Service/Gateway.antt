-- ===== src/Service/Gateway.antt =====
-- src/service/gateway.rs: what the program makes of the answers of a gateway. The answer of each remote
-- call is an argument: an error, or a message with its signature.
use gateway_rs.Base.{
  ℕ, Bool, ◌&&◌, List, [], ◌∷◌, Option, none, some, Result, ok, err, ◌>>=◌, ◌>>◌, if◌then◌else◌,
  Text, text, text_eq,
}
use gateway_rs.Router.Routing.{KeyedUri}
use gateway_rs.Account.Keys.{Crypto, Signed, msg_verify}

pub record IsActiveResp : Type 0 where
  pub sc_id : List ℕ
  pub sc_owner : List ℕ
  pub active : Bool

-- The messages of a gateway, of routings `Q`, region parameters `X`, variables `V` and nodes `N`.
pub data Msg (Q X V N : Type 0) : Type 0 where
  routing_streamed : List Q → Msg Q X V N
  region_params_streamed : X → Msg Q X V N
  region_params_resp : X → Msg Q X V N
  is_active : IsActiveResp → Msg Q X V N
  config_resp : List V → Msg Q X V N
  validators_resp : List N → Msg Q X V N
  version_resp : ℕ → Msg Q X V N

pub record GatewayBody (Q X V N : Type 0) : Type 0 where
  pub height : ℕ
  pub block_age : ℕ
  pub msg : Option (Msg Q X V N)

-- An error of the call or of the crates, or one of the program's own.
pub data GatewayError (E : Type 0) : Type 0 where
  external : E → GatewayError E
  custom : Text → GatewayError E

abbrev from_external {ℓ} : {E : Type 0} {A : Type ℓ} → Result E A → Result (GatewayError E) A
from_external (ok a) = ok a
from_external (err e) = err (external e)

-- `into_iter().map(..).collect()`
abbrev pub collect : {E A B : Type 0} → (A → Result E B) → List A → Result E (List B)
collect f [] = ok []
collect f (x ∷ xs) = f x >>= (λ y. collect f xs >>= (λ ys. ok (y ∷ ys)))

-- The slice's `choose` is a parameter.
unfoldable pub select_seed :
    {E U P : Type 0}
    → (List (KeyedUri U P) → Option (KeyedUri U P))
    → List (KeyedUri U P)
    → Result (GatewayError E) (KeyedUri U P)
select_seed choose seed_uris = elim (choose seed_uris) [
  | none ↦ err (custom (text "empty uri list"))
  | some uri ↦ ok uri
]

-- What comes first: the validators, or the cancellation.
unfoldable pub random_new :
    {E U P : Type 0}
    → (List (KeyedUri U P) → Option (KeyedUri U P))
    → Option (Result (GatewayError E) (List (KeyedUri U P)))
    → Result (GatewayError E) (Option (KeyedUri U P))
random_new choose none = ok none
random_new choose (some (err e)) = err e
random_new choose (some (ok gateways)) = elim (choose gateways) [
  | none ↦ err (custom (text "empty gateway list"))
  | some uri ↦ ok (some uri)
]

module _ {E Q X V N G : Type 0} (region_params_try_from : X → Result (GatewayError E) G) where
  unfoldable pub routings : GatewayBody Q X V N → Result (GatewayError E) (List Q)
  routings self = elim self.msg [
    | some (routing_streamed found) ↦ ok found
    | _ ↦ err (custom (text "Unexpected gateway message"))
  ]

  unfoldable pub region_params : GatewayBody Q X V N → Result (GatewayError E) G
  region_params self = elim self.msg [
    | some (region_params_streamed params) ↦ region_params_try_from params
    | some (region_params_resp params) ↦ region_params_try_from params
    | _ ↦ err (custom (text "Unexpected gateway message"))
  ]

  -- The answer is not verified.
  unfoldable pub region_params_for :
      Result E (Signed (GatewayBody Q X V N)) → Result (GatewayError E) G
  region_params_for answer = from_external answer >>= (λ resp. region_params resp.message)

module _ {E K P U Q X V N : Type 0} (crypto : Crypto E K P)
    (encode : Signed (GatewayBody Q X V N) → List ℕ) (uri : KeyedUri U P) where
  unfoldable pub verify : Signed (GatewayBody Q X V N) → Result (GatewayError E) (Unit {0})
  verify resp = from_external (msg_verify crypto encode resp uri.pubkey)

  -- An item of a stream that is ready.
  unfoldable pub poll_next :
      Option (Result E (Signed (GatewayBody Q X V N)))
      → Option (Result (GatewayError E) (Signed (GatewayBody Q X V N)))
  poll_next (some (ok response)) = some (verify response >> ok response)
  poll_next (some (err e)) = some (err (external e))
  poll_next none = none

  -- The answer of a call that is verified.
  unfoldable pub verified :
      Result E (Signed (GatewayBody Q X V N))
      → Result (GatewayError E) (Signed (GatewayBody Q X V N))
  verified answer = from_external answer >>= (λ resp. verify resp >> ok resp)

  unfoldable pub is_active_sc :
      Result E (Signed (GatewayBody Q X V N))
      → List ℕ
      → List ℕ
      → Result (GatewayError E) IsActiveResp
  is_active_sc answer id owner = verified answer >>= (λ resp. elim resp.message.msg [
    | some (is_active found) ↦
        if text_eq found.sc_id id && text_eq found.sc_owner owner
        then ok found
        else err (custom (text "mismatched state channel id and owner"))
    | some _ ↦ err (custom (text "invalid is_active response"))
    | none ↦ err (custom (text "empty is_active response"))
  ])

  unfoldable pub get_config :
      Result E (Signed (GatewayBody Q X V N))
      → Result (GatewayError E) (Signed (GatewayBody Q X V N))
  get_config answer = verified answer

  unfoldable pub config : Result E (Signed (GatewayBody Q X V N)) → Result (GatewayError E) (List V)
  config answer = get_config answer >>= (λ resp. elim resp.message.msg [
    | some (config_resp result) ↦ ok result
    | some _ ↦ err (custom (text "invalid config response"))
    | none ↦ err (custom (text "empty config response"))
  ])

  unfoldable pub height : Result E (Signed (GatewayBody Q X V N)) → Result (GatewayError E) (ℕ × ℕ)
  height answer = get_config answer >>= (λ resp. ok (resp.message.height, resp.message.block_age))

  unfoldable pub validators :
      (N → Result (GatewayError E) (KeyedUri U P))
      → Result E (Signed (GatewayBody Q X V N))
      → Result (GatewayError E) (List (KeyedUri U P))
  validators keyed_uri answer = verified answer >>= (λ resp. elim resp.message.msg [
    | some (validators_resp result) ↦ collect keyed_uri result
    | some _ ↦ err (custom (text "invalid validator response"))
    | none ↦ err (custom (text "empty validator response"))
  ])

  unfoldable pub version : Result E (Signed (GatewayBody Q X V N)) → Result (GatewayError E) ℕ
  version answer = verified answer >>= (λ resp. elim resp.message.msg [
    | some (version_resp found) ↦ ok found
    | some _ ↦ err (custom (text "invalid validator response"))
    | none ↦ err (custom (text "empty version response"))
  ])
