-- ===== src/Account/Modes.antt =====
-- src/settings.rs: the staking modes and the log methods, with their texts.
use gateway_rs.Base.{
  ◌≡◌, refl, ◌∙◌, ◌↔◌, arith, Option, none, some, if◌then◌else◌, Bool-cases, inl, inr, Text, text,
  text_eq, text_eq_iff, to_lowercase,
}

pub data StakingMode : Type 0 where
  data_only light full : StakingMode

-- The mode of the messages.
pub data GatewayStakingMode : Type 0 where
  dataonly_gateway full_gateway light_gateway : GatewayStakingMode

unfoldable pub mode_from_gateway : GatewayStakingMode → StakingMode
mode_from_gateway dataonly_gateway = data_only
mode_from_gateway full_gateway = full
mode_from_gateway light_gateway = light

unfoldable pub mode_to_gateway : StakingMode → GatewayStakingMode
mode_to_gateway data_only = dataonly_gateway
mode_to_gateway full = full_gateway
mode_to_gateway light = light_gateway

unfoldable pub mode_text : StakingMode → Text
mode_text data_only = text "dataonly"
mode_text full = text "full"
mode_text light = text "light"

unfoldable pub mode_of_lowercase : Text → Option StakingMode
mode_of_lowercase v =
    if text_eq v (text "light")
    then some light
    else if text_eq v (text "full")
    then some full
    else if text_eq v (text "dataonly")
    then some data_only
    else none

-- `none` is the error on a text that names no mode.
unfoldable pub mode_from_str : Text → Option StakingMode
mode_from_str v = mode_of_lowercase (to_lowercase v)

pub data LogMethod : Type 0 where
  stdio syslog : LogMethod

-- `visit_str`
unfoldable pub log_method_from_str : Text → Option LogMethod
log_method_from_str value =
    let method = to_lowercase value in
    if text_eq method (text "stdio")
    then some stdio
    else if text_eq method (text "syslog")
    then some syslog
    else none

pub mode_from_gateway-mode_to_gateway :
    (mode : StakingMode) → mode_from_gateway (mode_to_gateway mode) ≡ mode
unfolding mode_from_gateway mode_to_gateway
mode_from_gateway-mode_to_gateway data_only = refl
mode_from_gateway-mode_to_gateway light = refl
mode_from_gateway-mode_to_gateway full = refl

lowercase-mode_text :
    (v : Text) (mode : StakingMode) → v ≡ mode_text mode → mode_of_lowercase v ≡ some mode
unfolding mode_of_lowercase mode_text
lowercase-mode_text v data_only e = rw e refl
lowercase-mode_text v light e = rw e refl
lowercase-mode_text v full e = rw e refl

mode_text-lowercase :
    (v : Text) (mode : StakingMode) → mode_of_lowercase v ≡ some mode → v ≡ mode_text mode
unfolding mode_of_lowercase mode_text
mode_text-lowercase v mode h = elim (Bool-cases (text_eq v (text "light"))) [
  | inl a ↦ (text_eq_iff v (text "light")).0 a ∙ ground (arith, h, a)
  | inr na ↦ elim (Bool-cases (text_eq v (text "full"))) [
    | inl b ↦ (text_eq_iff v (text "full")).0 b ∙ ground (arith, h, na, b)
    | inr nb ↦ elim (Bool-cases (text_eq v (text "dataonly"))) [
      | inl c ↦ (text_eq_iff v (text "dataonly")).0 c ∙ ground (arith, h, na, nb, c)
      | inr nc ↦ absurd (ground (arith, h, na, nb, nc))
    ]
  ]
]

-- A text is read as a mode just when it is the name of the mode, in capital or small letters.
pub mode_from_str-mode_text :
    (v : Text) (mode : StakingMode)
    → (mode_from_str v ≡ some mode) ↔ (to_lowercase v ≡ mode_text mode)
unfolding mode_from_str
mode_from_str-mode_text v mode =
    (mode_text-lowercase (to_lowercase v) mode, lowercase-mode_text (to_lowercase v) mode)
