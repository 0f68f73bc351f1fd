-- ===== src/Radio/Gateway.antt =====
-- src/gateway.rs: what the gateway sends to the packet forwarder. `C` is the type of the forwarder's
-- addresses; the answer of the forwarder to a message is a parameter.
pub mod Downlinks
pub mod Events
pub mod Powers
use gateway_rs.Base.{ℕ, Bool, true, false, List, [], ◌∷◌, ◌++◌, Option, none, some, Result, ok, err}
use gateway_rs.Lorawan.Wire.{LittleEndian}
use gateway_rs.Radio.Packet.{Packet, TxPk, PacketError, to_pull_resp}
use gateway_rs.Radio.Region.{RegionParams, tx_power}
use gateway_rs.Radio.Beacon.{Beacon, beacon_to_pull_resp}

-- The forwarder's answers that the gateway tells apart.
pub data Ack : Type 0 where
  sent too_early too_late other_error : Ack

pub record Gateway (R C : Type 0) : Type 0 where
  pub downlink_mac : C
  pub region_params : Option (RegionParams R)

-- The messages that are dispatched, in order, and whether the task panics, on an `unwrap`.
pub record Dispatched (N Q : Type 0) : Type 0 where
  pub messages : List (TxPk N Q)
  pub panics : Bool

abbrev pub finished : {N Q : Type 0} → List (TxPk N Q) → Dispatched N Q
finished messages = record { messages = messages; panics = false }

abbrev pub panicked : {N Q : Type 0} → List (TxPk N Q) → Dispatched N Q
panicked messages = record { messages = messages; panics = true }

module _ {N T Q : Type 0} (parse : T → Option Q) (ack : TxPk N Q → Ack) where
  -- The second window, after the first message came too early or too late.
  unfoldable pub retry : ℕ → Packet N T → TxPk N Q → Dispatched N Q
  retry power downlink first = elim (to_pull_resp parse true power downlink) [
    | err e ↦ panicked (first ∷ [])
    | ok none ↦ finished (first ∷ [])
    | ok (some second) ↦ finished (first ∷ second ∷ [])
  ]

  unfoldable pub dispatch_windows : ℕ → Packet N T → Dispatched N Q
  dispatch_windows power downlink = elim (to_pull_resp parse false power downlink) [
    | err e ↦ panicked []
    | ok none ↦ finished []
    | ok (some first) ↦ elim (ack first) [
      | sent ↦ finished (first ∷ [])
      | too_early ↦ retry power downlink first
      | too_late ↦ retry power downlink first
      | other_error ↦ finished (first ∷ [])
    ]
  ]

  unfoldable pub handle_downlink :
      {R C : Type 0} → (ℕ → Option ℕ) → Gateway R C → Packet N T → Dispatched N Q
  handle_downlink negative self downlink = elim self.region_params [
    | none ↦ finished []
    | some region_params ↦ elim (tx_power negative region_params) [
      | none ↦ finished []
      | some power ↦ dispatch_windows power downlink
    ]
  ]

unfoldable pub handle_transmit_beacon :
    ⦃le : LittleEndian⦄
    → {N Q R C : Type 0} → (ℕ → Option ℕ)
    → (ℕ → N)
    → Q
    → Gateway R C
    → Beacon
    → List (TxPk N Q)
handle_transmit_beacon negative to_mhz datarate self beacon = elim self.region_params [
  | none ↦ []
  | some region_params ↦ elim (tx_power negative region_params) [
    | none ↦ []
    | some power ↦ beacon_to_pull_resp to_mhz datarate beacon power ∷ []
  ]
]
