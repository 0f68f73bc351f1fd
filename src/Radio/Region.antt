-- ===== src/Radio/Region.antt =====
-- src/region.rs: the power limits. A `Decimal` with one place is a number of tenths.
pub mod Power
pub mod Names
use gateway_rs.Base.{
  ℕ, ◌+◌, ◌-◌, ◌/◌, ◌^◌, List, [], ◌∷◌, Option, none, some, Result, ok, err, leb, ltb,
  if◌then◌else◌,
}

pub data Tenths : Type 0 where
  plus : ℕ → Tenths
  minus : ℕ → Tenths

-- `BlockchainRegionParamV1`, as far as it is read: the channel and its limit in tenths.
pub record RegionParam : Type 0 where
  pub channel_frequency : ℕ
  pub max_eirp : ℕ

-- `R` is the type of regions.
pub record RegionParams (R : Type 0) : Type 0 where
  pub gain : Tenths
  pub region : R
  pub params : List RegionParam

pub data RegionError : Type 0 where
  unsupported_region : ℕ → RegionError
  no_region_params : RegionError

-- Both conversions from a response: the number of the region, its parameters and the gain.
unfoldable pub region_params_try_from :
    {R : Type 0}
    → (ℕ → Option R)
    → ℕ
    → Option (List RegionParam)
    → Tenths
    → Result RegionError (RegionParams R)
region_params_try_from from_i32 number params gain = elim (from_i32 number) [
  | none ↦ err (unsupported_region number)
  | some region ↦ elim params [
    | none ↦ err no_region_params
    | some region_params ↦ ok (record { gain = gain; region = region; params = region_params })
  ]
]

-- `max_by_key`, which goes through the list with the greatest value so far.
unfoldable pub max_from : ℕ → List RegionParam → ℕ
max_from m [] = m
max_from m (p ∷ ps) = max_from (if leb m p.max_eirp then p.max_eirp else m) ps

unfoldable pub greatest : List RegionParam → Option ℕ
greatest [] = none
greatest (p ∷ ps) = some (max_from p.max_eirp ps)

unfoldable pub max_eirp : {R : Type 0} → RegionParams R → Option ℕ
max_eirp self = greatest self.params

unfoldable pub subtract : ℕ → Tenths → Tenths
subtract a (plus b) = if leb b a then plus (a - b) else minus (b - a)
subtract a (minus b) = plus (a + b)

-- `trunc().to_u32()`; the answer of the crate for a negative number is a parameter.
unfoldable pub to_u32 : (ℕ → Option ℕ) → Tenths → Option ℕ
to_u32 negative (plus n) = if ltb (n / 10) (2 ^ 32) then some (n / 10) else none
to_u32 negative (minus n) = negative n

unfoldable pub tx_power : {R : Type 0} → (ℕ → Option ℕ) → RegionParams R → Option ℕ
tx_power negative self = elim (max_eirp self) [
  | none ↦ none
  | some limit ↦ to_u32 negative (subtract limit self.gain)
]
