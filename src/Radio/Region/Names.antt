-- ===== src/Radio/Region/Names.antt =====
-- src/region.rs: the numbers and the texts of regions. The type of regions and its parsers are those of the
-- crate `helium_proto`.
use gateway_rs.Base.{ℕ, ◌≡◌, refl, Option, none, some, Result, ok, err, ◌++◌, Text, text}
use gateway_rs.Radio.Region.{RegionParams}

-- `ProtoRegion`: its numbers and its texts; a number is printed in decimal.
pub record ProtoRegion (R : Type 0) : Type 0 where
  pub from_i32 : ℕ → Option R
  pub to_i32 : R → ℕ
  pub parse_region : Text → Option R
  pub region_text : R → Text
  pub number_text : ℕ → Text
  pub from_to : (r : R) → from_i32 (to_i32 r) ≡ some r

module _ {R : Type 0} (proto : ProtoRegion R) where
  -- `Region::from_i32`, with the text of its error.
  unfoldable pub region_from_i32 : ℕ → Result Text R
  region_from_i32 v = elim (proto.from_i32 v) [
    | none ↦ err (text "unsupported region " ++ proto.number_text v)
    | some region ↦ ok region
  ]

  -- Both conversions to `i32`.
  unfoldable pub region_to_i32 : R → ℕ
  region_to_i32 region = proto.to_i32 region

  -- `visit_str`, of the settings.
  unfoldable pub visit_region : Text → Result Text R
  visit_region value = elim (proto.parse_region value) [
    | none ↦ err (text "unsupported region: " ++ value)
    | some region ↦ ok region
  ]

  -- `Display`, of the log and of the local API.
  unfoldable pub region_display : R → Text
  region_display region = proto.region_text region

  -- `RegionParams::to_string`
  unfoldable pub region_params_text : Option (RegionParams R) → Text
  region_params_text none = text "none"
  region_params_text (some params) = region_display params.region

  -- A region comes back from its number.
  pub region_from_i32-region_to_i32 : (r : R) → region_from_i32 (region_to_i32 r) ≡ ok r
  unfolding region_from_i32 region_to_i32
  region_from_i32-region_to_i32 r = rw (region_from_i32, region_to_i32, proto.from_to r) refl
