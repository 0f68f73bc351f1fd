-- ===== src/Router/Filter/Subnets.antt =====
-- Which device addresses the filter that is read from six bytes accepts.
use native.Mathlib.Nat.{mod-eq_of_lt}
use gateway_rs.Base.{
  ℕ, ◌+◌, ◌-◌, ◌*◌, ◌/◌, ◌%◌, ◌^◌, ◌≤◌, ◌<◌, ◌≡◌, ◌∙◌, ◌↔◌, ap, arith, List, length, some, true,
  false, bit_and, bit_xor, Bool-cases, inl, inr,
}
use gateway_rs.Base.Bits.{and_mask, and_mask_left, xor_mask}
use gateway_rs.Router.Filter.{
  DevAddrFilter, bits_23, bits_25, from_be_bytes, devaddr_from_bin, devaddr_contains,
}

devaddr_from_bin-eq :
    (bytes : List ℕ) (base mask : ℕ)
    → length bytes ≡ 6
    → base < 2 ^ 25
    → mask < 2 ^ 23
    → from_be_bytes 0 bytes ≡ base * 2 ^ 23 + mask
    → devaddr_from_bin bytes ≡ some (record { base = base; size = (2 ^ 23 - mask) * 4 })
unfolding devaddr_from_bin
devaddr_from_bin-eq bytes base mask six hb hm e =
    let low : bit_and (base * 2 ^ 23 + mask) bits_23 ≡ mask =
      and_mask 23 (base * 2 ^ 23 + mask) ∙ omega arith in
    let high : bit_and ((base * 2 ^ 23 + mask) / 2 ^ 23) bits_25 ≡ base =
      and_mask 25 ((base * 2 ^ 23 + mask) / 2 ^ 23) ∙ omega arith in
    let flipped : bit_xor mask bits_23 ≡ bits_23 - mask = xor_mask 23 mask hm in
    rw (six, e, low, high, flipped)
      (ap (λ (size : ℕ). some (record { base = base; size = size })) (omega arith))

module _ (bytes : List ℕ) (base mask : ℕ) (six : length bytes ≡ 6) (base_fits : base < 2 ^ 25)
    (mask_fits : mask < 2 ^ 23) (e : from_be_bytes 0 bytes ≡ base * 2 ^ 23 + mask) where
  in_range :
      (d : ℕ)
      → (devaddr_contains (record { base = base; size = (2 ^ 23 - mask) * 4 }) d ≡ true)
        ↔ ((base ≤ d % 2 ^ 23) × (d % 2 ^ 23 < base + (2 ^ 23 - mask) * 4))
  unfolding devaddr_contains
  in_range d =
      rw
        (
          devaddr_contains,
          and_mask_left 23 d,
          mod-eq_of_lt {n = base + (2 ^ 23 - mask) * 4} {m = 2 ^ 32} (omega arith),
        )
        (ground arith)

  -- Six bytes that hold a base of 25 bits and a mask of 23 are read as a filter that accepts exactly
  -- the addresses whose low 23 bits lie in the range from the base on, of four addresses for each
  -- number from the mask up to 2 ^ 23.
  pub devaddr_contains-devaddr_from_bin :
      (filter : DevAddrFilter) × (devaddr_from_bin bytes ≡ some filter)
      × ((d : ℕ)
          → (devaddr_contains filter d ≡ true)
            ↔ ((base ≤ d % 2 ^ 23) × (d % 2 ^ 23 < base + (2 ^ 23 - mask) * 4)))
  unfolding devaddr_contains
  devaddr_contains-devaddr_from_bin =
      (_, devaddr_from_bin-eq bytes base mask six base_fits mask_fits e, λ d. in_range d)

  -- So a filter whose base needs more than 23 of its 25 bits accepts no address.
  pub devaddr_contains-high_base :
      2 ^ 23 ≤ base
      → (filter : DevAddrFilter) × (devaddr_from_bin bytes ≡ some filter)
        × ((d : ℕ) → devaddr_contains filter d ≡ false)
  devaddr_contains-high_base high =
      let (filter, read, range) = devaddr_contains-devaddr_from_bin in
      (
        filter,
        read,
        λ d. elim (Bool-cases (devaddr_contains filter d)) [
          | inl hit ↦ let (low, _) = (range d).0 hit in absurd (omega arith)
          | inr miss ↦ miss
        ],
      )
