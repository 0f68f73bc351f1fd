-- ===== src/Router/Filter.antt =====
-- src/router/filter.rs. The crates `xorf` and `xxhash_rust` are parameters, and `none` is a panic
-- of `bytes::Buf` or of `copy_from_slice`.
pub mod Subnets
use gateway_rs.Base.{
  ℕ, zero, suc, ◌+◌, ◌*◌, ◌/◌, ◌%◌, ◌^◌, bit_and, bit_xor, Bool, ◌&&◌, Option, none, some, List, [],
  ◌∷◌, ◌++◌, length, take, drop, leb, ltb, ◌==◌, if◌then◌else◌,
}
use gateway_rs.Lorawan.Wire.{LittleEndian}
use gateway_rs.Lorawan.Subnet.{u32}

pub record Eui : Type 0 where
  pub deveui : ℕ
  pub appeui : ℕ

pub record Xor16 : Type 0 where
  pub seed : ℕ
  pub block_length : ℕ
  pub fingerprints : List ℕ

-- The two functions of the crates that the filter of device identifiers calls.
pub record Hashing : Type 0 where
  pub xor16_contains : Xor16 → ℕ → Bool
  pub xxh64 : List ℕ → ℕ

pub record DevAddrFilter : Type 0 where
  pub base : ℕ
  pub size : ℕ

abbrev pub bits_23 : ℕ
bits_23 = 8388607

abbrev pub bits_25 : ℕ
bits_25 = 33554431

abbrev pub then_some {ℓ κ} : {A : Type ℓ} {B : Type κ} → Option A → (A → Option B) → Option B
then_some none f = none
then_some (some a) f = f a

module _ ⦃le : LittleEndian⦄ where
  -- `Buf::get_u16_le` and `Buf::get_u64_le`
  abbrev pub get_le : ℕ → List ℕ → Option (ℕ × List ℕ)
  get_le width buf =
      if ltb (length buf) width then none else some (le.get (take width buf), drop width buf)

  unfoldable pub get_fingerprints : ℕ → List ℕ → Option (List ℕ)
  get_fingerprints zero buf = some []
  get_fingerprints (suc count) buf =
      then_some (get_le 2 buf)
        λ (value, rest). then_some (get_fingerprints count rest) λ values. some (value ∷ values)

  unfoldable pub eui_from_bin : List ℕ → Option Xor16
  eui_from_bin bytes = then_some (get_le 8 bytes) λ (seed, buf).
      then_some (get_le 8 buf) λ (block_length, buf).
        then_some (get_fingerprints ((block_length * 3) % 2 ^ 64) buf) λ filters.
          some (record { seed = seed; block_length = block_length; fingerprints = filters })

  unfoldable pub eui_contains : ⦃h : Hashing⦄ → Xor16 → Eui → Bool
  eui_contains ⦃h⦄ filter eui =
      h.xor16_contains filter (h.xxh64 (le.put 8 eui.deveui ++ le.put 8 eui.appeui))

-- `u64::from_be_bytes`
abbrev pub from_be_bytes : ℕ → List ℕ → ℕ
from_be_bytes high [] = high
from_be_bytes high (b ∷ rest) = from_be_bytes (high * 256 + b) rest

unfoldable pub devaddr_from_bin : List ℕ → Option DevAddrFilter
devaddr_from_bin bytes =
    if length bytes == 6
    then (let val = from_be_bytes 0 (0 ∷ 0 ∷ bytes) in
        let mask = bit_and val bits_23 in
        some (record {
          base = bit_and (val / 2 ^ 23) bits_25;
          size = u32 (u32 (bit_xor mask bits_23 * 2 ^ 2) + 0b11 + 1);
        }))
    else none

unfoldable pub devaddr_contains : DevAddrFilter → ℕ → Bool
devaddr_contains filter devaddr =
    let addr_base = bit_and bits_23 devaddr in
    leb filter.base addr_base && ltb addr_base (u32 (filter.base + filter.size))
