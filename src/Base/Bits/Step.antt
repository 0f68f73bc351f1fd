-- ===== src/Base/Bits/Step.antt =====
-- One round of the digit recursion behind the native `|` and `&`.
use Prim.Native.Nat.{
  ℕ, zero, suc, ◌+◌, ◌*◌, ◌/◌, ◌%◌, ◌≤◌, min, max, digits, bit_and, bit_or, bit_and-bitwise,
  bit_or-bitwise, bit_xor, bit_xor-bitwise, differ,
}
use mathlib.Core.Path.{◌≡◌, refl, ap}
use native.Mathlib.Omega.{arith}

-- Any count of rounds that covers the number gives the same digits.
module _ (rest : ℕ → ℕ) (digit : ℕ → ℕ → ℕ) where
  rounds :
      (x y m : ℕ) {n : ℕ}
      → m ≤ x
      → m ≤ n
      → (z : ℕ) → z ≡ y
      → digits rest digit x m z ≡ digits rest digit n m y
  rounds zero y zero {n = zero} p q z e = ap rest e
  rounds zero y zero {n = suc n} p q z e = ap rest e
  rounds zero y (suc m) p q z e = absurd (omega arith)
  rounds (suc x) y zero {n = zero} p q z e = ap rest e
  rounds (suc x) y zero {n = suc n} p q z e = ap rest e
  rounds (suc x) y (suc m) {n = zero} p q z e = absurd (omega arith)
  rounds (suc x) y (suc m) {n = suc n} p q z e =
      rw (e, rounds x (y / 2) (suc m / 2) {n = n} (omega arith) (omega arith) (y / 2) refl)

pub or_round : (y x : ℕ) → bit_or x y ≡ max (x % 2) (y % 2) + 2 * bit_or (x / 2) (y / 2)
or_round y zero = simp bit_or-bitwise (omega arith)
or_round y (suc x) = omega (
  arith,
  bit_or-bitwise (suc x) y,
  bit_or-bitwise (suc x / 2) (y / 2),
  rounds (λ d. d) max x (y / 2) (suc x / 2) {n = suc x / 2} (omega arith) (omega arith) (y / 2)
      refl,
)

pub and_round : (y x : ℕ) → bit_and x y ≡ min (x % 2) (y % 2) + 2 * bit_and (x / 2) (y / 2)
and_round y zero = simp bit_and-bitwise (omega arith)
and_round y (suc x) = omega (
  arith,
  bit_and-bitwise (suc x) y,
  bit_and-bitwise (suc x / 2) (y / 2),
  rounds (λ d. 0) min x (y / 2) (suc x / 2) {n = suc x / 2} (omega arith) (omega arith) (y / 2)
      refl,
)

pub xor_round : (y x : ℕ) → bit_xor x y ≡ differ (x % 2) (y % 2) + 2 * bit_xor (x / 2) (y / 2)
xor_round y zero = simp bit_xor-bitwise (omega arith)
xor_round y (suc x) = omega (
  arith,
  bit_xor-bitwise (suc x) y,
  bit_xor-bitwise (suc x / 2) (y / 2),
  rounds (λ d. d) differ x (y / 2) (suc x / 2) {n = suc x / 2} (omega arith) (omega arith) (y / 2)
      refl,
)
