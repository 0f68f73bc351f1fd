-- ===== src/Base/Bits.antt =====
-- `|` of disjoint fields and `&` with a low mask, as arithmetic, at every width.
mod Step
use Step.{or_round, and_round, xor_round}
use Prim.Native.Nat.{
  ℕ, zero, suc, ◌+◌, ◌-◌, ◌*◌, ◌/◌, ◌%◌, ◌^◌, ◌≤◌, ◌<◌, bit_and, bit_and-bitwise, bit_or,
  bit_or-bitwise, bit_xor, differ,
}
use mathlib.Core.Path.{◌≡◌, refl, ap}
use native.Mathlib.Nat.{pow-suc, one-le-pow}
use native.Mathlib.Omega.{arith}

or_none_below : (bound x : ℕ) → x ≤ bound → bit_or x 0 ≡ x
or_none_below bound zero small = refl
or_none_below zero (suc x) small = absurd (omega arith)
or_none_below (suc bound) (suc x) small =
    omega (arith, or_round 0 (suc x), or_none_below bound (suc x / 2) (omega arith))

and_none_below : (bound x : ℕ) → x ≤ bound → bit_and x 0 ≡ 0
and_none_below bound zero small = refl
and_none_below zero (suc x) small = absurd (omega arith)
and_none_below (suc bound) (suc x) small =
    omega (arith, and_round 0 (suc x), and_none_below bound (suc x / 2) (omega arith))

-- A field of one more bit is twice as far up.
double : (high w : ℕ) → high * 2 ^ suc w ≡ high * 2 ^ w + high * 2 ^ w
double high w = omega (arith, ap (λ (t : ℕ). high * t) (pow-suc 2 w))

-- `(high << w) | low` is a sum when `low` has `w` bits.
pub or_fields : (w high low : ℕ) → low < 2 ^ w → bit_or (high * 2 ^ w) low ≡ high * 2 ^ w + low
or_fields zero high low fits = ground (arith, or_none_below high high)
or_fields (suc w) high low fits = ground (
  arith,
  double high w,
  or_round low (high * 2 ^ suc w),
  or_fields w high (low / 2) (omega arith),
)

and_fields : (w high low : ℕ) → low < 2 ^ w → bit_and (high * 2 ^ w + low) (2 ^ w - 1) ≡ low
and_fields zero high low fits =
    rw (and_none_below (high * 2 ^ 0 + low) (high * 2 ^ 0 + low) (omega arith)) (omega arith)
and_fields (suc w) high low fits = ground (
  arith,
  double high w,
  pow-suc 2 w,
  and_round (2 ^ suc w - 1) (high * 2 ^ suc w + low),
  and_fields w high (low / 2) (omega arith),
)

-- A mask of `w` ones is the remainder by `2 ^ w`.
pub and_mask : (w x : ℕ) → bit_and x (2 ^ w - 1) ≡ x % 2 ^ w
and_mask w x = ground (arith, one-le-pow w 2, and_fields w (x / 2 ^ w) (x % 2 ^ w))

-- The same with the fields the other way round.
pub or_fields_right :
    (w high low : ℕ) → low < 2 ^ w → bit_or low (high * 2 ^ w) ≡ high * 2 ^ w + low
or_fields_right zero high zero fits = omega (arith, bit_or-bitwise 0 (high * 2 ^ 0))
or_fields_right zero high (suc low) fits = absurd (omega arith)
or_fields_right (suc w) high low fits = ground (
  arith,
  double high w,
  or_round (high * 2 ^ suc w) low,
  or_fields_right w high (low / 2) (omega arith),
)

differ_one : (x : ℕ) → x < 2 → differ x 1 ≡ 1 - x
differ_one zero h = refl
differ_one (suc zero) h = refl
differ_one (suc (suc x)) h = absurd (omega arith)

-- `^` with a mask of `w` ones is the complement in `w` bits.
pub xor_mask : (w x : ℕ) → x < 2 ^ w → bit_xor x (2 ^ w - 1) ≡ 2 ^ w - 1 - x
xor_mask zero zero h = refl
xor_mask zero (suc x) h = absurd (omega arith)
xor_mask (suc w) x h =
    let one : (2 ^ suc w - 1) % 2 ≡ 1 = omega (arith, pow-suc 2 w, one-le-pow w 2) in
    let half : (2 ^ suc w - 1) / 2 ≡ 2 ^ w - 1 = omega (arith, pow-suc 2 w, one-le-pow w 2) in
    rw (xor_round (2 ^ suc w - 1) x, one, half, differ_one (x % 2) (omega arith))
      (omega (arith, pow-suc 2 w, one-le-pow w 2, xor_mask w (x / 2) (omega (arith, pow-suc 2 w))))

and_fields_left : (w high low : ℕ) → low < 2 ^ w → bit_and (2 ^ w - 1) (high * 2 ^ w + low) ≡ low
and_fields_left zero high low fits = omega (arith, bit_and-bitwise 0 (high * 2 ^ 0 + low))
and_fields_left (suc w) high low fits =
    let one : (2 ^ suc w - 1) % 2 ≡ 1 = omega (arith, pow-suc 2 w, one-le-pow w 2) in
    let half : (2 ^ suc w - 1) / 2 ≡ 2 ^ w - 1 = omega (arith, pow-suc 2 w, one-le-pow w 2) in
    ground (
      arith,
      one,
      half,
      double high w,
      pow-suc 2 w,
      and_round (high * 2 ^ suc w + low) (2 ^ suc w - 1),
      and_fields_left w high (low / 2) (omega (arith, pow-suc 2 w)),
    )

-- The same with the mask on the left.
pub and_mask_left : (w x : ℕ) → bit_and (2 ^ w - 1) x ≡ x % 2 ^ w
and_mask_left w x = ground (arith, one-le-pow w 2, and_fields_left w (x / 2 ^ w) (x % 2 ^ w))
