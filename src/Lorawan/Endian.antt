-- ===== src/Lorawan/Endian.antt =====
-- Little-endian bytes, as a value of `LittleEndian`: the laws asked of the crates can be met.
use gateway_rs.Base.{
  ℕ, zero, suc, ◌+◌, ◌*◌, ◌/◌, ◌%◌, ◌^◌, ◌<◌, ◌≡◌, refl, ap, ap₂, ◌∙◌, arith, List, [], ◌∷◌, length,
}
use native.Mathlib.Nat.{pow-suc}
use gateway_rs.Lorawan.Wire.{IsBytes, LittleEndian}

unfoldable pub get_le : List ℕ → ℕ
get_le [] = 0
get_le (b ∷ bs) = b + 256 * get_le bs

unfoldable pub put_le : ℕ → ℕ → List ℕ
put_le zero v = []
put_le (suc w) v = v % 256 ∷ put_le w (v / 256)

pub length-put_le : (w v : ℕ) → length (put_le w v) ≡ w
unfolding put_le
length-put_le zero v = refl
length-put_le (suc w) v = ap suc (length-put_le w (v / 256))

pub put_le-IsBytes : (w v : ℕ) → IsBytes (put_le w v)
unfolding put_le
put_le-IsBytes zero v = tt
put_le-IsBytes (suc w) v = (omega arith, put_le-IsBytes w (v / 256))

pub get_le-put_le : (w v : ℕ) → v < 256 ^ w → get_le (put_le w v) ≡ v
unfolding put_le get_le
get_le-put_le zero v h = omega arith
get_le-put_le (suc w) v h = omega (arith, get_le-put_le w (v / 256) (omega (arith, pow-suc 256 w)))

pub put_le-get_le : (bs : List ℕ) → IsBytes bs → put_le (length bs) (get_le bs) ≡ bs
unfolding put_le get_le
put_le-get_le [] h = refl
put_le-get_le (b ∷ bs) (hb, hbs) =
    ap₂ ◌∷◌ (omega arith) (ap (put_le (length bs)) (omega arith) ∙ put_le-get_le bs hbs)

pub get_le-lt : (bs : List ℕ) → IsBytes bs → get_le bs < 256 ^ length bs
unfolding get_le
get_le-lt [] h = omega arith
get_le-lt (b ∷ bs) (hb, hbs) = omega (arith, pow-suc 256 (length bs), get_le-lt bs hbs)

abbrev pub byteorder : LittleEndian
byteorder = record {
  get = get_le;
  put = put_le;
  length_put = length-put_le;
  put_bytes = put_le-IsBytes;
  get_put = get_le-put_le;
  put_get = put_le-get_le;
  get_bound = get_le-lt;
}
