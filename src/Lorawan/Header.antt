-- ===== src/Lorawan/Header.antt =====
-- lorawan/src/lib.rs, the message type and the one-byte header. A byte is a number below 256.
use gateway_rs.Base.{ℕ, ◌+◌, ◌-◌, ◌*◌, ◌/◌, ◌%◌, ◌^◌, ◌<◌, ◌≡◌, ap, arith, ◌==◌, if◌then◌else◌}

pub data Direction : Type 0 where
  uplink downlink : Direction

pub data MType : Type 0 where
  join_request join_accept unconfirmed_up unconfirmed_down confirmed_up confirmed_down : MType
  proprietary : MType
  invalid : ℕ → MType

-- The two impls of `From` between `u8` and `MType`.
unfoldable pub mtype_from_u8 : ℕ → MType
mtype_from_u8 v =
    if v == 0b000
    then join_request
    else if v == 0b001
    then join_accept
    else if v == 0b010
    then unconfirmed_up
    else if v == 0b011
    then unconfirmed_down
    else if v == 0b100
    then confirmed_up
    else if v == 0b101
    then confirmed_down
    else if v == 0b111
    then proprietary
    else invalid v

unfoldable pub mtype_to_u8 : MType → ℕ
mtype_to_u8 join_request = 0b000
mtype_to_u8 join_accept = 0b001
mtype_to_u8 unconfirmed_up = 0b010
mtype_to_u8 unconfirmed_down = 0b011
mtype_to_u8 confirmed_up = 0b100
mtype_to_u8 confirmed_down = 0b101
mtype_to_u8 proprietary = 0b111
mtype_to_u8 (invalid v) = v

-- Bits `hi` to `lo` of a byte, as a `bitfield!` declaration names them.
abbrev pub bits : ℕ → ℕ → ℕ → ℕ
bits hi lo byte = byte / 2 ^ lo % 2 ^ (hi - lo + 1)

-- The byte with the low bits of `v` written there.
abbrev pub set_bits : ℕ → ℕ → ℕ → ℕ → ℕ
set_bits hi lo byte v = byte - bits hi lo byte * 2 ^ lo + v % 2 ^ (hi - lo + 1) * 2 ^ lo

-- `MHDR`, the fields of its `bitfield!` declaration.
unfoldable pub mtype : ℕ → MType
mtype mhdr = mtype_from_u8 (bits 7 5 mhdr)

unfoldable pub set_mtype : ℕ → MType → ℕ
set_mtype mhdr t = set_bits 7 5 mhdr (mtype_to_u8 t)

unfoldable pub major : ℕ → ℕ
major mhdr = bits 1 0 mhdr

-- Reading the type of a byte and writing it back changes no byte.
pub mtype_to_u8-from_u8 : (v : ℕ) → mtype_to_u8 (mtype_from_u8 v) ≡ v
unfolding mtype_to_u8 mtype_from_u8
mtype_to_u8-from_u8 v = ground arith

-- Setting the type of a header and reading it gives that type, for every type that three bits
-- can hold, and leaves the major version alone.
pub mtype-set_mtype :
    (mhdr v : ℕ)
    → mhdr < 256
    → v < 8
    → (mtype (set_mtype mhdr (mtype_from_u8 v)) ≡ mtype_from_u8 v)
      × (major (set_mtype mhdr (mtype_from_u8 v)) ≡ major mhdr)
      × (set_mtype mhdr (mtype_from_u8 v) < 256)
unfolding mtype set_mtype major
mtype-set_mtype mhdr v h hv = (
  ap mtype_from_u8 (omega (arith, mtype_to_u8-from_u8 v)),
  omega (arith, mtype_to_u8-from_u8 v),
  omega (arith, mtype_to_u8-from_u8 v),
)
