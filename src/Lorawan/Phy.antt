-- ===== src/Lorawan/Phy.antt =====
-- lorawan/src/lib.rs, `PHYPayload`: a whole frame, read from and written to bytes.
pub mod Sizes
pub mod Steps
use gateway_rs.Base.{
  ℕ, ◌+◌, ◌-◌, List, [], ◌∷◌, length, take, drop, Option, none, some, Bool, false, not, ◌&&◌,
  Result, ok, err, ◌>>=◌, ◌>>◌, ltb, ◌==◌, if◌then◌else◌,
}
use gateway_rs.Lorawan.Header.{
  Direction, MType, join_request, join_accept, proprietary, invalid, mtype, set_mtype,
}
use gateway_rs.Lorawan.Wire.{
  Failure, fails, panics, invalid_packet_type, invalid_packet_size, LittleEndian, Written, put, ◌&◌,
  nothing, read_u8,
}
use gateway_rs.Lorawan.Frame.{PhyPayloadFrame, proprietary_frame, frame_read, frame_write}

pub record PhyPayload : Type 0 where
  pub mhdr : ℕ
  pub payload : PhyPayloadFrame
  pub mic : Option (List ℕ)

abbrev pub join_request_len : ℕ
join_request_len = 23

abbrev pub join_accept_len : ℕ
join_accept_len = 17

abbrev pub join_accept_with_cflist_len : ℕ
join_accept_with_cflist_len = 33

abbrev pub data_min_len : ℕ
data_min_len = 12

unfoldable pub phy_proprietary : List ℕ → PhyPayload
unfolding set_mtype
phy_proprietary payload = record {
  mhdr = set_mtype 0 proprietary;
  payload = proprietary_frame payload;
  mic = none;
}

-- The `match` that gives `invalid`.
unfoldable pub invalid_size : MType → ℕ → Bool
invalid_size join_request n = not (n == join_request_len)
invalid_size join_accept n = not (n == join_accept_len) && not (n == join_accept_with_cflist_len)
invalid_size (invalid s) n = false
invalid_size _ n = ltb n data_min_len

unfoldable pub check_type : MType → Result Failure (Unit {0})
check_type (invalid s) = err (fails (invalid_packet_type s))
check_type _ = ok tt

unfoldable pub check_size : MType → ℕ → Result Failure (Unit {0})
unfolding invalid_size check_type
check_size t n = if invalid_size t n then err (fails (invalid_packet_size t n)) else check_type t

-- `split_off` panics past the end.
unfoldable pub split_off_mic : List ℕ → Result Failure (List ℕ × Option (List ℕ))
split_off_mic bytes =
    if ltb (length bytes) 4
    then err panics
    else ok (take (length bytes - 4) bytes, some (drop (length bytes - 4) bytes))

-- The body and the mic: a proprietary frame has no mic.
unfoldable pub split_mic : MType → List ℕ → Result Failure (List ℕ × Option (List ℕ))
unfolding split_off_mic
split_mic proprietary bytes = ok (bytes, none)
split_mic _ bytes = split_off_mic bytes

unfoldable pub mic_write : Option (List ℕ) → Written
mic_write none = nothing
mic_write (some mic) = put mic

module _ ⦃le : LittleEndian⦄ where
  unfoldable pub phy_read : Direction → List ℕ → Result Failure PhyPayload
  phy_read dir bytes = do
    (mhdr, rest) ← read_u8 bytes
    check_size (mtype mhdr) (length rest + 1)
    (body, mic) ← split_mic (mtype mhdr) rest
    (payload, _) ← frame_read dir (mtype mhdr) body
    ok (record { mhdr = mhdr; payload = payload; mic = mic })

  unfoldable pub phy_write : PhyPayload → Written
  unfolding frame_write mic_write
  phy_write p = put (p.mhdr ∷ []) & frame_write p.payload & mic_write p.mic
