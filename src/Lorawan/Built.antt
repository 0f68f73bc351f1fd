-- ===== src/Lorawan/Built.antt =====
-- Frames that the program builds, read back after they are written.
use gateway_rs.Base.{
  ℕ, ◌+◌, ◌-◌, ◌<◌, ◌≡◌, refl, arith, inl, inr, List, [], ◌++◌, length, length-append, append-nil,
  take-append, drop-append, Bool-cases, ok, err, none, some, ltb, if◌then◌else◌,
}
use gateway_rs.Lorawan.Header.{Direction, join_request, proprietary, mtype}
use gateway_rs.Lorawan.Wire.{fails, invalid_packet_size, LittleEndian, pure}
use gateway_rs.Lorawan.Frame.{
  JoinRequest, join_request_frame, proprietary_frame, frame_read, join_request_read,
  join_request_write,
}
use gateway_rs.Lorawan.Phy.{
  phy_proprietary, phy_read, phy_write, split_mic, split_off_mic, mic_write, check_size,
}
use gateway_rs.Lorawan.Phy.Sizes.{GoodSize-check_size}
use gateway_rs.Lorawan.Phy.Steps.{mtype-phy_proprietary, phy_read-accept, phy_read-refuse}
use gateway_rs.Lorawan.Consume.{read-step}
use gateway_rs.Lorawan.Joins.{JoinRequestFits, join_request-read-write, length-join_request_write}

-- `split_off` of a mic that was put behind the body.
split_off_mic-append :
    (body mic : List ℕ) → length mic ≡ 4 → split_off_mic (body ++ mic) ≡ ok (body, some mic)
unfolding split_off_mic
split_off_mic-append body mic n = ground (
  arith,
  length-append body mic,
  take-append (length (body ++ mic) - 4) body mic (omega (arith, length-append body mic)),
  drop-append (length (body ++ mic) - 4) body mic (omega (arith, length-append body mic)),
)

check_size-short :
    (n : ℕ) → n < 12 → check_size proprietary n ≡ err (fails (invalid_packet_size proprietary n))
unfolding check_size
check_size-short n h = ground arith

module _ ⦃le : LittleEndian⦄ where
  -- A proprietary frame of eleven bytes or more is read back as it was built, in either direction;
  -- a shorter one is refused for its size.
  pub phy_read-phy_proprietary :
      (dir : Direction) (bytes : List ℕ)
      → phy_read dir (phy_write (phy_proprietary bytes)).bytes ≡ (
          if ltb (length bytes) 11
          then err (fails (invalid_packet_size proprietary (length bytes + 1)))
          else ok (phy_proprietary bytes))
  unfolding phy_write phy_proprietary
  phy_read-phy_proprietary dir bytes = rw append-nil (elim (Bool-cases (ltb (length bytes) 11)) [
    | inl short ↦ rw short (
        phy_read-refuse dir _ bytes (mtype-phy_proprietary bytes)
          (check_size-short (length bytes + 1) (ground arith)))
    | inr long ↦ rw long (
        phy_read-accept dir _ bytes (mtype-phy_proprietary bytes) bytes [] none
          (proprietary_frame bytes)
          (GoodSize-check_size proprietary (length bytes + 1) (ground arith))
          (unfold split_mic in refl) (unfold frame_read in refl))
  ])

  join_frame :
      (dir : Direction) (j : JoinRequest) (body : List ℕ)
      → join_request_read body ≡ ok (j, [])
      → frame_read dir join_request body ≡ ok (join_request_frame j, [])
  unfolding frame_read
  join_frame dir j body h =
      read-step join_request_read (λ r. pure (join_request_frame r)) {bytes = body} h

  -- A join request whose fields fit is read back as it was written.
  pub phy_read-phy_write_join_request :
      (dir : Direction) (mhdr : ℕ) (j : JoinRequest) (mic : List ℕ)
      → mtype mhdr ≡ join_request
      → JoinRequestFits j
      → length mic ≡ 4
      → phy_read dir
          (phy_write (record { mhdr = mhdr; payload = join_request_frame j; mic = some mic })).bytes
        ≡ ok (record { mhdr = mhdr; payload = join_request_frame j; mic = some mic })
  unfolding phy_write mic_write
  phy_read-phy_write_join_request dir mhdr j mic t f n =
      phy_read-accept dir mhdr (w ++ mic) t w [] (some mic) (join_request_frame j)
        (GoodSize-check_size join_request (length (w ++ mic) + 1)
          (omega (arith, length-append w mic, length-join_request_write j f.nonce_fits)))
        (unfold split_mic in split_off_mic-append w mic n)
        (join_frame dir j w (rw append-nil at (join_request-read-write j [] f)))
    where
      w : List ℕ
      w = (join_request_write j).bytes
