-- ===== src/Lorawan/Phy/Steps.antt =====
-- `phy_read`, step by step.
use gateway_rs.Base.{ℕ, ◌+◌, ◌≡◌, refl, List, ◌∷◌, length, Option, ok, err}
use gateway_rs.Lorawan.Header.{
  Direction, MType, mtype, proprietary, set_mtype, mtype_from_u8, mtype_to_u8,
}
use gateway_rs.Lorawan.Wire.{Failure, LittleEndian}
use gateway_rs.Lorawan.Frame.{PhyPayloadFrame, frame_read}
use gateway_rs.Lorawan.Phy.{phy_read, phy_proprietary, check_size, split_mic}

pub mtype-phy_proprietary : (bytes : List ℕ) → mtype (phy_proprietary bytes).mhdr ≡ proprietary
unfolding phy_proprietary mtype set_mtype mtype_from_u8 mtype_to_u8
mtype-phy_proprietary bytes = refl

module _ ⦃le : LittleEndian⦄ (dir : Direction) (b : ℕ) (rest : List ℕ) {t : MType}
    (is : mtype b ≡ t) where
  pub phy_read-refuse :
      {e : Failure} → check_size t (length rest + 1) ≡ err e → phy_read dir (b ∷ rest) ≡ err e
  unfolding phy_read
  phy_read-refuse h = rw (is, h)

  pub phy_read-accept :
      (body left : List ℕ) (mic : Option (List ℕ)) (f : PhyPayloadFrame)
      → check_size t (length rest + 1) ≡ ok tt
      → split_mic t rest ≡ ok (body, mic)
      → frame_read dir t body ≡ ok (f, left)
      → phy_read dir (b ∷ rest) ≡ ok (record { mhdr = b; payload = f; mic = mic })
  unfolding phy_read
  phy_read-accept body left mic f checked split got = rw (is, checked, split, got)
