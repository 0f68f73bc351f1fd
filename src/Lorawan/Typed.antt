-- ===== src/Lorawan/Typed.antt =====
-- lorawan/src/lib.rs: the machine types of the fields. The readers are given bytes.
use gateway_rs.Base.{
  ℕ, ◌+◌, ◌-◌, ◌≡◌, refl, arith, List, [], ◌∷◌, length, drop, All-take, All-drop, Option, some, ltb,
  Bool-cases, inl, inr, Result, ok, err, length-drop,
}
use gateway_rs.Lorawan.Header.{Direction, MType, proprietary, mtype}
use gateway_rs.Lorawan.Wire.{Failure, LittleEndian, IsByte, IsBytes}
use gateway_rs.Lorawan.Frame.{frame_read}
use gateway_rs.Lorawan.Phy.Sizes.{check_size-GoodSize}
use gateway_rs.Lorawan.Phy.{phy_read, check_size, split_mic, split_off_mic}
use gateway_rs.Lorawan.Yields.{IsSized, Gives}
use gateway_rs.Lorawan.Types.{IsMic, IsFrame, IsResult, IsPhyPayload, frame_read-Yields}
use mathlib.Core.Path.{subst}
use gateway_rs.Base.{◌>>=◌}

abbrev pub IsSplit : MType → List ℕ × Option (List ℕ) → Type 0
IsSplit t parts = IsBytes parts.0 × IsMic t parts.1

-- The mic of any frame but a proprietary one.
with_mic :
    (Q : Option (List ℕ) → Type 0) (bytes : List ℕ)
    → ((mic : List ℕ) → IsSized 4 mic → Q (some mic))
    → IsBytes bytes
    → IsResult
        (λ (parts : List ℕ × Option (List ℕ)). IsBytes parts.0 × Q parts.1)
        (split_off_mic bytes)
unfolding split_off_mic
with_mic Q bytes q h = elim (Bool-cases (ltb (length bytes) 4)) [
  | inl short ↦ rw (split_off_mic, short) tt
  | inr long ↦
      rw (split_off_mic, long)
        (
          All-take IsByte (length bytes - 4) bytes h,
          q (drop (length bytes - 4) bytes) (
            All-drop IsByte (length bytes - 4) bytes h,
            ground (arith, length-drop (length bytes - 4) bytes),
          ),
        )
]

bind-IsResult :
    {A B : Type 0} (Q : B → Type 0) (m : Result Failure A) (f : A → Result Failure B)
    → ((a : A) → m ≡ ok a → IsResult Q (f a))
    → IsResult Q (m >>= f)
bind-IsResult Q (ok a) f h = h a refl
bind-IsResult Q (err e) f h = tt

IsResult-ok :
    {A : Type 0} (Q : A → Type 0) (r : Result Failure A) {a : A} → IsResult Q r → r ≡ ok a → Q a
IsResult-ok Q (ok b) h e = subst Q (cc) h
IsResult-ok Q (err x) h e = cc

split_mic-IsSplit :
    (t : MType) (bytes : List ℕ) → IsBytes bytes → IsResult (IsSplit t) (split_mic t bytes)
unfolding split_mic
split_mic-IsSplit proprietary bytes h = (h, tt)
split_mic-IsSplit t bytes h = with_mic (IsMic t) bytes (λ mic sized. sized) h

module _ ⦃le : LittleEndian⦄ where
  -- Whatever bytes `phy_read` is given, what it returns is a payload of the machine types: the header and
  -- each byte below 256, addresses, counters and identifiers in their widths, arrays of their lengths,
  -- with as many options as the control byte says, a port exactly where there is a payload, a frame of
  -- the kind that the header says, and a mic of four bytes, which only a proprietary frame lacks.
  pub phy_read-IsPhyPayload :
      (dir : Direction) (bytes : List ℕ)
      → IsBytes bytes
      → IsResult IsPhyPayload (phy_read dir bytes)
  unfolding phy_read
  phy_read-IsPhyPayload dir [] h = tt
  phy_read-IsPhyPayload dir (mhdr ∷ rest) h =
      let t = mtype mhdr in
      bind-IsResult IsPhyPayload (check_size t (length rest + 1)) _ (λ u good.
        bind-IsResult IsPhyPayload (split_mic t rest) _ (λ parts split.
          let fits =
            IsResult-ok (IsSplit t) (split_mic t rest) (split_mic-IsSplit t rest h.1) split in
          bind-IsResult IsPhyPayload (frame_read dir t parts.0) _ (λ frame read.
            let kind = check_size-GoodSize t (length rest + 1) good in
            let typed = (frame_read-Yields dir t (length rest + 1) kind).yields parts.0 fits.0 in
            (h.0, (subst (Gives (IsFrame t)) read typed).0, fits.1))))
