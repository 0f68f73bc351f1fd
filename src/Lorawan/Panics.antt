-- ===== src/Lorawan/Panics.antt =====
-- The readers of lorawan/src/lib.rs do not stop the program, whatever bytes they are given.
use gateway_rs.Base.{
  ℕ, ◌+◌, ◌-◌, ◌≤◌, ◌≡◌, ◌≢◌, arith, List, [], ◌∷◌, length, Option, Bool, true, false, Result, ok,
  err, take, drop, some, >>=-ne-err, refl, if◌then◌else◌,
}
use gateway_rs.Lorawan.Header.{
  Direction, uplink, downlink, MType, join_request, join_accept, unconfirmed_up, unconfirmed_down,
  confirmed_up, confirmed_down, proprietary, invalid, mtype,
}
use gateway_rs.Lorawan.Wire.{
  Failure, fails, panics, LittleEndian, LoraWanError, Reader, ◌>>=◌, pure, fail, read_u8,
  read_exact, read_to_end,
}
use gateway_rs.Lorawan.Frame.{
  frame_read, mac_read, fhdr_read, fctrl_read, port_and_payload, join_request_read,
  join_accept_read,
}
use gateway_rs.Lorawan.Phy.{phy_read, check_size, split_mic, split_off_mic}
use gateway_rs.Lorawan.Phy.Sizes.{check_size-GoodSize, GoodSize}

-- A reader that never panics.
pub record IsCalm {A : Type 0} (m : Reader A) : Type 0 where
  pub calm : (bytes : List ℕ) → m bytes ≢ err panics

pub pure-IsCalm : {A : Type 0} (a : A) → IsCalm (pure a)
pure-IsCalm a = record { calm = λ bytes h. cc }

pub fail-IsCalm : {A : Type 0} (e : LoraWanError) → IsCalm (fail {A = A} (fails e))
fail-IsCalm e = record { calm = λ bytes h. cc }

pub bind-IsCalm :
    {A B : Type 0} {m : Reader A} {f : A → Reader B}
    → IsCalm m
    → ((a : A) → IsCalm (f a))
    → IsCalm (m >>= f)
bind-IsCalm {A} {B} {m} {f} p q = record { calm = λ bytes. after bytes (m bytes) (p.calm bytes) }
  where
    after :
        (bytes : List ℕ) (r : Result Failure (A × List ℕ))
        → r ≢ err panics
        → (elim r [ ok (a, rest) ↦ f a rest | err e ↦ err e ]) ≢ err panics
    after bytes (ok (a, rest)) h = (q a).calm rest
    after bytes (err e) h = λ k. h (ground arith)

pub if-IsCalm :
    {A : Type 0} (b : Bool) {m n : Reader A} → IsCalm m → IsCalm n → IsCalm (if b then m else n)
if-IsCalm true p q = p
if-IsCalm false p q = q

pub read_u8-IsCalm : IsCalm read_u8
read_u8-IsCalm = record { calm = read_u8-calm }
  where
    read_u8-calm : (bytes : List ℕ) → read_u8 bytes ≢ err panics
    read_u8-calm [] h = cc
    read_u8-calm (b ∷ rest) h = cc

pub read_exact-IsCalm : (n : ℕ) → IsCalm (read_exact n)
read_exact-IsCalm n = record { calm = λ bytes. ground arith }

pub read_to_end-IsCalm : IsCalm read_to_end
read_to_end-IsCalm = record { calm = λ bytes h. cc }

pub ruleset calm_rules = (
  pure-IsCalm, fail-IsCalm, bind-IsCalm, if-IsCalm, read_u8-IsCalm, read_exact-IsCalm,
  read_to_end-IsCalm,
)

abbrev pub IsData : MType → Type 0
IsData unconfirmed_up = Unit {0}
IsData unconfirmed_down = Unit {0}
IsData confirmed_up = Unit {0}
IsData confirmed_down = Unit {0}
IsData _ = ⊥

port_and_payload-ne-panics :
    (t : MType) (d bytes : List ℕ) → IsData t → port_and_payload t d bytes ≢ err panics
unfolding port_and_payload
port_and_payload-ne-panics t [] bytes h k = cc
port_and_payload-ne-panics unconfirmed_up (port ∷ rest) bytes h k = cc
port_and_payload-ne-panics unconfirmed_down (port ∷ rest) bytes h k = cc
port_and_payload-ne-panics confirmed_up (port ∷ rest) bytes h k = cc
port_and_payload-ne-panics confirmed_down (port ∷ rest) bytes h k = cc
port_and_payload-ne-panics _ (port ∷ rest) bytes h k = absurd h

port_and_payload-IsCalm : (t : MType) (d : List ℕ) → IsData t → IsCalm (port_and_payload t d)
port_and_payload-IsCalm t d h = record { calm = λ bytes. port_and_payload-ne-panics t d bytes h }

fctrl_read-IsCalm : (dir : Direction) → IsCalm (fctrl_read dir)
unfolding fctrl_read
fctrl_read-IsCalm uplink = search calm_rules
fctrl_read-IsCalm downlink = search calm_rules

split_off_mic-ok :
    (rest : List ℕ)
    → 4 ≤ length rest
    → split_off_mic rest ≡ ok (take (length rest - 4) rest, some (drop (length rest - 4) rest))
unfolding split_off_mic
split_off_mic-ok rest h = ground arith

-- A size that fits the type is enough for `split_off`.
split_mic-ok :
    (t : MType) (rest : List ℕ)
    → GoodSize t (length rest + 1)
    → (p : List ℕ × Option (List ℕ)) × (split_mic t rest ≡ ok p)
unfolding split_mic
split_mic-ok join_request rest h = (_, split_off_mic-ok rest (omega arith))
split_mic-ok join_accept rest h = (_, split_off_mic-ok rest (omega arith))
split_mic-ok (invalid s) rest h = absurd h
split_mic-ok proprietary rest h = (_, refl)
split_mic-ok _ rest h = (_, split_off_mic-ok rest (omega arith))

check_size-ne-panics : (t : MType) (n : ℕ) → check_size t n ≢ err panics
unfolding check_size
check_size-ne-panics (invalid s) n = ground arith
check_size-ne-panics join_request n = ground arith
check_size-ne-panics _ n = ground arith

module _ ⦃le : LittleEndian⦄ where
  join_request_read-IsCalm : IsCalm join_request_read
  unfolding join_request_read
  join_request_read-IsCalm = search calm_rules depth 9

  join_accept_read-IsCalm : IsCalm join_accept_read
  unfolding join_accept_read
  join_accept_read-IsCalm = search calm_rules depth 12

  fhdr_read-IsCalm : (dir : Direction) → IsCalm (fhdr_read dir)
  unfolding fhdr_read
  fhdr_read-IsCalm dir = search (calm_rules, fctrl_read-IsCalm) depth 9

  mac_read-IsCalm : (t : MType) (dir : Direction) → IsData t → IsCalm (mac_read t dir)
  unfolding mac_read
  mac_read-IsCalm t dir h = bind-IsCalm (fhdr_read-IsCalm dir) λ fhdr.
      bind-IsCalm read_to_end-IsCalm λ rest.
        bind-IsCalm (port_and_payload-IsCalm t rest h)
          λ pp. if-IsCalm _ (fail-IsCalm _) (pure-IsCalm _)

  frame_read-IsCalm :
      (dir : Direction) (t : MType) (n : ℕ) → GoodSize t n → IsCalm (frame_read dir t)
  unfolding frame_read
  frame_read-IsCalm dir join_request n h = search (calm_rules, join_request_read-IsCalm)
  frame_read-IsCalm dir join_accept n h = search (calm_rules, join_accept_read-IsCalm)
  frame_read-IsCalm dir proprietary n h = search calm_rules
  frame_read-IsCalm dir unconfirmed_up n h =
      search (calm_rules, mac_read-IsCalm unconfirmed_up dir tt)
  frame_read-IsCalm dir unconfirmed_down n h =
      search (calm_rules, mac_read-IsCalm unconfirmed_down dir tt)
  frame_read-IsCalm dir confirmed_up n h = search (calm_rules, mac_read-IsCalm confirmed_up dir tt)
  frame_read-IsCalm dir confirmed_down n h =
      search (calm_rules, mac_read-IsCalm confirmed_down dir tt)
  frame_read-IsCalm dir (invalid s) n h = absurd h

  -- No input stops the program, in either direction: neither the `split_off` of the mic nor the
  -- `unreachable!` of the payload types is ever met.
  pub phy_read-ne-panics : (dir : Direction) (bytes : List ℕ) → phy_read dir bytes ≢ err panics
  unfolding phy_read
  phy_read-ne-panics dir [] = λ h. cc
  phy_read-ne-panics dir (b ∷ rest) =
      >>=-ne-err (check_size t (length rest + 1)) _ (check_size-ne-panics t _) λ u checked.
        let good : GoodSize t (length rest + 1) = check_size-GoodSize t _ checked in
        >>=-ne-err (split_mic t rest) _ (λ h. cc ((split_mic-ok t rest good).1))
          λ p split.
            >>=-ne-err (frame_read dir t p.0) _ ((frame_read-IsCalm dir t _ good).calm p.0)
              λ q r h. cc
    where
      t : MType
      t = mtype b
