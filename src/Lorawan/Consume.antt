-- ===== src/Lorawan/Consume.antt =====
-- What a successful read took from the input.
use gateway_rs.Base.{
  ℕ, ◌≡◌, refl, ap, arith, List, [], ◌∷◌, ◌++◌, length, length-append, length-take,
  take-append-drop, take-append, drop-append, All-split, ◌∙◌, Result, ok, err, ◌<◌, ◌^◌,
}
use gateway_rs.Lorawan.Wire.{
  Failure, LittleEndian, IsByte, IsBytes, Reader, ◌>>=◌, pure, read_u8, read_exact, read_uint,
}

-- Inversion of a successful bind.
pub read-bind :
    {A B : Type 0} (m : Reader A) (f : A → Reader B) (bytes : List ℕ) {b : B} {rest : List ℕ}
    → (m >>= f) bytes ≡ ok (b, rest)
    → (a : A) × (mid : List ℕ) × (m bytes ≡ ok (a, mid)) × (f a mid ≡ ok (b, rest))
read-bind {A} {B} m f bytes {b} {rest} = invert (m bytes)
  where
    invert :
        (r : Result Failure (A × List ℕ))
        → (elim r [ ok (a, mid) ↦ f a mid | err e ↦ err e ]) ≡ ok (b, rest)
        → (a : A) × (mid : List ℕ) × (r ≡ ok (a, mid)) × (f a mid ≡ ok (b, rest))
    invert (ok (a, mid)) h = (a, mid, refl, h)
    invert (err e) h = cc

pub read_exact-eq-ok :
    (n : ℕ) (bytes : List ℕ) {got rest : List ℕ}
    → read_exact n bytes ≡ ok (got, rest)
    → (bytes ≡ got ++ rest) × (length got ≡ n)
read_exact-eq-ok n bytes h = ground (arith, take-append-drop n bytes, length-take n bytes)

pub read_u8-eq-ok :
    (bytes : List ℕ) {b : ℕ} {rest : List ℕ} → read_u8 bytes ≡ ok (b, rest) → bytes ≡ b ∷ rest
read_u8-eq-ok [] h = cc
read_u8-eq-ok (x ∷ xs) h = cc

pub read_exact-append :
    (n : ℕ) (got rest : List ℕ) → length got ≡ n → read_exact n (got ++ rest) ≡ ok (got, rest)
read_exact-append n got rest h =
    ground (arith, length-append got rest, take-append n got rest h, drop-append n got rest h)

-- A step that succeeds hands its value on.
pub read-step :
    {A B : Type 0} (m : Reader A) (f : A → Reader B) {bytes mid : List ℕ} {a : A}
    → m bytes ≡ ok (a, mid)
    → (m >>= f) bytes ≡ f a mid
read-step {A} {B} m f {mid} {a} = step (m _)
  where
    step :
        (r : Result Failure (A × List ℕ))
        → r ≡ ok (a, mid)
        → (elim r [ ok (a, mid) ↦ f a mid | err e ↦ err e ]) ≡ f a mid
    step r e = rw e

module _ ⦃le : LittleEndian⦄ where
  pub read_uint-eq-ok :
      (w : ℕ) (bytes : List ℕ) {v : ℕ} {rest : List ℕ}
      → IsBytes bytes
      → read_uint w bytes ≡ ok (v, rest)
      → (bytes ≡ le.put w v ++ rest) × IsBytes rest
  read_uint-eq-ok w bytes {v} {rest} hb h =
      let (got, mid, exact, h') = read-bind (read_exact w) (λ bs. pure (le.get bs)) bytes h in
      let (split, len) = read_exact-eq-ok w bytes exact in
      let (got_bytes, mid_bytes) = All-split IsByte got mid (rw split at hb) in
      let value : le.get got ≡ v = ground arith in
      let same : mid ≡ rest = ground arith in
      let back : le.put w v ≡ got = rw (← value, ← len) (le.put_get got got_bytes) in
      (rw (back, ← same) split, rw same at mid_bytes)

  pub read_uint-put :
      (w v : ℕ) (rest : List ℕ) → v < 256 ^ w → read_uint w (le.put w v ++ rest) ≡ ok (v, rest)
  read_uint-put w v rest h =
      read-step (read_exact w) (λ bs. pure (le.get bs))
        (read_exact-append w (le.put w v) rest (le.length_put w v))
      ∙ ap (λ (x : ℕ). ok (x, rest)) (le.get_put w v h)
