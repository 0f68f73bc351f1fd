-- ===== src/Lorawan/Yields.antt =====
-- lorawan/src/lib.rs: what a reader makes of bytes.
use gateway_rs.Base.{
  ℕ, ◌^◌, ◌<◌, ◌≡◌, arith, List, [], ◌∷◌, length, All-take, All-drop, Bool, true, false, ltb,
  Bool-cases, inl, inr, Result, ok, err, if◌then◌else◌, length-take,
}
use gateway_rs.Lorawan.Wire.{
  Failure, LittleEndian, Reader, ◌>>=◌, pure, fail, read_u8, read_exact, read_to_end, read_uint,
  IsByte, IsBytes,
}

-- What a result is, where there is one; the bytes that are left are bytes.
abbrev pub Gives {ℓ} : {A : Type 0} → (A → Type ℓ) → Result Failure (A × List ℕ) → Type ℓ
Gives P (ok (a, rest)) = P a × IsBytes rest
Gives P (err e) = Unit

pub record Yields {A : Type 0} (P : A → Type 0) (m : Reader A) : Type 0 where
  pub yields : (bytes : List ℕ) → IsBytes bytes → Gives P (m bytes)

pub pure-Yields : {A : Type 0} (P : A → Type 0) (a : A) → P a → Yields P (pure a)
pure-Yields P a p = record { yields = λ bytes h. (p, h) }

pub fail-Yields : {A : Type 0} (P : A → Type 0) (e : Failure) → Yields P (fail e)
fail-Yields P e = record { yields = λ bytes h. tt }

pub bind-Yields :
    {A B : Type 0} (P : A → Type 0) (Q : B → Type 0) {m : Reader A} {f : A → Reader B}
    → Yields P m
    → ((a : A) → P a → Yields Q (f a))
    → Yields Q (m >>= f)
bind-Yields {A} {B} P Q {m} {f} p q = record {
  yields = λ bytes h. after (m bytes) (p.yields bytes h);
}
  where
    after :
        (r : Result Failure (A × List ℕ))
        → Gives P r
        → Gives Q (elim r [ ok (a, rest) ↦ f a rest | err e ↦ err e ])
    after (ok (a, rest)) given = (q a given.0).yields rest given.1
    after (err e) given = tt

pub if-Yields :
    {A : Type 0} (P : A → Type 0) (b : Bool) {m n : Reader A}
    → Yields P m
    → Yields P n
    → Yields P (if b then m else n)
if-Yields P true p q = p
if-Yields P false p q = q

pub read_u8-Yields : Yields IsByte read_u8
read_u8-Yields = record { yields = first }
  where
    first : (bytes : List ℕ) → IsBytes bytes → Gives IsByte (read_u8 bytes)
    first [] h = tt
    first (b ∷ rest) h = h

-- So many bytes.
abbrev pub IsSized : ℕ → List ℕ → Type 0
IsSized n bytes = IsBytes bytes × (length bytes ≡ n)

pub read_exact-Yields : (n : ℕ) → Yields (IsSized n) (read_exact n)
read_exact-Yields n = record { yields = part }
  where
    part : (bytes : List ℕ) → IsBytes bytes → Gives (IsSized n) (read_exact n bytes)
    part bytes h = elim (Bool-cases (ltb (length bytes) n)) [
      | inl short ↦ rw short tt
      | inr long ↦ rw long (
          (
            (All-take IsByte n bytes h, ground (arith, length-take n bytes)),
            All-drop IsByte n bytes h,
          ))
    ]

pub read_to_end-Yields : Yields IsBytes read_to_end
read_to_end-Yields = record { yields = λ bytes h. (h, tt) }

module _ ⦃le : LittleEndian⦄ where
  pub read_uint-Yields : (w : ℕ) → Yields (λ v. v < 256 ^ w) (read_uint w)
  read_uint-Yields w =
      bind-Yields (IsSized w) (λ v. v < 256 ^ w) (read_exact-Yields w)
        (λ bytes sized.
          pure-Yields (λ v. v < 256 ^ w) (le.get bytes)
            (rw (← sized.1) (le.get_bound bytes sized.0)))
