-- ===== src/Lorawan/Wire.antt =====
-- lorawan/src/error.rs, and the readers and writers that lorawan/src/lib.rs is written with.
-- A `&mut dyn io::Read` is the list of bytes left; a written frame is the bytes and the count that
-- the function returns, since writing to a `Vec<u8>` does not fail.
use gateway_rs.Base.{
  ℕ, ◌+◌, ◌^◌, ◌<◌, ◌≡◌, List, [], ◌∷◌, ◌++◌, length, take, drop, All, Result, ok, err, ltb,
  if◌then◌else◌,
}
use gateway_rs.Lorawan.Header.{MType}

-- `io` is the end of the input, the only failure of reading a slice.
pub data LoraWanError : Type 0 where
  invalid_packet_type : ℕ → LoraWanError
  invalid_fport_for_fopts : LoraWanError
  invalid_packet_size : MType → ℕ → LoraWanError
  io : LoraWanError

-- A call can also stop the program: `split_off` out of range, or `unreachable!`.
pub data Failure : Type 0 where
  fails : LoraWanError → Failure
  panics : Failure

abbrev pub IsByte : ℕ → Type 0
IsByte b = b < 256

abbrev pub IsBytes : List ℕ → Type 0
IsBytes bs = All IsByte bs

-- What is used of the crates `byteorder` and `bytes`: little-endian numbers of a given width, in
-- bytes, and their documented laws.
pub record LittleEndian : Type 0 where
  pub get : List ℕ → ℕ
  pub put : ℕ → ℕ → List ℕ
  pub length_put : (w v : ℕ) → length (put w v) ≡ w
  pub put_bytes : (w v : ℕ) → IsBytes (put w v)
  pub get_put : (w v : ℕ) → v < 256 ^ w → get (put w v) ≡ v
  pub put_get : (bs : List ℕ) → IsBytes bs → put (length bs) (get bs) ≡ bs
  pub get_bound : (bs : List ℕ) → IsBytes bs → get bs < 256 ^ length bs

abbrev pub Reader : Type 0 → Type 0
Reader A = List ℕ → Result Failure (A × List ℕ)

infixl 5 ◌>>=◌
abbrev pub ◌>>=◌ : {A B : Type 0} → Reader A → (A → Reader B) → Reader B
◌>>=◌ m f bytes = elim (m bytes) [ ok (a, rest) ↦ f a rest | err e ↦ err e ]

abbrev pub pure : {A : Type 0} → A → Reader A
pure a bytes = ok (a, bytes)

abbrev pub fail : {A : Type 0} → Failure → Reader A
fail e bytes = err e

abbrev pub read_u8 : Reader ℕ
read_u8 [] = err (fails io)
read_u8 (b ∷ rest) = ok (b, rest)

abbrev pub read_exact : ℕ → Reader (List ℕ)
read_exact n bytes =
    if ltb (length bytes) n then err (fails io) else ok (take n bytes, drop n bytes)

abbrev pub read_to_end : Reader (List ℕ)
read_to_end bytes = ok (bytes, [])

-- `read_u16`, `read_u32` and `read_u64`, at widths 2, 4 and 8.
abbrev pub read_uint : ⦃le : LittleEndian⦄ → ℕ → Reader ℕ
read_uint ⦃le⦄ w = do bytes ← read_exact w; pure (le.get bytes)

-- What a `write` put out, and the number that it returned.
pub record Written : Type 0 where
  pub bytes : List ℕ
  pub count : ℕ

abbrev pub put : List ℕ → Written
put bs = record { bytes = bs; count = length bs }

infixl 60 ◌&◌
abbrev pub ◌&◌ : Written → Written → Written
a & b = record { bytes = a.bytes ++ b.bytes; count = a.count + b.count }

abbrev pub nothing : Written
nothing = record { bytes = []; count = 0 }
