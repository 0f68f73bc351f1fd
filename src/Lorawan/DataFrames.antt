-- ===== src/Lorawan/DataFrames.antt =====
-- Data frames: `Fhdr::write` puts the device address out twice, so a data frame that was read is
-- written four bytes longer.
use gateway_rs.Base.{
  ℕ, ◌+◌, ◌≡◌, refl, ap, arith, List, [], ◌∷◌, ◌++◌, length, length-append, append_assoc, All-split,
  ok, Option, true, false, ltb, ◌&&◌, if◌then◌else◌, Bool,
}
use mathlib.Core.Path.{subst}
use gateway_rs.Lorawan.Header.{
  Direction, uplink, downlink, MType, unconfirmed_up, unconfirmed_down, confirmed_up,
  confirmed_down,
}
use gateway_rs.Lorawan.Wire.{
  Failure, Failure, LittleEndian, IsByte, IsBytes, pure, fail, read_exact, read_uint,
}
use gateway_rs.Lorawan.Frame.{
  FCtrl, fctrl_read, fctrl_write, fopts_len, Fhdr, fhdr_read, fhdr_write, MacPayload, mac_read,
  mac_write, port_and_payload, FrmPayload, is_port_zero, port_write, payload_write,
}
use gateway_rs.Lorawan.Consume.{read-bind, read_exact-eq-ok, read_uint-eq-ok}

fctrl_read-eq-ok :
    (dir : Direction) (bytes : List ℕ) {c : FCtrl} {rest : List ℕ}
    → fctrl_read dir bytes ≡ ok (c, rest)
    → (bytes ≡ (fctrl_write c).bytes ++ rest) × ((fctrl_write c).count ≡ 1)
unfolding fctrl_read fctrl_write
fctrl_read-eq-ok uplink [] h = cc
fctrl_read-eq-ok uplink (b ∷ bytes) h = ground arith
fctrl_read-eq-ok downlink [] h = cc
fctrl_read-eq-ok downlink (b ∷ bytes) h = ground arith

port_and_payload-eq-ok :
    (t : MType) (d bytes : List ℕ) {p : Option ℕ} {q : Option FrmPayload} {rest : List ℕ}
    → port_and_payload t d bytes ≡ ok ((p, q), rest)
    → (d ≡ (port_write p).bytes ++ (payload_write q).bytes)
      × (length d ≡ (port_write p).count + (payload_write q).count)
      × (rest ≡ bytes)
unfolding port_and_payload port_write payload_write
port_and_payload-eq-ok t [] bytes h = ground arith
port_and_payload-eq-ok unconfirmed_up (port ∷ d) bytes h = ground arith
port_and_payload-eq-ok unconfirmed_down (port ∷ d) bytes h = ground arith
port_and_payload-eq-ok confirmed_up (port ∷ d) bytes h = ground arith
port_and_payload-eq-ok confirmed_down (port ∷ d) bytes h = ground arith
port_and_payload-eq-ok _ (port ∷ d) bytes h = cc

-- The check behind the payload hands its value on or fails.
guarded :
    {A : Type 0} (b : Bool) (e : Failure) (a x : A) (bytes rest : List ℕ)
    → (if b then fail e else pure a) bytes ≡ ok (x, rest)
    → (a ≡ x) × (bytes ≡ rest)
guarded true e a x bytes rest h = cc
guarded false e a x bytes rest h = ground arith

module _ ⦃le : LittleEndian⦄ where
  -- What a header puts out behind its address.
  abbrev behind_addr : Fhdr → List ℕ
  behind_addr f = (fctrl_write f.fctrl).bytes ++ le.put 2 f.fcnt ++ f.fopts

  fhdr_read-eq-ok :
      (dir : Direction) (bytes : List ℕ) {f : Fhdr} {rest : List ℕ}
      → IsBytes bytes
      → fhdr_read dir bytes ≡ ok (f, rest)
      → (bytes ≡ le.put 4 f.dev_addr ++ (behind_addr f ++ rest))
        × ((fhdr_write f).bytes ≡ le.put 4 f.dev_addr ++ (le.put 4 f.dev_addr ++ behind_addr f))
        × ((fhdr_write f).count ≡ 4 + length (behind_addr f))
  unfolding fhdr_read fhdr_write
  fhdr_read-eq-ok dir bytes {f} {rest} hb h =
      let (addr, m₁, e₁, h₁) = read-bind (read_uint 4) _ bytes h in
      let (s₁, b₁) = read_uint-eq-ok 4 bytes hb e₁ in
      let (ctrl, m₂, e₂, h₂) = read-bind (fctrl_read dir) _ m₁ h₁ in
      let (s₂, n₂) = fctrl_read-eq-ok dir m₁ e₂ in
      let b₂ = (All-split IsByte (fctrl_write ctrl).bytes m₂ (rw s₂ at b₁)).1 in
      let (cnt, m₃, e₃, h₃) = read-bind (read_uint 2) _ m₂ h₂ in
      let (s₃, b₃) = read_uint-eq-ok 2 m₂ b₂ e₃ in
      let (opts, m₄, e₄, h₄) = read-bind (read_exact (fopts_len ctrl)) _ m₃ h₃ in
      let (s₄, l₄) = read_exact-eq-ok (fopts_len ctrl) m₃ e₄ in
      (
        simp append_assoc (ground (arith, s₁, s₂, s₃, s₄, h₄)),
        simp append_assoc,
        simp (length-append, le.length_put) (ground (arith, n₂, h₄)),
      )

  -- Writing `m` gives `bytes` with the address once more, and counts it once.
  abbrev pub WritesTwice : MacPayload → List ℕ → Type 0
  WritesTwice m bytes =
      (tail : List ℕ) × (bytes ≡ le.put 4 m.fhdr.dev_addr ++ tail)
      × ((mac_write m).bytes ≡ le.put 4 m.fhdr.dev_addr ++ (le.put 4 m.fhdr.dev_addr ++ tail))
      × ((mac_write m).count ≡ length bytes)

  parts-WritesTwice :
      (bytes rest : List ℕ) (f : Fhdr) (p : Option ℕ) (q : Option FrmPayload)
      → (bytes ≡ le.put 4 f.dev_addr ++ (behind_addr f ++ rest))
        × ((fhdr_write f).bytes ≡ le.put 4 f.dev_addr ++ (le.put 4 f.dev_addr ++ behind_addr f))
        × ((fhdr_write f).count ≡ 4 + length (behind_addr f))
      → (rest ≡ (port_write p).bytes ++ (payload_write q).bytes)
        × (length rest ≡ (port_write p).count + (payload_write q).count)
      → WritesTwice (record { fhdr = f; fport = p; payload = q }) bytes
  unfolding mac_write
  parts-WritesTwice bytes rest f p q (s₁, w₁, n₁) (s₂, n₂) = (
    behind_addr f ++ rest,
    s₁,
    rw w₁ (simp append_assoc (rw s₂ refl)),
    omega (
      arith,
      n₁,
      n₂,
      ap length s₁,
      length-append (le.put 4 f.dev_addr) (behind_addr f ++ rest),
      length-append (behind_addr f) rest,
      le.length_put 4 f.dev_addr,
    ),
  )

  pub mac_read-WritesTwice :
      (t : MType) (dir : Direction) (bytes : List ℕ) {m : MacPayload} {rest : List ℕ}
      → IsBytes bytes
      → mac_read t dir bytes ≡ ok (m, rest)
      → WritesTwice m bytes
  unfolding mac_read
  mac_read-WritesTwice t dir bytes {m} hb h =
      let (f, m₁, e₁, h₁) = read-bind (fhdr_read dir) _ bytes h in
      let ((p, q), m₂, e₂, h₂) = read-bind (port_and_payload t m₁) _ [] h₁ in
      let (s₂, n₂, _) = port_and_payload-eq-ok t m₁ [] e₂ in
      let (same, _) = guarded (is_port_zero p && ltb 0 (fopts_len f.fctrl)) _ _ m m₂ _ h₂ in
      subst (λ x. WritesTwice x bytes) same
        (parts-WritesTwice bytes m₁ f p q (fhdr_read-eq-ok dir bytes hb e₁) (s₂, n₂))
