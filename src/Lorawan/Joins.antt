-- ===== src/Lorawan/Joins.antt =====
-- Join frames: what `read` takes is what `write` puts out, and the other way round.
use gateway_rs.Base.{
  ℕ, ◌<◌, ◌^◌, ◌≡◌, ◌∙◌, arith, List, ◌++◌, length, length-append, append_assoc, All-split, ok,
}
use gateway_rs.Lorawan.Wire.{LittleEndian, IsByte, IsBytes, read_u8, read_exact, read_uint}
use gateway_rs.Lorawan.Frame.{
  JoinRequest, join_request_read, join_request_write, JoinAccept, join_accept_read,
  join_accept_write,
}
use gateway_rs.Lorawan.Consume.{
  read-bind, read-step, read_exact-eq-ok, read_exact-append, read_u8-eq-ok, read_uint-eq-ok,
  read_uint-put,
}

pub record JoinRequestFits (j : JoinRequest) : Type 0 where
  pub app_fits : j.app_eui < 2 ^ 64
  pub dev_fits : j.dev_eui < 2 ^ 64
  pub nonce_fits : length j.dev_nonce ≡ 2

pub record JoinAcceptFits (j : JoinAccept) : Type 0 where
  pub nonce_fits : length j.app_nonce ≡ 3
  pub net_fits : length j.net_id ≡ 3
  pub addr_fits : j.dev_addr < 2 ^ 32

module _ ⦃le : LittleEndian⦄ where
  pub join_request-write-read :
      (bytes : List ℕ) {j : JoinRequest} {rest : List ℕ}
      → IsBytes bytes
      → join_request_read bytes ≡ ok (j, rest)
      → (bytes ≡ (join_request_write j).bytes ++ rest) × (length j.dev_nonce ≡ 2)
  unfolding join_request_read join_request_write
  join_request-write-read bytes {j} {rest} hb h =
      let (app, m₁, e₁, h₁) = read-bind (read_uint 8) _ bytes h in
      let (s₁, b₁) = read_uint-eq-ok 8 bytes hb e₁ in
      let (dev, m₂, e₂, h₂) = read-bind (read_uint 8) _ m₁ h₁ in
      let (s₂, b₂) = read_uint-eq-ok 8 m₁ b₁ e₂ in
      let (nonce, m₃, e₃, h₃) = read-bind (read_exact 2) _ m₂ h₂ in
      let (s₃, l₃) = read_exact-eq-ok 2 m₂ e₃ in simp append_assoc (ground (arith, s₁, s₂, s₃, h₃))

  pub join_request-read-write :
      (j : JoinRequest) (rest : List ℕ)
      → JoinRequestFits j
      → join_request_read ((join_request_write j).bytes ++ rest) ≡ ok (j, rest)
  unfolding join_request_read join_request_write
  join_request-read-write j rest f = simp append_assoc (
      read-step (read_uint 8) _ (read_uint-put 8 j.app_eui _ f.app_fits)
      ∙ read-step (read_uint 8) _ (read_uint-put 8 j.dev_eui _ f.dev_fits)
      ∙ read-step (read_exact 2) _ (read_exact-append 2 j.dev_nonce rest f.nonce_fits))

  pub join_accept-write-read :
      (bytes : List ℕ) {j : JoinAccept} {rest : List ℕ}
      → IsBytes bytes
      → join_accept_read bytes ≡ ok (j, rest)
      → (bytes ≡ (join_accept_write j).bytes ++ rest)
        × (length j.app_nonce ≡ 3)
        × (length j.net_id ≡ 3)
  unfolding join_accept_read join_accept_write
  join_accept-write-read bytes {j} {rest} hb h =
      let (nonce, m₁, e₁, h₁) = read-bind (read_exact 3) _ bytes h in
      let (s₁, l₁) = read_exact-eq-ok 3 bytes e₁ in
      let (net, m₂, e₂, h₂) = read-bind (read_exact 3) _ m₁ h₁ in
      let (s₂, l₂) = read_exact-eq-ok 3 m₁ e₂ in
      let b₁ = (All-split IsByte nonce m₁ (rw s₁ at hb)).1 in
      let b₂ = (All-split IsByte net m₂ (rw s₂ at b₁)).1 in
      let (addr, m₃, e₃, h₃) = read-bind (read_uint 4) _ m₂ h₂ in
      let (s₃, b₃) = read_uint-eq-ok 4 m₂ b₂ e₃ in
      let (dl, m₄, e₄, h₄) = read-bind read_u8 _ m₃ h₃ in
      let (delay, m₅, e₅, h₅) = read-bind read_u8 _ m₄ h₄ in
      simp append_assoc (ground (arith, s₁, s₂, s₃, read_u8-eq-ok m₃ e₄, read_u8-eq-ok m₄ e₅, h₅))

  pub join_accept-read-write :
      (j : JoinAccept) (rest : List ℕ)
      → JoinAcceptFits j
      → join_accept_read ((join_accept_write j).bytes ++ rest) ≡ ok (j, rest)
  unfolding join_accept_read join_accept_write
  join_accept-read-write j rest f = simp append_assoc (
      read-step (read_exact 3) _ (read_exact-append 3 j.app_nonce _ f.nonce_fits)
      ∙ read-step (read_exact 3) _ (read_exact-append 3 j.net_id _ f.net_fits)
      ∙ read-step (read_uint 4) _ (read_uint-put 4 j.dev_addr _ f.addr_fits))

  pub length-join_request_write :
      (j : JoinRequest)
      → length j.dev_nonce ≡ 2
      → (length (join_request_write j).bytes ≡ 18) × ((join_request_write j).count ≡ 18)
  unfolding join_request_write
  length-join_request_write j h = simp (length-append, le.length_put) (omega arith)

  pub length-join_accept_write :
      (j : JoinAccept)
      → length j.app_nonce ≡ 3
      → length j.net_id ≡ 3
      → (length (join_accept_write j).bytes ≡ 12) × ((join_accept_write j).count ≡ 12)
  unfolding join_accept_write
  length-join_accept_write j p q = simp (length-append, le.length_put) (omega arith)
