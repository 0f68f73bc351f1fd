-- ===== src/Lorawan/RoundTrip.antt =====
-- `PHYPayload::read` and `PHYPayload::write` against one another.
use gateway_rs.Base.{
  ℕ, ◌+◌, ◌-◌, ◌≡◌, refl, sym, ap, ap₂, arith, List, [], ◌∷◌, ◌++◌, length, length-append,
  append_assoc, append-nil, take, drop, take-append, drop-append, take-append-drop, length-drop,
  All-split, ok, Option, none, >>=-eq-ok,
}
use mathlib.Core.Path.{subst, subst₂}
use native.Mathlib.Numerals.{add-one}
use gateway_rs.Lorawan.Header.{
  Direction, MType, join_request, join_accept, unconfirmed_up, unconfirmed_down, confirmed_up,
  confirmed_down, proprietary, invalid, mtype,
}
use gateway_rs.Lorawan.Wire.{LittleEndian, IsByte, IsBytes, ◌>>=◌, pure}
use gateway_rs.Lorawan.Frame.{
  PhyPayloadFrame, mac_frame, join_request_frame, join_accept_frame, proprietary_frame, frame_read,
  join_request_read, join_accept_read, mac_read,
}
use gateway_rs.Lorawan.Phy.{
  PhyPayload, phy_read, phy_write, check_size, split_mic, split_off_mic, mic_write,
}
use gateway_rs.Lorawan.Phy.Sizes.{GoodSize, check_size-GoodSize}
use gateway_rs.Lorawan.Consume.{read-bind}
use gateway_rs.Lorawan.Joins.{
  join_request-write-read, join_accept-write-read, length-join_request_write,
  length-join_accept_write,
}
use gateway_rs.Lorawan.DataFrames.{mac_read-WritesTwice}

split_off_mic-eq-ok :
    (rest body : List ℕ) {mic : Option (List ℕ)}
    → split_off_mic rest ≡ ok (body, mic)
    → (rest ≡ body ++ (mic_write mic).bytes)
      × (length (mic_write mic).bytes ≡ 4)
      × ((mic_write mic).count ≡ 4)
unfolding split_off_mic mic_write
split_off_mic-eq-ok rest body h =
    ground (arith, take-append-drop (length rest - 4) rest, length-drop (length rest - 4) rest)

-- A body that is written as it was read, with nothing left of it.
whole :
    (rest body written left mic : List ℕ)
    → rest ≡ body ++ mic
    → body ≡ written ++ left
    → length body ≡ length written
    → written ++ mic ≡ rest
whole rest body written [] mic s w n = rw (s, w, append-nil) refl
whole rest body written (x ∷ left) mic s w n =
    absurd (omega (arith, n, ap length w, length-append written (x ∷ left)))

-- The part of a join accept that is written again.
shortened :
    (b : ℕ) (rest body written left mic : List ℕ)
    → rest ≡ body ++ mic
    → body ≡ written ++ left
    → length written ≡ 12
    → length mic ≡ 4
    → b ∷ (written ++ mic) ≡ take 13 (b ∷ rest) ++ drop (length (b ∷ rest) - 4) (b ∷ rest)
shortened b rest body written left mic s w n m = ap (◌∷◌ b) (sym (ap₂ ◌++◌ front back))
  where
    front : take 12 rest ≡ written
    front = rw (s, w, append_assoc) (take-append 12 written (left ++ mic) n)

    back : drop (length (b ∷ rest) - 4) (b ∷ rest) ≡ mic
    back = rw s (
        drop-append (length (b ∷ (body ++ mic)) - 4) (b ∷ body) mic
          (omega (arith, length-append body mic)))

-- A data frame, with its address `addr` once more.
doubled :
    (b : ℕ) (rest body written addr tail mic : List ℕ)
    → rest ≡ body ++ mic
    → body ≡ addr ++ tail
    → written ≡ addr ++ (addr ++ tail)
    → length addr ≡ 4
    → b ∷ (written ++ mic) ≡ take 5 (b ∷ rest) ++ rest
doubled b rest body written addr tail mic s w t n = ap (◌∷◌ b) (
    rw (s, w, t, append_assoc, append_assoc)
      (sym (ap (λ x. x ++ (addr ++ (tail ++ mic))) (take-append 4 addr (tail ++ mic) n))))

body-IsBytes :
    (rest body : List ℕ) {mic : Option (List ℕ)}
    → IsBytes rest
    → split_off_mic rest ≡ ok (body, mic)
    → IsBytes body
body-IsBytes rest body {mic} hb h =
    let (s, _, _) = split_off_mic-eq-ok rest body h in
    (All-split IsByte body (mic_write mic).bytes (rw s at hb)).0

module _ ⦃le : LittleEndian⦄ where
  -- What `write` puts out after `read`, for each type of frame. A join accept loses what stands
  -- between its twelve bytes and the mic; a data frame gets its address twice.
  abbrev pub Rewrites : MType → PhyPayload → List ℕ → Type 0
  Rewrites join_request p bytes =
      ((phy_write p).bytes ≡ bytes) × ((phy_write p).count ≡ length bytes)
  Rewrites join_accept p bytes =
      ((phy_write p).bytes ≡ take 13 bytes ++ drop (length bytes - 4) bytes)
      × ((phy_write p).count ≡ 17)
  Rewrites proprietary p bytes =
      ((phy_write p).bytes ≡ bytes) × ((phy_write p).count ≡ length bytes)
  Rewrites (invalid s) p bytes = ⊥
  Rewrites _ p bytes =
      ((phy_write p).bytes ≡ take 5 bytes ++ drop 1 bytes) × ((phy_write p).count ≡ length bytes)

  join_request-Rewrites :
      (dir : Direction) (b : ℕ) (rest body left : List ℕ) (f : PhyPayloadFrame)
      (mic : Option (List ℕ))
      → IsBytes body
      → length rest ≡ 22
      → split_off_mic rest ≡ ok (body, mic)
      → frame_read dir join_request body ≡ ok (f, left)
      → Rewrites join_request (record { mhdr = b; payload = f; mic = mic }) (b ∷ rest)
  unfolding frame_read phy_write
  join_request-Rewrites dir b rest body left f mic hb n split h =
      let (s, l₁, l₂) = split_off_mic-eq-ok rest body split in
      let (j, m, e, k) = read-bind join_request_read _ body h in
      let (w, nonce) = join_request-write-read body hb e in
      let (l, c) = length-join_request_write j nonce in
      let same : join_request_frame j ≡ f = ground arith in
      subst (λ x. Rewrites join_request (record { mhdr = b; payload = x; mic = mic }) (b ∷ rest))
        same
        (
          ap (◌∷◌ b) (
              whole rest body _ m (mic_write mic).bytes s w
                (omega (arith, ap length s, length-append body (mic_write mic).bytes))),
          omega (arith, c),
        )

  join_accept-Rewrites :
      (dir : Direction) (b : ℕ) (rest body left : List ℕ) (f : PhyPayloadFrame)
      (mic : Option (List ℕ))
      → IsBytes body
      → split_off_mic rest ≡ ok (body, mic)
      → frame_read dir join_accept body ≡ ok (f, left)
      → Rewrites join_accept (record { mhdr = b; payload = f; mic = mic }) (b ∷ rest)
  unfolding frame_read phy_write
  join_accept-Rewrites dir b rest body left f mic hb split h =
      let (s, l₁, l₂) = split_off_mic-eq-ok rest body split in
      let (j, m, e, k) = read-bind join_accept_read _ body h in
      let (w, p, q) = join_accept-write-read body hb e in
      let (l, c) = length-join_accept_write j p q in
      let same : join_accept_frame j ≡ f = ground arith in
      subst (λ x. Rewrites join_accept (record { mhdr = b; payload = x; mic = mic }) (b ∷ rest))
        same (shortened b rest body _ m (mic_write mic).bytes s w l l₁, omega (arith, c))

  proprietary-Rewrites :
      (dir : Direction) (b : ℕ) (rest body left : List ℕ) (f : PhyPayloadFrame)
      (mic : Option (List ℕ))
      → split_mic proprietary rest ≡ ok (body, mic)
      → frame_read dir proprietary body ≡ ok (f, left)
      → Rewrites proprietary (record { mhdr = b; payload = f; mic = mic }) (b ∷ rest)
  unfolding split_mic frame_read phy_write mic_write
  proprietary-Rewrites dir b rest body left f mic split h =
      let same : proprietary_frame rest ≡ f = ground arith in
      let bare : none ≡ mic = ground arith in
      subst₂ (λ x y. Rewrites proprietary (record { mhdr = b; payload = x; mic = y }) (b ∷ rest))
        same bare (ap (◌∷◌ b) (append-nil rest), omega arith)

  data-Rewrites :
      (t : MType) (dir : Direction) (b : ℕ) (rest body left : List ℕ) (f : PhyPayloadFrame)
      (mic : Option (List ℕ))
      → IsBytes rest
      → split_off_mic rest ≡ ok (body, mic)
      → (mac_read t dir >>= λ m. pure (mac_frame m)) body ≡ ok (f, left)
      → Rewrites unconfirmed_up (record { mhdr = b; payload = f; mic = mic }) (b ∷ rest)
  unfolding phy_write
  data-Rewrites t dir b rest body left f mic hb split h =
      let (s, l₁, l₂) = split_off_mic-eq-ok rest body split in
      let (m, r, e, k) = read-bind (mac_read t dir) (λ m. pure (mac_frame m)) body h in
      let (tail, w, v, c) = mac_read-WritesTwice t dir body (body-IsBytes rest body hb split) e in
      let same : mac_frame m ≡ f = ground arith in
      subst (λ x. Rewrites unconfirmed_up (record { mhdr = b; payload = x; mic = mic }) (b ∷ rest))
        same
        (
          doubled b rest body _ _ tail (mic_write mic).bytes s w v (le.length_put 4 _),
          omega (arith, c, ap length s, length-append body (mic_write mic).bytes),
        )

  frame-Rewrites :
      (t : MType) (dir : Direction) (b : ℕ) (rest body left : List ℕ) (f : PhyPayloadFrame)
      (mic : Option (List ℕ))
      → GoodSize t (length rest + 1)
      → IsBytes rest
      → split_mic t rest ≡ ok (body, mic)
      → frame_read dir t body ≡ ok (f, left)
      → Rewrites t (record { mhdr = b; payload = f; mic = mic }) (b ∷ rest)
  unfolding split_mic frame_read
  frame-Rewrites join_request dir b rest body left f mic g hb split h =
      join_request-Rewrites dir b rest body left f mic (body-IsBytes rest body hb split)
        (omega arith) split h
  frame-Rewrites join_accept dir b rest body left f mic g hb split h =
      join_accept-Rewrites dir b rest body left f mic (body-IsBytes rest body hb split) split h
  frame-Rewrites proprietary dir b rest body left f mic g hb split h =
      proprietary-Rewrites dir b rest body left f mic split h
  frame-Rewrites (invalid s) dir b rest body left f mic g hb split h = absurd g
  frame-Rewrites unconfirmed_up dir b rest body left f mic g hb split h =
      data-Rewrites unconfirmed_up dir b rest body left f mic hb split h
  frame-Rewrites unconfirmed_down dir b rest body left f mic g hb split h =
      data-Rewrites unconfirmed_down dir b rest body left f mic hb split h
  frame-Rewrites confirmed_up dir b rest body left f mic g hb split h =
      data-Rewrites confirmed_up dir b rest body left f mic hb split h
  frame-Rewrites confirmed_down dir b rest body left f mic g hb split h =
      data-Rewrites confirmed_down dir b rest body left f mic hb split h

  -- A frame that was read is of a size that its type allows, and is written again as `Rewrites`
  -- says: a join request and a proprietary frame byte for byte; a join accept without the bytes
  -- between its first thirteen and its mic; a data frame with its device address put out twice,
  -- though the returned count has it once.
  pub phy_read-Rewrites :
      (dir : Direction) (bytes : List ℕ) (p : PhyPayload)
      → IsBytes bytes
      → phy_read dir bytes ≡ ok p
      → GoodSize (mtype p.mhdr) (length bytes) × Rewrites (mtype p.mhdr) p bytes
  unfolding phy_read
  phy_read-Rewrites dir [] p hb h = cc
  phy_read-Rewrites dir (b ∷ rest) p hb h =
      let (u, checked, h₁) = >>=-eq-ok (check_size (mtype b) (length rest + 1)) _ h in
      let ((body, mic), split, h₂) = >>=-eq-ok (split_mic (mtype b) rest) _ h₁ in
      let ((f, left), got, h₃) = >>=-eq-ok (frame_read dir (mtype b) body) _ h₂ in
      let good = check_size-GoodSize (mtype b) (length rest + 1) checked in
      let same : record { mhdr = b; payload = f; mic = mic } ≡ p = ground arith in
      subst
        (λ x. GoodSize (mtype x.mhdr) (length (b ∷ rest)) × Rewrites (mtype x.mhdr) x (b ∷ rest))
        same
        (
          rw add-one at good,
          frame-Rewrites (mtype b) dir b rest body left f mic good hb.1 split got,
        )
