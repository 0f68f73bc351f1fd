-- ===== src/Radio/Gateway/Downlinks.antt =====
-- Which messages a downlink becomes.
use gateway_rs.Base.{
  ℕ, ◌≤◌, ◌≡◌, ◌⊎◌, refl, arith, Bool, true, false, [], ◌∷◌, length, All, Option, none, some,
  Result, ok, err, Option-cases, inl, inr,
}
use gateway_rs.Radio.Packet.{Packet, TxPk, PacketError, to_pull_resp}
use gateway_rs.Radio.Region.{RegionParams, tx_power}
use gateway_rs.Radio.Gateway.{
  Ack, sent, too_early, too_late, other_error, Gateway, Dispatched, retry, dispatch_windows,
  handle_downlink,
}

module _ {N T Q : Type 0} (parse : T → Option Q) (ack : TxPk N Q → Ack) where
  -- A message carries a downlink at a power.
  abbrev pub Carries : Packet N T → ℕ → TxPk N Q → Type 0
  Carries downlink power m =
      (m.payload ≡ downlink.payload) × (m.size ≡ length downlink.payload) × (m.powe ≡ power)

  abbrev Response : Packet N T → ℕ → Result PacketError (Option (TxPk N Q)) → Type 0
  Response downlink power (err e) = Unit {0}
  Response downlink power (ok none) = Unit {0}
  Response downlink power (ok (some m)) = Carries downlink power m

  to_pull_resp-Response :
      (use_rx2 : Bool) (power : ℕ) (downlink : Packet N T)
      → Response downlink power (to_pull_resp parse use_rx2 power downlink)
  unfolding to_pull_resp
  to_pull_resp-Response false power downlink = elim (Option-cases (parse downlink.datarate)) [
    | inl e ↦ rw (to_pull_resp, e) tt
    | inr (rate, e) ↦ rw (to_pull_resp, e) (refl, refl, refl)
  ]
  to_pull_resp-Response true power downlink = elim (Option-cases downlink.rx2_window) [
    | inl e ↦ rw (to_pull_resp, e) tt
    | inr (rx2, e) ↦ elim (Option-cases (parse rx2.datarate)) [
      | inl e' ↦ rw (to_pull_resp, e, e') tt
      | inr (rate, e') ↦ rw (to_pull_resp, e, e') (refl, refl, refl)
    ]
  ]

  Response-cases :
      (downlink : Packet N T) (power : ℕ) (r : Result PacketError (Option (TxPk N Q)))
      → Response downlink power r
      → ((e : PacketError) × (r ≡ err e))
        ⊎ ((r ≡ ok none) ⊎ ((m : TxPk N Q) × (r ≡ ok (some m)) × Carries downlink power m))
  Response-cases downlink power (err e) h = inl (e, refl)
  Response-cases downlink power (ok none) h = inr (inl refl)
  Response-cases downlink power (ok (some m)) h = inr (inr (m, refl, h))

  abbrev Sound : Packet N T → ℕ → Dispatched N Q → Type 0
  Sound downlink power d = All (λ m. Carries downlink power m) d.messages × (length d.messages ≤ 2)

  retry-Sound :
      (power : ℕ) (downlink : Packet N T) (first : TxPk N Q)
      → Carries downlink power first
      → Sound downlink power (retry parse ack power downlink first)
  unfolding retry
  retry-Sound power downlink first h =
      elim (Response-cases downlink power _ (to_pull_resp-Response true power downlink)) [
        | inl (x, e) ↦ rw (retry, e) ((h, tt), omega arith)
        | inr (inl e) ↦ rw (retry, e) ((h, tt), omega arith)
        | inr (inr (second, e, h')) ↦ rw (retry, e) ((h, (h', tt)), omega arith)
      ]

  dispatched-Sound :
      (power : ℕ) (downlink : Packet N T)
      → Sound downlink power (dispatch_windows parse ack power downlink)
  unfolding dispatch_windows
  dispatched-Sound power downlink =
      elim (Response-cases downlink power _ (to_pull_resp-Response false power downlink)) [
        | inl (x, e) ↦ rw (dispatch_windows, e) (tt, omega arith)
        | inr (inl e) ↦ rw (dispatch_windows, e) (tt, omega arith)
        | inr (inr (first, e, h)) ↦ rw (dispatch_windows, e) (after (ack first) first h)
      ]
    where
      after :
          (a : Ack) (first : TxPk N Q)
          → Carries downlink power first
          → Sound downlink power (elim a [
            | sent ↦ record { messages = first ∷ []; panics = false }
            | too_early ↦ retry parse ack power downlink first
            | too_late ↦ retry parse ack power downlink first
            | other_error ↦ record { messages = first ∷ []; panics = false }
          ])
      after sent first h = ((h, tt), omega arith)
      after too_early first h = retry-Sound power downlink first h
      after too_late first h = retry-Sound power downlink first h
      after other_error first h = ((h, tt), omega arith)

  -- A downlink becomes two messages at most, and each carries its payload and is sent at the power
  -- that the region allows, the first and the second window alike.
  pub handle_downlink-Carries :
      {R C : Type 0} (negative : ℕ → Option ℕ) (self : Gateway R C) (downlink : Packet N T)
      (region_params : RegionParams R) (power : ℕ)
      → self.region_params ≡ some region_params
      → tx_power negative region_params ≡ some power
      → All
          (λ m. Carries downlink power m)
          (handle_downlink parse ack negative self downlink).messages
        × (length (handle_downlink parse ack negative self downlink).messages ≤ 2)
  unfolding handle_downlink
  handle_downlink-Carries negative self downlink region_params power known allowed =
      rw (handle_downlink, known, allowed) (dispatched-Sound power downlink)
