-- ===== src/Router/Client/Delivery.antt =====
-- Which packets a client tries to deliver, in which order, and what is left.
use mathlib.Core.Path.{subst}
use gateway_rs.Router.Store.Window.{last, store_all-last}
use gateway_rs.Base.{
  ℕ, ◌≡◌, refl, sym, ap, ◌∙◌, List, [], ◌∷◌, ◌++◌, map, Option, none, some, Result, ok, err,
  Result-cases, inl, inr, append_assoc, append-nil, ◌⊎◌, length, ◌≤◌,
}
use gateway_rs.Router.Store.{QuePacket, hold_time, store_waiting_packet}
use gateway_rs.Router.Client.{
  StateChannelPacket, Msg, Call, Outside, RouterClient, sign, route, downlink, packet_msg, response,
  other, state_channel_packet, to_downlink, send_packet, handle_answer, send_loop,
  send_waiting_packets, handle_uplink,
}

module _ {P R K S : Type 0} where
  -- The packets that were signed, and those that were sent to the router.
  abbrev pub signed : List (Call P R K S) → List P
  signed [] = []
  signed (sign draft ∷ calls) = draft.packet ∷ signed calls
  signed (route m ∷ calls) = signed calls
  signed (downlink p ∷ calls) = signed calls

  abbrev pub routed : List (Call P R K S) → List P
  routed [] = []
  routed (route (packet_msg p) ∷ calls) = p.packet ∷ routed calls
  routed (route (response p) ∷ calls) = routed calls
  routed (route other ∷ calls) = routed calls
  routed (sign draft ∷ calls) = routed calls
  routed (downlink p ∷ calls) = routed calls

  signed-append : (xs ys : List (Call P R K S)) → signed (xs ++ ys) ≡ signed xs ++ signed ys
  signed-append [] ys = refl
  signed-append (sign draft ∷ xs) ys = ap (◌∷◌ draft.packet) (signed-append xs ys)
  signed-append (route m ∷ xs) ys = signed-append xs ys
  signed-append (downlink p ∷ xs) ys = signed-append xs ys

  routed-append : (xs ys : List (Call P R K S)) → routed (xs ++ ys) ≡ routed xs ++ routed ys
  routed-append [] ys = refl
  routed-append (route (packet_msg p) ∷ xs) ys = ap (◌∷◌ p.packet) (routed-append xs ys)
  routed-append (route (response p) ∷ xs) ys = routed-append xs ys
  routed-append (route other ∷ xs) ys = routed-append xs ys
  routed-append (sign draft ∷ xs) ys = routed-append xs ys
  routed-append (downlink p ∷ xs) ys = routed-append xs ys

  -- A signature and then a message to the router.
  sign_and_route :
      (calls : List (Call P R K S)) (draft p : StateChannelPacket P R K S)
      → (signed ((calls ++ sign draft ∷ []) ++ route (packet_msg p) ∷ [])
          ≡ signed calls ++ draft.packet ∷ [])
        × (routed ((calls ++ sign draft ∷ []) ++ route (packet_msg p) ∷ [])
            ≡ routed calls ++ p.packet ∷ [])
  sign_and_route calls draft p = (
    rw (append_assoc calls (sign draft ∷ []) (route (packet_msg p) ∷ []))
        (signed-append calls (sign draft ∷ route (packet_msg p) ∷ [])),
    rw (append_assoc calls (sign draft ∷ []) (route (packet_msg p) ∷ []))
        (routed-append calls (sign draft ∷ route (packet_msg p) ∷ [])),
  )

abbrev packets : {P : Type 0} → List (QuePacket P) → List P
packets l = map (λ q. q.packet) l

module _ {P R K S E : Type 0} (out : Outside P R K S E) where
  send_packet-calls :
      (keypair : K) (region : R) (q : QuePacket P) (calls : List (Call P R K S))
      → (signed (send_packet out keypair region q calls).1 ≡ signed calls ++ q.packet ∷ [])
        × (((e : E) × ((send_packet out keypair region q calls).0 ≡ err e))
            ⊎ ((reply : Option (Msg P R K S)) × ((send_packet out keypair region q calls).0
                  ≡ ok reply)
                × (routed (send_packet out keypair region q calls).1
                    ≡ routed calls ++ q.packet ∷ [])))
  unfolding send_packet state_channel_packet
  send_packet-calls keypair region q calls =
      let draft : StateChannelPacket P R K S = record {
        packet = q.packet;
        signature = none;
        hotspot = keypair;
        region = region;
        hold_time = hold_time (out.clock calls) q;
      } in
      elim (Result-cases (out.signature_of calls draft)) [
        | inl (s, e) ↦
            let ready : StateChannelPacket P R K S = record {
              packet = q.packet;
              signature = some s;
              hotspot = keypair;
              region = region;
              hold_time = hold_time (out.clock calls) q;
            } in
            let (one, two) = sign_and_route calls draft ready in
            elim (Result-cases (out.answer (calls ++ sign draft ∷ []) (packet_msg ready))) [
              | inl (reply, e') ↦ rw (send_packet, e, e') (one, inr (reply, refl, two))
              | inr (x, e') ↦ rw (send_packet, e, e') (one, inl (x, refl))
            ]
        | inr (x, e) ↦ rw (send_packet, e) (signed-append calls (sign draft ∷ []), inl (x, refl))
      ]

  handle_answer-calls :
      (reply : Option (Msg P R K S)) (calls : List (Call P R K S))
      → (signed (handle_answer out reply calls) ≡ signed calls)
        × (routed (handle_answer out reply calls) ≡ routed calls)
  unfolding handle_answer to_downlink
  handle_answer-calls none calls = (refl, refl)
  handle_answer-calls (some (packet_msg p)) calls = (refl, refl)
  handle_answer-calls (some other) calls = (refl, refl)
  handle_answer-calls (some (response none)) calls = (refl, refl)
  handle_answer-calls (some (response (some p))) calls = (
    signed-append calls (downlink p ∷ []) ∙ append-nil (signed calls),
    routed-append calls (downlink p ∷ []) ∙ append-nil (routed calls),
  )

  -- What the loop has done with a queue: the packets that it tried, in order, and the ones left.
  pub record Sends (queue : List (QuePacket P)) (calls : List (Call P R K S))
      (result : Result E (Unit {0})) (left : List (QuePacket P)) (after : List (Call P R K S))
      : Type 0 where
    pub tried : List (QuePacket P)
    pub in_order : queue ≡ tried ++ left
    pub signed_once : signed after ≡ signed calls ++ packets tried
    pub ended :
        ((result ≡ ok tt) × (left ≡ []) × (routed after ≡ routed calls ++ packets tried))
        ⊎ ((e : E) × (lost : QuePacket P) × (front : List (QuePacket P)) × (result ≡ err e)
            × (tried ≡ front ++ lost ∷ []))

  send_loop-Sends :
      (keypair : K) (region : R) (queue : List (QuePacket P)) (calls : List (Call P R K S))
      → Sends queue calls
          (send_loop out keypair region queue calls).0
          (send_loop out keypair region queue calls).1
          (send_loop out keypair region queue calls).2
  unfolding send_loop
  send_loop-Sends keypair region [] calls = record {
    tried = [];
    in_order = refl;
    signed_once = sym (append-nil (signed calls));
    ended = inl (refl, refl, sym (append-nil (routed calls)));
  }
  send_loop-Sends keypair region (q ∷ rest) calls =
      let (once, cases) = send_packet-calls keypair region q calls in
      elim cases [
        | inl (e, failed) ↦
            rw (send_loop, failed)
              record {
                tried = q ∷ [];
                in_order = refl;
                signed_once = once;
                ended = inr (e, q, [], refl, refl);
              }
        | inr (reply, sent, arrived) ↦
            let calls' = (send_packet out keypair region q calls).1 in
            let (same, same') = handle_answer-calls reply calls' in
            let more = send_loop-Sends keypair region rest (handle_answer out reply calls') in
            rw (send_loop, sent)
              record {
                tried = q ∷ more.tried;
                in_order = ap (◌∷◌ q) more.in_order;
                signed_once =
                    more.signed_once
                    ∙ rw (same, once)
                        (append_assoc (signed calls) (q.packet ∷ []) (packets more.tried));
                ended = elim more.ended [
                  | inl (done, none_left, all) ↦ inl (
                    done,
                    none_left,
                    all
                        ∙ rw (same', arrived)
                            (append_assoc (routed calls) (q.packet ∷ []) (packets more.tried)),
                  )
                  | inr (e, lost, front, failed, split) ↦
                      inr (e, lost, q ∷ front, failed, ap (◌∷◌ q) split)
                ];
              }
      ]

  -- After an uplink, a client has tried its waiting packets and the new one in the order in which
  -- they came, without those that the store had no room for, each at most once, and the ones that it
  -- did not try are waiting. Either all of them were sent to the router, in that order, and none is
  -- left, or the uplink fails, and the last packet that was tried is not in the store any more.
  pub handle_uplink-Sends :
      (p : P) (received : ℕ) (self : RouterClient P R K) (calls : List (Call P R K S))
      → length self.store.waiting_packets ≤ self.store.max_packets
      → Sends
          (last self.store.max_packets
            (self.store.waiting_packets ++ record { received = received; packet = p } ∷ []))
          calls
          (handle_uplink out p received self calls).0
          (handle_uplink out p received self calls).1.store.waiting_packets
          (handle_uplink out p received self calls).2
  unfolding handle_uplink send_waiting_packets
  handle_uplink-Sends p received self calls h =
      let (window, _, _) =
        store_all-last (record { received = received; packet = p } ∷ []) self.store h in
      subst
        (λ (queue : List (QuePacket P)).
          Sends queue calls (handle_uplink out p received self calls).0
            (handle_uplink out p received self calls).1.store.waiting_packets
            (handle_uplink out p received self calls).2)
        window
        (send_loop-Sends self.keypair self.region
          (store_waiting_packet p received self.store).waiting_packets calls)
