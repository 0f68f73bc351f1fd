-- ===== src/Router/Store/Window.antt =====
-- The store as a window on the packets that were stored: the last ones.
use mathlib.Core.Path.{subst}
use gateway_rs.Base.{
  ℕ, zero, suc, ◌+◌, ◌-◌, ◌<◌, ◌≤◌, ◌≡◌, refl, sym, ap, ◌∙◌, arith, List, [], ◌∷◌, ◌++◌, length,
  drop, take, retain, length-append, length-drop, append_assoc, append-nil, ltb, leb, if◌then◌else◌,
  true, All, Bool-cases, inl, inr, leb→le, length-retain-le, retain-All,
}
use gateway_rs.Router.Store.{
  QuePacket, RouterStore, hold_time, waiting_packets_len, pop_waiting_packet, store_waiting_packet,
  gc_waiting_packets,
}

module _ {ℓ} {A : Type ℓ} where
  -- The last `n` elements of a list.
  abbrev pub last : ℕ → List A → List A
  last n xs = drop (length xs - n) xs

  drop-[] : (n : ℕ) → drop {A = A} n [] ≡ []
  drop-[] zero = refl
  drop-[] (suc n) = refl

  drop-suc : (m n : ℕ) (x : A) (xs : List A) → n ≡ suc m → drop n (x ∷ xs) ≡ drop m xs
  drop-suc m n x xs e = ap (λ k. drop k (x ∷ xs)) e

  drop-zero : (n : ℕ) (xs : List A) → n ≡ 0 → drop n xs ≡ xs
  drop-zero n xs e = ap (λ k. drop k xs) e

  All-take-zero : (Q : A → Type 0) (n : ℕ) (xs : List A) → n ≡ 0 → All Q (take n xs)
  All-take-zero Q zero xs e = tt
  All-take-zero Q (suc n) xs e = absurd (omega arith)

  All-take-suc :
      (Q : A → Type 0) (n m : ℕ) (x : A) (xs : List A)
      → n ≡ suc m
      → Q x
      → All Q (take m xs)
      → All Q (take n (x ∷ xs))
  All-take-suc Q n m x xs e first later = rw e (first, later)

  drop-drop : (m n : ℕ) (xs : List A) → drop m (drop n xs) ≡ drop (m + n) xs
  drop-drop m zero xs = ap (λ k. drop k xs) (omega arith)
  drop-drop m (suc n) [] = drop-[] m ∙ sym (drop-[] (m + suc n))
  drop-drop m (suc n) (x ∷ xs) =
      drop-drop m n xs ∙ sym (drop-suc (m + n) (m + suc n) x xs (omega arith))

  drop_none : (xs : List A) (n : ℕ) → length xs ≤ n → last n xs ≡ xs
  drop_none xs n h = drop-zero (length xs - n) xs (omega arith)

  drop-++ : (n : ℕ) (xs ys : List A) → n ≤ length xs → drop n xs ++ ys ≡ drop n (xs ++ ys)
  drop-++ zero xs ys h = refl
  drop-++ (suc n) [] ys h = absurd (omega arith)
  drop-++ (suc n) (x ∷ xs) ys h = drop-++ n xs ys (omega arith)

  last-last : (n : ℕ) (xs ys : List A) → last n (last n xs ++ ys) ≡ last n (xs ++ ys)
  last-last n xs ys = rw (drop-++ (length xs - n) xs ys (omega arith)) (
      drop-drop (length (drop (length xs - n) (xs ++ ys)) - n) (length xs - n) (xs ++ ys)
      ∙ ap (λ k. drop k (xs ++ ys))
          (omega (arith, length-drop (length xs - n) (xs ++ ys), length-append xs ys)))

module _ {P : Type 0} where
  -- Packets stored one after the other.
  abbrev pub store_all : List (QuePacket P) → RouterStore P → RouterStore P
  store_all [] self = self
  store_all (q ∷ qs) self = store_all qs (store_waiting_packet q.packet q.received self)

  abbrev store_of : List (QuePacket P) → ℕ → RouterStore P
  store_of packets max_packets = record { waiting_packets = packets; max_packets = max_packets }

  pop_waiting_packet-drop :
      (l : List (QuePacket P)) (m : ℕ)
      → (pop_waiting_packet (store_of l m)).1 ≡ store_of (drop 1 l) m
  unfolding pop_waiting_packet
  pop_waiting_packet-drop [] m = refl
  pop_waiting_packet-drop (q ∷ l) m = refl

  push_lem :
      (l : List (QuePacket P)) (m : ℕ)
      → length l ≤ suc m
      → (if ltb m (length l) then (pop_waiting_packet (store_of l m)).1 else store_of l m)
        ≡ store_of (last m l) m
  push_lem l m h = elim (Bool-cases (ltb m (length l))) [
    | inl full ↦ rw full (
        let one : 1 ≡ length l - m = ground arith in
        pop_waiting_packet-drop l m ∙ ap (λ k. store_of (drop k l) m) one)
    | inr room ↦
        rw room
          (let whole : 0 ≡ length l - m = ground arith in ap (λ k. store_of (drop k l) m) whole)
  ]

  store_waiting_packet-last :
      (q : QuePacket P) (self : RouterStore P)
      → length self.waiting_packets ≤ self.max_packets
      → store_waiting_packet q.packet q.received self ≡ record {
        waiting_packets = last self.max_packets (self.waiting_packets ++ q ∷ []);
        max_packets = self.max_packets;
      }
  unfolding store_waiting_packet waiting_packets_len
  store_waiting_packet-last q self h =
      push_lem (self.waiting_packets ++ q ∷ []) self.max_packets
        (omega (arith, length-append self.waiting_packets (q ∷ [])))

  -- However many packets are stored one after the other, the store holds the last ones of those
  -- that were waiting and those that were stored, as many as it may hold, in the order in which
  -- they came, and no more than that number: for a store that does not hold too many to begin with.
  pub store_all-last :
      (qs : List (QuePacket P)) (self : RouterStore P)
      → length self.waiting_packets ≤ self.max_packets
      → ((store_all qs self).waiting_packets ≡ last self.max_packets (self.waiting_packets ++ qs))
        × (length (store_all qs self).waiting_packets ≤ self.max_packets)
        × ((store_all qs self).max_packets ≡ self.max_packets)
  store_all-last [] self h = (
    sym (drop_none self.waiting_packets self.max_packets h)
        ∙ ap (last self.max_packets) (sym (append-nil self.waiting_packets)),
    h,
    refl,
  )
  store_all-last (q ∷ qs) self h =
      let all = self.waiting_packets ++ q ∷ [] in
      let stored = store_waiting_packet-last q self h in
      let fits = length-drop (length all - self.max_packets) all in
      let (e, bound, m) =
        store_all-last qs (store_of (last self.max_packets all) self.max_packets)
          (omega (arith, fits)) in
      let e' =
        e
        ∙ last-last self.max_packets all qs
        ∙ ap (last self.max_packets) (append_assoc self.waiting_packets (q ∷ []) qs) in
      subst
        (λ (first : RouterStore P).
          ((store_all qs first).waiting_packets
            ≡ last self.max_packets (self.waiting_packets ++ q ∷ qs))
          × (length (store_all qs first).waiting_packets ≤ self.max_packets)
          × ((store_all qs first).max_packets ≡ self.max_packets))
        (sym stored) (e', bound, m)

  -- The packets in a store came in order.
  abbrev pub Ordered : List (QuePacket P) → Type 0
  Ordered [] = Unit {0}
  Ordered (q ∷ qs) = All (λ (later : QuePacket P). q.received ≤ later.received) qs × Ordered qs

  All-fresh :
      (now duration received : ℕ) (l : List (QuePacket P))
      → now - received ≤ duration
      → All (λ (later : QuePacket P). received ≤ later.received) l
      → All (λ q. leb (hold_time now q) duration ≡ true) l
  unfolding hold_time
  All-fresh now duration received [] h ordered = tt
  All-fresh now duration received (q ∷ l) h ordered =
      (ground arith, All-fresh now duration received l h ordered.1)

  kept_count :
      (now duration : ℕ) (l : List (QuePacket P))
      → length (retain (λ q. leb (hold_time now q) duration) l) ≤ length l
  kept_count now duration l = length-retain-le _ l

  -- The packets that are left, at the end, and those that are removed, at the front.
  abbrev kept : ℕ → ℕ → List (QuePacket P) → List (QuePacket P)
  kept now duration l = retain (λ q. leb (hold_time now q) duration) l

  abbrev removed : ℕ → ℕ → List (QuePacket P) → ℕ
  removed now duration l = length l - length (kept now duration l)

  kept_front :
      (now duration : ℕ) (l : List (QuePacket P))
      → Ordered l
      → (kept now duration l ≡ drop (removed now duration l) l)
        × All (λ q. hold_time now q ≤ duration) (kept now duration l)
        × All (λ q. duration < hold_time now q) (take (removed now duration l) l)
  unfolding hold_time
  kept_front now duration [] ordered = (refl, tt, tt)
  kept_front now duration (q ∷ l) ordered =
      let (e, fresh_ones, stale_ones) = kept_front now duration l ordered.1 in
      elim (Bool-cases (leb (hold_time now q) duration)) [
        | inl fresh ↦
            let whole =
              retain-All _ l (All-fresh now duration q.received l (leb→le _ _ fresh) ordered.0) in
            rw fresh (
              rw whole (sym (drop-zero (suc (length l) - suc (length l)) (q ∷ l) (omega arith))),
              (leb→le _ _ fresh, fresh_ones),
              rw whole (All-take-zero _ (suc (length l) - suc (length l)) (q ∷ l) (omega arith)),
            )
        | inr stale ↦
            let one : suc (length l) - length (kept now duration l) ≡ suc (removed now duration l) =
              omega (arith, kept_count now duration l) in
            rw stale (
              e ∙ sym (drop-suc _ _ q l one),
              fresh_ones,
              All-take-suc _ _ _ q l one (ground arith) stale_ones,
            )
      ]

  -- Collecting removes the packets at the front that have waited too long, as many as it returns: each
  -- of those that are removed has, and none of those that are left has, in a store where the packets
  -- came in order.
  pub gc_waiting_packets-drop :
      (now duration : ℕ) (self : RouterStore P)
      → Ordered self.waiting_packets
      → ((gc_waiting_packets now duration self).1.waiting_packets
          ≡ drop (gc_waiting_packets now duration self).0 self.waiting_packets)
        × All
            (λ q. hold_time now q ≤ duration)
            (gc_waiting_packets now duration self).1.waiting_packets
        × All
            (λ q. duration < hold_time now q)
            (take (gc_waiting_packets now duration self).0 self.waiting_packets)
  unfolding gc_waiting_packets
  gc_waiting_packets-drop now duration self ordered =
      kept_front now duration self.waiting_packets ordered
