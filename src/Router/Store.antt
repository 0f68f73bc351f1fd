-- ===== src/Router/Store.antt =====
-- src/router/store.rs. An `Instant` is a number of milliseconds; `elapsed` stops at 0, as the
-- standard library documents. One reading of the clock stands for those of a call.
pub mod Window
use gateway_rs.Base.{
  ℕ, ◌-◌, List, [], ◌∷◌, ◌++◌, Option, none, some, Result, ok, length, retain, ltb, leb,
  if◌then◌else◌,
}

pub record QuePacket (P : Type 0) : Type 0 where
  pub received : ℕ
  pub packet : P

pub record RouterStore (P : Type 0) : Type 0 where
  pub waiting_packets : List (QuePacket P)
  pub max_packets : ℕ

module _ {P : Type 0} where
  unfoldable pub hold_time : ℕ → QuePacket P → ℕ
  hold_time now packet = now - packet.received

  unfoldable pub new : ℕ → RouterStore P
  new max_packets = record { waiting_packets = []; max_packets = max_packets }

  unfoldable pub waiting_packets_len : RouterStore P → ℕ
  waiting_packets_len self = length self.waiting_packets

  -- `VecDeque::pop_front`, without the element.
  abbrev pub rest_of : List (QuePacket P) → List (QuePacket P)
  rest_of [] = []
  rest_of (first ∷ rest) = rest

  unfoldable pub pop_waiting_packet : RouterStore P → Option (QuePacket P) × RouterStore P
  pop_waiting_packet self = elim self.waiting_packets [
    | [] ↦ (none, self)
    | first ∷ rest ↦ (some first, record { waiting_packets = rest; max_packets = self.max_packets })
  ]

  -- It returns `Ok(())` always.
  unfoldable pub store_waiting_packet : P → ℕ → RouterStore P → RouterStore P
  store_waiting_packet packet received self =
      let pushed : RouterStore P = record {
        waiting_packets =
            self.waiting_packets ++ record { received = received; packet = packet } ∷ [];
        max_packets = self.max_packets;
      } in
      if ltb self.max_packets (waiting_packets_len pushed)
      then (pop_waiting_packet pushed).1
      else pushed

  -- The number of packets that were removed, and the store.
  unfoldable pub gc_waiting_packets : ℕ → ℕ → RouterStore P → ℕ × RouterStore P
  gc_waiting_packets now duration self =
      let kept = retain (λ packet. leb (hold_time now packet) duration) self.waiting_packets in
      (
        length self.waiting_packets - length kept,
        record { waiting_packets = kept; max_packets = self.max_packets },
      )
