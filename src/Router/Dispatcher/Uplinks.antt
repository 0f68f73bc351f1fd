-- ===== src/Router/Dispatcher/Uplinks.antt =====
-- Which clients an uplink is sent to.
use gateway_rs.Base.{
  ◌≡◌, ◌∙◌, refl, ap, Option, none, some, List, [], ◌∷◌, Eq, Bool-cases, Option-cases, inl, inr,
  Bool, if◌then◌else◌, map, any, retain, retain-unmatched,
}
use gateway_rs.Lorawan.Wire.{LittleEndian}
use gateway_rs.Router.Filter.{Hashing}
use gateway_rs.Router.Routing.{RoutingInformation, matches_routing_info}
use gateway_rs.Router.Dispatcher.{RouterKey, RouterEntry, Routers, Dispatcher, Effect, uplink}
use gateway_rs.Router.Dispatcher.Events.{send_matching, send_default, handle_uplink}

module _ {V P : Type 0} ⦃eq : Eq V⦄ ⦃le : LittleEndian⦄ ⦃hashing : Hashing⦄ where
  abbrev pub is_match : (P → Option RoutingInformation) → P → RouterKey V × RouterEntry V → Bool
  is_match routing_of packet r = matches_routing_info r.1.routing (routing_of packet)

module _ {V : Type 0} ⦃eq : Eq V⦄ where
  abbrev pub is_default : List V → RouterKey V × RouterEntry V → Bool
  is_default defaults r = any (λ v. eq.beq v r.0.uri) defaults

module _ {V P R : Type 0} ⦃eq : Eq V⦄ ⦃le : LittleEndian⦄ ⦃hashing : Hashing⦄ where
  -- The routers that a packet is for: those that match it or, where none does, the default ones.
  abbrev pub recipients : (P → Option RoutingInformation) → P → Dispatcher V R → Routers V
  recipients routing_of packet self =
      if any (is_match routing_of packet) self.routers
      then retain (is_match routing_of packet) self.routers
      else elim self.default_routers [
        | none ↦ []
        | some defaults ↦ retain (is_default defaults) self.routers
      ]

  abbrev pub sends : {G : Type 0} → P → Routers V → List (Effect V P R G)
  sends packet l = map (λ (r : RouterKey V × RouterEntry V). uplink r.1.dispatch packet) l

module _ {V P R G : Type 0} ⦃eq : Eq V⦄ ⦃le : LittleEndian⦄ ⦃hashing : Hashing⦄
    (routing_of : P → Option RoutingInformation) where
  send_matching-eq :
      (packet : P) (l : Routers V)
      → send_matching {R = R} {G = G} routing_of packet l
        ≡ (any (is_match routing_of packet) l, sends packet (retain (is_match routing_of packet) l))
  unfolding send_matching
  send_matching-eq packet [] = refl
  send_matching-eq packet ((key, entry) ∷ rest) =
      let ih = send_matching-eq packet rest in
      elim (Bool-cases (matches_routing_info entry.routing (routing_of packet))) [
        | inl hit ↦ rw (hit, ih) refl
        | inr miss ↦ rw (miss, ih) refl
      ]

  send_default-eq :
      (defaults : List V) (packet : P) (l : Routers V)
      → send_default {R = R} {G = G} defaults packet l
        ≡ sends packet (retain (is_default defaults) l)
  unfolding send_default
  send_default-eq defaults packet [] = refl
  send_default-eq defaults packet ((key, entry) ∷ rest) =
      let ih = send_default-eq defaults packet rest in
      elim (Bool-cases (any (λ v. eq.beq v key.uri) defaults)) [
        | inl hit ↦ rw (hit, ih) refl
        | inr miss ↦ rw (miss, ih) refl
      ]

  -- An uplink is sent to exactly the clients that it is for, once for each, in the order of the map:
  -- to the routers that match its routing information or, where none does, to those that stand under
  -- the uri of a default router.
  pub handle_uplink-recipients :
      (packet : P) (self : Dispatcher V R)
      → handle_uplink {G = G} routing_of packet self
        ≡ sends packet (recipients routing_of packet self)
  unfolding handle_uplink
  handle_uplink-recipients packet self =
      let matching = send_matching-eq packet self.routers in
      let flag : (send_matching {R = R} {G = G} routing_of packet self.routers).0
          ≡ any (is_match routing_of packet) self.routers =
        ap (λ (p : Bool × List (Effect V P R G)). p.0) matching in
      let sent : (send_matching {R = R} {G = G} routing_of packet self.routers).1
          ≡ sends packet (retain (is_match routing_of packet) self.routers) =
        ap (λ (p : Bool × List (Effect V P R G)). p.1) matching in
      elim (Bool-cases (any (is_match routing_of packet) self.routers)) [
        | inl handled ↦ rw (handle_uplink, flag, handled) sent
        | inr unhandled ↦
            let empty = retain-unmatched (is_match routing_of packet) self.routers unhandled in
            elim (Option-cases self.default_routers) [
              | inl e ↦ rw (handle_uplink, flag, unhandled, e) (sent ∙ rw empty refl)
              | inr (defaults, e) ↦
                  rw (handle_uplink, flag, unhandled, e, sent, empty)
                    (send_default-eq defaults packet self.routers)
            ]
      ]
