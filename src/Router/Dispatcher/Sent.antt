-- ===== src/Router/Dispatcher/Sent.antt =====
-- src/router/dispatcher.rs: the uplinks of a packet in each client's channel.
use gateway_rs.Base.{
  ℕ, suc, ◌<◌, ◌≡◌, ◌⊎◌, inl, inr, refl, arith, Option, none, some, List, [], ◌∷◌, ◌++◌, Eq,
  Bool-cases, map, if◌then◌else◌, leb, ◌==◌, if_both, ==_iff, ◌∙◌, retain,
}
use gateway_rs.Lorawan.Wire.{LittleEndian}
use gateway_rs.Router.Filter.{Hashing}
use gateway_rs.Router.Routing.{Routing, RoutingInformation}
use gateway_rs.Router.Dispatcher.{
  RouterKey, RouterEntry, Routers, Dispatcher, Effect, start_client, stop_client, uplink,
  is_removed, region_changed, region_params_changed, update_router, update_routers,
  handle_oui_routing_update, handle_routings, handle_routing_update, handle_region_params_update,
}
use gateway_rs.Router.Dispatcher.Table.{update_entry-cases}
use gateway_rs.Router.Dispatcher.Uplinks.{recipients, sends, handle_uplink-recipients}
use gateway_rs.Router.Dispatcher.Events.{handle_uplink}
use gateway_rs.Router.Dispatcher.Channels.{Rising, Separate, recipients-Rising}

module _ {V P R G : Type 0} where
  -- The packets among what the dispatcher sends that go to a channel.
  abbrev pub sent_to : ℕ → List (Effect V P R G) → List P
  sent_to i [] = []
  sent_to i (uplink j packet ∷ rest) = if j == i then packet ∷ sent_to i rest else sent_to i rest
  sent_to i (start_client j key ∷ rest) = sent_to i rest
  sent_to i (stop_client j ∷ rest) = sent_to i rest
  sent_to i (region_changed j region ∷ rest) = sent_to i rest
  sent_to i (region_params_changed params ∷ rest) = sent_to i rest

  pub sent_to-append :
      (i : ℕ) (xs ys : List (Effect V P R G)) → sent_to i (xs ++ ys) ≡ sent_to i xs ++ sent_to i ys
  sent_to-append i [] ys = refl
  sent_to-append i (uplink j packet ∷ rest) ys = elim (Bool-cases (j == i)) [
    | inl e ↦ rw (e, sent_to-append i rest ys) refl
    | inr e ↦ rw (e, sent_to-append i rest ys) refl
  ]
  sent_to-append i (start_client j key ∷ rest) ys = sent_to-append i rest ys
  sent_to-append i (stop_client j ∷ rest) ys = sent_to-append i rest ys
  sent_to-append i (region_changed j region ∷ rest) ys = sent_to-append i rest ys
  sent_to-append i (region_params_changed params ∷ rest) ys = sent_to-append i rest ys

module _ (R G : Type 0) {V P : Type 0} ⦃eq : Eq V⦄ ⦃le : LittleEndian⦄ ⦃hashing : Hashing⦄ where
  sent_to-below :
      (i low high : ℕ) (packet : P) (l : Routers V)
      → i < low
      → Rising low high l
      → sent_to i (sends {R = R} {G = G} packet l) ≡ []
  sent_to-below i low high packet [] h rising = refl
  sent_to-below i low high packet (r ∷ rest) h rising = elim (Bool-cases (r.1.dispatch == i)) [
    | inl e ↦ absurd (omega (arith, (==_iff r.1.dispatch i).0 e, rising.0))
    | inr e ↦
        rw e
          (sent_to-below i (suc r.1.dispatch) high packet rest (omega (arith, rising.0)) rising.1)
  ]

  -- One packet goes to a channel once at most.
  pub sent_to-sends :
      (i low high : ℕ) (packet : P) (l : Routers V)
      → Rising low high l
      → (sent_to i (sends {R = R} {G = G} packet l) ≡ [])
        ⊎ (sent_to i (sends {R = R} {G = G} packet l) ≡ packet ∷ [])
  sent_to-sends i low high packet [] rising = inl refl
  sent_to-sends i low high packet (r ∷ rest) rising = elim (Bool-cases (r.1.dispatch == i)) [
    | inl e ↦
        let after =
          sent_to-below i (suc r.1.dispatch) high packet rest
            (omega (arith, (==_iff r.1.dispatch i).0 e)) rising.1 in
        inr (rw (e, after) refl)
    | inr e ↦ rw e (sent_to-sends i (suc r.1.dispatch) high packet rest rising.1)
  ]

module _ (P R G : Type 0) {V : Type 0} where
  stops-sent_to :
      (i : ℕ) (l : Routers V)
      → sent_to {V = V} {P = P} {R = R} {G = G} i
          (map (λ (r : RouterKey V × RouterEntry V). stop_client r.1.dispatch) l)
        ≡ []
  stops-sent_to i [] = refl
  stops-sent_to i (r ∷ rest) = stops-sent_to i rest

  regions-sent_to :
      (i : ℕ) (region : R) (l : Routers V)
      → sent_to {V = V} {P = P} {R = R} {G = G} i
          (map (λ (r : RouterKey V × RouterEntry V). region_changed r.1.dispatch region) l)
        ≡ []
  regions-sent_to i region [] = refl
  regions-sent_to i region (r ∷ rest) = regions-sent_to i region rest

  module _ ⦃eq : Eq V⦄ where
    sent_to-update_router :
        (i : ℕ) (routing : Routing V) (uri : V) (self : Dispatcher V R)
        → sent_to i (update_router {P = P} {G = G} routing uri self).1 ≡ []
    unfolding update_router
    sent_to-update_router i routing uri self =
        let key : RouterKey V = record { oui = routing.oui; uri = uri } in
        elim (update_entry-cases key routing self.routers) [
          | inl (e, absent) ↦ rw (update_router, e) refl
          | inr (l', e, updated) ↦ rw (update_router, e) refl
        ]

    sent_to-update_routers :
        (i : ℕ) (routing : Routing V) (uris : List V) (self : Dispatcher V R)
        → sent_to i (update_routers {P = P} {G = G} routing uris self).1 ≡ []
    unfolding update_routers
    sent_to-update_routers i routing [] self = refl
    sent_to-update_routers i routing (uri ∷ uris) self =
        let first = update_router {P = P} {G = G} routing uri self in
        sent_to-append i first.1 (update_routers {P = P} {G = G} routing uris first.0).1
        ∙ rw (sent_to-update_router i routing uri self)
            (sent_to-update_routers i routing uris first.0)

    sent_to-handle_oui_routing_update :
        (i : ℕ) (routing : Routing V) (self : Dispatcher V R)
        → sent_to i (handle_oui_routing_update {P = P} {G = G} routing self).1 ≡ []
    unfolding handle_oui_routing_update
    sent_to-handle_oui_routing_update i routing self =
        let r = update_routers {P = P} {G = G} routing routing.uris self in
        let gone = retain (is_removed routing) r.0.routers in
        sent_to-append i r.1
          (map (λ (x : RouterKey V × RouterEntry V). stop_client x.1.dispatch) gone)
        ∙ rw (sent_to-update_routers i routing routing.uris self) (stops-sent_to i gone)

    sent_to-handle_routings :
        (i : ℕ) (protos : List (Option (Routing V))) (self : Dispatcher V R)
        → sent_to i (handle_routings {P = P} {G = G} protos self).1 ≡ []
    unfolding handle_routings
    sent_to-handle_routings i [] self = refl
    sent_to-handle_routings i (none ∷ rest) self = sent_to-handle_routings i rest self
    sent_to-handle_routings i (some routing ∷ rest) self =
        let first = handle_oui_routing_update {P = P} {G = G} routing self in
        sent_to-append i first.1 (handle_routings {P = P} {G = G} rest first.0).1
        ∙ rw (sent_to-handle_oui_routing_update i routing self)
            (sent_to-handle_routings i rest first.0)

    pub sent_to-handle_routing_update :
        (i height : ℕ) (routings : Option (List (Option (Routing V)))) (self : Dispatcher V R)
        → sent_to i (handle_routing_update {P = P} {G = G} height routings self).1 ≡ []
    unfolding handle_routing_update
    sent_to-handle_routing_update i height none self =
        if_both (λ (r : Dispatcher V R × List (Effect V P R G)). sent_to i r.1 ≡ [])
          (leb height self.routing_height) (self, []) (self, []) refl refl
    sent_to-handle_routing_update i height (some protos) self =
        if_both (λ (r : Dispatcher V R × List (Effect V P R G)). sent_to i r.1 ≡ [])
          (leb height self.routing_height) (self, []) _ refl (sent_to-handle_routings i protos self)

    pub sent_to-handle_region_params_update :
        (i : ℕ) (region_of : G → R) (height : ℕ) (params : Option G) (self : Dispatcher V R)
        → sent_to i (handle_region_params_update {P = P} region_of height params self).1 ≡ []
    unfolding handle_region_params_update
    sent_to-handle_region_params_update i region_of height none self =
        if_both (λ (r : Dispatcher V R × List (Effect V P R G)). sent_to i r.1 ≡ [])
          (leb height self.region_height) (self, []) (self, []) refl refl
    sent_to-handle_region_params_update i region_of height (some params) self =
        if_both (λ (r : Dispatcher V R × List (Effect V P R G)). sent_to i r.1 ≡ [])
          (leb height self.region_height) (self, []) _ refl
          (regions-sent_to i (region_of params) self.routers)

module _ {V P R : Type 0} (G : Type 0) ⦃eq : Eq V⦄ ⦃le : LittleEndian⦄ ⦃hashing : Hashing⦄
    (routing_of : P → Option RoutingInformation) where
  -- An uplink reaches a channel once or not at all.
  pub sent_to-handle_uplink :
      (i : ℕ) (packet : P) (self : Dispatcher V R)
      → Separate self
      → (sent_to i (handle_uplink {G = G} routing_of packet self) ≡ [])
        ⊎ (sent_to i (handle_uplink {G = G} routing_of packet self) ≡ packet ∷ [])
  sent_to-handle_uplink i packet self h =
      rw (handle_uplink-recipients {G = G} routing_of packet self) (
        sent_to-sends R G i 0 self.started packet (recipients routing_of packet self)
          (recipients-Rising routing_of packet self h))
