-- ===== src/Router/Dispatcher/Channels.antt =====
-- src/router/dispatcher.rs: the channels of the clients. Each client that is started has one of its own.
use gateway_rs.Base.{
  ℕ, suc, ◌+◌, ◌≤◌, inl, inr, arith, Bool, false, Option, none, some, List, [], ◌∷◌, ◌++◌, Eq,
  Bool-cases, Option-cases, any, retain, not, leb, if_both,
}
use gateway_rs.Lorawan.Wire.{LittleEndian}
use gateway_rs.Router.Filter.{Hashing}
use gateway_rs.Router.Routing.{Routing, RoutingInformation}
use gateway_rs.Router.Dispatcher.{
  RouterKey, RouterEntry, Routers, Dispatcher, Effect, is_removed, update_router, update_routers,
  handle_oui_routing_update, handle_routings, handle_routing_update, handle_region_params_update,
  handle_check, check_gateway, prepare_gateway_change,
}
use gateway_rs.Router.Dispatcher.Events.{
  Event, routing_message, region_message, height_answer, uplink_message, gateway_setup,
  gateway_change, step,
}
use gateway_rs.Router.Dispatcher.Table.{Updated, here, there, update_entry-cases}
use gateway_rs.Router.Dispatcher.Uplinks.{is_match, is_default, recipients}

module _ {V : Type 0} where
  -- The channels of a map rise, from the first number up to before the last.
  abbrev pub Rising : ℕ → ℕ → Routers V → Type 0
  Rising low high [] = low ≤ high
  Rising low high (r ∷ rest) = (low ≤ r.1.dispatch) × Rising (suc r.1.dispatch) high rest

  pub Rising-low :
      (low low' high : ℕ) (l : Routers V) → low' ≤ low → Rising low high l → Rising low' high l
  Rising-low low low' high [] h rising = omega arith
  Rising-low low low' high (r ∷ rest) h rising = (omega (arith, rising.0), rising.1)

  Rising-bound : (low high : ℕ) (l : Routers V) → Rising low high l → low ≤ high
  Rising-bound low high [] rising = rising
  Rising-bound low high (r ∷ rest) rising =
      omega (arith, rising.0, Rising-bound (suc r.1.dispatch) high rest rising.1)

  Rising-append :
      (low high : ℕ) (l : Routers V) (key : RouterKey V) (routing : Routing V)
      → Rising low high l
      → Rising low (high + 1) (l ++ (key, record { routing = routing; dispatch = high }) ∷ [])
  Rising-append low high [] key routing rising = (rising, omega arith)
  Rising-append low high (r ∷ rest) key routing rising =
      (rising.0, Rising-append (suc r.1.dispatch) high rest key routing rising.1)

  pub Rising-retain :
      (p : RouterKey V × RouterEntry V → Bool) (low high : ℕ) (l : Routers V)
      → Rising low high l
      → Rising low high (retain p l)
  Rising-retain p low high [] rising = rising
  Rising-retain p low high (r ∷ rest) rising =
      let kept = Rising-retain p (suc r.1.dispatch) high rest rising.1 in
      if_both (Rising low high) (p r) (r ∷ retain p rest) (retain p rest) (rising.0, kept)
        (Rising-low (suc r.1.dispatch) low high (retain p rest) (omega (arith, rising.0)) kept)

  module _ ⦃eq : Eq V⦄ where
    Updated-Rising :
        (key : RouterKey V) (routing : Routing V) (low high : ℕ) {l l' : Routers V}
        → Updated key routing l l'
        → Rising low high l
        → Rising low high l'
    Updated-Rising key routing low high (here same) rising = rising
    Updated-Rising key routing low high (there {r} other updated) rising =
        (rising.0, Updated-Rising key routing (suc r.1.dispatch) high updated rising.1)

module _ {V R : Type 0} where
  -- No two routers share a channel, and the next client has a new one.
  abbrev pub Separate : Dispatcher V R → Type 0
  Separate self = Rising 0 self.started self.routers

module _ (P G : Type 0) {V R : Type 0} ⦃eq : Eq V⦄ where
  update_router-Separate :
      (routing : Routing V) (uri : V) (self : Dispatcher V R)
      → Separate self
      → Separate (update_router {P = P} {G = G} routing uri self).0
  unfolding update_router
  update_router-Separate routing uri self h =
      let key : RouterKey V = record { oui = routing.oui; uri = uri } in
      elim (update_entry-cases key routing self.routers) [
        | inl (e, absent) ↦
            rw (update_router, e) (Rising-append 0 self.started self.routers key routing h)
        | inr (l', e, updated) ↦
            rw (update_router, e) (Updated-Rising key routing 0 self.started updated h)
      ]

  update_routers-Separate :
      (routing : Routing V) (uris : List V) (self : Dispatcher V R)
      → Separate self
      → Separate (update_routers {P = P} {G = G} routing uris self).0
  unfolding update_routers
  update_routers-Separate routing [] self h = h
  update_routers-Separate routing (uri ∷ uris) self h =
      update_routers-Separate routing uris (update_router {P = P} {G = G} routing uri self).0
        (update_router-Separate routing uri self h)

  handle_oui_routing_update-Separate :
      (routing : Routing V) (self : Dispatcher V R)
      → Separate self
      → Separate (handle_oui_routing_update {P = P} {G = G} routing self).0
  unfolding handle_oui_routing_update
  handle_oui_routing_update-Separate routing self h =
      let updated = (update_routers {P = P} {G = G} routing routing.uris self).0 in
      Rising-retain (λ r. not (is_removed routing r)) 0 updated.started updated.routers
        (update_routers-Separate routing routing.uris self h)

  handle_routings-Separate :
      (protos : List (Option (Routing V))) (self : Dispatcher V R)
      → Separate self
      → Separate (handle_routings {P = P} {G = G} protos self).0
  unfolding handle_routings
  handle_routings-Separate [] self h = h
  handle_routings-Separate (none ∷ rest) self h = handle_routings-Separate rest self h
  handle_routings-Separate (some routing ∷ rest) self h =
      handle_routings-Separate rest (handle_oui_routing_update {P = P} {G = G} routing self).0
        (handle_oui_routing_update-Separate routing self h)

  handle_routing_update-Separate :
      (height : ℕ) (routings : Option (List (Option (Routing V)))) (self : Dispatcher V R)
      → Separate self
      → Separate (handle_routing_update {P = P} {G = G} height routings self).0
  unfolding handle_routing_update
  handle_routing_update-Separate height none self h =
      if_both (λ (r : Dispatcher V R × List (Effect V P R G)). Separate r.0)
        (leb height self.routing_height) (self, []) (self, []) h h
  handle_routing_update-Separate height (some protos) self h =
      if_both (λ (r : Dispatcher V R × List (Effect V P R G)). Separate r.0)
        (leb height self.routing_height) (self, []) _ h (handle_routings-Separate protos self h)

  handle_region_params_update-Separate :
      (region_of : G → R) (height : ℕ) (params : Option G) (self : Dispatcher V R)
      → Separate self
      → Separate (handle_region_params_update {P = P} region_of height params self).0
  unfolding handle_region_params_update
  handle_region_params_update-Separate region_of height none self h =
      if_both (λ (r : Dispatcher V R × List (Effect V P R G)). Separate r.0)
        (leb height self.region_height) (self, []) (self, []) h h
  handle_region_params_update-Separate region_of height (some params) self h =
      if_both (λ (r : Dispatcher V R × List (Effect V P R G)). Separate r.0)
        (leb height self.region_height) (self, []) _ h h

module _ {V P R G : Type 0} ⦃eq : Eq V⦄ ⦃le : LittleEndian⦄ ⦃hashing : Hashing⦄
    (routing_of : P → Option RoutingInformation) (region_of : G → R) where
  pub step-Separate :
      (event : Event V P G) (self : Dispatcher V R)
      → Separate self
      → Separate (step routing_of region_of event self).0
  unfolding step handle_check prepare_gateway_change
  step-Separate (routing_message height routings) self h =
      handle_routing_update-Separate P G height routings self h
  step-Separate (region_message height params) self h =
      handle_region_params_update-Separate P G region_of height params self h
  step-Separate (height_answer answer) self h =
      if_both (λ (r : Dispatcher V R × Bool). Separate r.0) (check_gateway answer) _ (self, false) h
        h
  step-Separate (uplink_message packet) self h = h
  step-Separate (gateway_setup params) self h = h
  step-Separate gateway_change self h = h

module _ {V P R : Type 0} ⦃eq : Eq V⦄ ⦃le : LittleEndian⦄ ⦃hashing : Hashing⦄
    (routing_of : P → Option RoutingInformation) where
  pub recipients-Rising :
      (packet : P) (self : Dispatcher V R)
      → Separate self
      → Rising 0 self.started (recipients routing_of packet self)
  recipients-Rising packet self h =
      elim (Bool-cases (any (is_match routing_of packet) self.routers)) [
        | inl e ↦ rw e (Rising-retain (is_match routing_of packet) 0 self.started self.routers h)
        | inr e ↦ elim (Option-cases self.default_routers) [
          | inl none_given ↦ rw (e, none_given) (omega arith)
          | inr (defaults, given) ↦
              rw (e, given) (Rising-retain (is_default defaults) 0 self.started self.routers h)
        ]
      ]
