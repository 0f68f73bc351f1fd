-- ===== src/Router/Dispatcher/Heights.antt =====
-- The heights of the routing and of the region, along the runs with one gateway.
use gateway_rs.Base.{
  ℕ, ◌≡◌, ◌∙◌, ◌≤◌, refl, arith, Option, none, some, List, [], ◌∷◌, Eq, All, le→leb,
}
use gateway_rs.Lorawan.Wire.{LittleEndian}
use gateway_rs.Router.Filter.{Hashing}
use gateway_rs.Router.Routing.{Routing, RoutingInformation}
use gateway_rs.Router.Dispatcher.{
  Dispatcher, update_router, update_routers, handle_oui_routing_update, handle_routings,
  handle_routing_update, handle_region_params_update, handle_check,
}
use gateway_rs.Router.Dispatcher.Events.{
  Event, routing_message, region_message, height_answer, uplink_message, gateway_setup,
  gateway_change, step, steps,
}

-- The gateway stays the same.
abbrev pub SameGateway : {V P G : Type 0} → Event V P G → Type 0
SameGateway gateway_change = ⊥
SameGateway (gateway_setup params) = ⊥
SameGateway (routing_message height routings) = Unit {0}
SameGateway (region_message height params) = Unit {0}
SameGateway (height_answer answer) = Unit {0}
SameGateway (uplink_message packet) = Unit {0}

module _ {V R : Type 0} (P G : Type 0) ⦃eq : Eq V⦄ where
  update_router-heights :
      (routing : Routing V) (uri : V) (self : Dispatcher V R)
      → ((update_router {P = P} {G = G} routing uri self).0.routing_height ≡ self.routing_height)
        × ((update_router {P = P} {G = G} routing uri self).0.region_height ≡ self.region_height)
  unfolding update_router
  update_router-heights routing uri self = ground arith

  update_routers-heights :
      (routing : Routing V) (uris : List V) (self : Dispatcher V R)
      → ((update_routers {P = P} {G = G} routing uris self).0.routing_height ≡ self.routing_height)
        × ((update_routers {P = P} {G = G} routing uris self).0.region_height ≡ self.region_height)
  unfolding update_routers
  update_routers-heights routing [] self = (refl, refl)
  update_routers-heights routing (uri ∷ uris) self =
      let (e, e') = update_router-heights routing uri self in
      let (f, f') =
        update_routers-heights routing uris (update_router {P = P} {G = G} routing uri self).0 in
      (f ∙ e, f' ∙ e')

  handle_routings-heights :
      (routings : List (Option (Routing V))) (self : Dispatcher V R)
      → ((handle_routings {P = P} {G = G} routings self).0.routing_height ≡ self.routing_height)
        × ((handle_routings {P = P} {G = G} routings self).0.region_height ≡ self.region_height)
  unfolding handle_routings handle_oui_routing_update
  handle_routings-heights [] self = (refl, refl)
  handle_routings-heights (none ∷ rest) self = handle_routings-heights rest self
  handle_routings-heights (some routing ∷ rest) self =
      let (e, e') = update_routers-heights routing routing.uris self in
      let (f, f') =
        handle_routings-heights rest (handle_oui_routing_update {P = P} {G = G} routing self).0 in
      (f ∙ e, f' ∙ e')

  handle_routing_update-heights :
      (height : ℕ) (routings : Option (List (Option (Routing V)))) (self : Dispatcher V R)
      → (self.routing_height
          ≤ (handle_routing_update {P = P} {G = G} height routings self).0.routing_height)
        × ((handle_routing_update {P = P} {G = G} height routings self).0.region_height
            ≡ self.region_height)
  unfolding handle_routing_update
  handle_routing_update-heights height none self = ground arith
  handle_routing_update-heights height (some routings) self =
      ground (arith, handle_routings-heights routings self)

module _ {V P R G : Type 0} ⦃eq : Eq V⦄ ⦃le : LittleEndian⦄ ⦃hashing : Hashing⦄
    (routing_of : P → Option RoutingInformation) (region_of : G → R) where
  step-heights :
      (event : Event V P G) (self : Dispatcher V R)
      → SameGateway event
      → (self.routing_height ≤ (step routing_of region_of event self).0.routing_height)
        × (self.region_height ≤ (step routing_of region_of event self).0.region_height)
  unfolding step handle_check handle_region_params_update
  step-heights (routing_message height routings) self same =
      let (up, e) = handle_routing_update-heights P G height routings self in (up, omega (arith, e))
  step-heights (region_message height none) self same = ground arith
  step-heights (region_message height (some params)) self same = ground arith
  step-heights (height_answer answer) self same = ground arith
  step-heights (uplink_message packet) self same = (omega arith, omega arith)
  step-heights (gateway_setup params) self same = absurd same
  step-heights gateway_change self same = absurd same

  steps-heights :
      (events : List (Event V P G)) (self : Dispatcher V R)
      → All SameGateway events
      → (self.routing_height ≤ (steps routing_of region_of events self).0.routing_height)
        × (self.region_height ≤ (steps routing_of region_of events self).0.region_height)
  unfolding steps
  steps-heights [] self same = (omega arith, omega arith)
  steps-heights (event ∷ events) self same =
      let (a, b) = step-heights event self same.0 in
      let (c, d) = steps-heights events (step routing_of region_of event self).0 same.1 in
      (omega arith, omega arith)

  stale_message :
      (height : ℕ) (routings : Option (List (Option (Routing V)))) (self : Dispatcher V R)
      → height ≤ self.routing_height
      → handle_routing_update {P = P} {G = G} height routings self ≡ (self, [])
  unfolding handle_routing_update
  stale_message height routings self h =
      rw (handle_routing_update, le→leb height self.routing_height h) refl

  taken :
      (height : ℕ) (routings : List (Option (Routing V))) (self : Dispatcher V R)
      → height
        ≤ (handle_routing_update {P = P} {G = G} height (some routings) self).0.routing_height
  unfolding handle_routing_update
  taken height routings self = ground arith

  -- Once a routing update that decodes has come at a height, no routing update at that height or
  -- below changes the state or sends anything, whatever it holds and whatever events came between,
  -- as long as the gateway stays the same.
  pub steps-stale :
      (height : ℕ) (routings : List (Option (Routing V))) (events : List (Event V P G))
      (self : Dispatcher V R) (old : ℕ) (others : Option (List (Option (Routing V))))
      → All SameGateway events
      → old ≤ height
      → let reached =
          (steps routing_of region_of (routing_message height (some routings) ∷ events) self).0 in
        step routing_of region_of (routing_message old others) reached ≡ (reached, [])
  unfolding steps step
  steps-stale height routings events self old others same h =
      let first = taken height routings self in
      let (up, _) =
        steps-heights events (handle_routing_update {P = P} {G = G} height (some routings) self).0
          same in
      stale_message old others _ (omega arith)
