-- ===== src/Router/Dispatcher/Updates.antt =====
-- Which routing each router has after an update of its oui.
use gateway_rs.Base.{refl, List, [], ◌∷◌, All, Eq, inl, inr}
use gateway_rs.Router.Routing.{Routing}
use gateway_rs.Router.Dispatcher.{
  RouterKey, Dispatcher, update_router, update_routers, handle_oui_routing_update,
}
use gateway_rs.Router.Dispatcher.Table.{
  Named, Routed, Updated-Routed, Updated-Routed-keep, update_entry-cases, find_router-append,
  find_router-append-keep, key_eq_refl,
}
use gateway_rs.Router.Dispatcher.Removal.{key_of, handle_oui_routing_update-eq}

module _ {V R : Type 0} (P G : Type 0) ⦃eq : Eq V⦄ where
  update_router-Routed :
      (routing : Routing V) (uri : V) (self : Dispatcher V R)
      → Routed
          (key_of routing uri)
          routing
          (update_router {P = P} {G = G} routing uri self).0.routers
  unfolding update_router
  update_router-Routed routing uri self =
      elim (update_entry-cases (key_of routing uri) routing self.routers) [
        | inl (e, absent) ↦
            rw (update_router, e)
              (
                _,
                find_router-append (key_of routing uri) self.routers _ absent
                    (key_eq_refl (key_of routing uri)),
                refl,
              )
        | inr (l', e, updated) ↦
            rw (update_router, e) (Updated-Routed (key_of routing uri) routing updated)
      ]

  update_router-Routed-keep :
      (routing : Routing V) (uri : V) (key : RouterKey V) (self : Dispatcher V R)
      → Routed key routing self.routers
      → Routed key routing (update_router {P = P} {G = G} routing uri self).0.routers
  unfolding update_router
  update_router-Routed-keep routing uri key self routed =
      elim (update_entry-cases (key_of routing uri) routing self.routers) [
        | inl (e, absent) ↦
            rw (update_router, e)
              (routed.0, find_router-append-keep key self.routers _ routed.0 routed.1, routed.2)
        | inr (l', e, updated) ↦
            rw (update_router, e)
              (Updated-Routed-keep (key_of routing uri) key routing updated routed)
      ]

  update_routers-Routed-keep :
      (routing : Routing V) (uris : List V) (key : RouterKey V) (self : Dispatcher V R)
      → Routed key routing self.routers
      → Routed key routing (update_routers {P = P} {G = G} routing uris self).0.routers
  unfolding update_routers
  update_routers-Routed-keep routing [] key self routed = routed
  update_routers-Routed-keep routing (uri ∷ uris) key self routed =
      update_routers-Routed-keep routing uris key _
        (update_router-Routed-keep routing uri key self routed)

  update_routers-Routed :
      (routing : Routing V) (uris : List V) (self : Dispatcher V R)
      → All
          (λ uri.
            Routed
              (key_of routing uri)
              routing
              (update_routers {P = P} {G = G} routing uris self).0.routers)
          uris
  unfolding update_routers
  update_routers-Routed routing [] self = tt
  update_routers-Routed routing (uri ∷ uris) self = (
    update_routers-Routed-keep routing uris (key_of routing uri) _
        (update_router-Routed routing uri self),
    update_routers-Routed routing uris _,
  )

  -- After an update, each uri of the routing has a router that is found under the oui and the uri
  -- and has the new routing, in a state whose routers stand under uris that their routings hold.
  pub handle_oui_routing_update-Routed :
      (routing : Routing V) (self : Dispatcher V R)
      → All Named self.routers
      → All
          (λ uri.
            Routed
              (key_of routing uri)
              routing
              (handle_oui_routing_update {P = P} {G = G} routing self).0.routers)
          routing.uris
  handle_oui_routing_update-Routed routing self named =
      rw (handle_oui_routing_update-eq routing self named)
        (update_routers-Routed routing routing.uris self)
