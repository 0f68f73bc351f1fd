-- ===== src/Router/Dispatcher/Runs.antt =====
-- Runs of the dispatcher, from its start.
use mathlib.Core.Path.{subst}
use gateway_rs.Base.{
  ℕ, ◌≡◌, ◌∙◌, refl, sym, append-nil, any, Option, none, some, List, [], ◌∷◌, ◌++◌, All, Eq, map,
  Bool-cases, Option-cases, inl, inr, leb,
}
use gateway_rs.Lorawan.Wire.{LittleEndian}
use gateway_rs.Router.Filter.{Hashing}
use gateway_rs.Router.Routing.{Routing, RoutingInformation, matches_routing_info}
use gateway_rs.Router.Dispatcher.{
  RouterKey, RouterEntry, Routers, Dispatcher, Effect, region_changed, check_gateway, new,
  handle_routings, handle_routing_update, handle_region_params_update, handle_check,
  prepare_gateway_change, handle_oui_routing_update,
}
use gateway_rs.Router.Dispatcher.Events.{
  Event, routing_message, region_message, height_answer, uplink_message, gateway_setup,
  gateway_change, step, steps, handle_uplink, send_matching, send_default,
}
use gateway_rs.Router.Dispatcher.Table.{Named, keys}
use gateway_rs.Router.Dispatcher.Removal.{
  Extends, Extends-refl, Extends-trans, handle_oui_routing_update-Extends, stopped, stopped-append,
}

module _ {V P R G : Type 0} ⦃eq : Eq V⦄ where
  handle_routings-Extends :
      (routings : List (Option (Routing V))) (self : Dispatcher V R)
      → All Named self.routers
      → Extends self (handle_routings {P = P} {G = G} routings self)
  unfolding handle_routings
  handle_routings-Extends [] self named = Extends-refl self named
  handle_routings-Extends (none ∷ rest) self named = handle_routings-Extends rest self named
  handle_routings-Extends (some routing ∷ rest) self named =
      let first = handle_oui_routing_update-Extends routing self named in
      let last =
        handle_routings-Extends rest (handle_oui_routing_update {P = P} {G = G} routing self).0
          first.named in
      Extends-trans self _ _ _ _ first last

  handle_routing_update-Extends :
      (height : ℕ) (routings : Option (List (Option (Routing V)))) (self : Dispatcher V R)
      → All Named self.routers
      → Extends self (handle_routing_update {P = P} {G = G} height routings self)
  unfolding handle_routing_update
  handle_routing_update-Extends height none self named =
      elim (Bool-cases (leb height self.routing_height)) [
        | inl old ↦ rw (handle_routing_update, old) (Extends-refl self named)
        | inr fresh ↦ rw (handle_routing_update, fresh) (Extends-refl self named)
      ]
  handle_routing_update-Extends height (some routings) self named =
      elim (Bool-cases (leb height self.routing_height)) [
        | inl old ↦ rw (handle_routing_update, old) (Extends-refl self named)
        | inr fresh ↦
            let kept = handle_routings-Extends routings self named in
            rw (handle_routing_update, fresh)
              record {
                added = kept.added;
                keys_kept = kept.keys_kept;
                none_stopped = kept.none_stopped;
                named = kept.named;
              }
      ]

  -- A state with the same routers, and effects that stop none.
  same_routers :
      (self reached : Dispatcher V R) (sent : List (Effect V P R G))
      → All Named self.routers
      → reached.routers ≡ self.routers
      → stopped sent ≡ []
      → Extends self (reached, sent)
  same_routers self reached sent named same quiet = record {
    added = [];
    keys_kept = rw same (sym (append-nil (keys self.routers)));
    none_stopped = quiet;
    named = subst (λ (l : Routers V). All Named l) (sym same) named;
  }

module _ {V R : Type 0} (P G : Type 0) where
  tells_regions :
      (l : Routers V) (region : R)
      → stopped {V = V} {P = P} {G = G}
          (map (λ (r : RouterKey V × RouterEntry V). region_changed r.1.dispatch region) l)
        ≡ []
  tells_regions [] region = refl
  tells_regions (r ∷ rest) region = tells_regions rest region

module _ {V R : Type 0} where
  checked :
      (answer : Option (ℕ × ℕ)) (self : Dispatcher V R)
      → (handle_check answer self).0.routers ≡ self.routers
  unfolding handle_check
  checked answer self = elim (Bool-cases (check_gateway answer)) [
    | inl good ↦ rw (handle_check, good) refl
    | inr bad ↦ rw (handle_check, bad) refl
  ]

module _ {V P R G : Type 0} ⦃eq : Eq V⦄ where
  handle_region_params_update-Extends :
      (region_of : G → R) (height : ℕ) (params : Option G) (self : Dispatcher V R)
      → All Named self.routers
      → Extends self (handle_region_params_update {P = P} region_of height params self)
  unfolding handle_region_params_update
  handle_region_params_update-Extends region_of height none self named =
      elim (Bool-cases (leb height self.region_height)) [
        | inl old ↦ rw (handle_region_params_update, old) (Extends-refl self named)
        | inr fresh ↦ rw (handle_region_params_update, fresh) (Extends-refl self named)
      ]
  handle_region_params_update-Extends region_of height (some params) self named =
      elim (Bool-cases (leb height self.region_height)) [
        | inl old ↦ rw (handle_region_params_update, old) (Extends-refl self named)
        | inr fresh ↦
            rw (handle_region_params_update, fresh)
              (same_routers self _ _ named refl (tells_regions P G self.routers (region_of params)))
      ]

module _ {V P : Type 0} (R G : Type 0) ⦃eq : Eq V⦄ ⦃le : LittleEndian⦄ ⦃hashing : Hashing⦄ where
  -- An uplink stops nothing.
  send_matching-stopped :
      (routing_of : P → Option RoutingInformation) (packet : P) (l : Routers V)
      → stopped (send_matching {R = R} {G = G} routing_of packet l).1 ≡ []
  unfolding send_matching
  send_matching-stopped routing_of packet [] = refl
  send_matching-stopped routing_of packet ((key, entry) ∷ rest) =
      elim (Bool-cases (matches_routing_info entry.routing (routing_of packet))) [
        | inl hit ↦ rw (send_matching, hit) (send_matching-stopped routing_of packet rest)
        | inr miss ↦ rw (send_matching, miss) (send_matching-stopped routing_of packet rest)
      ]

  send_default-stopped :
      (defaults : List V) (packet : P) (l : Routers V)
      → stopped (send_default {R = R} {G = G} defaults packet l) ≡ []
  unfolding send_default
  send_default-stopped defaults packet [] = refl
  send_default-stopped defaults packet ((key, entry) ∷ rest) =
      elim (Bool-cases (any (λ v. eq.beq v key.uri) defaults)) [
        | inl hit ↦ rw (send_default, hit) (send_default-stopped defaults packet rest)
        | inr miss ↦ rw (send_default, miss) (send_default-stopped defaults packet rest)
      ]

  handle_uplink-stopped :
      (routing_of : P → Option RoutingInformation) (packet : P) (self : Dispatcher V R)
      → stopped (handle_uplink {G = G} routing_of packet self) ≡ []
  unfolding handle_uplink
  handle_uplink-stopped routing_of packet self =
      elim (Bool-cases (send_matching {R = R} {G = G} routing_of packet self.routers).0) [
        | inl handled ↦
            rw (handle_uplink, handled) (send_matching-stopped routing_of packet self.routers)
        | inr unhandled ↦ elim (Option-cases self.default_routers) [
          | inl e ↦
              rw (handle_uplink, unhandled, e)
                (send_matching-stopped routing_of packet self.routers)
          | inr (defaults, e) ↦
              rw (handle_uplink, unhandled, e)
                (stopped-append (send_matching routing_of packet self.routers).1
                    (send_default defaults packet self.routers)
                  ∙ rw
                      (
                        send_matching-stopped routing_of packet self.routers,
                        send_default-stopped defaults packet self.routers,
                      )
                      refl)
        ]
      ]

module _ {V P R G : Type 0} ⦃eq : Eq V⦄ ⦃le : LittleEndian⦄ ⦃hashing : Hashing⦄
    (routing_of : P → Option RoutingInformation) (region_of : G → R) where
  step-Extends :
      (event : Event V P G) (self : Dispatcher V R)
      → All Named self.routers
      → Extends self (step routing_of region_of event self)
  unfolding step handle_check prepare_gateway_change
  step-Extends (routing_message height routings) self named =
      handle_routing_update-Extends height routings self named
  step-Extends (region_message height params) self named =
      handle_region_params_update-Extends region_of height params self named
  step-Extends (height_answer answer) self named =
      same_routers self (handle_check answer self).0 [] named (checked answer self) refl
  step-Extends (uplink_message packet) self named =
      same_routers self self _ named refl (handle_uplink-stopped R G routing_of packet self)
  step-Extends (gateway_setup params) self named = same_routers self self _ named refl refl
  step-Extends gateway_change self named =
      same_routers self (prepare_gateway_change self) [] named refl refl

  steps-Extends :
      (events : List (Event V P G)) (self : Dispatcher V R)
      → All Named self.routers
      → Extends self (steps routing_of region_of events self)
  unfolding steps
  steps-Extends [] self named = Extends-refl self named
  steps-Extends (event ∷ events) self named =
      let first = step-Extends event self named in
      let last = steps-Extends events (step routing_of region_of event self).0 first.named in
      Extends-trans self _ _ _ _ first last

  -- From the start of the dispatcher, no sequence of events tells a client to stop or removes a
  -- router: the routers after more events are those before them, in order, and new ones.
  pub steps-ne-stopped :
      (region : R) (default_routers : Option (List V)) (events later : List (Event V P G))
      → (stopped (steps routing_of region_of events (new region default_routers)).1 ≡ [])
        × ((added : List (RouterKey V)) × (keys
                (steps routing_of region_of later
                  (steps routing_of region_of events (new region default_routers)).0).0.routers
              ≡ keys (steps routing_of region_of events (new region default_routers)).0.routers
                ++ added))
  unfolding new
  steps-ne-stopped region default_routers events later =
      let reached = steps-Extends events (new region default_routers) tt in
      let more =
        steps-Extends later (steps routing_of region_of events (new region default_routers)).0
          reached.named in
      (reached.none_stopped, (more.added, more.keys_kept))
