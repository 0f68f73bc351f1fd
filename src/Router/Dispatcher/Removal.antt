-- ===== src/Router/Dispatcher/Removal.antt =====
-- What an update of an oui does to the map of routers, and which clients it stops.
use mathlib.Core.Path.{subst}
use gateway_rs.Base.{
  ℕ, ◌≡◌, refl, sym, ap, ◌∙◌, arith, true, false, List, [], ◌∷◌, ◌++◌, any, All, Eq, inl, inr,
  retain-none, append_assoc, append-nil, All-append,
}
use gateway_rs.Router.Routing.{Routing, contains_uri}
use gateway_rs.Router.Dispatcher.{
  RouterKey, RouterEntry, Routers, Dispatcher, Effect, start_client, stop_client, uplink,
  region_changed, region_params_changed, is_removed, update_router, update_routers,
  handle_oui_routing_update,
}
use gateway_rs.Router.Dispatcher.Table.{
  Named, keys, update_entry-cases, Updated-keys, Updated-Named,
}

-- The clients that are told to stop.
abbrev pub stopped : {V P R G : Type 0} → List (Effect V P R G) → List ℕ
stopped [] = []
stopped (stop_client client ∷ rest) = client ∷ stopped rest
stopped (start_client client key ∷ rest) = stopped rest
stopped (uplink client packet ∷ rest) = stopped rest
stopped (region_changed client region ∷ rest) = stopped rest
stopped (region_params_changed params ∷ rest) = stopped rest

module _ {V P R G : Type 0} where
  pub stopped-append :
      (xs ys : List (Effect V P R G)) → stopped (xs ++ ys) ≡ stopped xs ++ stopped ys
  stopped-append [] ys = refl
  stopped-append (stop_client client ∷ rest) ys = ap (◌∷◌ client) (stopped-append rest ys)
  stopped-append (start_client client key ∷ rest) ys = stopped-append rest ys
  stopped-append (uplink client packet ∷ rest) ys = stopped-append rest ys
  stopped-append (region_changed client region ∷ rest) ys = stopped-append rest ys
  stopped-append (region_params_changed params ∷ rest) ys = stopped-append rest ys

module _ {V : Type 0} ⦃eq : Eq V⦄ where
  abbrev pub key_of : Routing V → V → RouterKey V
  key_of routing uri = record { oui = routing.oui; uri = uri }

  any-middle : (before after : List V) (u : V) → any (λ x. eq.beq x u) (before ++ u ∷ after) ≡ true
  any-middle [] after u = rw (eq.beq_refl u) refl
  any-middle (x ∷ before) after u = ground (arith, any-middle before after u)

  contained_from :
      (before uris : List V) → All (λ u. any (λ x. eq.beq x u) (before ++ uris) ≡ true) uris
  contained_from before [] = tt
  contained_from before (u ∷ uris) = (
    any-middle before uris u,
    subst (λ (l : List V). All (λ u'. any (λ x. eq.beq x u') l ≡ true) uris)
        (append_assoc before (u ∷ []) uris) (contained_from (before ++ u ∷ []) uris),
  )

  keys-append : (l l' : Routers V) → keys (l ++ l') ≡ keys l ++ keys l'
  keys-append [] l' = refl
  keys-append (r ∷ rest) l' = ap (◌∷◌ r.0) (keys-append rest l')

  -- A routing holds each of its own uris.
  pub contains_own_uris :
      (routing : Routing V) → All (λ u. contains_uri routing u ≡ true) routing.uris
  unfolding contains_uri
  contains_own_uris routing = contained_from [] routing.uris

  not_removed_one :
      (routing : Routing V) (r : RouterKey V × RouterEntry V)
      → Named r
      → is_removed routing r ≡ false
  unfolding is_removed
  not_removed_one routing (key, entry) named = rw named (ground arith)

  not_removed :
      (routing : Routing V) (l : Routers V)
      → All Named l
      → All (λ r. is_removed routing r ≡ false) l
  not_removed routing [] named = tt
  not_removed routing (r ∷ rest) named =
      (not_removed_one routing r named.0, not_removed routing rest named.1)

module _ {V P R G : Type 0} ⦃eq : Eq V⦄ where
  -- A state that is reached from another one without a router being removed or stopped.
  pub record Extends (before : Dispatcher V R) (reached : Dispatcher V R × List (Effect V P R G))
      : Type 0 where
    pub added : List (RouterKey V)
    pub keys_kept : keys reached.0.routers ≡ keys before.routers ++ added
    pub none_stopped : stopped reached.1 ≡ []
    pub named : All Named reached.0.routers

  pub Extends-refl : (self : Dispatcher V R) → All Named self.routers → Extends self (self, [])
  Extends-refl self named = record {
    added = [];
    keys_kept = sym (append-nil (keys self.routers));
    none_stopped = refl;
    named = named;
  }

  pub Extends-trans :
      (a b c : Dispatcher V R) (first second : List (Effect V P R G))
      → Extends a (b, first)
      → Extends b (c, second)
      → Extends a (c, first ++ second)
  Extends-trans a b c first second ab bc = record {
    added = ab.added ++ bc.added;
    keys_kept = rw (bc.keys_kept, ab.keys_kept) (append_assoc (keys a.routers) ab.added bc.added);
    none_stopped = rw (stopped-append first second, ab.none_stopped, bc.none_stopped) refl;
    named = bc.named;
  }

  update_router-Extends :
      (routing : Routing V) (uri : V) (self : Dispatcher V R)
      → contains_uri routing uri ≡ true
      → All Named self.routers
      → Extends self (update_router {P = P} {G = G} routing uri self)
  unfolding update_router
  update_router-Extends routing uri self held named =
      elim (update_entry-cases (key_of routing uri) routing self.routers) [
        | inl (e, absent) ↦
            rw (update_router, e)
              record {
                added = key_of routing uri ∷ [];
                keys_kept = keys-append self.routers _;
                none_stopped = refl;
                named = All-append Named self.routers _ named (held, tt);
              }
        | inr (l', e, updated) ↦
            rw (update_router, e)
              record {
                added = [];
                keys_kept =
                    Updated-keys (key_of routing uri) routing updated
                    ∙ sym (append-nil (keys self.routers));
                none_stopped = refl;
                named = Updated-Named (key_of routing uri) routing held updated named;
              }
      ]

  pub update_routers-Extends :
      (routing : Routing V) (uris : List V) (self : Dispatcher V R)
      → All (λ u. contains_uri routing u ≡ true) uris
      → All Named self.routers
      → Extends self (update_routers {P = P} {G = G} routing uris self)
  unfolding update_routers
  update_routers-Extends routing [] self held named = Extends-refl self named
  update_routers-Extends routing (uri ∷ uris) self held named =
      let first = update_router-Extends routing uri self held.0 named in
      let last =
        update_routers-Extends routing uris (update_router {P = P} {G = G} routing uri self).0
          held.1 first.named in
      Extends-trans self _ _ _ _ first last

  pub handle_oui_routing_update-eq :
      (routing : Routing V) (self : Dispatcher V R)
      → All Named self.routers
      → handle_oui_routing_update {P = P} {G = G} routing self
        ≡ update_routers routing routing.uris self
  unfolding handle_oui_routing_update
  handle_oui_routing_update-eq routing self named =
      let kept =
        update_routers-Extends routing routing.uris self (contains_own_uris routing) named in
      let (e, e') = retain-none (is_removed routing) _ (not_removed routing _ kept.named) in
      rw (e, e', append-nil) refl

  pub handle_oui_routing_update-Extends :
      (routing : Routing V) (self : Dispatcher V R)
      → All Named self.routers
      → Extends self (handle_oui_routing_update {P = P} {G = G} routing self)
  handle_oui_routing_update-Extends routing self named =
      rw (handle_oui_routing_update-eq routing self named)
        (update_routers-Extends routing routing.uris self (contains_own_uris routing) named)
