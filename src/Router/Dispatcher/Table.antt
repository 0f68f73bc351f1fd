-- ===== src/Router/Dispatcher/Table.antt =====
-- The map of routers: what the update of an entry changes.
use gateway_rs.Base.{
  ◌≡◌, refl, sym, ap, ◌∙◌, arith, true, false, Option, none, some, List, [], ◌∷◌, ◌++◌, any, All,
  Eq, map, Bool-cases, inl, inr, if◌then◌else◌, ==_refl, ◌⊎◌,
}
use gateway_rs.Router.Routing.{Routing, contains_uri}
use gateway_rs.Router.Dispatcher.{RouterKey, RouterEntry, Routers, key_eq, update_entry}

module _ {V : Type 0} ⦃eq : Eq V⦄ where
  any-beq :
      (uris : List V) (a b : V)
      → eq.beq a b ≡ true
      → any (λ x. eq.beq x a) uris ≡ true
      → any (λ x. eq.beq x b) uris ≡ true
  any-beq [] a b h found = cc
  any-beq (x ∷ xs) a b h found = ground (arith, any-beq xs a b h, eq.beq_trans x a b)

  pub contains_uri-beq :
      (routing : Routing V) (a b : V)
      → eq.beq a b ≡ true
      → contains_uri routing a ≡ true
      → contains_uri routing b ≡ true
  unfolding contains_uri
  contains_uri-beq routing a b h found = any-beq routing.uris a b h found

  -- A router stands under a uri that its own routing holds.
  abbrev pub Named : RouterKey V × RouterEntry V → Type 0
  Named (key, entry) = contains_uri entry.routing key.uri ≡ true

  -- `HashMap::get`
  abbrev pub find_router : RouterKey V → Routers V → Option (RouterEntry V)
  find_router key [] = none
  find_router key ((k, entry) ∷ rest) =
      let more = find_router key rest in if key_eq k key then some entry else more

  find_router-there :
      (key k : RouterKey V) (entry : RouterEntry V) (rest : Routers V)
      → key_eq k key ≡ false
      → find_router key ((k, entry) ∷ rest) ≡ find_router key rest
  find_router-there key k entry rest miss = rw miss refl

  find_router-here :
      (key k : RouterKey V) (entry : RouterEntry V) (rest : Routers V)
      → key_eq k key ≡ true
      → find_router key ((k, entry) ∷ rest) ≡ some entry
  find_router-here key k entry rest hit = rw hit refl

  pub key_eq-uri : (a b : RouterKey V) → key_eq a b ≡ true → eq.beq a.uri b.uri ≡ true
  unfolding key_eq
  key_eq-uri a b h = ground arith

  pub key_eq_refl : (a : RouterKey V) → key_eq a a ≡ true
  unfolding key_eq
  key_eq_refl a = rw (==_refl a.oui, eq.beq_refl a.uri) refl

  pub key_eq_trans :
      (a b c : RouterKey V) → key_eq a b ≡ true → key_eq b c ≡ true → key_eq a c ≡ true
  unfolding key_eq
  key_eq_trans a b c h h' = ground (arith, eq.beq_trans a.uri b.uri c.uri)

  pub key_eq_symm : (a b : RouterKey V) → key_eq a b ≡ true → key_eq b a ≡ true
  unfolding key_eq
  key_eq_symm a b h = ground (arith, eq.beq_symm a.uri b.uri)

  abbrev pub keys : Routers V → List (RouterKey V)
  keys l = map (λ (r : RouterKey V × RouterEntry V). r.0) l

  -- The first entry under the key has the new routing, and everything else is the same.
  pub data Updated (key : RouterKey V) (routing : Routing V) : Routers V → Routers V → Type 0 where
    here :
        {k : RouterKey V} {entry : RouterEntry V} {rest : Routers V}
        → key_eq k key ≡ true
        → Updated key routing
            ((k, entry) ∷ rest)
            ((k, record { routing = routing; dispatch = entry.dispatch }) ∷ rest)
    there :
        {r : RouterKey V × RouterEntry V} {rest rest' : Routers V}
        → key_eq r.0 key ≡ false
        → Updated key routing rest rest'
        → Updated key routing (r ∷ rest) (r ∷ rest')

  pub update_entry-cases :
      (key : RouterKey V) (routing : Routing V) (l : Routers V)
      → ((update_entry key routing l ≡ none) × (find_router key l ≡ none))
        ⊎ ((l' : Routers V) × (update_entry key routing l ≡ some l') × Updated key routing l l')
  unfolding update_entry
  update_entry-cases key routing [] = inl (refl, refl)
  update_entry-cases key routing ((k, entry) ∷ rest) = elim (Bool-cases (key_eq k key)) [
    | inl same ↦ inr (_, rw same refl, here same)
    | inr other ↦ elim (update_entry-cases key routing rest) [
      | inl (e, absent) ↦ inl (rw (other, e) refl, rw other absent)
      | inr (l', e, updated) ↦ inr ((k, entry) ∷ l', rw (other, e) refl, there other updated)
    ]
  ]

  pub Updated-keys :
      (key : RouterKey V) (routing : Routing V) {l l' : Routers V}
      → Updated key routing l l'
      → keys l' ≡ keys l
  Updated-keys key routing (here same) = refl
  Updated-keys key routing (there {r} other updated) =
      ap (◌∷◌ r.0) (Updated-keys key routing updated)

  pub Updated-Named :
      (key : RouterKey V) (routing : Routing V) {l l' : Routers V}
      → contains_uri routing key.uri ≡ true
      → Updated key routing l l'
      → All Named l
      → All Named l'
  Updated-Named key routing held (here {k} same) named = (
    contains_uri-beq routing key.uri k.uri (key_eq-uri key k (key_eq_symm k key same)) held,
    named.1,
  )
  Updated-Named key routing held (there other updated) named =
      (named.0, Updated-Named key routing held updated named.1)

  -- A key that is found with the routing, in a map.
  abbrev pub Routed : RouterKey V → Routing V → Routers V → Type 0
  Routed key routing l =
      (entry : RouterEntry V) × (find_router key l ≡ some entry) × (entry.routing ≡ routing)

  pub Updated-Routed :
      (key : RouterKey V) (routing : Routing V) {l l' : Routers V}
      → Updated key routing l l'
      → Routed key routing l'
  Updated-Routed key routing (here {entry} same) =
      (record { routing = routing; dispatch = entry.dispatch }, rw same refl, refl)
  Updated-Routed key routing (there other updated) =
      let (entry, found, same) = Updated-Routed key routing updated in (entry, rw other found, same)

  -- What was already found with the routing still is.
  pub Updated-Routed-keep :
      (key other_key : RouterKey V) (routing : Routing V) {l l' : Routers V}
      → Updated key routing l l'
      → Routed other_key routing l
      → Routed other_key routing l'
  Updated-Routed-keep key other_key routing (here {k} {entry = old} {rest} same) (entry, found, e) =
      elim (Bool-cases (key_eq k other_key)) [
        | inl hit ↦ (record { routing = routing; dispatch = old.dispatch }, rw hit refl, refl)
        | inr miss ↦ (entry, rw miss (sym (find_router-there other_key k old rest miss) ∙ found), e)
      ]
  Updated-Routed-keep key other_key routing (there {r} {rest} other updated) (entry, found, e) =
      elim (Bool-cases (key_eq r.0 other_key)) [
        | inl hit ↦ (entry, rw hit (sym (find_router-here other_key r.0 r.1 rest hit) ∙ found), e)
        | inr miss ↦
            let (entry', found', e') =
              Updated-Routed-keep key other_key routing updated
                (entry, sym (find_router-there other_key r.0 r.1 rest miss) ∙ found, e) in
            (entry', rw miss found', e')
      ]

  pub find_router-append :
      (key : RouterKey V) (l : Routers V) (r : RouterKey V × RouterEntry V)
      → find_router key l ≡ none
      → key_eq r.0 key ≡ true
      → find_router key (l ++ r ∷ []) ≡ some r.1
  find_router-append key [] r absent same = rw same refl
  find_router-append key ((k, entry) ∷ rest) r absent same =
      ground (arith, find_router-append key rest r)

  pub find_router-append-keep :
      (key : RouterKey V) (l l' : Routers V) (entry : RouterEntry V)
      → find_router key l ≡ some entry
      → find_router key (l ++ l') ≡ some entry
  find_router-append-keep key [] l' entry found = cc
  find_router-append-keep key ((k, old) ∷ rest) l' entry found = elim (Bool-cases (key_eq k key)) [
    | inl hit ↦ rw hit (sym (find_router-here key k old rest hit) ∙ found)
    | inr miss ↦ rw miss (
        find_router-append-keep key rest l' entry
          (sym (find_router-there key k old rest miss) ∙ found))
  ]
