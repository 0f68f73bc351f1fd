-- ===== src/Router/Routing.antt =====
-- src/keyed_uri.rs and src/router/routing.rs. The types of the crates `http` and `helium_crypto`
-- are parameters.
use gateway_rs.Base.{
  ℕ, ◌≡◌, Bool, true, false, ◌&&◌, Option, none, some, List, [], ◌∷◌, any, Eq, if◌then◌else◌, arith,
  refl,
}
use gateway_rs.Lorawan.Wire.{LittleEndian}
use gateway_rs.Router.Filter.{
  Eui, Xor16, Hashing, DevAddrFilter, eui_contains, devaddr_contains, eui_from_bin,
  devaddr_from_bin, then_some,
}

pub record KeyedUri (U K : Type 0) : Type 0 where
  pub uri : U
  pub pubkey : K

unfoldable pub keyed_uri_eq :
    {U K : Type 0} ⦃eu : Eq U⦄ ⦃ek : Eq K⦄ → KeyedUri U K → KeyedUri U K → Bool
keyed_uri_eq ⦃eu⦄ ⦃ek⦄ a b = eu.beq a.uri b.uri && ek.beq a.pubkey b.pubkey

module _ {U K : Type 0} ⦃eu : Eq U⦄ ⦃ek : Eq K⦄ where
  pub keyed_uri_eq_refl : (a : KeyedUri U K) → keyed_uri_eq a a ≡ true
  unfolding keyed_uri_eq
  keyed_uri_eq_refl a = rw (eu.beq_refl a.uri, ek.beq_refl a.pubkey) refl

  pub keyed_uri_eq_symm : (a b : KeyedUri U K) → keyed_uri_eq a b ≡ true → keyed_uri_eq b a ≡ true
  unfolding keyed_uri_eq
  keyed_uri_eq_symm a b h = ground (arith, eu.beq_symm a.uri b.uri, ek.beq_symm a.pubkey b.pubkey)

  pub keyed_uri_eq_trans :
      (a b c : KeyedUri U K)
      → keyed_uri_eq a b ≡ true
      → keyed_uri_eq b c ≡ true
      → keyed_uri_eq a c ≡ true
  unfolding keyed_uri_eq
  keyed_uri_eq_trans a b c h h' =
      ground (arith, eu.beq_trans a.uri b.uri c.uri, ek.beq_trans a.pubkey b.pubkey c.pubkey)

  instance unfoldable pub KeyedUri_Eq : Eq (KeyedUri U K)
  KeyedUri_Eq = record {
    beq = keyed_uri_eq;
    beq_refl = keyed_uri_eq_refl;
    beq_symm = keyed_uri_eq_symm;
    beq_trans = keyed_uri_eq_trans;
  }

pub data RoutingData : Type 0 where
  eui : Eui → RoutingData
  devaddr : ℕ → RoutingData

pub record RoutingInformation : Type 0 where
  pub data_of : Option RoutingData

pub record Routing (V : Type 0) : Type 0 where
  pub oui : ℕ
  pub uris : List V
  pub filters : List Xor16
  pub subnets : List DevAddrFilter

unfoldable pub contains_uri : {V : Type 0} ⦃eq : Eq V⦄ → Routing V → V → Bool
contains_uri ⦃eq⦄ routing uri = any (λ keyed_uri. eq.beq keyed_uri uri) routing.uris

module _ ⦃le : LittleEndian⦄ ⦃hashing : Hashing⦄ {V : Type 0} where
  unfoldable pub matches_routing_data : Routing V → Option RoutingData → Bool
  matches_routing_data routing none = false
  matches_routing_data routing (some (eui e)) =
      any (λ filter. eui_contains filter e) routing.filters
  matches_routing_data routing (some (devaddr d)) =
      any (λ filter. devaddr_contains filter d) routing.subnets

  unfoldable pub matches_routing_info : Routing V → Option RoutingInformation → Bool
  matches_routing_info routing none = false
  matches_routing_info routing (some info) = matches_routing_data routing info.data_of

-- `helium_proto::Routing`
pub record RoutingAddress : Type 0 where
  pub uri : List ℕ
  pub pub_key : List ℕ

pub record RoutingProto : Type 0 where
  pub oui : ℕ
  pub addresses : List RoutingAddress
  pub filters : List (List ℕ)
  pub subnets : List (List ℕ)

-- The parsers of the two crates; the text that is parsed is `String::from_utf8_lossy` of the bytes.
pub record UriParsers (U K : Type 0) : Type 0 where
  pub parse_uri : List ℕ → Option U
  pub public_key : List ℕ → Option K

abbrev pub is_empty : List ℕ → Bool
is_empty [] = true
is_empty (x ∷ xs) = false

-- `iter().map(..).collect()` where a call can panic.
abbrev pub collect {ℓ κ} : {A : Type ℓ} {B : Type κ} → (A → Option B) → List A → Option (List B)
collect f [] = some []
collect f (x ∷ xs) = then_some (f x) λ y. then_some (collect f xs) λ ys. some (y ∷ ys)

abbrev pub filter_map {ℓ κ} : {A : Type ℓ} {B : Type κ} → (A → Option B) → List A → List B
filter_map f [] = []
filter_map f (x ∷ xs) = let rest = filter_map f xs in elim (f x) [ none ↦ rest | some y ↦ y ∷ rest ]

module _ ⦃le : LittleEndian⦄ {U K : Type 0} ⦃parsers : UriParsers U K⦄ where
  unfoldable pub parse_address : RoutingAddress → Option (KeyedUri U K)
  parse_address address =
      if is_empty address.uri
      then none
      else then_some (parsers.parse_uri address.uri) λ u.
        then_some (parsers.public_key address.pub_key)
          λ key. some (record { uri = u; pubkey = key })

  -- It has no error of its own: `none` is a panic of a filter.
  unfoldable pub from_proto : RoutingProto → Option (Routing (KeyedUri U K))
  from_proto r = then_some (collect eui_from_bin r.filters) λ filters.
      then_some (collect devaddr_from_bin r.subnets) λ subnets. some (record {
        oui = r.oui;
        uris = filter_map parse_address r.addresses;
        filters = filters;
        subnets = subnets;
      })
