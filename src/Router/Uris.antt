-- ===== src/Router/Uris.antt =====
-- src/keyed_uri.rs: keyed uris of the local API and of the routing. The parsers and printers of uris and
-- keys are parameters.
use gateway_rs.Base.{ℕ, ◌≡◌, refl, List, Result, ok, ◌>>=◌, Text}
use gateway_rs.Router.Routing.{KeyedUri, RoutingAddress}

pub record LocalKeyedUri : Type 0 where
  pub uri : Text
  pub address : List ℕ

-- `from_utf8_lossy` never fails.
pub record UriCrates (E U K : Type 0) : Type 0 where
  pub parse_uri : Text → Result E U
  pub uri_text : U → Text
  pub from_bytes : List ℕ → Result E K
  pub to_vec : K → List ℕ
  pub from_utf8_lossy : List ℕ → Text

module _ {E U K : Type 0} (crates : UriCrates E U K) where
  unfoldable pub keyed_uri_from_local : LocalKeyedUri → Result E (KeyedUri U K)
  keyed_uri_from_local v =
      crates.parse_uri v.uri
      >>= (λ uri. crates.from_bytes v.address >>= (λ key. ok (record { uri = uri; pubkey = key })))

  unfoldable pub keyed_uri_to_local : KeyedUri U K → LocalKeyedUri
  keyed_uri_to_local v = record { uri = crates.uri_text v.uri; address = crates.to_vec v.pubkey }

  unfoldable pub keyed_uri_from_address : RoutingAddress → Result E (KeyedUri U K)
  keyed_uri_from_address v =
      crates.parse_uri (crates.from_utf8_lossy v.uri)
      >>= (λ uri. crates.from_bytes v.pub_key >>= (λ key. ok (record { uri = uri; pubkey = key })))

  -- A keyed uri whose parts are read back as they were printed comes back from the message.
  pub keyed_uri_from_local-keyed_uri_to_local :
      (v : KeyedUri U K)
      → crates.parse_uri (crates.uri_text v.uri) ≡ ok v.uri
      → crates.from_bytes (crates.to_vec v.pubkey) ≡ ok v.pubkey
      → keyed_uri_from_local (keyed_uri_to_local v) ≡ ok v
  unfolding keyed_uri_from_local keyed_uri_to_local
  keyed_uri_from_local-keyed_uri_to_local v uri key =
      rw (keyed_uri_from_local, keyed_uri_to_local, uri, key) refl
