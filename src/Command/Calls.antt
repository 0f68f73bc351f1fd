-- ===== src/Command/Calls.antt =====
-- src/cmd/info.rs: how often the command calls the local server.
use gateway_rs.Base.{◌≤◌, refl, arith, List, [], ◌∷◌, ◌++◌, some, ok, Text, text}
use gateway_rs.Command.Info.{InfoKey, fw, key, onboarding_key, name, gateway, region, info_key_text}
use gateway_rs.Command.Cache.{
  Call, pubkey_call, height_call, region_call, LocalClient, Printers, text_value, new_state, Value,
  pure, get_public_keys, get_height, get_region, public_key, get_onboarding_key, uri_of,
  get_gateway, to_status, insert, run_keys,
}
use gateway_rs.Command.Sparing.{
  count, Sparing, Keeps, Keeps-bind, Keeps-pure, cached-Good, stores_keys, stores_height,
  stores_region, Good-count,
}

module _ {E P U V K R : Type 0} (client : LocalClient E P U R)
    (printers : Printers E P U V K R) where
  get_public_keys-Keeps : Keeps (get_public_keys client printers)
  unfolding get_public_keys
  get_public_keys-Keeps s sparing =
      cached-Good s.cache.public_keys pubkey_call (client.pubkey s.calls)
        (λ keys. record s.cache { public_keys = some keys }) s sparing refl (stores_keys s.cache)

  get_height-Keeps : Keeps (get_height client printers)
  unfolding get_height
  get_height-Keeps s sparing =
      cached-Good s.cache.height height_call (client.height s.calls)
        (λ height. record s.cache { height = some height }) s sparing refl (stores_height s.cache)

  get_region-Keeps : Keeps (get_region client printers)
  unfolding get_region
  get_region-Keeps s sparing =
      cached-Good s.cache.region region_call (client.region s.calls)
        (λ region. record s.cache { region = some region }) s sparing refl (stores_region s.cache)

  get_gateway-Keeps : Keeps (get_gateway client printers)
  unfolding get_gateway
  get_gateway-Keeps =
      Keeps-bind (get_height client printers)
        (λ height s. (uri_of client printers height.gateway, s)) get_height-Keeps
        (λ height. Keeps-pure (uri_of client printers height.gateway))

  public_key-Keeps : Keeps (public_key client printers)
  unfolding public_key
  public_key-Keeps =
      Keeps-bind (get_public_keys client printers) (λ keys. pure keys.0) get_public_keys-Keeps
        (λ keys. Keeps-pure (ok keys.0))

  get_onboarding_key-Keeps : Keeps (get_onboarding_key client printers)
  unfolding get_onboarding_key
  get_onboarding_key-Keeps =
      Keeps-bind (get_public_keys client printers) (λ keys. pure keys.1) get_public_keys-Keeps
        (λ keys. Keeps-pure (ok keys.1))

  to_status-Keeps : (k : InfoKey) → Keeps (to_status client printers k)
  unfolding to_status
  to_status-Keeps fw s sparing =
      Keeps-pure {E = E} (ok (text_value (s.cache.platform ++ text "-" ++ printers.version))) s
        sparing
  to_status-Keeps key s sparing =
      Keeps-bind (public_key client printers) _ public_key-Keeps (λ k. Keeps-pure (ok _)) s sparing
  to_status-Keeps onboarding_key s sparing =
      Keeps-bind (get_onboarding_key client printers) _ get_onboarding_key-Keeps
        (λ k. Keeps-pure (ok _)) s sparing
  to_status-Keeps name s sparing =
      Keeps-bind (public_key client printers) _ public_key-Keeps (λ k. Keeps-pure (ok _)) s sparing
  to_status-Keeps gateway s sparing =
      Keeps-bind (get_gateway client printers) _ get_gateway-Keeps
        (λ uri. Keeps-bind (get_height client printers) _ get_height-Keeps (λ height.
          Keeps-bind (get_height client printers) _ get_height-Keeps (λ age.
            Keeps-bind (get_height client printers) _ get_height-Keeps
              (λ version. Keeps-pure (ok _)))))
        s sparing
  to_status-Keeps region s sparing =
      Keeps-bind (get_region client printers) _ get_region-Keeps (λ r. Keeps-pure (ok _)) s sparing

  run_keys-Keeps :
      (keys : List InfoKey) (info : List (Text × Value V K))
      → Keeps (run_keys client printers keys info)
  unfolding run_keys
  run_keys-Keeps [] info s sparing = Keeps-pure (ok info) s sparing
  run_keys-Keeps (k ∷ keys) info s sparing =
      Keeps-bind (to_status client printers k)
        (λ v. run_keys client printers keys (insert client printers (info_key_text k) v info))
        (to_status-Keeps k)
        (λ v. run_keys-Keeps keys (insert client printers (info_key_text k) v info)) s sparing

  new_state-Sparing : (platform : Text) → Sparing (new_state {P = P} {U = U} {R = R} platform)
  unfolding new_state
  new_state-Sparing platform c = (omega arith, λ h. refl)

  -- Whatever keys the command is asked for, in whatever order and how often, and whatever the local
  -- server answers, each of its calls is made at most once, also where the command ends in an error.
  pub run_keys-count :
      (platform : Text) (keys : List InfoKey) (c : Call)
      → count c (run_keys client printers keys [] (new_state platform)).1.calls ≤ 1
  run_keys-count platform keys c =
      let last = run_keys client printers keys [] (new_state platform) in
      Good-count last.0 last.1 c
        (run_keys-Keeps keys [] (new_state platform) (new_state-Sparing platform))
