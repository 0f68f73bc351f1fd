-- ===== src/Updater/Samples.antt =====
-- Releases and versions, to run src/updater/ and src/cmd/update.rs on.
use gateway_rs.Base.{
  ℕ, zero, suc, ◌+◌, ◌≡◌, refl, arith, Bool, true, false, ◌&&◌, List, [], ◌∷◌, ◌++◌, none, some,
  Result, ok, err, ◌==◌, ltb, if◌then◌else◌, Text, text, text_eq, text_eq_iff,
}
use gateway_rs.Updater.Channel.{
  release, Identifier, numeric, alpha_numeric, Version, Semver, from_version, in_channel,
  channel_of, channel_named, channel_text,
}
use gateway_rs.Updater.Prereleases.{in_channel-from_version}
use gateway_rs.Updater.Releases.{
  ReleaseAsset, Release, find, asset_named, asset_for_platform, all_releases, filtered, try_next,
}
use gateway_rs.Updater.Listing.{Walk, ends, goes_on, all_releases-Walk}
use gateway_rs.Updater.Check.{
  UpdateSettings, Updater, new_updater, System, shutdown, tick, download_and_install, is_update,
  run,
}
use gateway_rs.Updater.Commands.{ListArgs, download_release, no_release_found}
use gateway_rs.Updater.Updates.{try_next-filtered, Stream, fails, run-first_update}
use gateway_rs.Updater.Requests.{SamePre, download_release-unnamed}

abbrev digit : ℕ → Text
digit n = (48 + n) ∷ []

abbrev same_pre : List Identifier → List Identifier → Bool
same_pre [] [] = true
same_pre [] (j ∷ js) = false
same_pre (i ∷ is) [] = false
same_pre (numeric m ∷ is) (numeric n ∷ js) = m == n && same_pre is js
same_pre (numeric m ∷ is) (alpha_numeric t ∷ js) = false
same_pre (alpha_numeric s ∷ is) (numeric n ∷ js) = false
same_pre (alpha_numeric s ∷ is) (alpha_numeric t ∷ js) = text_eq s t && same_pre is js

-- An order that looks at the first two numbers.
abbrev sample_semver : Semver
sample_semver = record {
  version_eq = λ v w. v.major == w.major && v.minor == w.minor && same_pre v.pre w.pre;
  version_gt = λ v w. if v.major == w.major then ltb w.minor v.minor else ltb w.major v.major;
  version_text = λ v. digit v.major ++ text "." ++ digit v.minor;
}

abbrev version : ℕ → List Identifier → Version
version minor pre = record { major = 1; minor = minor; patch = 0; pre = pre; build = [] }

abbrev asset : Text → ReleaseAsset
asset name = record { name = name; download_url = text "http://host/" ++ name; size = 9 }

abbrev older : Release
older = record {
  version = version 1 [];
  assets = asset (text "helium-gateway-v1.1-klkgw.ipk") ∷ [];
}

abbrev newer : Release
newer = record {
  version = version 3 [];
  assets = asset (text "helium-gateway-v1.3-klkgw.ipk") ∷ [];
}

abbrev preview : Release
preview = record {
  version = version 4 (alpha_numeric (text "alpha") ∷ []);
  assets = asset (text "helium-gateway-v1.4-klkgw.ipk") ∷ [];
}

-- Two pages and an empty one.
abbrev pages : ℕ → Result ℕ (List Release)
pages zero = ok []
pages (suc zero) = ok (preview ∷ older ∷ [])
pages (suc (suc zero)) = ok (newer ∷ [])
pages (suc (suc (suc n))) = ok []

abbrev failing : ℕ → Result ℕ (List Release)
failing n = err 7

abbrev walk : Walk pages 2 (ok newer ∷ [])
walk = goes_on refl (ends refl)

all_releases-Walk_example : all_releases pages 9 ≡ some (ok preview ∷ ok older ∷ ok newer ∷ [])
all_releases-Walk_example =
    all_releases-Walk pages 9 (preview ∷ older ∷ []) (ok newer ∷ []) refl walk (omega arith)

not_in_own_channel : in_channel (version 1 (alpha_numeric (text "rc1") ∷ [])) release ≡ false
unfolding from_version channel_of channel_named
not_in_own_channel = in_channel-from_version (version 1 (alpha_numeric (text "rc1") ∷ []))

try_next-filtered_example :
    try_next {E = ℕ} (filtered (λ r. ltb 2 r.version.minor) (err 7 ∷ ok older ∷ ok newer ∷ []))
    ≡ ok (some newer)
try_next-filtered_example =
    try_next-filtered (λ r. ltb 2 r.version.minor) (err 7 ∷ ok older ∷ ok newer ∷ [])

abbrev settings : UpdateSettings
settings = record {
  enabled = true;
  interval = 10;
  channel = release;
  platform = text "klkgw";
  uri = text "http://host";
  command = text "install";
}

abbrev system : System ℕ
system = record {
  in_temp_dir = λ name. text "/tmp/" ++ name;
  started = λ url path. ok true;
  command = λ program path. ok (record { success = true; stderr = [] });
  from_utf8 = λ bytes. some bytes;
  failed_download = λ a. 1;
  other_error = λ t. 2;
}

abbrev updater : Updater
unfolding new_updater
updater = new_updater settings

abbrev stream : Stream 9 pages (preview ∷ older ∷ newer ∷ [])
stream = record {
  first = preview ∷ older ∷ [];
  rest = ok newer ∷ [];
  starts = refl;
  walk = walk;
  enough = omega arith;
  holds = refl;
}

finds :
    find (is_update ⦃semver = sample_semver⦄ (version 2 []) updater) (preview ∷ older ∷ newer ∷ [])
    ≡ some newer
unfolding is_update new_updater in_channel channel_text asset_for_platform asset_named
finds = refl

run-first_update_example :
    (asset : ReleaseAsset) × (asset_for_platform ⦃semver = sample_semver⦄ newer (text "klkgw")
      ≡ some asset)
    × (run system ⦃semver = sample_semver⦄
          (version 2 [])
          9
          updater
          (tick failing ∷ tick pages ∷ shutdown ∷ [])
        ≡ download_and_install system updater asset)
unfolding updater
run-first_update_example =
    run-first_update system ⦃semver = sample_semver⦄ (version 2 []) 9 updater (tick failing ∷ [])
      (shutdown ∷ []) pages (preview ∷ older ∷ newer ∷ []) newer refl (fails refl, tt) stream finds

same_pre-eq : (is js : List Identifier) → same_pre is js ≡ true → is ≡ js
same_pre-eq [] [] h = refl
same_pre-eq [] (j ∷ js) h = cc
same_pre-eq (i ∷ is) [] h = cc
same_pre-eq (numeric m ∷ is) (numeric n ∷ js) h = ground (arith, same_pre-eq is js)
same_pre-eq (numeric m ∷ is) (alpha_numeric t ∷ js) h = cc
same_pre-eq (alpha_numeric s ∷ is) (numeric n ∷ js) h = cc
same_pre-eq (alpha_numeric s ∷ is) (alpha_numeric t ∷ js) h =
    ground (arith, same_pre-eq is js, (text_eq_iff s t).0)

sample_semver-SamePre : SamePre ⦃semver = sample_semver⦄
unfolding SamePre
sample_semver-SamePre v w h = same_pre-eq v.pre w.pre (ground (arith, h))

download_release-unnamed_example :
    download_release ⦃semver = sample_semver⦄ system
      (ok (text "/root"))
      (λ dir name. dir ++ name)
      none
      settings
      (version 4 (alpha_numeric (text "rc1") ∷ []))
      (ok older ∷ [])
    ≡ no_release_found
download_release-unnamed_example =
    download_release-unnamed ⦃semver = sample_semver⦄ system (ok (text "/root"))
      (λ dir name. dir ++ name) none settings (version 4 (alpha_numeric (text "rc1") ∷ []))
      (ok older ∷ []) sample_semver-SamePre refl refl

abbrev list_args : ListArgs
list_args = record { channel = none; count = some 1; platform = none }
