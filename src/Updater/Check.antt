-- ===== src/Updater/Check.antt =====
-- src/updater/mod.rs: the check for a newer release, and the loop over the timer. What the file
-- system and the started processes do is a record of functions.
use gateway_rs.Base.{
  ℕ, ◌*◌, Bool, ◌&&◌, List, [], ◌∷◌, Option, none, some, Result, ok, err, if◌then◌else◌, Text,
}
use gateway_rs.Updater.Channel.{Channel, Version, Semver, in_channel}
use gateway_rs.Updater.Releases.{
  ReleaseAsset, Release, asset_for_platform, is_some, all_releases, filtered, try_next,
}

pub record UpdateSettings : Type 0 where
  pub enabled : Bool
  pub interval : ℕ
  pub channel : Channel
  pub platform : Text
  pub uri : Text
  pub command : Text

pub record Updater : Type 0 where
  pub enabled : Bool
  pub uri : Text
  pub channel : Channel
  pub platform : Text
  pub interval : ℕ
  pub install_command : Text

-- The interval is in seconds.
unfoldable pub new_updater : UpdateSettings → Updater
new_updater settings = record {
  enabled = settings.enabled;
  uri = settings.uri;
  channel = settings.channel;
  platform = settings.platform;
  interval = settings.interval * 60;
  install_command = settings.command;
}

pub record Output : Type 0 where
  pub success : Bool
  pub stderr : List ℕ

-- `started` is the exit of the `curl` that downloads an asset to a path, and `command` the output of
-- a program with one argument.
pub record System (E : Type 0) : Type 0 where
  pub in_temp_dir : Text → Text
  pub started : Text → Text → Result E Bool
  pub command : Text → Text → Result E Output
  pub from_utf8 : List ℕ → Option Text
  pub failed_download : ReleaseAsset → E
  pub other_error : Text → E

-- What a check leads to. `exhausted` is that the fuel of the stream did not suffice.
pub data Outcome (E : Type 0) : Type 0 where
  waits : Outcome E
  panics : Outcome E
  exhausted : Outcome E
  ends : Result E (Unit {0}) → Outcome E

-- What the loop wakes for: the shutdown, or the timer with what the pages of the service hold.
pub data Wake (E : Type 0) : Type 0 where
  shutdown : Wake E
  tick : (ℕ → Result E (List Release)) → Wake E

module _ ⦃semver : Semver⦄ where
  unfoldable pub is_update : Version → Updater → Release → Bool
  is_update current_version self r =
      in_channel r.version self.channel
      && semver.version_gt r.version current_version
      && is_some (asset_for_platform r self.platform)

module _ {E : Type 0} (system : System E) where
  unfoldable pub download : ReleaseAsset → Text → Result E (Unit {0})
  download self dest = elim (system.started self.download_url dest) [
    | ok success ↦ if success then ok tt else err (system.failed_download self)
    | err e ↦ err e
  ]

  -- The output of an installation that fails has to be text.
  unfoldable pub failed_install : Option Text → Outcome E
  failed_install none = panics
  failed_install (some output) = ends (err (system.other_error output))

  unfoldable pub install : Updater → Text → Outcome E
  install self download_path = elim (system.command self.install_command download_path) [
    | err e ↦ ends (err e)
    | ok output ↦
        if output.success then ends (ok tt) else failed_install (system.from_utf8 output.stderr)
  ]

  unfoldable pub download_and_install : Updater → ReleaseAsset → Outcome E
  download_and_install self asset =
      let download_path = system.in_temp_dir asset.name in
      elim (download asset download_path) [
        | err e ↦ ends (err e)
        | ok _ ↦ install self download_path
      ]

  module _ ⦃semver : Semver⦄ (current_version : Version) where
    unfoldable pub handle_release : Updater → Release → Outcome E
    handle_release self release = elim (asset_for_platform release self.platform) [
      | none ↦ panics
      | some asset ↦ download_and_install self asset
    ]

    unfoldable pub check_releases : Updater → List (Result E Release) → Outcome E
    check_releases self releases =
        elim (try_next (filtered (is_update current_version self) releases)) [
          | ok (some release) ↦ handle_release self release
          | ok none ↦ waits
          | err e ↦ waits
        ]

    unfoldable pub handle_tick : ℕ → Updater → (ℕ → Result E (List Release)) → Outcome E
    handle_tick fuel self pages = elim (all_releases pages fuel) [
      | none ↦ exhausted
      | some releases ↦ check_releases self releases
    ]

    -- The loop, as long as it is woken.
    unfoldable pub run_loop : ℕ → Updater → List (Wake E) → Outcome E
    run_loop fuel self [] = waits
    run_loop fuel self (shutdown ∷ rest) = ends (ok tt)
    run_loop fuel self (tick pages ∷ rest) =
        let later = run_loop fuel self rest in
        elim (handle_tick fuel self pages) [ waits ↦ later | outcome ↦ outcome ]

    unfoldable pub run : ℕ → Updater → List (Wake E) → Outcome E
    run fuel self wakes = if self.enabled then run_loop fuel self wakes else ends (ok tt)
