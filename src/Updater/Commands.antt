-- ===== src/Updater/Commands.antt =====
-- src/cmd/update.rs: the commands that list the releases and download one. What is printed is a value.
use gateway_rs.Base.{ℕ, Bool, ◌&&◌, List, [], ◌∷◌, Option, none, some, Result, ok, err, take, Text}
use gateway_rs.Updater.Channel.{Channel, Version, Semver, in_channel, from_version}
use gateway_rs.Updater.Releases.{Release, asset_for_platform, is_some, filtered, try_next}
use gateway_rs.Updater.Check.{UpdateSettings, System, download}

abbrev pub unwrap_or {ℓ} : {A : Type ℓ} → Option A → A → A
unwrap_or none default = default
unwrap_or (some a) default = a

pub record ListArgs : Type 0 where
  pub channel : Option Channel
  pub count : Option ℕ
  pub platform : Option Text

-- A line of the list, with the mark of the current version.
pub record Line : Type 0 where
  pub version : Version
  pub is_current : Bool

pub data Printed (E : Type 0) : Type 0 where
  downloaded_to : Text → Printed E
  failed_download_error : E → Printed E
  no_release_found : Printed E
  error_finding : E → Printed E
  panicked : Printed E
  returned : E → Printed E

module _ ⦃semver : Semver⦄ where
  unfoldable pub is_listed : Channel → Text → Release → Bool
  is_listed channel platform r =
      in_channel r.version channel && is_some (asset_for_platform r platform)

  unfoldable pub is_requested : Version → Text → Release → Bool
  is_requested version platform r =
      semver.version_eq r.version version
      && in_channel r.version (from_version version)
      && is_some (asset_for_platform r platform)

  unfoldable pub print_line : Version → Release → Line
  print_line current release = record {
    version = release.version;
    is_current = semver.version_eq current release.version;
  }

module _ ⦃semver : Semver⦄ {E : Type 0} where
  -- `while let Some(Ok(release))`
  unfoldable pub print_lines : Version → List (Result E Release) → List Line
  print_lines current [] = []
  print_lines current (err e ∷ rest) = []
  print_lines current (ok release ∷ rest) = print_line current release ∷ print_lines current rest

  -- `List::run`, over what the stream of all releases yields.
  unfoldable pub list_releases :
      Version → UpdateSettings → ListArgs → List (Result E Release) → List Line
  list_releases current settings self releases =
      let channel = unwrap_or self.channel settings.channel in
      let platform = unwrap_or self.platform settings.platform in
      print_lines current
        (take (unwrap_or self.count 10) (filtered (is_listed channel platform) releases))

-- `path` is the argument of the command. The current directory is asked for even where a path is given.
module _ ⦃semver : Semver⦄ {E : Type 0} (system : System E) (current_dir : Result E Text)
    (join : Text → Text → Text) (path : Option Text) where
  unfoldable pub download_release : UpdateSettings → Version → List (Result E Release) → Printed E
  download_release settings version releases =
      elim (try_next (filtered (is_requested version settings.platform) releases)) [
        | err e ↦ error_finding e
        | ok none ↦ no_release_found
        | ok (some release) ↦ elim (asset_for_platform release settings.platform) [
          | none ↦ panicked
          | some asset ↦ elim current_dir [
            | err e ↦ returned e
            | ok dir ↦
                let download_path = join (unwrap_or path dir) asset.name in
                elim (download system asset download_path) [
                  | ok _ ↦ downloaded_to download_path
                  | err e ↦ failed_download_error e
                ]
          ]
        ]
      ]
