-- ===== src/Updater/Requests.antt =====
-- src/cmd/update.rs: what the two commands find.
use gateway_rs.Base.{
  ℕ, Option, zero, suc, ◌≡◌, refl, ap, ◌∙◌, Bool, true, false, List, [], ◌∷◌, map, take, none,
  Result, ok, err, Text, any, retain, Bool-cases, inl, inr,
}
use gateway_rs.Updater.Channel.{Channel, Version, Semver, in_channel, from_version, is_empty}
use gateway_rs.Updater.Prereleases.{names_channel, in_channel-from_version}
use gateway_rs.Updater.Releases.{Release, find, filtered}
use gateway_rs.Updater.Check.{UpdateSettings, System}
use gateway_rs.Updater.Commands.{
  ListArgs, no_release_found, unwrap_or, is_listed, is_requested, print_line, print_lines,
  list_releases, download_release,
}
use gateway_rs.Updater.Updates.{successes, try_next-filtered}

find-never {ℓ} :
    {A : Type ℓ} (p : A → Bool) (xs : List A) → ((x : A) → p x ≡ false) → find p xs ≡ none
find-never p [] h = refl
find-never p (x ∷ xs) h = rw (h x) (find-never p xs h)

module _ ⦃semver : Semver⦄ where
  -- Versions that are equal have the same identifiers of a prerelease.
  unfoldable pub SamePre : Type 0
  SamePre = (v w : Version) → semver.version_eq v w ≡ true → v.pre ≡ w.pre

  in_channel-pre :
      (v w : Version) (channel : Channel)
      → v.pre ≡ w.pre
      → in_channel v channel ≡ in_channel w channel
  unfolding in_channel
  in_channel-pre v w Channel.devnet e = rw e refl
  in_channel-pre v w Channel.testnet e = rw e refl
  in_channel-pre v w Channel.alpha e = rw e refl
  in_channel-pre v w Channel.beta e = rw e refl
  in_channel-pre v w Channel.release e = rw e refl

  is_requested-unnamed :
      (version : Version) (platform : Text) (r : Release)
      → SamePre
      → is_empty version.pre ≡ false
      → any names_channel version.pre ≡ false
      → is_requested version platform r ≡ false
  unfolding is_requested SamePre
  is_requested-unnamed version platform r same pre unnamed =
      elim (Bool-cases (semver.version_eq r.version version)) [
        | inr other ↦ rw (is_requested, other) refl
        | inl equal ↦
            let out : in_channel r.version (from_version version) ≡ false =
              in_channel-pre r.version version (from_version version) (same r.version version equal)
              ∙ in_channel-from_version version
              ∙ rw (pre, unnamed) refl in
            rw (is_requested, equal, out) refl
      ]

  -- Where equal versions have the same identifiers, a prerelease none of whose identifiers is the
  -- name of a channel is never found by the download command, whatever the service holds.
  pub download_release-unnamed :
      {E : Type 0} (system : System E) (current_dir : Result E Text) (join : Text → Text → Text)
      (path : Option Text) (settings : UpdateSettings) (version : Version)
      (releases : List (Result E Release))
      → SamePre
      → is_empty version.pre ≡ false
      → any names_channel version.pre ≡ false
      → download_release system current_dir join path settings version releases ≡ no_release_found
  unfolding download_release
  download_release-unnamed system current_dir join path settings version releases same pre unnamed =
      rw
        (
          download_release,
          try_next-filtered (is_requested version settings.platform) releases,
          find-never (is_requested version settings.platform) (successes releases)
              (λ r. is_requested-unnamed version settings.platform r same pre unnamed),
        )
        refl

  print_lines-take-filtered :
      {E : Type 0} (current : Version) (count : ℕ) (filter : Release → Bool)
      (releases : List (Result E Release))
      → print_lines current (take count (filtered filter releases))
        ≡ map (print_line current) (take count (retain filter (successes releases)))
  unfolding filtered print_lines
  print_lines-take-filtered current zero filter releases = refl
  print_lines-take-filtered current (suc count) filter [] = refl
  print_lines-take-filtered current (suc count) filter (err e ∷ rest) =
      print_lines-take-filtered current (suc count) filter rest
  print_lines-take-filtered current (suc count) filter (ok release ∷ rest) =
      elim (Bool-cases (filter release)) [
        | inl kept ↦ rw kept (
            ap (◌∷◌ (print_line current release))
              (print_lines-take-filtered current count filter rest))
        | inr dropped ↦ rw dropped (print_lines-take-filtered current (suc count) filter rest)
      ]

  -- The list command prints the versions of the first releases, ten where no count is given, that
  -- are in the channel and made for the platform that are given or set, in their order and with
  -- a mark at the current one; failures of the service neither end the list nor show in it.
  pub list_releases-first :
      {E : Type 0} (current : Version) (settings : UpdateSettings) (self : ListArgs)
      (releases : List (Result E Release))
      → list_releases current settings self releases
        ≡ map (print_line current) (
            take (unwrap_or self.count 10) (
              retain
                (is_listed
                  (unwrap_or self.channel settings.channel)
                  (unwrap_or self.platform settings.platform))
                (successes releases)))
  unfolding list_releases
  list_releases-first current settings self releases =
      print_lines-take-filtered current (unwrap_or self.count 10)
        (is_listed (unwrap_or self.channel settings.channel)
          (unwrap_or self.platform settings.platform))
        releases
