-- ===== src/Updater/Updates.antt =====
-- src/updater/mod.rs, src/updater/releases.rs: which release a check takes, and what the loop does
-- with it.
use gateway_rs.Base.{
  ℕ, ◌+◌, ◌<◌, ◌≡◌, ◌≢◌, refl, sym, ap, ◌∙◌, arith, Bool, true, List, [], ◌∷◌, ◌++◌, map, length,
  Option, none, some, Result, ok, err, Result-cases, Text, All, if◌then◌else◌, Bool-cases,
  Option-cases, inl, inr,
}
use gateway_rs.Updater.Channel.{Version, Semver}
use gateway_rs.Updater.Releases.{
  ReleaseAsset, Release, find, asset_for_platform, is_some, all_releases, fetch_releases, filtered,
  try_next,
}
use gateway_rs.Updater.Listing.{Walk, all_releases-Walk}
use gateway_rs.Updater.Check.{
  Updater, System, Outcome, waits, panics, exhausted, ends, Wake, shutdown, tick, download,
  failed_install, install, download_and_install, is_update, handle_release, check_releases,
  handle_tick, run_loop, run,
}

module _ {E : Type 0} where
  abbrev pub successes : List (Result E Release) → List Release
  successes [] = []
  successes (ok release ∷ rest) = release ∷ successes rest
  successes (err e ∷ rest) = successes rest

  pub successes-append :
      (releases : List Release) (rest : List (Result E Release))
      → successes (map ok releases ++ rest) ≡ releases ++ successes rest
  successes-append [] rest = refl
  successes-append (release ∷ releases) rest = ap (◌∷◌ release) (successes-append releases rest)

  -- The first item of a filtered stream is the first release that passes, whatever fails before it:
  -- so the first item is never an error.
  pub try_next-filtered :
      (filter : Release → Bool) (releases : List (Result E Release))
      → try_next (filtered filter releases) ≡ ok (find filter (successes releases))
  unfolding try_next filtered
  try_next-filtered filter [] = refl
  try_next-filtered filter (err e ∷ rest) = try_next-filtered filter rest
  try_next-filtered filter (ok release ∷ rest) = elim (Bool-cases (filter release)) [
    | inl yes_ ↦ rw yes_ refl
    | inr no_ ↦ rw no_ (try_next-filtered filter rest)
  ]

  -- The pages of a wake, and what the stream of them holds.
  pub record Stream (fuel : ℕ) (pages : ℕ → Result E (List Release)) (held : List Release)
      : Type 0 where
    pub first : List Release
    pub rest : List (Result E Release)
    pub starts : pages 1 ≡ ok first
    pub walk : Walk pages 2 rest
    pub enough : length first + length rest < fuel
    pub holds : first ++ successes rest ≡ held

module _ {E : Type 0} ⦃semver : Semver⦄ (current : Version) where
  -- A wake of the timer that finds nothing: the first page fails, or no release that the service
  -- holds is an update.
  pub data Quiet (fuel : ℕ) (self : Updater) : Wake E → Type 0 where
    fails :
        {pages : ℕ → Result E (List Release)} {e : E}
        → pages 1 ≡ err e
        → Quiet fuel self (tick pages)
    no_update :
        {pages : ℕ → Result E (List Release)} {held : List Release}
        → Stream fuel pages held
        → find (is_update current self) held ≡ none
        → Quiet fuel self (tick pages)

find-passes {ℓ} :
    {A : Type ℓ} (p : A → Bool) (xs : List A) {x : A} → find p xs ≡ some x → p x ≡ true
find-passes p [] h = cc
find-passes p (y ∷ ys) h = elim (Bool-cases (p y)) [
  | inl t ↦ ground (arith, h, t)
  | inr f ↦ find-passes p ys (ground (arith, h, f))
]

module _ ⦃semver : Semver⦄ where
  is_update-asset :
      (current : Version) (self : Updater) (release : Release)
      → is_update current self release ≡ true
      → (asset : ReleaseAsset) × (asset_for_platform release self.platform ≡ some asset)
  unfolding is_update
  is_update-asset current self release h =
      elim (Option-cases (asset_for_platform release self.platform)) [
        | inl e ↦ absurd (ground (arith, ap is_some e, h))
        | inr found ↦ found
      ]

module _ {E : Type 0} (system : System E) where
  failed_install-ne-waits : (output : Option Text) → failed_install system output ≢ waits
  unfolding failed_install
  failed_install-ne-waits none h = cc
  failed_install-ne-waits (some output) h = cc

  install-ne-waits : (self : Updater) (path : Text) → install system self path ≢ waits
  unfolding install
  install-ne-waits self path h = elim (Result-cases (system.command self.install_command path)) [
    | inr (e, failed) ↦ absurd (ground (arith, failed, h))
    | inl (output, ran) ↦ elim (Bool-cases output.success) [
      | inl good ↦ absurd (ground (arith, ran, good, h))
      | inr bad ↦
          failed_install-ne-waits (system.from_utf8 output.stderr)
            (sym (rw (install, ran, bad) refl) ∙ h)
    ]
  ]

  pub download_and_install-ne-waits :
      (self : Updater) (asset : ReleaseAsset) → download_and_install system self asset ≢ waits
  unfolding download_and_install
  download_and_install-ne-waits self asset h =
      elim (Result-cases (download system asset (system.in_temp_dir asset.name))) [
        | inl (done, e) ↦
            install-ne-waits self (system.in_temp_dir asset.name)
              (sym (rw (download_and_install, e) refl) ∙ h)
        | inr (e, failed) ↦ absurd (ground (arith, failed, h))
      ]

  module _ ⦃semver : Semver⦄ (current : Version) where
    check_releases-find :
        (self : Updater) (releases : List (Result E Release)) {found : Option Release}
        → find (is_update current self) (successes releases) ≡ found
        → check_releases system current self releases
          ≡ elim found [ none ↦ waits | some release ↦ handle_release system current self release ]
    unfolding check_releases
    check_releases-find self releases {found = none} e =
        rw (check_releases, try_next-filtered (is_update current self) releases, e) refl
    check_releases-find self releases {found = some release} e =
        rw (check_releases, try_next-filtered (is_update current self) releases, e) refl

    handle_tick-find :
        (fuel : ℕ) (self : Updater) (pages : ℕ → Result E (List Release)) {held : List Release}
        {found : Option Release}
        → Stream fuel pages held
        → find (is_update current self) held ≡ found
        → handle_tick system current fuel self pages
          ≡ elim found [ none ↦ waits | some release ↦ handle_release system current self release ]
    unfolding handle_tick
    handle_tick-find fuel self pages s e =
        rw (handle_tick, all_releases-Walk pages fuel s.first s.rest s.starts s.walk s.enough)
          (check_releases-find self (map ok s.first ++ s.rest)
            (ap (find (is_update current self)) (successes-append s.first s.rest ∙ s.holds) ∙ e))

    handle_tick-Quiet :
        (fuel : ℕ) (self : Updater) {pages : ℕ → Result E (List Release)}
        → Quiet current fuel self (tick pages)
        → handle_tick system current fuel self pages ≡ waits
    unfolding handle_tick all_releases fetch_releases check_releases filtered try_next
    handle_tick-Quiet fuel self {pages} (fails e) =
        rw (handle_tick, all_releases, fetch_releases, e, check_releases) refl
    handle_tick-Quiet fuel self {pages} (no_update s e) = handle_tick-find fuel self pages s e

    run_loop-Quiet :
        (fuel : ℕ) (self : Updater) (before rest : List (Wake E))
        → All (Quiet current fuel self) before
        → run_loop system current fuel self (before ++ rest)
          ≡ run_loop system current fuel self rest
    unfolding run_loop
    run_loop-Quiet fuel self [] rest q = refl
    run_loop-Quiet fuel self (shutdown ∷ before) rest q = elim (q.0) [ ]
    run_loop-Quiet fuel self (tick pages ∷ before) rest (now, q) =
        rw (run_loop, handle_tick-Quiet fuel self now) (run_loop-Quiet fuel self before rest q)

    ends_there :
        (fuel : ℕ) (self : Updater) (pages : ℕ → Result E (List Release)) (rest : List (Wake E))
        (outcome : Outcome E)
        → handle_tick system current fuel self pages ≡ outcome
        → outcome ≢ waits
        → run_loop system current fuel self (tick pages ∷ rest) ≡ outcome
    unfolding run_loop
    ends_there fuel self pages rest waits e n = absurd (n refl)
    ends_there fuel self pages rest panics e n = rw (run_loop, e) refl
    ends_there fuel self pages rest exhausted e n = rw (run_loop, e) refl
    ends_there fuel self pages rest (ends r) e n = rw (run_loop, e) refl

    run_enabled :
        (fuel : ℕ) (self : Updater) (wakes : List (Wake E))
        → self.enabled ≡ true
        → run system current fuel self wakes ≡ run_loop system current fuel self wakes
    unfolding run
    run_enabled fuel self wakes on =
        ap (λ b. if b then run_loop system current fuel self wakes else ends (ok tt)) on

    -- An updater that is enabled keeps on waiting while a wake of the timer finds nothing, also where the
    -- first page of the service fails; at the first wake with an update it downloads and installs
    -- the asset of the first release, in the order of the service, that is newer, in its channel
    -- and made for its platform, and ends with the outcome of that: it does not panic for want of
    -- an asset, and what comes later is not looked at.
    pub run-first_update :
        (fuel : ℕ) (self : Updater) (before after : List (Wake E))
        (pages : ℕ → Result E (List Release)) (held : List Release) (release : Release)
        → self.enabled ≡ true
        → All (Quiet current fuel self) before
        → Stream fuel pages held
        → find (is_update current self) held ≡ some release
        → (asset : ReleaseAsset) × (asset_for_platform release self.platform ≡ some asset)
          × (run system current fuel self (before ++ tick pages ∷ after)
              ≡ download_and_install system self asset)
    unfolding handle_release
    run-first_update fuel self before after pages held release on quiet s e =
        let (asset, is_asset) =
          is_update-asset current self release (find-passes (is_update current self) held e) in
        let handled : handle_tick system current fuel self pages
            ≡ download_and_install system self asset =
          handle_tick-find fuel self pages s e ∙ rw (handle_release, is_asset) refl in
        (
          asset,
          is_asset,
          run_enabled fuel self (before ++ tick pages ∷ after) on
              ∙ (run_loop-Quiet fuel self before (tick pages ∷ after) quiet
                  ∙ ends_there fuel self pages after (download_and_install system self asset)
                      handled (download_and_install-ne-waits self asset)),
        )
