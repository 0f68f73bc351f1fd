-- ===== src/Updater/Releases.antt =====
-- src/updater/releases.rs: releases, their assets, and the stream of all of them. What a page of the
-- service holds is a parameter; a stream is the list of what it yields.
use gateway_rs.Base.{
  ℕ, zero, suc, ◌+◌, Bool, true, false, List, [], ◌∷◌, ◌++◌, Option, none, some, Result, ok, err,
  retain, if◌then◌else◌, Text, text, starts_with,
}
use gateway_rs.Updater.Channel.{Version, Semver}

pub record ReleaseAsset : Type 0 where
  pub name : Text
  pub download_url : Text
  pub size : ℕ

pub record Release : Type 0 where
  pub version : Version
  pub assets : List ReleaseAsset

-- `iter().find(..)`
abbrev pub find {ℓ} : {A : Type ℓ} → (A → Bool) → List A → Option A
find p [] = none
find p (x ∷ xs) = let later = find p xs in if p x then some x else later

unfoldable pub asset_named : Release → Text → Option ReleaseAsset
asset_named self name = find (λ asset. starts_with asset.name name) self.assets

unfoldable pub asset_for_platform : ⦃semver : Semver⦄ → Release → Text → Option ReleaseAsset
asset_for_platform ⦃semver⦄ self platform =
    asset_named self
      (text "helium-gateway-v" ++ semver.version_text self.version ++ text "-" ++ platform)

abbrev pub is_some {ℓ} : {A : Type ℓ} → Option A → Bool
is_some none = false
is_some (some a) = true

abbrev pub reverse {ℓ} : {A : Type ℓ} → List A → List A
reverse [] = []
reverse (x ∷ xs) = reverse xs ++ x ∷ []

-- `Vec::pop`, from the end.
abbrev pub pop {ℓ} : {A : Type ℓ} → List A → Option (A × List A)
pop [] = none
pop (x ∷ xs) = elim (pop xs) [ none ↦ some (x, []) | some (last, front) ↦ some (last, x ∷ front) ]

-- `pages` is the parsed answer of the service for a page, or the error.
module _ {E : Type 0} (pages : ℕ → Result E (List Release)) where
  unfoldable pub fetch_releases : ℕ → Result E (List Release)
  fetch_releases page = elim (pages page) [ ok items ↦ ok (reverse items) | err e ↦ err e ]

  -- `try_unfold`, from a page and the items of it that are left. `none` is that the fuel, one unit
  -- for each item that is yielded and one for the end, did not suffice.
  unfoldable pub next_items : ℕ → ℕ → List Release → Option (List (Result E Release))
  next_items zero page items = none
  next_items (suc fuel) page items = elim (pop items) [
    | some (item, left) ↦ elim (next_items fuel page left) [
      | none ↦ none
      | some rest ↦ some (ok item ∷ rest)
    ]
    | none ↦ elim (fetch_releases (page + 1)) [
      | err e ↦ some (err e ∷ [])
      | ok fetched ↦ elim (pop fetched) [
        | none ↦ some []
        | some (item, left) ↦ elim (next_items fuel (page + 1) left) [
          | none ↦ none
          | some rest ↦ some (ok item ∷ rest)
        ]
      ]
    ]
  ]

  unfoldable pub all_releases : ℕ → Option (List (Result E Release))
  all_releases fuel = elim (fetch_releases 1) [
    | err e ↦ some (err e ∷ [])
    | ok items ↦ next_items fuel 1 items
  ]

module _ {E : Type 0} where
  abbrev accepts : (Release → Bool) → Result E Release → Bool
  accepts filter (ok release) = filter release
  accepts filter (err e) = false

  unfoldable pub filtered : (Release → Bool) → List (Result E Release) → List (Result E Release)
  filtered filter releases = retain (accepts filter) releases

  -- `try_next`: the first item, an error where it is one.
  unfoldable pub try_next : List (Result E Release) → Result E (Option Release)
  try_next [] = ok none
  try_next (ok release ∷ rest) = ok (some release)
  try_next (err e ∷ rest) = err e
