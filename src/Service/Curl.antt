-- ===== src/Service/Curl.antt =====
-- src/curl.rs, src/service/entropy.rs, and the fetching of releases of src/updater/releases.rs, which start
-- the program curl; and the addresses of src/api/mod.rs. A started process and the parsers are parameters.
use gateway_rs.Base.{
  ℕ, List, [], ◌∷◌, ◌++◌, Result, ok, err, Text, text, ◌≡◌, inl, inr, refl, Result-cases,
}
use gateway_rs.Radio.Beacon.{Entropy}
use gateway_rs.Updater.Releases.{Release, reverse, fetch_releases}

-- `GH_PAGE_SIZE`
abbrev page_size : ℕ
page_size = 10

-- What a process that was started left.
pub record Output : Type 0 where
  pub status : ℕ
  pub stdout : List ℕ

module _ {E : Type 0} (output : Text → List Text → Result E Output) where
  -- `get`: the status is not looked at, so that what is read of a failed request is its empty output.
  unfoldable pub get : {R : Type 0} → Text → List Text → (List ℕ → Result E R) → Result E R
  get url args f = elim (output (text "curl") (args ++ text "-f" ∷ url ∷ [])) [
    | ok out ↦ f out.stdout
    | err e ↦ err e
  ]

  -- `EntropyService::get_entropy`
  unfoldable pub get_entropy : (List ℕ → Result E Entropy) → Text → Result E Entropy
  get_entropy from_slice uri = get uri (text "-H" ∷ text "Accept: application/json" ∷ []) from_slice

  -- The request of a page of releases, as it is parsed.
  unfoldable pub page_items :
      (List ℕ → Result E (List Release)) → (ℕ → Text) → Text → ℕ → Result E (List Release)
  page_items from_slice number_text url page =
      get (url ++ text "?per_page=" ++ number_text page_size ++ text "&page=" ++ number_text page)
        (text "-H" ∷ text "Accept: application/vnd.github.v3+json" ∷ []) from_slice

  -- `fetch_releases`: the service gives the newest release first, and the items are popped at the end.
  unfoldable pub fetch_page :
      (List ℕ → Result E (List Release)) → (ℕ → Text) → Text → ℕ → Result E (List Release)
  fetch_page from_slice number_text url page =
      get (url ++ text "?per_page=" ++ number_text page_size ++ text "&page=" ++ number_text page)
        (text "-H" ∷ text "Accept: application/vnd.github.v3+json" ∷ [])
        (λ bytes. elim (from_slice bytes) [ ok items ↦ ok (reverse items) | err e ↦ err e ])

  -- The stream of releases fetches its pages by this request.
  pub fetch_page-fetch_releases :
      (from_slice : List ℕ → Result E (List Release)) (number_text : ℕ → Text) (url : Text)
      (page : ℕ)
      → fetch_page from_slice number_text url page
        ≡ fetch_releases (page_items from_slice number_text url) page
  unfolding fetch_page fetch_releases page_items get
  fetch_page-fetch_releases from_slice number_text url page =
      let address =
        url ++ text "?per_page=" ++ number_text page_size ++ text "&page=" ++ number_text page in
      elim (Result-cases (
        output (text "curl")
          (text "-H" ∷ text "Accept: application/vnd.github.v3+json" ∷ text "-f" ∷ address ∷ []))) [
            | inl (out, e) ↦ rw (fetch_page, fetch_releases, page_items, get, e) refl
            | inr (failure, e) ↦ rw (fetch_page, fetch_releases, page_items, get, e) refl
          ]

abbrev listen_host : Text
listen_host = text "127.0.0.1"

module _ (number_text : ℕ → Text) where
  unfoldable pub listen_addr : ℕ → Text
  listen_addr port = listen_host ++ text ":" ++ number_text port

  unfoldable pub connect_uri : ℕ → Text
  connect_uri port = text "http://" ++ listen_addr port
