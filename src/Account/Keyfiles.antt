-- ===== src/Account/Keyfiles.antt =====
-- src/keypair.rs: key files that are missing, kept and read again.
use gateway_rs.Base.{
  ◌≡◌, ◌≢◌, refl, ap, ◌∙◌, Option, none, some, ok, err, Text, text, text_eq, true, Bool-cases,
  Option-cases, Result-cases, inl, inr,
}
use gateway_rs.Account.Keypair.{
  not_found, other_io, FileSystem, Stores, Uri, KeyCrates, ReadsKeys, Network, load_from_file,
  create_parent, save_to_file, network_of, generate_key, from_file, from_scheme, from_str,
}

module _ {E K R FS : Type 0} (files : FileSystem FS) (crates : KeyCrates E K R) where
  -- A uri of a file.
  pub data IsFile : Option Text → Type 0 where
    no_scheme : IsFile none
    file_scheme : {scheme : Text} → text_eq scheme (text "file") ≡ true → IsFile (some scheme)

  from_scheme-IsFile :
      (seed : R) (fs : FS) (url : Uri) (scheme : Option Text)
      → IsFile scheme
      → from_scheme files crates seed fs url scheme ≡ from_file files crates seed fs url
  unfolding from_scheme
  from_scheme-IsFile seed fs url _ no_scheme = refl
  from_scheme-IsFile seed fs url _ (file_scheme same) = rw (from_scheme, same) refl

  from_str-from_file :
      (seed : R) (fs : FS) (str : Text) (url : Uri)
      → crates.parse_uri str ≡ some url
      → IsFile url.scheme
      → from_str files crates seed fs str ≡ from_file files crates seed fs url
  unfolding from_str
  from_str-from_file seed fs str url is_url is_file =
      rw (from_str, is_url) (from_scheme-IsFile seed fs url url.scheme is_file)

  reads_saved :
      (seed : R) (fs : FS) (url : Uri) (key : K)
      → ReadsKeys crates
      → files.read fs url.path ≡ ok (crates.key_to_vec key)
      → from_file files crates seed fs url ≡ (ok key, fs)
  unfolding from_file load_from_file
  reads_saved seed fs url key reads there = rw (from_file, load_from_file, there, reads key) refl

  save_to_file-written :
      (fs : FS) (path : Text) (key : K) {made last : FS}
      → create_parent files crates fs path ≡ (ok tt, made)
      → files.write made path (crates.key_to_vec key) ≡ (ok tt, last)
      → save_to_file files crates fs key path ≡ (ok tt, last)
  unfolding save_to_file
  save_to_file-written fs path key dirs written =
      rw (save_to_file, ap (λ p. p.0) dirs, ap (λ p. p.1) dirs) written

  generate_key-saved :
      (seed : R) (fs : FS) (url : Uri) (network : Network) {last : FS}
      → network_of files crates url ≡ ok network
      → save_to_file files crates fs (crates.generate network seed) url.path ≡ (ok tt, last)
      → generate_key files crates seed fs url ≡ (ok (crates.generate network seed), last)
  unfolding generate_key
  generate_key-saved seed fs url network named saved =
      rw (generate_key, named, ap (λ p. p.0) saved, ap (λ p. p.1) saved) refl

  -- Where files keep what is written and keys are read as they were written, the uri of a file that is
  -- not there, with good arguments and a path that can be written, gives a new key of the network
  -- that it names, and from then on the same key, whatever the random numbers, without a change of
  -- the files.
  pub from_str-again :
      (seed later : R) (fs made last : FS) (str : Text) (url : Uri) (network : Network)
      → Stores files
      → ReadsKeys crates
      → crates.parse_uri str ≡ some url
      → IsFile url.scheme
      → files.read fs url.path ≡ err not_found
      → network_of files crates url ≡ ok network
      → create_parent files crates fs url.path ≡ (ok tt, made)
      → files.write made url.path (crates.key_to_vec (crates.generate network seed)) ≡ (ok tt, last)
      → (from_str files crates seed fs str ≡ (ok (crates.generate network seed), last))
        × (from_str files crates later last str ≡ (ok (crates.generate network seed), last))
  unfolding from_file load_from_file
  from_str-again seed later fs made last str url network stores reads is_url is_file missing named
        dirs written =
      (
        from_str-from_file seed fs str url is_url is_file
            ∙ rw (from_file, load_from_file, missing)
                (generate_key-saved seed fs url network named
                  (save_to_file-written fs url.path (crates.generate network seed) dirs written)),
        from_str-from_file later last str url is_url is_file
            ∙ reads_saved later last url (crates.generate network seed) reads (
                stores made last url.path (crates.key_to_vec (crates.generate network seed))
                  written),
      )

  from_file-keeps :
      (seed : R) (fs : FS) (url : Uri)
      → files.read fs url.path ≢ err not_found
      → (from_file files crates seed fs url).1 ≡ fs
  unfolding from_file load_from_file
  from_file-keeps seed fs url there = elim (Result-cases (files.read fs url.path)) [
    | inr (not_found, e) ↦ absurd (there e)
    | inr (other_io t, e) ↦ rw (from_file, load_from_file, e) refl
    | inl (bytes, e) ↦ elim (Result-cases (crates.key_try_from bytes)) [
      | inl (key, good) ↦ rw (from_file, load_from_file, e, good) refl
      | inr (bad, failed) ↦ rw (from_file, load_from_file, e, failed) refl
    ]
  ]

  from_scheme-keeps :
      (seed : R) (fs : FS) (url : Uri) (scheme : Option Text)
      → files.read fs url.path ≢ err not_found
      → (from_scheme files crates seed fs url scheme).1 ≡ fs
  unfolding from_scheme
  from_scheme-keeps seed fs url none there = from_file-keeps seed fs url there
  from_scheme-keeps seed fs url (some scheme) there =
      elim (Bool-cases (text_eq scheme (text "file"))) [
        | inl a ↦ rw (from_scheme, a) (from_file-keeps seed fs url there)
        | inr na ↦ elim (Bool-cases (text_eq scheme (text "ecc"))) [
          | inl b ↦ rw (from_scheme, na, b) refl
          | inr nb ↦ rw (from_scheme, na, nb) refl
        ]
      ]

  -- Where a key file, or anything else that can be read, is at the path of the uri, or the path cannot
  -- be read for another reason than that nothing is there, the files stay as they are: also where
  -- what is read is no key.
  pub from_str-keeps :
      (seed : R) (fs : FS) (str : Text)
      → ((url : Uri) → crates.parse_uri str ≡ some url → files.read fs url.path ≢ err not_found)
      → (from_str files crates seed fs str).1 ≡ fs
  unfolding from_str
  from_str-keeps seed fs str there = elim (Option-cases (crates.parse_uri str)) [
    | inl e ↦ rw (from_str, e) refl
    | inr (url, e) ↦ rw (from_str, e) (from_scheme-keeps seed fs url url.scheme (there url e))
  ]
