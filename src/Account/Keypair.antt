-- ===== src/Account/Keypair.antt =====
-- src/keypair.rs: the gateway's keypair, loaded or made by its uri. The file system, the parser of uris,
-- the device `ecc608` and the crate `helium_crypto` are interfaces; the feature `tpm` is off.
use gateway_rs.Base.{
  ℕ, ◌≡◌, List, Option, none, some, Result, ok, err, ◌>>=◌, if◌then◌else◌, Text, text, text_eq,
  ◌++◌,
}

pub data IoError : Type 0 where
  not_found : IoError
  other_io : Text → IoError

-- `FS` is the state of the file system.
pub record FileSystem (FS : Type 0) : Type 0 where
  pub read : FS → Text → Result IoError (List ℕ)
  pub write : FS → Text → List ℕ → Result IoError (Unit {0}) × FS
  pub create_dir_all : FS → Text → Result IoError (Unit {0}) × FS
  pub parent : Text → Option Text

-- What is written is read.
abbrev pub Stores : {FS : Type 0} → FileSystem FS → Type 0
Stores {FS} files =
    (fs last : FS) (path : Text) (bytes : List ℕ)
    → files.write fs path bytes ≡ (ok tt, last)
    → files.read last path ≡ ok bytes

pub data Network : Type 0 where
  main_net test_net : Network

pub record Uri : Type 0 where
  pub scheme : Option Text
  pub host : Option Text
  pub port : Option ℕ
  pub path : Text
  pub query : Option Text

-- The parsers, the keys `K` with the seeds `R` of new ones, and the device.
pub record KeyCrates (E K R : Type 0) : Type 0 where
  pub parse_uri : Text → Option Uri
  pub from_urlencoded : Text → Option (Text → Option Text)
  pub parse_network : Text → Option Network
  pub parse_u8 : Text → Option ℕ
  pub key_try_from : List ℕ → Result E K
  pub key_to_vec : K → List ℕ
  pub generate : Network → R → K
  pub ecc_init : Text → ℕ → Result E (Unit {0})
  pub ecc_from_slot : Network → ℕ → Result E K

-- A key that is written out is read as it was.
abbrev pub ReadsKeys : {E K R : Type 0} → KeyCrates E K R → Type 0
ReadsKeys {E} {K} {R} crates = (key : K) → crates.key_try_from (crates.key_to_vec key) ≡ ok key

pub data LoadError (E : Type 0) : Type 0 where
  io_error : IoError → LoadError E
  crypto_error : E → LoadError E

-- The texts of `uri_error!`, by what they are about.
pub data KeyError (E : Type 0) : Type 0 where
  invalid_url : KeyError E
  invalid_query : KeyError E
  invalid_argument : Text → KeyError E
  not_saved : IoError → KeyError E
  not_loaded : LoadError E → KeyError E
  missing_device : KeyError E
  ecc_not_initialized : E → KeyError E
  ecc_not_loaded : E → KeyError E
  unknown_scheme : Text → KeyError E

module _ {E K R FS : Type 0} (files : FileSystem FS) (crates : KeyCrates E K R) where
  unfoldable pub load_from_file : FS → Text → Result (LoadError E) K
  load_from_file fs path = elim (files.read fs path) [
    | err e ↦ err (io_error e)
    | ok bytes ↦ elim (crates.key_try_from bytes) [ ok key ↦ ok key | err e ↦ err (crypto_error e) ]
  ]

  unfoldable pub create_parent : FS → Text → Result IoError (Unit {0}) × FS
  create_parent fs path = elim (files.parent path) [
    | none ↦ (ok tt, fs)
    | some parent ↦ files.create_dir_all fs parent
  ]

  unfoldable pub save_to_file : FS → K → Text → Result IoError (Unit {0}) × FS
  save_to_file fs keypair path =
      let (created, next) = create_parent fs path in
      elim created [
        | err e ↦ (err e, next)
        | ok _ ↦ files.write next path (crates.key_to_vec keypair)
      ]

  unfoldable pub args_from_uri : Uri → Result (KeyError E) (Text → Option Text)
  args_from_uri url = elim url.query [
    | none ↦ ok (λ name. none)
    | some query ↦ elim (crates.from_urlencoded query) [
      | none ↦ err invalid_query
      | some args ↦ ok args
    ]
  ]

  unfoldable pub get_argument :
      {T : Type 0} → (Text → Option T) → (Text → Option Text) → Text → T → Result (KeyError E) T
  get_argument parse args name default = elim (args name) [
    | none ↦ ok default
    | some s ↦ elim (parse s) [ some value ↦ ok value | none ↦ err (invalid_argument name) ]
  ]

  unfoldable pub network_of : Uri → Result (KeyError E) Network
  network_of url =
      args_from_uri url
      >>= (λ args. get_argument crates.parse_network args (text "network") main_net)

  -- A file that is not there: a new key is saved.
  unfoldable pub generate_key : R → FS → Uri → Result (KeyError E) K × FS
  generate_key seed fs url = elim (network_of url) [
    | err e ↦ (err e, fs)
    | ok network ↦
        let new_key = crates.generate network seed in
        let (saved, next) = save_to_file fs new_key url.path in
        elim saved [ err e ↦ (err (not_saved e), next) | ok _ ↦ (ok new_key, next) ]
  ]

  unfoldable pub from_file : R → FS → Uri → Result (KeyError E) K × FS
  from_file seed fs url = elim (load_from_file fs url.path) [
    | ok key ↦ (ok key, fs)
    | err (io_error not_found) ↦ generate_key seed fs url
    | err (io_error (other_io e)) ↦ (err (not_loaded (io_error (other_io e))), fs)
    | err (crypto_error e) ↦ (err (not_loaded (crypto_error e)), fs)
  ]

  unfoldable pub from_device : Uri → Result (KeyError E) K
  from_device url = args_from_uri url >>= (λ args.
      get_argument crates.parse_u8 args (text "slot") 0 >>= (λ slot.
        get_argument crates.parse_network args (text "network") main_net >>= (λ network.
          elim url.host [
            | none ↦ err missing_device
            | some dev ↦
                elim (crates.ecc_init (text "/dev/" ++ dev)
                  (elim url.port [ none ↦ 96 | some port ↦ port ])) [
                    | err e ↦ err (ecc_not_initialized e)
                    | ok _ ↦ elim (crates.ecc_from_slot network slot) [
                      | err e ↦ err (ecc_not_loaded e)
                      | ok key ↦ ok key
                    ]
                  ]
          ])))

  -- The `match` on the scheme.
  unfoldable pub from_scheme : R → FS → Uri → Option Text → Result (KeyError E) K × FS
  from_scheme seed fs url none = from_file seed fs url
  from_scheme seed fs url (some scheme) =
      if text_eq scheme (text "file")
      then from_file seed fs url
      else if text_eq scheme (text "ecc")
      then (from_device url, fs)
      else (err (unknown_scheme scheme), fs)

  -- `FromStr`
  unfoldable pub from_str : R → FS → Text → Result (KeyError E) K × FS
  from_str seed fs str = elim (crates.parse_uri str) [
    | none ↦ (err invalid_url, fs)
    | some url ↦ from_scheme seed fs url url.scheme
  ]
