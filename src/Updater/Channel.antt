-- ===== src/Updater/Channel.antt =====
-- src/updater/releases.rs: the channels of releases. The order and the printing of versions are those
-- of the crate `semver`.
use gateway_rs.Base.{
  ℕ, Bool, true, false, List, [], ◌∷◌, any, Option, none, some, if◌then◌else◌, Text, text, text_eq,
  contains,
}

pub data Channel : Type 0 where
  devnet testnet alpha beta release : Channel

pub data Identifier : Type 0 where
  numeric : ℕ → Identifier
  alpha_numeric : Text → Identifier

pub record Version : Type 0 where
  pub major : ℕ
  pub minor : ℕ
  pub patch : ℕ
  pub pre : List Identifier
  pub build : List Identifier

-- `Version::eq`, `Version::gt` and `to_string`.
pub record Semver : Type 0 where
  pub version_eq : Version → Version → Bool
  pub version_gt : Version → Version → Bool
  pub version_text : Version → Text

unfoldable pub channel_text : Channel → Text
channel_text devnet = text "devnet"
channel_text testnet = text "testnet"
channel_text alpha = text "alpha"
channel_text beta = text "beta"
channel_text release = text "release"

-- The arms of the `match` on an identifier that return.
unfoldable pub channel_named : Text → Option Channel
channel_named v =
    if text_eq v (text "alpha")
    then some alpha
    else if text_eq v (text "beta")
    then some beta
    else if text_eq v (text "testnet")
    then some testnet
    else if text_eq v (text "devnet")
    then some devnet
    else none

-- The `for` loop over the identifiers, which returns at the first that names a channel.
unfoldable pub channel_of : List Identifier → Channel
channel_of [] = release
channel_of (numeric n ∷ rest) = channel_of rest
channel_of (alpha_numeric v ∷ rest) =
    let later = channel_of rest in elim (channel_named v) [ some channel ↦ channel | none ↦ later ]

unfoldable pub from_version : Version → Channel
from_version version = channel_of version.pre

-- `FromStr`; `current` is `settings::version()`.
unfoldable pub channel_from_str : Version → Text → Option Channel
channel_from_str current s =
    if text_eq s (text "devnet")
    then some devnet
    else if text_eq s (text "testnet")
    then some testnet
    else if text_eq s (text "alpha")
    then some alpha
    else if text_eq s (text "beta")
    then some beta
    else if text_eq s (text "release")
    then some release
    else if text_eq s (text "semver")
    then some (from_version current)
    else none

abbrev pub is_empty {ℓ} : {A : Type ℓ} → List A → Bool
is_empty [] = true
is_empty (x ∷ xs) = false

abbrev pub has_tag : Text → Identifier → Bool
has_tag tag (numeric n) = false
has_tag tag (alpha_numeric v) = contains v tag

-- `Release::in_channel`, of the version of the release.
unfoldable pub in_channel : Version → Channel → Bool
in_channel version release = is_empty version.pre
in_channel version devnet = any (has_tag (channel_text devnet)) version.pre
in_channel version testnet = any (has_tag (channel_text testnet)) version.pre
in_channel version alpha = any (has_tag (channel_text alpha)) version.pre
in_channel version beta = any (has_tag (channel_text beta)) version.pre
