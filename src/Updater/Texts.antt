-- ===== src/Updater/Texts.antt =====
-- src/updater/releases.rs: the deserializers of channels and versions, with the texts of their errors.
use gateway_rs.Base.{
  ℕ, ◌≡◌, refl, false, [], ◌∷◌, ◌++◌, none, some, Result, ok, err, ◌==◌, if◌then◌else◌, Text, text,
  to_lowercase,
}
use gateway_rs.Updater.Channel.{
  Channel, devnet, testnet, alpha, beta, release, Version, channel_from_str, channel_text,
  from_version,
}

-- `visit_str` of the settings; the error is that of the parser, made again.
unfoldable pub visit_channel : Version → Text → Result Text Channel
visit_channel current value = elim (channel_from_str current (to_lowercase value)) [
  | some channel ↦ ok channel
  | none ↦ err (text "unsupported update channel: \"" ++ to_lowercase value ++ text "\"")
]

-- `strip_prefix('v')`, or the text itself.
unfoldable pub strip_v : Text → Text
strip_v [] = []
strip_v (c ∷ rest) = if c == b'v' then rest else c ∷ rest

-- `deserialize_version`; the parser of the crate `semver` gives a version or the text of its error.
unfoldable pub deserialize_version : (Text → Result Text Version) → Text → Result Text Version
deserialize_version parse s = elim (parse (strip_v s)) [
  | ok version ↦ ok version
  | err e ↦ err (text "invalid release format \"" ++ s ++ text "\": " ++ e)
]

-- The name of a channel is read as the channel, and the name semver as that of the running version.
pub visit_channel-channel_text :
    (current : Version) (channel : Channel)
    → (visit_channel current (channel_text channel) ≡ ok channel)
      × (visit_channel current (text "semver") ≡ ok (from_version current))
unfolding visit_channel channel_from_str channel_text
visit_channel-channel_text current devnet = (refl, refl)
visit_channel-channel_text current testnet = (refl, refl)
visit_channel-channel_text current alpha = (refl, refl)
visit_channel-channel_text current beta = (refl, refl)
visit_channel-channel_text current release = (refl, refl)

-- A tag is read with and without its letter v, where the parser reads the version printed.
pub deserialize_version-tag :
    (parse : Text → Result Text Version) (c : ℕ) (rest : Text) (version : Version)
    → parse (c ∷ rest) ≡ ok version
    → (c == b'v') ≡ false
    → (deserialize_version parse (b'v' ∷ c ∷ rest) ≡ ok version)
      × (deserialize_version parse (c ∷ rest) ≡ ok version)
unfolding deserialize_version strip_v
deserialize_version-tag parse c rest version parsed other = (
  rw (deserialize_version, strip_v, parsed) refl,
  rw (deserialize_version, strip_v, other, parsed) refl,
)
