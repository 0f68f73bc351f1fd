-- ===== src/Updater/Prereleases.antt =====
-- src/updater/releases.rs: the channel of a version, and the names of channels.
use gateway_rs.Base.{
  ◌≡◌, refl, arith, Bool, true, false, ◌||◌, List, [], ◌∷◌, any, none, some, Bool-cases, inl, inr,
  ◌⊎◌, ◌∙◌, Text, text, text_eq, text_eq_iff, contains, contains_refl,
}
use gateway_rs.Updater.Channel.{
  Channel, devnet, testnet, alpha, beta, release, Identifier, numeric, alpha_numeric, Version,
  channel_text, channel_named, channel_of, from_version, channel_from_str, is_empty, has_tag,
  in_channel,
}

-- The name of a channel is read back as the channel, whatever the current version.
pub channel_from_str-channel_text :
    (current : Version) (channel : Channel)
    → channel_from_str current (channel_text channel) ≡ some channel
unfolding channel_from_str channel_text
channel_from_str-channel_text current devnet = refl
channel_from_str-channel_text current testnet = refl
channel_from_str-channel_text current alpha = refl
channel_from_str-channel_text current beta = refl
channel_from_str-channel_text current release = refl

-- Whether an identifier is the name of a channel other than that of releases.
abbrev pub names_channel : Identifier → Bool
names_channel (numeric n) = false
names_channel (alpha_numeric v) =
    any (text_eq v) (text "alpha" ∷ text "beta" ∷ text "testnet" ∷ text "devnet" ∷ [])

abbrev is_release : Channel → Bool
is_release release = true
is_release _ = false

in_channel-tag :
    (version : Version) (channel : Channel)
    → is_release channel ≡ false
    → in_channel version channel ≡ any (has_tag (channel_text channel)) version.pre
unfolding in_channel
in_channel-tag version devnet h = refl
in_channel-tag version testnet h = refl
in_channel-tag version alpha h = refl
in_channel-tag version beta h = refl
in_channel-tag version release h = cc

named_contains :
    (v : Text) (channel : Channel)
    → text_eq v (channel_text channel) ≡ true
    → contains v (channel_text channel) ≡ true
named_contains v channel h =
    rw ((text_eq_iff v (channel_text channel)).0 h) (contains_refl (channel_text channel))

-- An identifier that names a channel holds the name, and the channel is not that of releases.
record Names (v : Text) (channel : Channel) : Type 0 where
  held : contains v (channel_text channel) ≡ true
  not_release : is_release channel ≡ false

channel_named-cases :
    (v : Text)
    → ((channel_named v ≡ none) × (names_channel (alpha_numeric v) ≡ false))
      ⊎ ((channel : Channel) × (channel_named v ≡ some channel)
          × Names v channel
          × (names_channel (alpha_numeric v) ≡ true))
unfolding channel_named channel_text
channel_named-cases v = elim (Bool-cases (text_eq v (text "alpha"))) [
  | inl a ↦
      inr (
        alpha,
        rw a refl,
        record { held = named_contains v alpha a; not_release = refl },
        rw a refl,
      )
  | inr na ↦ elim (Bool-cases (text_eq v (text "beta"))) [
    | inl b ↦ inr (
      beta,
      rw (na, b) refl,
      record { held = named_contains v beta b; not_release = refl },
      rw (na, b) refl,
    )
    | inr nb ↦ elim (Bool-cases (text_eq v (text "testnet"))) [
      | inl c ↦ inr (
        testnet,
        rw (na, nb, c) refl,
        record { held = named_contains v testnet c; not_release = refl },
        rw (na, nb, c) refl,
      )
      | inr nc ↦ elim (Bool-cases (text_eq v (text "devnet"))) [
        | inl d ↦ inr (
          devnet,
          rw (na, nb, nc, d) refl,
          record { held = named_contains v devnet d; not_release = refl },
          rw (na, nb, nc, d) refl,
        )
        | inr nd ↦ inl (rw (na, nb, nc, nd) refl, rw (na, nb, nc, nd) refl)
      ]
    ]
  ]
]

-- The channel of a list of identifiers, against the test of its names.
record Found (pre : List Identifier) (channel : Channel) : Type 0 where
  tagged : any (has_tag (channel_text channel)) pre ≡ true
  not_release : is_release channel ≡ false
  named : any names_channel pre ≡ true

channel_of-cases :
    (pre : List Identifier)
    → ((channel_of pre ≡ release) × (any names_channel pre ≡ false)) ⊎ Found pre (channel_of pre)
unfolding channel_of
channel_of-cases [] = inl (refl, refl)
channel_of-cases (numeric n ∷ rest) = elim (channel_of-cases rest) [
  | inl h ↦ inl h
  | inr f ↦ inr (record { tagged = f.tagged; not_release = f.not_release; named = f.named })
]
channel_of-cases (alpha_numeric v ∷ rest) = elim (channel_named-cases v) [
  | inl (e, other) ↦ elim (channel_of-cases rest) [
    | inl (e', other') ↦ inl (rw (channel_of, e, e') refl, ground (arith, other, other'))
    | inr f ↦ inr (
        rw (channel_of, e)
          record {
            tagged = ground (arith, f.tagged);
            not_release = f.not_release;
            named = ground (arith, f.named);
          })
  ]
  | inr (channel, e, n, hit) ↦ inr (
      rw (channel_of, e)
        record {
          tagged = ground (arith, n.held);
          not_release = n.not_release;
          named = ground (arith, hit);
        })
]

or_false : (b : Bool) → b ≡ (b || false)
or_false b = ground arith

or_true : (b : Bool) → true ≡ (b || true)
or_true b = ground arith

-- A version is in the channel that is taken from it just when it is no prerelease, or one of its
-- identifiers is the name of a channel: so no other prerelease is in its own channel.
pub in_channel-from_version :
    (version : Version)
    → in_channel version (from_version version)
      ≡ (is_empty version.pre || any names_channel version.pre)
unfolding from_version in_channel
in_channel-from_version version = elim (channel_of-cases version.pre) [
  | inl (e, other) ↦ rw (e, other) (or_false (is_empty version.pre))
  | inr f ↦
      in_channel-tag version (channel_of version.pre) f.not_release
      ∙ rw (f.tagged, f.named) (or_true (is_empty version.pre))
]
