-- ===== src/Command/Keys.antt =====
-- src/cmd/info.rs: lists of keys, written out and read back.
use gateway_rs.Base.{ℕ, zero, suc, ◌≡◌, refl, ap, List, [], ◌∷◌, ◌++◌, some, Text}
use gateway_rs.Command.Info.{
  InfoKey, fw, key, onboarding_key, name, gateway, region, info_key_text, info_key_from_str, split,
  with_first, trim, parse_parts, info_keys_from_str,
}

abbrev pub padding : ℕ → Text
padding zero = []
padding (suc n) = b' ' ∷ padding n

-- A key and those after it, with commas between them and `spaces` spaces before each.
unfoldable pub write_keys : ℕ → InfoKey → List InfoKey → Text
write_keys spaces first [] = padding spaces ++ info_key_text first
write_keys spaces first (next ∷ rest) =
    padding spaces ++ info_key_text first ++ b',' ∷ write_keys spaces next rest

split-key :
    (spaces : ℕ) (k : InfoKey) (rest : Text)
    → split (padding spaces ++ info_key_text k ++ b',' ∷ rest)
      ≡ (padding spaces ++ info_key_text k) ∷ split rest
unfolding info_key_text
split-key zero fw rest = refl
split-key zero key rest = refl
split-key zero onboarding_key rest = refl
split-key zero name rest = refl
split-key zero gateway rest = refl
split-key zero region rest = refl
split-key (suc n) k rest = ap (with_first b' ') (split-key n k rest)

split-last :
    (spaces : ℕ) (k : InfoKey)
    → split (padding spaces ++ info_key_text k) ≡ (padding spaces ++ info_key_text k) ∷ []
unfolding info_key_text
split-last zero fw = refl
split-last zero key = refl
split-last zero onboarding_key = refl
split-last zero name = refl
split-last zero gateway = refl
split-last zero region = refl
split-last (suc n) k = ap (with_first b' ') (split-last n k)

info_key_from_str-trim :
    (spaces : ℕ) (k : InfoKey)
    → info_key_from_str (trim (padding spaces ++ info_key_text k)) ≡ some k
unfolding info_key_text info_key_from_str
info_key_from_str-trim zero fw = refl
info_key_from_str-trim zero key = refl
info_key_from_str-trim zero onboarding_key = refl
info_key_from_str-trim zero name = refl
info_key_from_str-trim zero gateway = refl
info_key_from_str-trim zero region = refl
info_key_from_str-trim (suc n) k = info_key_from_str-trim n k

-- Any list of keys but the empty one, written with commas and any number of spaces before each key, is
-- read back as the list.
pub info_keys_from_str-write_keys :
    (spaces : ℕ) (first : InfoKey) (rest : List InfoKey)
    → info_keys_from_str (write_keys spaces first rest) ≡ some (first ∷ rest)
unfolding info_keys_from_str write_keys parse_parts
info_keys_from_str-write_keys spaces first [] =
    rw
      (
        info_keys_from_str,
        write_keys,
        split-last spaces first,
        parse_parts,
        info_key_from_str-trim spaces first,
      )
      refl
info_keys_from_str-write_keys spaces first (next ∷ rest) =
    rw
      (
        info_keys_from_str,
        write_keys,
        split-key spaces first (write_keys spaces next rest),
        parse_parts,
        info_key_from_str-trim spaces first,
        info_keys_from_str-write_keys spaces next rest,
      )
      refl
