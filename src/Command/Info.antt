-- ===== src/Command/Info.antt =====
-- src/cmd/info.rs: the keys of the information, and the values that are printed.
use gateway_rs.Base.{
  ℕ, Bool, ◌||◌, List, [], ◌∷◌, Option, none, some, ◌==◌, if◌then◌else◌, Text, text, text_eq,
}

pub data InfoKey : Type 0 where
  fw key onboarding_key name gateway region : InfoKey

unfoldable pub info_key_text : InfoKey → Text
info_key_text fw = text "fw"
info_key_text key = text "key"
info_key_text onboarding_key = text "onboarding"
info_key_text name = text "name"
info_key_text gateway = text "gateway"
info_key_text region = text "region"

-- `none` is the error on an invalid key.
unfoldable pub info_key_from_str : Text → Option InfoKey
info_key_from_str s =
    if text_eq s (text "fw")
    then some fw
    else if text_eq s (text "key")
    then some key
    else if text_eq s (text "onboarding")
    then some onboarding_key
    else if text_eq s (text "name")
    then some name
    else if text_eq s (text "gateway")
    then some gateway
    else if text_eq s (text "region")
    then some region
    else none

abbrev pub with_first : ℕ → List Text → List Text
with_first c [] = (c ∷ []) ∷ []
with_first c (part ∷ parts) = (c ∷ part) ∷ parts

-- `str::split` at a comma.
abbrev pub split : Text → List Text
split [] = [] ∷ []
split (c ∷ s) = let parts = split s in if c == b',' then [] ∷ parts else with_first c parts

abbrev pub is_space : ℕ → Bool
is_space c = (c == 32) || (c == 9) || (c == 10) || (c == 11) || (c == 12) || (c == 13)

abbrev pub trim_start : Text → Text
trim_start [] = []
trim_start (c ∷ s) = let rest = trim_start s in if is_space c then rest else c ∷ s

-- Without the spaces at the end.
abbrev pub trim_end : Text → Text
trim_end [] = []
trim_end (c ∷ s) = elim (trim_end s) [
  | [] ↦ if is_space c then [] else c ∷ []
  | d ∷ rest ↦ c ∷ d ∷ rest
]

abbrev pub trim : Text → Text
trim s = trim_end (trim_start s)

unfoldable pub parse_parts : List Text → Option (List InfoKey)
parse_parts [] = some []
parse_parts (part ∷ parts) = elim (info_key_from_str (trim part)) [
  | none ↦ none
  | some first ↦ elim (parse_parts parts) [ none ↦ none | some rest ↦ some (first ∷ rest) ]
]

unfoldable pub info_keys_from_str : Text → Option (List InfoKey)
info_keys_from_str s = parse_parts (split s)
