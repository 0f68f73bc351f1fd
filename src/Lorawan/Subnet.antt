-- ===== src/Lorawan/Subnet.antt =====
-- lorawan/src/subnet.rs. A `u32` is a number below 2 ^ 32, and each sum, difference and shift is
-- cut to 32 bits, as in a release build.
pub mod Fields
pub mod Address
pub mod Ranges
use gateway_rs.Base.{
  ℕ, zero, suc, ◌+◌, ◌-◌, ◌*◌, ◌/◌, ◌%◌, ◌^◌, bit_and, bit_or, List, [], ◌∷◌, Bool, true, false,
  ◌&&◌, Option, none, some, ltb, leb, ◌==◌, if◌then◌else◌, any,
}

abbrev pub u32 : ℕ → ℕ
u32 n = n % 2 ^ 32

abbrev pub shl : ℕ → ℕ → ℕ
shl x k = u32 (x * 2 ^ k)

abbrev pub shr : ℕ → ℕ → ℕ
shr x k = x / 2 ^ k

abbrev pub retired_netid : ℕ
retired_netid = 0x200010

-- `.get(i).unwrap_or(&0)`
abbrev pub get_or_zero : List ℕ → ℕ → ℕ
get_or_zero [] i = 0
get_or_zero (x ∷ xs) zero = x
get_or_zero (x ∷ xs) (suc i) = get_or_zero xs i

unfoldable pub netid_class : ℕ → ℕ
netid_class netid = shr netid 21 % 256

unfoldable pub addr_len : ℕ → ℕ
addr_len netclass = get_or_zero (25 ∷ 24 ∷ 20 ∷ 17 ∷ 15 ∷ 13 ∷ 10 ∷ 7 ∷ []) netclass

unfoldable pub id_len : ℕ → ℕ
id_len netclass = get_or_zero (6 ∷ 6 ∷ 9 ∷ 11 ∷ 12 ∷ 13 ∷ 15 ∷ 17 ∷ []) netclass

unfoldable pub var_net_class : ℕ → ℕ
var_net_class netclass =
    let idlen = id_len netclass in
    if netclass == 0
    then 0
    else if netclass == 1
    then shl 0b10 idlen
    else if netclass == 2
    then shl 0b110 idlen
    else if netclass == 3
    then shl 0b1110 idlen
    else if netclass == 4
    then shl 0b11110 idlen
    else if netclass == 5
    then shl 0b111110 idlen
    else if netclass == 6
    then shl 0b1111110 idlen
    else if netclass == 7
    then shl 0b11111110 idlen
    else 0

unfoldable pub var_netid : ℕ → ℕ → ℕ
var_netid netclass netid = shl netid (addr_len netclass)

unfoldable pub devaddr : ℕ → ℕ → ℕ
devaddr netid nwkaddr =
    let netclass = netid_class netid in
    let id = bit_and netid 0b111111111111111111111 in
    let addr = bit_or (var_net_class netclass) id in bit_or (var_netid netclass addr) nwkaddr

unfoldable pub is_local_netid : ℕ → List ℕ → Bool
is_local_netid netid netid_list =
    if netid == retired_netid then true else any (λ item. item == netid) netid_list

unfoldable pub netid_shift_prefix : ℕ → ℕ → ℕ
netid_shift_prefix prefix zero = if bit_and prefix (2 ^ 0) == 0 then 7 - 0 else 0
netid_shift_prefix prefix (suc index) =
    let rest = netid_shift_prefix prefix index in
    if bit_and prefix (2 ^ suc index) == 0 then 7 - suc index else rest

unfoldable pub netid_type : ℕ → ℕ
netid_type addr = netid_shift_prefix (shr addr 24 % 256) 7

unfoldable pub get_netid : ℕ → ℕ → ℕ → ℕ
get_netid addr prefix_len nwkidbits = shr (shl addr (prefix_len - 1)) (31 - nwkidbits)

unfoldable pub parse_netid : ℕ → ℕ
parse_netid addr =
    let net_type = netid_type addr in
    bit_or (get_netid addr (net_type + 1) (id_len net_type)) (shl net_type 21)

unfoldable pub is_local_devaddr : ℕ → List ℕ → Bool
is_local_devaddr addr netid_list = is_local_netid (parse_netid addr) netid_list

unfoldable pub netid_size : ℕ → ℕ
netid_size netid = shl 1 (addr_len (netid_class netid))

-- The `for` loop, with its `break`.
unfoldable pub range_loop : List ℕ → ℕ → ℕ → ℕ → ℕ × ℕ
range_loop [] netid lower upper = (lower, upper)
range_loop (item ∷ rest) netid lower upper =
    let more =
      range_loop rest netid (u32 (lower + netid_size item)) (u32 (lower + netid_size item)) in
    if item == netid then (lower, u32 (upper + netid_size item)) else more

unfoldable pub netid_addr_range : ℕ → List ℕ → ℕ × ℕ
netid_addr_range netid netid_list =
    if any (λ item. item == netid) netid_list then range_loop netid_list netid 0 0 else (0, 0)

unfoldable pub nwk_addr : ℕ → ℕ
nwk_addr addr = bit_and addr (2 ^ addr_len (netid_class (parse_netid addr)) - 1)

unfoldable pub subnet_addr_within_range : ℕ → ℕ → List ℕ → Bool
subnet_addr_within_range subnetaddr netid netid_list =
    let (lower, upper) = netid_addr_range netid netid_list in
    leb lower subnetaddr && ltb subnetaddr upper

-- `iter().find(..)` and `unwrap_or(&0)`.
abbrev pub find_or_zero : (ℕ → Bool) → List ℕ → ℕ
find_or_zero p [] = 0
find_or_zero p (x ∷ xs) = let rest = find_or_zero p xs in if p x then x else rest

unfoldable pub subnet_addr_to_netid : ℕ → List ℕ → ℕ
subnet_addr_to_netid subnetaddr netid_list =
    find_or_zero (λ item. subnet_addr_within_range subnetaddr item netid_list) netid_list

unfoldable pub devaddr_from_subnet : ℕ → List ℕ → ℕ
devaddr_from_subnet subnetaddr netid_list =
    let netid = subnet_addr_to_netid subnetaddr netid_list in
    let (lower, _) = netid_addr_range netid netid_list in
    devaddr netid (u32 (subnetaddr + 2 ^ 32 - lower))

unfoldable pub subnet_from_devaddr : ℕ → List ℕ → ℕ
subnet_from_devaddr addr netid_list =
    let netid = parse_netid addr in
    let (lower, _) = netid_addr_range netid netid_list in u32 (lower + nwk_addr addr)
