-- ===== src/Lorawan/Subnet/Fields.antt =====
-- The fields of a device address: a prefix of ones and a zero, the id of the network, the address
-- in the network.
use gateway_rs.Base.{◌≢◌, sym, ◌∙◌}
use gateway_rs.Lorawan.Subnet.{get_netid}
use gateway_rs.Base.{bit_or}
use native.Mathlib.Nat.{mod-eq_of_lt}
use gateway_rs.Lorawan.Subnet.{var_net_class, var_netid}
use gateway_rs.Base.{
  ℕ, zero, suc, ◌+◌, ◌-◌, ◌*◌, ◌/◌, ◌%◌, ◌^◌, ◌<◌, ◌≡◌, refl, arith, true, ltb, ◌==◌, ==_iff,
  if◌then◌else◌, checks_to, checks_to_lem, bit_or,
}
use gateway_rs.Base.Bits.{or_fields, and_mask}
use gateway_rs.Lorawan.Subnet.{
  netid_class, addr_len, id_len, netid_shift_prefix, netid_type, devaddr,
}

-- How many ones a byte begins with; eight ones count as none.
abbrev pub leading_ones : ℕ → ℕ
leading_ones b =
    if ltb b 128
    then 0
    else if ltb b 192
    then 1
    else if ltb b 224
    then 2
    else if ltb b 240
    then 3
    else if ltb b 248
    then 4
    else if ltb b 252
    then 5
    else if ltb b 254
    then 6
    else if ltb b 255
    then 7
    else 0

prefix_table : checks_to (λ b. netid_shift_prefix b 7 == leading_ones b) 256 ≡ true
unfolding checks_to netid_shift_prefix
prefix_table = refl

pub netid_shift_prefix_lem : (b : ℕ) → b < 256 → netid_shift_prefix b 7 ≡ leading_ones b
netid_shift_prefix_lem b h =
    (==_iff _ _).0
      (checks_to_lem (λ x. netid_shift_prefix x 7 == leading_ones x) 256 prefix_table b h)

leading_ones-type : (d : ℕ) → netid_type d ≡ leading_ones (d / 2 ^ 24 % 256)
unfolding netid_type
leading_ones-type d = netid_shift_prefix_lem (d / 2 ^ 24 % 256) (omega arith)

pub netid_type-lt : (d : ℕ) → netid_type d < 8
netid_type-lt d = rw (leading_ones-type d) (ground arith)

-- The prefix of a class: as many ones, and a zero.
abbrev pub class_prefix : ℕ → ℕ
class_prefix c = 2 ^ (c + 1) - 2

three_fields :
    (p i a id addr : ℕ)
    → id < 2 ^ i
    → addr < 2 ^ a
    → (p * 2 ^ i + id) * 2 ^ a < 2 ^ 32
    → bit_or (bit_or (p * 2 ^ i) id * 2 ^ a % 2 ^ 32) addr ≡ (p * 2 ^ i + id) * 2 ^ a + addr
three_fields p i a id addr hi ha h =
    rw (or_fields i p id hi, mod-eq_of_lt h) (or_fields a (p * 2 ^ i + id) addr ha)

-- What `devaddr` computes, as a sum.
abbrev pub sum_of : ℕ → ℕ → ℕ → ℕ
sum_of c id addr = (class_prefix c * 2 ^ id_len c + id) * 2 ^ addr_len c + addr

pub devaddr_lem :
    (c netid addr : ℕ)
    → c < 8
    → netid_class netid ≡ c
    → netid % 2 ^ 21 < 2 ^ id_len c
    → addr < 2 ^ addr_len c
    → devaddr netid addr ≡ sum_of c (netid % 2 ^ 21) addr
unfolding devaddr var_net_class var_netid id_len addr_len
devaddr_lem zero netid addr hc is hi ha =
    rw (is, and_mask 21 netid) (three_fields 0 6 25 (netid % 2 ^ 21) addr hi ha (omega arith))
devaddr_lem (suc zero) netid addr hc is hi ha =
    rw (is, and_mask 21 netid) (three_fields 2 6 24 (netid % 2 ^ 21) addr hi ha (omega arith))
devaddr_lem (suc (suc zero)) netid addr hc is hi ha =
    rw (is, and_mask 21 netid) (three_fields 6 9 20 (netid % 2 ^ 21) addr hi ha (omega arith))
devaddr_lem (suc (suc (suc zero))) netid addr hc is hi ha =
    rw (is, and_mask 21 netid) (three_fields 14 11 17 (netid % 2 ^ 21) addr hi ha (omega arith))
devaddr_lem (suc (suc (suc (suc zero)))) netid addr hc is hi ha =
    rw (is, and_mask 21 netid) (three_fields 30 12 15 (netid % 2 ^ 21) addr hi ha (omega arith))
devaddr_lem (suc (suc (suc (suc (suc zero))))) netid addr hc is hi ha =
    rw (is, and_mask 21 netid) (three_fields 62 13 13 (netid % 2 ^ 21) addr hi ha (omega arith))
devaddr_lem (suc (suc (suc (suc (suc (suc zero)))))) netid addr hc is hi ha =
    rw (is, and_mask 21 netid) (three_fields 126 15 10 (netid % 2 ^ 21) addr hi ha (omega arith))
devaddr_lem (suc (suc (suc (suc (suc (suc (suc zero))))))) netid addr hc is hi ha =
    rw (is, and_mask 21 netid) (three_fields 254 17 7 (netid % 2 ^ 21) addr hi ha (omega arith))
devaddr_lem (suc (suc (suc (suc (suc (suc (suc (suc m)))))))) netid addr hc is hi ha =
    absurd (omega arith)

-- The type of an address is its class.
pub netid_type-sum_of :
    (c id addr : ℕ)
    → c < 8
    → id < 2 ^ id_len c
    → addr < 2 ^ addr_len c
    → (netid_type (sum_of c id addr) ≡ c) × (sum_of c id addr < 2 ^ 32)
unfolding netid_type id_len addr_len
netid_type-sum_of zero id addr hc hi ha =
    ground (arith, netid_shift_prefix_lem (sum_of 0 id addr / 2 ^ 24 % 256) (omega arith))
netid_type-sum_of (suc zero) id addr hc hi ha =
    ground (arith, netid_shift_prefix_lem (sum_of 1 id addr / 2 ^ 24 % 256) (omega arith))
netid_type-sum_of (suc (suc zero)) id addr hc hi ha =
    ground (arith, netid_shift_prefix_lem (sum_of 2 id addr / 2 ^ 24 % 256) (omega arith))
netid_type-sum_of (suc (suc (suc zero))) id addr hc hi ha =
    ground (arith, netid_shift_prefix_lem (sum_of 3 id addr / 2 ^ 24 % 256) (omega arith))
netid_type-sum_of (suc (suc (suc (suc zero)))) id addr hc hi ha =
    ground (arith, netid_shift_prefix_lem (sum_of 4 id addr / 2 ^ 24 % 256) (omega arith))
netid_type-sum_of (suc (suc (suc (suc (suc zero))))) id addr hc hi ha =
    ground (arith, netid_shift_prefix_lem (sum_of 5 id addr / 2 ^ 24 % 256) (omega arith))
netid_type-sum_of (suc (suc (suc (suc (suc (suc zero)))))) id addr hc hi ha =
    ground (arith, netid_shift_prefix_lem (sum_of 6 id addr / 2 ^ 24 % 256) (omega arith))
netid_type-sum_of (suc (suc (suc (suc (suc (suc (suc zero))))))) id addr hc hi ha =
    ground (arith, netid_shift_prefix_lem (sum_of 7 id addr / 2 ^ 24 % 256) (omega arith))
netid_type-sum_of (suc (suc (suc (suc (suc (suc (suc (suc m)))))))) id addr hc hi ha =
    absurd (omega arith)

pub get_netid-sum_of :
    (c id addr : ℕ)
    → c < 8
    → id < 2 ^ id_len c
    → addr < 2 ^ addr_len c
    → (get_netid (sum_of c id addr) (c + 1) (id_len c) ≡ id)
      × (sum_of c id addr % 2 ^ addr_len c ≡ addr)
      × (id < 2 ^ 21)
unfolding get_netid id_len addr_len
get_netid-sum_of zero id addr hc hi ha = (omega arith, omega arith, omega arith)
get_netid-sum_of (suc zero) id addr hc hi ha = (omega arith, omega arith, omega arith)
get_netid-sum_of (suc (suc zero)) id addr hc hi ha = (omega arith, omega arith, omega arith)
get_netid-sum_of (suc (suc (suc zero))) id addr hc hi ha = (omega arith, omega arith, omega arith)
get_netid-sum_of (suc (suc (suc (suc zero)))) id addr hc hi ha =
    (omega arith, omega arith, omega arith)
get_netid-sum_of (suc (suc (suc (suc (suc zero))))) id addr hc hi ha =
    (omega arith, omega arith, omega arith)
get_netid-sum_of (suc (suc (suc (suc (suc (suc zero)))))) id addr hc hi ha =
    (omega arith, omega arith, omega arith)
get_netid-sum_of (suc (suc (suc (suc (suc (suc (suc zero))))))) id addr hc hi ha =
    (omega arith, omega arith, omega arith)
get_netid-sum_of (suc (suc (suc (suc (suc (suc (suc (suc m)))))))) id addr hc hi ha =
    absurd (omega arith)

pub id_len-small : (c : ℕ) {id : ℕ} → c < 8 → id < 2 ^ id_len c → id < 2 ^ 21
unfolding id_len
id_len-small zero hc h = omega arith
id_len-small (suc zero) hc h = omega arith
id_len-small (suc (suc zero)) hc h = omega arith
id_len-small (suc (suc (suc zero))) hc h = omega arith
id_len-small (suc (suc (suc (suc zero)))) hc h = omega arith
id_len-small (suc (suc (suc (suc (suc zero))))) hc h = omega arith
id_len-small (suc (suc (suc (suc (suc (suc zero)))))) hc h = omega arith
id_len-small (suc (suc (suc (suc (suc (suc (suc zero))))))) hc h = omega arith
id_len-small (suc (suc (suc (suc (suc (suc (suc (suc m)))))))) hc h = absurd (omega arith)

-- An address that does not begin with eight ones is the sum of its fields.
pub sum_of-get_netid :
    (c d : ℕ)
    → c < 8
    → netid_type d ≡ c
    → d < 2 ^ 32
    → d / 2 ^ 24 ≢ 255
    → (sum_of c (get_netid d (c + 1) (id_len c)) (d % 2 ^ addr_len c) ≡ d)
      × (get_netid d (c + 1) (id_len c) < 2 ^ id_len c)
unfolding get_netid id_len addr_len
sum_of-get_netid zero d hc t h ones = let u = sym (leading_ones-type d) ∙ t in ground arith
sum_of-get_netid (suc zero) d hc t h ones = let u = sym (leading_ones-type d) ∙ t in ground arith
sum_of-get_netid (suc (suc zero)) d hc t h ones =
    let u = sym (leading_ones-type d) ∙ t in ground arith
sum_of-get_netid (suc (suc (suc zero))) d hc t h ones =
    let u = sym (leading_ones-type d) ∙ t in ground arith
sum_of-get_netid (suc (suc (suc (suc zero)))) d hc t h ones =
    let u = sym (leading_ones-type d) ∙ t in ground arith
sum_of-get_netid (suc (suc (suc (suc (suc zero))))) d hc t h ones =
    let u = sym (leading_ones-type d) ∙ t in ground arith
sum_of-get_netid (suc (suc (suc (suc (suc (suc zero)))))) d hc t h ones =
    let u = sym (leading_ones-type d) ∙ t in ground arith
sum_of-get_netid (suc (suc (suc (suc (suc (suc (suc zero))))))) d hc t h ones =
    let u = sym (leading_ones-type d) ∙ t in ground arith
sum_of-get_netid (suc (suc (suc (suc (suc (suc (suc (suc m)))))))) d hc t h ones =
    absurd (omega arith)
