-- ===== src/Lorawan/Networks.antt =====
-- Three networks, to run lorawan/src/subnet.rs on.
use gateway_rs.Base.{ℕ, ◌^◌, ◌<◌, ◌≡◌, refl, arith, List, [], ◌∷◌, All, true}
use gateway_rs.Lorawan.Subnet.{
  netid_class, addr_len, id_len, netid_shift_prefix, netid_type, get_netid, netid_size,
  is_local_netid, is_local_devaddr, devaddr_from_subnet, subnet_from_devaddr, devaddr, parse_netid,
  nwk_addr,
}
use gateway_rs.Lorawan.Subnet.Address.{IsNetId, parse_netid-devaddr}
use gateway_rs.Lorawan.Subnet.Ranges.{
  total, listed, devaddr_from_subnet-subnet_from_devaddr, subnet_from_devaddr-devaddr_from_subnet,
}

abbrev networks : List ℕ
networks = 0xE00001 ∷ 0xC00035 ∷ 0x60002D ∷ []

networks-total : total networks ≡ 132224
unfolding netid_size netid_class addr_len
networks-total = refl

networks-IsNetId : All IsNetId networks
unfolding netid_class id_len
networks-IsNetId = (
  record { fits = omega arith; id_fits = omega arith },
  (
    record { fits = omega arith; id_fits = omega arith },
    (record { fits = omega arith; id_fits = omega arith }, tt),
  ),
)

parsed : parse_netid 0xFC00D410 ≡ 0xC00035
unfolding parse_netid netid_type netid_shift_prefix get_netid id_len
parsed = refl

retired : is_local_netid 0x200010 networks ≡ true
unfolding is_local_netid
retired = refl

local : is_local_devaddr 0xFC00D410 networks ≡ true
unfolding is_local_devaddr is_local_netid parse_netid netid_type netid_shift_prefix get_netid id_len
local = refl

class_six : addr_len (netid_class 0xC00035) ≡ 10
unfolding netid_class addr_len
class_six = refl

parse_netid-devaddr_example :
    (parse_netid (devaddr 0xC00035 16) ≡ 0xC00035)
    × (nwk_addr (devaddr 0xC00035 16) ≡ 16)
    × (devaddr 0xC00035 16 < 2 ^ 32)
parse_netid-devaddr_example =
    parse_netid-devaddr 0xC00035 16 networks-IsNetId.1.0 (rw class_six (omega arith))

devaddr_from_subnet-subnet_from_devaddr_example :
    devaddr_from_subnet (subnet_from_devaddr 0xFC00D410 networks) networks ≡ 0xFC00D410
devaddr_from_subnet-subnet_from_devaddr_example =
    devaddr_from_subnet-subnet_from_devaddr networks (omega (arith, networks-total)) 0xFC00D410
      (omega arith) (omega arith) (rw parsed refl)

subnet_from_devaddr-devaddr_from_subnet_example :
    (subnet_from_devaddr (devaddr_from_subnet 144 networks) networks ≡ 144)
    × (listed (parse_netid (devaddr_from_subnet 144 networks)) networks ≡ true)
subnet_from_devaddr-devaddr_from_subnet_example =
    subnet_from_devaddr-devaddr_from_subnet networks (omega (arith, networks-total)) 144
      (refl, (refl, (refl, tt))) networks-IsNetId (omega (arith, networks-total))
