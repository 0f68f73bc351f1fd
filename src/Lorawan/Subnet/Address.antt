-- ===== src/Lorawan/Subnet/Address.antt =====
-- A device address against the network id and the address in the network that it is made of.
use native.Mathlib.Nat.{mod-lt, one-le-pow}
use gateway_rs.Base.{◌≢◌, ◌∙◌}
use gateway_rs.Lorawan.Subnet.{get_netid}
use native.Mathlib.Nat.{mod-eq_of_lt}
use gateway_rs.Base.{ℕ, ◌+◌, ◌*◌, ◌/◌, ◌%◌, ◌^◌, ◌<◌, ◌≡◌, refl, arith}
use gateway_rs.Base.Bits.{or_fields_right, and_mask}
use gateway_rs.Lorawan.Subnet.{
  netid_class, addr_len, id_len, netid_type, devaddr, parse_netid, nwk_addr,
}
use gateway_rs.Lorawan.Subnet.Fields.{
  sum_of, netid_type-lt, devaddr_lem, netid_type-sum_of, get_netid-sum_of, sum_of-get_netid,
  id_len-small,
}

-- A network id of 24 bits: a class of three bits, and an id that the class has room for.
pub record IsNetId (netid : ℕ) : Type 0 where
  pub fits : netid < 2 ^ 24
  pub id_fits : netid % 2 ^ 21 < 2 ^ id_len (netid_class netid)

parse_netid-eq :
    (c d : ℕ)
    → c < 8
    → netid_type d ≡ c
    → get_netid d (c + 1) (id_len c) < 2 ^ 21
    → parse_netid d ≡ c * 2 ^ 21 + get_netid d (c + 1) (id_len c)
unfolding parse_netid
parse_netid-eq c d hc t h =
    rw (t, mod-eq_of_lt {n = c * 2 ^ 21} {m = 2 ^ 32} (omega arith)) (or_fields_right 21 c _ h)

netid_class-parts :
    (netid : ℕ)
    → netid < 2 ^ 24
    → (netid_class netid < 8) × (netid_class netid * 2 ^ 21 + netid % 2 ^ 21 ≡ netid)
unfolding netid_class
netid_class-parts netid h = omega arith

netid_class-of :
    (c id : ℕ)
    → c < 8
    → id < 2 ^ 21
    → (netid_class (c * 2 ^ 21 + id) ≡ c) × ((c * 2 ^ 21 + id) % 2 ^ 21 ≡ id)
unfolding netid_class
netid_class-of c id hc h = omega arith

nwk_addr_lem : (d : ℕ) → nwk_addr d ≡ d % 2 ^ addr_len (netid_class (parse_netid d))
unfolding nwk_addr
nwk_addr_lem d = and_mask (addr_len (netid_class (parse_netid d))) d

-- An address that is made of a network id and an address in the network has 32 bits, and both
-- parts are read back from it.
pub parse_netid-devaddr :
    (netid addr : ℕ)
    → IsNetId netid
    → addr < 2 ^ addr_len (netid_class netid)
    → (parse_netid (devaddr netid addr) ≡ netid)
      × (nwk_addr (devaddr netid addr) ≡ addr)
      × (devaddr netid addr < 2 ^ 32)
parse_netid-devaddr netid addr is h =
    let c = netid_class netid in
    let id : ℕ = netid % 2 ^ 21 in
    let (hc, whole) = netid_class-parts netid is.fits in
    let e : devaddr netid addr ≡ sum_of c id addr = devaddr_lem c netid addr hc refl is.id_fits h in
    let (t, lt) = netid_type-sum_of c id addr hc is.id_fits h in
    let (g, m, small) = get_netid-sum_of c id addr hc is.id_fits h in
    let parsed : parse_netid (sum_of c id addr) ≡ netid =
      parse_netid-eq c (sum_of c id addr) hc t (rw g small) ∙ rw g whole in
    rw e (parsed, rw (nwk_addr_lem, parsed) m, lt)

-- Every address of 32 bits that does not begin with eight ones is made of the two parts that are
-- read from it, and the network id is a valid one.
pub devaddr-parse_netid :
    (d : ℕ)
    → d < 2 ^ 32
    → d / 2 ^ 24 ≢ 255
    → (devaddr (parse_netid d) (nwk_addr d) ≡ d)
      × IsNetId (parse_netid d)
      × (nwk_addr d < 2 ^ addr_len (netid_class (parse_netid d)))
devaddr-parse_netid d h ones =
    let c = netid_type d in
    let hc = netid_type-lt d in
    let id : ℕ = get_netid d (c + 1) (id_len c) in
    let (e, fits) = sum_of-get_netid c d hc refl h ones in
    let small = id_len-small c hc fits in
    let parsed : parse_netid d ≡ c * 2 ^ 21 + id = parse_netid-eq c d hc refl small in
    let (class, low) = netid_class-of c id hc small in
    let valid : IsNetId (c * 2 ^ 21 + id) = record {
      fits = omega arith;
      id_fits = rw (class, low) fits;
    } in
    let bound : d % 2 ^ addr_len c < 2 ^ addr_len c =
      mod-lt _ (one-le-pow (addr_len c) 2 (omega arith)) in
    rw (nwk_addr_lem, parsed)
      (
        rw class (
            devaddr_lem c (c * 2 ^ 21 + id) (d % 2 ^ addr_len c) hc class (rw low fits) bound
            ∙ rw low e),
        valid,
        rw class bound,
      )
