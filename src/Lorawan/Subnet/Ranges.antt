-- ===== src/Lorawan/Subnet/Ranges.antt =====
-- The ranges of subnet addresses: one behind the other, in the order of the list of networks.
use gateway_rs.Base.{zero, All}
use gateway_rs.Lorawan.Subnet.{shl}
use mathlib.Core.Path.{subst}
use native.Mathlib.Nat.{mod-eq_of_lt}
use gateway_rs.Base.{
  ℕ, suc, ◌+◌, ◌-◌, ◌/◌, ◌^◌, ◌≤◌, ◌<◌, ◌≡◌, ◌≢◌, ◌↔◌, refl, sym, ap, ◌∙◌, arith, ◌⊎◌, inl, inr,
  List, [], ◌∷◌, Bool, true, false, ltb, ◌==◌, ==_iff, if◌then◌else◌, any, Bool-cases,
}
use gateway_rs.Lorawan.Subnet.{
  netid_class, addr_len, netid_size, range_loop, netid_addr_range, subnet_addr_within_range,
  find_or_zero, subnet_addr_to_netid, devaddr_from_subnet, subnet_from_devaddr, devaddr, u32,
  parse_netid, nwk_addr,
}
use gateway_rs.Lorawan.Subnet.Address.{IsNetId, parse_netid-devaddr, devaddr-parse_netid}

-- How many addresses the networks of a list have, and how many of them stand before a network.
abbrev pub total : List ℕ → ℕ
total [] = 0
total (item ∷ rest) = netid_size item + total rest

abbrev pub start : ℕ → List ℕ → ℕ
start netid [] = 0
start netid (item ∷ rest) =
    let more = start netid rest in if item == netid then 0 else netid_size item + more

abbrev pub listed : ℕ → List ℕ → Bool
listed netid l = any (λ item. item == netid) l

-- No sum wraps as long as all of the addresses fit 32 bits.
range_loop-start :
    (netid : ℕ) (l : List ℕ) (lower : ℕ)
    → listed netid l ≡ true
    → lower + total l < 2 ^ 32
    → (range_loop l netid lower lower
        ≡ (lower + start netid l, lower + start netid l + netid_size netid))
      × (start netid l + netid_size netid ≤ total l)
unfolding range_loop
range_loop-start netid [] lower h fits = cc
range_loop-start netid (item ∷ rest) lower h fits =
    ground (arith, range_loop-start netid rest (u32 (lower + netid_size item)))

module _ (l : List ℕ) (fits : total l < 2 ^ 32) where
  netid_addr_range-start :
      (netid : ℕ)
      → listed netid l ≡ true
      → (netid_addr_range netid l ≡ (start netid l, start netid l + netid_size netid))
        × (start netid l + netid_size netid ≤ total l)
  unfolding netid_addr_range
  netid_addr_range-start netid h = ground (arith, range_loop-start netid l 0)

  within :
      (s netid : ℕ)
      → listed netid l ≡ true
      → (subnet_addr_within_range s netid l ≡ true)
        ↔ ((start netid l ≤ s) × (s < start netid l + netid_size netid))
  unfolding subnet_addr_within_range
  within s netid h = rw ((netid_addr_range-start netid h).0) (ground arith)

-- The ranges of two networks do not meet.
apart :
    (l : List ℕ) (m n : ℕ)
    → listed m l ≡ true
    → listed n l ≡ true
    → m ≢ n
    → (start m l + netid_size m ≤ start n l) ⊎ (start n l + netid_size n ≤ start m l)
apart [] m n hm hn ne = cc
apart (item ∷ rest) m n hm hn ne = ground (arith, apart rest m n)

told_apart : (p : ℕ → Bool) (x n : ℕ) → p x ≡ false → p n ≡ true → (x == n) ≡ false
told_apart p x n hx hn = elim (Bool-cases (x == n)) [
  | inl same ↦ cc ((==_iff x n).0 same)
  | inr other ↦ other
]

find_only :
    (p : ℕ → Bool) (n : ℕ) (xs : List ℕ)
    → listed n xs ≡ true
    → p n ≡ true
    → ((m : ℕ) → listed m xs ≡ true → p m ≡ true → m ≡ n)
    → find_or_zero p xs ≡ n
find_only p n [] h hp only = cc
find_only p n (x ∷ xs) h hp only = elim (Bool-cases (p x)) [
  | inl hit ↦ rw hit (only x (ground arith) hit)
  | inr miss ↦ rw miss (
      find_only p n xs (ground (arith, told_apart p x n miss hp)) hp
        (λ m hm. only m (ground arith)))
]

size_of : (c : ℕ) → shl 1 (addr_len c) ≡ 2 ^ addr_len c
unfolding addr_len
size_of zero = refl
size_of (suc zero) = refl
size_of (suc (suc zero)) = refl
size_of (suc (suc (suc zero))) = refl
size_of (suc (suc (suc (suc zero)))) = refl
size_of (suc (suc (suc (suc (suc zero))))) = refl
size_of (suc (suc (suc (suc (suc (suc zero)))))) = refl
size_of (suc (suc (suc (suc (suc (suc (suc zero))))))) = refl
size_of (suc (suc (suc (suc (suc (suc (suc (suc c)))))))) = refl

listed-IsNetId : (l : List ℕ) (n : ℕ) → All IsNetId l → listed n l ≡ true → IsNetId n
listed-IsNetId [] n valid h = cc
listed-IsNetId (x ∷ xs) n valid h = elim (Bool-cases (x == n)) [
  | inl same ↦ subst IsNetId ((==_iff x n).0 same) valid.0
  | inr other ↦ listed-IsNetId xs n valid.1 (ground arith)
]

netid_size-addr_len : (netid : ℕ) → netid_size netid ≡ 2 ^ addr_len (netid_class netid)
unfolding netid_size
netid_size-addr_len netid = size_of (netid_class netid)

-- A list without repetition.
abbrev pub Distinct : List ℕ → Type 0
Distinct [] = Unit {0}
Distinct (x ∷ xs) = (listed x xs ≡ false) × Distinct xs

listed-ne : (l : List ℕ) (x n : ℕ) → listed x l ≡ false → listed n l ≡ true → (x == n) ≡ false
listed-ne l x n h h' = told_apart (λ m. listed m l) x n h h'

-- Every subnet address below the total lies in the range of a listed network.
covered :
    (l : List ℕ) (s : ℕ)
    → Distinct l
    → s < total l
    → (n : ℕ) × (listed n l ≡ true) × (start n l ≤ s) × (s < start n l + netid_size n)
covered [] s d h = absurd (omega arith)
covered (item ∷ rest) s d h = elim (Bool-cases (ltb s (netid_size item))) [
  | inl here ↦ (item, ground arith, ground arith, ground arith)
  | inr later ↦
      let (n, found, low, high) = covered rest (s - netid_size item) d.1 (ground arith) in
      let ne = listed-ne rest item n d.0 found in (n, ground arith, ground arith, ground arith)
]

module _ (l : List ℕ) (fits : total l < 2 ^ 32) where
  subnet_addr_to_netid-eq :
      (s n : ℕ)
      → listed n l ≡ true
      → start n l ≤ s
      → s < start n l + netid_size n
      → subnet_addr_to_netid s l ≡ n
  unfolding subnet_addr_to_netid
  subnet_addr_to_netid-eq s n h low high =
      find_only (λ item. subnet_addr_within_range s item l) n l h
        ((within l fits s n h).1 (low, high))
        λ m hm inside.
          let (low', high') = (within l fits s m hm).0 inside in
          elim (Bool-cases (m == n)) [
            | inl same ↦ (==_iff m n).0 same
            | inr other ↦
                let ne : m ≢ n = λ e. absurd (ground arith) in
                let far = apart l m n hm h ne in absurd (omega arith)
          ]

  devaddr_from_subnet-start :
      (n addr : ℕ)
      → listed n l ≡ true
      → addr < netid_size n
      → devaddr_from_subnet (start n l + addr) l ≡ devaddr n addr
  unfolding devaddr_from_subnet
  devaddr_from_subnet-start n addr h small =
      let (range, below) = netid_addr_range-start l fits n h in
      rw (subnet_addr_to_netid-eq (start n l + addr) n h (omega arith) (omega arith), range)
        (ap (devaddr n) (omega arith))

  -- An address of a listed network that does not begin with eight ones is given back by the subnet
  -- address that stands for it, as long as all addresses of the list fit 32 bits.
  pub devaddr_from_subnet-subnet_from_devaddr :
      (d : ℕ)
      → d < 2 ^ 32
      → d / 2 ^ 24 ≢ 255
      → listed (parse_netid d) l ≡ true
      → devaddr_from_subnet (subnet_from_devaddr d l) l ≡ d
  unfolding subnet_from_devaddr
  devaddr_from_subnet-subnet_from_devaddr d h ones local =
      let (whole, valid, small) = devaddr-parse_netid d h ones in
      let (range, below) = netid_addr_range-start l fits (parse_netid d) local in
      let sized : nwk_addr d < netid_size (parse_netid d) =
        rw (netid_size-addr_len (parse_netid d)) small in
      rw (range, mod-eq_of_lt {n = start (parse_netid d) l + nwk_addr d} {m = 2 ^ 32} (omega arith))
        (devaddr_from_subnet-start (parse_netid d) (nwk_addr d) local sized ∙ whole)

  -- Every subnet address below the total is given back by the device address that it stands for,
  -- which belongs to a listed network: for a list of distinct valid networks whose addresses all
  -- fit 32 bits.
  pub subnet_from_devaddr-devaddr_from_subnet :
      (s : ℕ)
      → Distinct l
      → All IsNetId l
      → s < total l
      → (subnet_from_devaddr (devaddr_from_subnet s l) l ≡ s)
        × (listed (parse_netid (devaddr_from_subnet s l)) l ≡ true)
  unfolding subnet_from_devaddr
  subnet_from_devaddr-devaddr_from_subnet s distinct valid h =
      let (n, found, low, high) = covered l s distinct h in
      let rest : ℕ = s - start n l in
      let small : rest < netid_size n = omega arith in
      let whole : s ≡ start n l + rest = omega arith in
      let e : devaddr_from_subnet s l ≡ devaddr n rest =
        ap (λ x. devaddr_from_subnet x l) whole ∙ (devaddr_from_subnet-start n rest found small) in
      let (range, below) = netid_addr_range-start l fits n found in
      let (net, addr, fit) =
        parse_netid-devaddr n rest (listed-IsNetId l n valid found)
          (rw (sym (netid_size-addr_len n)) small) in
      (
        rw (e, net, addr, range)
            (mod-eq_of_lt {n = start n l + rest} {m = 2 ^ 32} (omega arith) ∙ sym whole),
        rw (e, net) found,
      )
