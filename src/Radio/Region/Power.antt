-- ===== src/Radio/Region/Power.antt =====
-- The transmit power against the limits of the channels.
use mathlib.Core.Path.{subst}
use gateway_rs.Base.{
  ap, le→leb, lt→ltb, All, ℕ, ◌+◌, ◌-◌, ◌*◌, ◌/◌, ◌^◌, ◌≤◌, ◌<◌, ◌≡◌, refl, arith, List, [], ◌∷◌,
  Option, none, some, leb, if◌then◌else◌, any, ◌⊎◌, inl, true, ◌==◌,
}
use gateway_rs.Radio.Region.{
  plus, RegionParam, RegionParams, max_from, greatest, max_eirp, subtract, to_u32, tx_power,
}

max_from_lem :
    (m : ℕ) (ps : List RegionParam)
    → (m ≤ max_from m ps)
      × All (λ q. q.max_eirp ≤ max_from m ps) ps
      × ((max_from m ps ≡ m) ⊎ (any (λ q. q.max_eirp == max_from m ps) ps ≡ true))
unfolding max_from
max_from_lem m [] = (omega arith, tt, inl refl)
max_from_lem m (p ∷ ps) =
    let (low, all, hit) = max_from_lem (if leb m p.max_eirp then p.max_eirp else m) ps in
    (ground arith, (ground arith, all), ground arith)

greatest_lem :
    (ps : List RegionParam) (limit : ℕ)
    → greatest ps ≡ some limit
    → All (λ q. q.max_eirp ≤ limit) ps × (any (λ q. q.max_eirp == limit) ps ≡ true)
unfolding greatest
greatest_lem [] limit top = cc
greatest_lem (p ∷ ps) limit top =
    let (low, all, hit) = max_from_lem p.max_eirp ps in
    subst
      (λ (m : ℕ). All (λ q. q.max_eirp ≤ m) (p ∷ ps) × (any (λ q. q.max_eirp == m) (p ∷ ps) ≡ true))
      (ap (λ (o : Option ℕ). elim o [ none ↦ 0 | some m ↦ m ]) top) ((low, all), ground arith)

-- The power at which the gateway transmits and its gain stay together within the limit of a
-- channel, which is the greatest of the limits, and one step of power more would not: where the gain
-- is not negative and not above that limit.
pub tx_power-greatest :
    {R : Type 0}
    → (negative : ℕ → Option ℕ) (self : RegionParams R) (g limit : ℕ) → self.gain ≡ plus g
    → max_eirp self ≡ some limit
    → g ≤ limit
    → limit < 2 ^ 32
    → (All (λ q. q.max_eirp ≤ limit) self.params)
      × (any (λ q. q.max_eirp == limit) self.params ≡ true)
      × ((p : ℕ) × (tx_power negative self ≡ some p)
          × (10 * p + g ≤ limit)
          × (limit < 10 * (p + 1) + g))
unfolding tx_power max_eirp greatest subtract to_u32
tx_power-greatest negative self g limit gain top h small =
    let (all, hit) = greatest_lem self.params limit top in
    (
      all,
      hit,
      (
        (limit - g) / 10,
        rw (tx_power, top, gain, le→leb g limit h, lt→ltb ((limit - g) / 10) (2 ^ 32) (omega arith))
            refl,
        omega arith,
        omega arith,
      ),
    )
