-- ===== src/Command/Sparing.antt =====
-- src/cmd/info.rs: the invariant of the cache: what is asked for is kept, and asked for once.
use gateway_rs.Base.{
  ℕ, ◌+◌, ◌≤◌, ◌≡◌, refl, ap, arith, Bool, true, false, ◌||◌, List, [], ◌∷◌, ◌++◌, Option, none,
  some, Result, ok, err, if◌then◌else◌, Bool-cases, inl, inr,
}
use gateway_rs.Updater.Releases.{is_some}
use gateway_rs.Account.Api.{HeightRes}
use gateway_rs.Command.Cache.{
  Call, pubkey_call, height_call, region_call, InfoCache, State, Run, continued, bind, answered,
  cached,
}

abbrev pub same : Call → Call → Bool
same pubkey_call pubkey_call = true
same height_call height_call = true
same region_call region_call = true
same pubkey_call height_call = false
same pubkey_call region_call = false
same height_call pubkey_call = false
same height_call region_call = false
same region_call pubkey_call = false
same region_call height_call = false

abbrev pub count : Call → List Call → ℕ
count c [] = 0
count c (d ∷ calls) = (if same c d then 1 else 0) + count c calls

count-snoc :
    (c : Call) (calls : List Call) (d : Call)
    → count c (calls ++ d ∷ []) ≡ count c calls + (if same c d then 1 else 0)
count-snoc c [] d = omega arith
count-snoc c (e ∷ calls) d = omega (arith, count-snoc c calls d)

same-eq : (c d : Call) → same c d ≡ true → c ≡ d
same-eq pubkey_call pubkey_call h = refl
same-eq height_call height_call h = refl
same-eq region_call region_call h = refl
same-eq pubkey_call height_call h = cc
same-eq pubkey_call region_call h = cc
same-eq height_call pubkey_call h = cc
same-eq height_call region_call h = cc
same-eq region_call pubkey_call h = cc
same-eq region_call height_call h = cc

module _ {P U R : Type 0} where
  abbrev pub is_cached : Call → InfoCache P U R → Bool
  is_cached pubkey_call cache = is_some cache.public_keys
  is_cached height_call cache = is_some cache.height
  is_cached region_call cache = is_some cache.region

  -- Each call has been made at most once, and not at all if its answer is not in the cache.
  abbrev pub Sparing : State P U R → Type 0
  Sparing s =
      (c : Call) → (count c s.calls ≤ 1) × (is_cached c s.cache ≡ false → count c s.calls ≡ 0)

  unfoldable pub Good : {E A : Type 0} → Result E A × State P U R → Type 0
  Good (ok a, s) = Sparing s
  Good (err e, s) = (c : Call) → count c s.calls ≤ 1

  count-asked :
      (s : State P U R) (call c : Call)
      → Sparing s
      → is_cached call s.cache ≡ false
      → count c (s.calls ++ call ∷ []) ≤ 1
  count-asked s call c sparing missing = elim (Bool-cases (same c call)) [
    | inl e ↦
        let zero_calls = (sparing call).1 missing in
        let is_call = ap (λ d. count d s.calls) (same-eq c call e) in
        ground (arith, count-snoc c s.calls call, zero_calls, is_call, e)
    | inr e ↦ let before = (sparing c).0 in ground (arith, count-snoc c s.calls call, before, e)
  ]

module _ {P U R E : Type 0} where
  abbrev pub Keeps : {A : Type 0} → Run (State P U R) E A → Type 0
  Keeps m = (s : State P U R) → Sparing s → Good (m s)

  Keeps-result :
      {A B : Type 0} (r : Result E A) (next : State P U R) (f : A → Run (State P U R) E B)
      → Good (r, next)
      → ((a : A) → Keeps (f a))
      → Good (continued r next f)
  unfolding Good
  Keeps-result (ok a) next f good keeps = keeps a next good
  Keeps-result (err e) next f good keeps = good

  pub Keeps-bind :
      {A B : Type 0} (m : Run (State P U R) E A) (f : A → Run (State P U R) E B)
      → Keeps m
      → ((a : A) → Keeps (f a))
      → Keeps (bind m f)
  unfolding bind
  Keeps-bind m f first keeps s sparing = Keeps-result (m s).0 (m s).1 f (first s sparing) keeps

  pub Keeps-pure : {A : Type 0} (r : Result E A) → Keeps (λ s. (r, s))
  unfolding Good
  Keeps-pure (ok a) s sparing = sparing
  Keeps-pure (err e) s sparing = λ c. (sparing c).0

  pub cached-Good :
      {A : Type 0} (o : Option A) (call : Call) (answer : Result E A) (store : A → InfoCache P U R)
      (s : State P U R)
      → Sparing s
      → is_cached call s.cache ≡ is_some o
      → ((a : A) (c : Call) → is_cached c (store a) ≡ (same c call || is_cached c s.cache))
      → Good (cached o call answer store s)
  unfolding cached answered Good
  cached-Good (some a) call answer store s sparing missing stores = sparing
  cached-Good none call (err e) store s sparing missing stores =
      λ c. count-asked s call c sparing missing
  cached-Good none call (ok a) store s sparing missing stores = λ c. (
    count-asked s call c sparing missing,
    (λ not_there.
        let old = (sparing c).1 in
        ground (arith, count-snoc c s.calls call, old, stores a c, not_there)),
  )

module _ {P U R : Type 0} (cache : InfoCache P U R) where
  pub stores_keys :
      (a : P × P) (c : Call)
      → is_cached c (record cache { public_keys = some a })
        ≡ (same c pubkey_call || is_cached c cache)
  stores_keys a pubkey_call = refl
  stores_keys a height_call = refl
  stores_keys a region_call = refl

  pub stores_height :
      (a : HeightRes U) (c : Call)
      → is_cached c (record cache { height = some a }) ≡ (same c height_call || is_cached c cache)
  stores_height a pubkey_call = refl
  stores_height a height_call = refl
  stores_height a region_call = refl

  pub stores_region :
      (a : R) (c : Call)
      → is_cached c (record cache { region = some a }) ≡ (same c region_call || is_cached c cache)
  stores_region a pubkey_call = refl
  stores_region a height_call = refl
  stores_region a region_call = refl

module _ {P U R E : Type 0} where
  pub Good-count :
      {A : Type 0} (r : Result E A) (s : State P U R) (c : Call) → Good (r, s) → count c s.calls ≤ 1
  unfolding Good
  Good-count (ok a) s c good = (good c).0
  Good-count (err e) s c good = good c
