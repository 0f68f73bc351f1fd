-- ===== src/Updater/Listing.antt =====
-- The stream of all releases, against the pages of the service.
use gateway_rs.Base.{
  ℕ, zero, suc, ◌+◌, ◌<◌, ◌≡◌, refl, ap, arith, List, [], ◌∷◌, ◌++◌, map, length, some, Result, ok,
  err, length-append,
}
use gateway_rs.Updater.Releases.{Release, reverse, pop, fetch_releases, next_items, all_releases}

module _ {A : Type 0} where
  pop-snoc : (xs : List A) (x : A) → pop (xs ++ x ∷ []) ≡ some (x, xs)
  pop-snoc [] x = refl
  pop-snoc (y ∷ ys) x = rw (pop-snoc ys x) refl

module _ {E : Type 0} (pages : ℕ → Result E (List Release)) where
  abbrev yields : List Release → List (Result E Release)
  yields items = map ok items

  length-yields : (items : List Release) → length (yields items) ≡ length items
  length-yields [] = refl
  length-yields (item ∷ items) = ap suc (length-yields items)

  -- What the pages from one on hold, in order, up to the first that is empty or fails.
  pub data Walk : ℕ → List (Result E Release) → Type 0 where
    ends : {page : ℕ} → pages page ≡ ok [] → Walk page []
    fails : {page : ℕ} {e : E} → pages page ≡ err e → Walk page (err e ∷ [])
    goes_on :
        {page : ℕ} {first : Release} {items : List Release} {rest : List (Result E Release)}
        → pages page ≡ ok (first ∷ items)
        → Walk (page + 1) rest
        → Walk page (map ok (first ∷ items) ++ rest)

  fetched :
      (page : ℕ) {items : List Release}
      → pages page ≡ ok items
      → fetch_releases pages page ≡ ok (reverse items)
  unfolding fetch_releases
  fetched page e = rw (fetch_releases, e) refl

  fetch_fails : (page : ℕ) {e : E} → pages page ≡ err e → fetch_releases pages page ≡ err e
  unfolding fetch_releases
  fetch_fails page e = rw (fetch_releases, e) refl

  next_items-Walk :
      (fuel page : ℕ) (items : List Release) {rest : List (Result E Release)}
      → Walk (page + 1) rest
      → length items + length rest < fuel
      → next_items pages fuel page (reverse items) ≡ some (map ok items ++ rest)
  unfolding next_items
  next_items-Walk zero page items w h = absurd (omega arith)
  next_items-Walk (suc fuel) page (item ∷ items) w h =
      rw
        (next_items, pop-snoc (reverse items) item, next_items-Walk fuel page items w (omega arith))
        refl
  next_items-Walk (suc fuel) page [] (ends e) h = rw (next_items, fetched (page + 1) e) refl
  next_items-Walk (suc fuel) page [] (fails e) h = rw (next_items, fetch_fails (page + 1) e) refl
  next_items-Walk (suc fuel) page [] (goes_on {first} {items} {rest} e w) h =
      let grown = length-append (yields items) rest in
      let same = length-yields items in
      let small : length items + length rest < fuel = omega (arith, grown, same) in
      rw
        (
          next_items,
          fetched (page + 1) e,
          pop-snoc (reverse items) first,
          next_items-Walk fuel (page + 1) items w small,
        )
        refl

  -- The stream of all releases ends where the pages end, and yields what they hold in the order of
  -- the pages and of each page, up to the first error: for any fuel above the number of its items. An
  -- empty first page does not end it.
  pub all_releases-Walk :
      (fuel : ℕ) (first : List Release) (rest : List (Result E Release))
      → pages 1 ≡ ok first
      → Walk 2 rest
      → length first + length rest < fuel
      → all_releases pages fuel ≡ some (map ok first ++ rest)
  unfolding all_releases
  all_releases-Walk fuel first rest e w h =
      rw (all_releases, fetched 1 e) (next_items-Walk fuel 1 first w h)
