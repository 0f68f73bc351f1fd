-- ===== src/Lorawan/Phy/Sizes.antt =====
-- Which byte strings `phy_read` takes, and that none of them stops the program.
use gateway_rs.Base.{ℕ, ◌≤◌, ◌≡◌, arith, ◌⊎◌, ok}
use gateway_rs.Lorawan.Header.{MType, join_request, join_accept, invalid}
use gateway_rs.Lorawan.Phy.{check_size}

-- The sizes of a whole frame of each type.
abbrev pub GoodSize : MType → ℕ → Type 0
GoodSize join_request n = n ≡ 23
GoodSize join_accept n = (n ≡ 17) ⊎ (n ≡ 33)
GoodSize (invalid s) n = ⊥
GoodSize _ n = 12 ≤ n

pub check_size-GoodSize : (t : MType) (n : ℕ) → check_size t n ≡ ok tt → GoodSize t n
unfolding check_size
check_size-GoodSize join_request n h = ground arith
check_size-GoodSize join_accept n h = ground arith
check_size-GoodSize (invalid s) n h = ground arith
check_size-GoodSize _ n h = ground arith

pub GoodSize-check_size : (t : MType) (n : ℕ) → GoodSize t n → check_size t n ≡ ok tt
unfolding check_size
GoodSize-check_size join_request n h = ground arith
GoodSize-check_size join_accept n h = ground arith
GoodSize-check_size (invalid s) n h = absurd h
GoodSize-check_size _ n h = ground arith
