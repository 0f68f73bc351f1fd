-- ===== src/Radio/Packet/Fees.antt =====
-- What the data of a packet costs.
use gateway_rs.Base.{ℕ, ◌*◌, ◌≤◌, List, length, arith}
use gateway_rs.Radio.Packet.{dc_payload}

-- The cost of a payload is the least number of units of 24 bytes that it fits in, and one unit at
-- least.
pub dc_payload-least :
    (payload : List ℕ)
    → (1 ≤ dc_payload payload)
      × (length payload ≤ 24 * dc_payload payload)
      × ((n : ℕ) → 1 ≤ n → length payload ≤ 24 * n → dc_payload payload ≤ n)
unfolding dc_payload
dc_payload-least payload = ground arith
