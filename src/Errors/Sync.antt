-- ===== src/Errors/Sync.antt =====
-- src/error.rs, src/sync.rs, src/router/dispatcher.rs: what a failed send, a dropped answer and the
-- liveness check are reported as.
use gateway_rs.Base.{
  ℕ, ◌≡◌, ◌↔◌, arith, Option, none, some, Result, ok, err, ltb, true, if◌then◌else◌,
}
use gateway_rs.Router.Dispatcher.{check_gateway}
use gateway_rs.Errors.{Crates, Error, error_channel, gateway_service_check}

-- `ResponseSender::send`: an answer that nobody waits for is ignored.
unfoldable pub respond : {T : Type 0} → Result T (Unit {0}) → Unit {0}
respond (ok u) = tt
respond (err msg) = tt

module _ {c : Crates} where
  -- `MessageSender` maps a failed send, and `ResponseReceiver::recv` a dropped sender, to the same error.
  unfoldable pub send : {T : Type 0} → Result T (Unit {0}) → Result (Error c) (Unit {0})
  send (ok u) = ok u
  send (err message) = err error_channel

  unfoldable pub recv : {T : Type 0} → Option T → Result (Error c) T
  recv (some msg) = ok msg
  recv none = err error_channel

  -- A question to the dispatcher: the request goes out or not, and the answer comes back or not. What was
  -- sent is not looked at, since a request that is lost drops the sender of its answer.
  unfoldable pub ask : {T : Type 0} → Option (Result (Error c) T) → Result (Error c) T
  ask answer = elim (recv answer) [ err e ↦ err e | ok result ↦ result ]

  -- `check_gateway`, with its error.
  unfoldable pub check_block_age : ℕ → Result (Error c) (ℕ × ℕ) → Result (Error c) (Unit {0})
  check_block_age max_age (err e) = err e
  check_block_age max_age (ok (height, block_age)) =
      if ltb max_age block_age then err (gateway_service_check block_age max_age) else ok tt

  abbrev of_result : {A : Type 0} → Result (Error c) A → Option A
  of_result (ok a) = some a
  of_result (err e) = none

  -- The liveness check passes just where its test does.
  check_block_age-check_gateway :
      (answer : Result (Error c) (ℕ × ℕ))
      → (check_block_age 1800 answer ≡ ok tt) ↔ (check_gateway (of_result answer) ≡ true)
  unfolding check_block_age check_gateway
  check_block_age-check_gateway (err e) = ((λ h. cc), (λ h. cc))
  check_block_age-check_gateway (ok (height, block_age)) =
      ((λ h. ground arith), (λ h. ground arith))
