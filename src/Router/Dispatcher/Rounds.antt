-- ===== src/Router/Dispatcher/Rounds.antt =====
-- src/router/dispatcher.rs: the two loops of the dispatcher. What the services answer and what a
-- `select!` takes first are parts of a round; an item of the inner loop is what one turn of it meets.
use gateway_rs.Base.{
  ℕ, Bool, true, false, Option, none, some, List, [], ◌∷◌, ◌++◌, Result, ok, err, ◌>>=◌, Eq,
  if◌then◌else◌,
}
use gateway_rs.Lorawan.Wire.{LittleEndian}
use gateway_rs.Router.Filter.{Hashing}
use gateway_rs.Router.Routing.{Routing, RoutingInformation}
use gateway_rs.Router.Dispatcher.{
  Dispatcher, Effect, region_params_changed, handle_routing_update, handle_region_params_update,
  handle_check, prepare_gateway_change,
}
use gateway_rs.Router.Dispatcher.Events.{handle_uplink}

-- `other_message` is one of the local API, which changes nothing.
pub data DispatcherMessage (P : Type 0) : Type 0 where
  uplinked : P → DispatcherMessage P
  other_message : DispatcherMessage P

pub data Turn (V P G : Type 0) : Type 0 where
  shut_down : Turn V P G
  routing_stream : ℕ → Option (List (Option (Routing V))) → Turn V P G
  region_stream : ℕ → Option G → Turn V P G
  stream_error : Turn V P G
  streams_closed : Turn V P G
  gateway_check : Option (ℕ × ℕ) → Turn V P G
  message : DispatcherMessage P → Turn V P G
  channel_closed : Turn V P G

-- What ends the wait before the next gateway.
pub data Wait (P : Type 0) : Type 0 where
  wait_shutdown : Wait P
  slept : Wait P
  wait_message : DispatcherMessage P → Wait P
  wait_closed : Wait P

-- One turn of the outer loop. `S` is the type of gateways and `E` of errors; `stopped` is that the
-- shutdown comes before a gateway is set up, and `triggered_after` that it has come before the wait.
pub record Round (V P G S E : Type 0) : Type 0 where
  pub triggered : Bool
  pub seed : Option S
  pub stopped : Bool
  pub selected : Result E (Option S)
  pub default_region_params : Result E G
  pub routing : Result E (Unit {0})
  pub region_params : Result E (Unit {0})
  pub turns : List (Turn V P G)
  pub triggered_after : Bool
  pub wait : Wait P

pub data Ending (E : Type 0) : Type 0 where
  running : Ending E
  no_seeds : Ending E
  returns : Ending E

-- `region_params_for` comes first, then both streams at once, of which one error is returned.
unfoldable pub setup_gateway_streams :
    {S G E : Type 0}
    → Option S
    → Result E G
    → Result E (Unit {0})
    → Result E (Unit {0})
    → Result E (Option (S × G))
setup_gateway_streams none default_region_params routing region_params = ok none
setup_gateway_streams (some gateway) default_region_params routing region_params =
    default_region_params
    >>= (λ params. routing >>= (λ _. region_params >>= (λ _. ok (some (gateway, params)))))

module _ {V P R G : Type 0} ⦃eq : Eq V⦄ ⦃le : LittleEndian⦄ ⦃hashing : Hashing⦄
    (routing_of : P → Option RoutingInformation) where
  unfoldable pub handle_message : DispatcherMessage P → Dispatcher V R → List (Effect V P R G)
  handle_message (uplinked packet) self = handle_uplink routing_of packet self
  handle_message other_message self = []

  -- The list of turns goes on at least until the loop returns.
  unfoldable pub run_with_gateway :
      (G → R) → List (Turn V P G) → Dispatcher V R → Dispatcher V R × List (Effect V P R G)
  run_with_gateway region_of [] self = (self, [])
  run_with_gateway region_of (shut_down ∷ rest) self = (self, [])
  run_with_gateway region_of (stream_error ∷ rest) self = (self, [])
  run_with_gateway region_of (streams_closed ∷ rest) self = (self, [])
  run_with_gateway region_of (channel_closed ∷ rest) self = (self, [])
  run_with_gateway region_of (routing_stream height routings ∷ rest) self =
      let (next, sent) = handle_routing_update height routings self in
      let (last, more) = run_with_gateway region_of rest next in (last, sent ++ more)
  run_with_gateway region_of (region_stream height params ∷ rest) self =
      let (next, sent) = handle_region_params_update region_of height params self in
      let (last, more) = run_with_gateway region_of rest next in (last, sent ++ more)
  run_with_gateway region_of (gateway_check answer ∷ rest) self =
      let (next, goes_on) = handle_check answer self in
      let later = run_with_gateway region_of rest next in if goes_on then later else (next, [])
  run_with_gateway region_of (message m ∷ rest) self =
      let (last, more) = run_with_gateway region_of rest self in
      (last, handle_message m self ++ more)

  unfoldable pub wait_effects : Wait P → Dispatcher V R → List (Effect V P R G)
  wait_effects wait_shutdown self = []
  wait_effects slept self = []
  wait_effects wait_closed self = []
  wait_effects (wait_message m) self = handle_message m self

  -- `prepare_gateway_change`, with what ends its sleep.
  unfoldable pub prepare_and_wait :
      Bool → Wait P → Dispatcher V R → Dispatcher V R × List (Effect V P R G)
  prepare_and_wait true wait self = (self, [])
  prepare_and_wait false wait self =
      let next = prepare_gateway_change self in (next, wait_effects wait next)

  unfoldable pub run_gateway :
      (G → R) → List (Turn V P G) → G → Dispatcher V R → Dispatcher V R × List (Effect V P R G)
  run_gateway region_of turns default_region_params self =
      let (last, sent) = run_with_gateway region_of turns self in
      (last, region_params_changed default_region_params ∷ sent)

  unfoldable pub run_selected :
      {S E : Type 0}
      → (G → R)
      → List (Turn V P G)
      → Result E (Option (S × G))
      → Dispatcher V R
      → (Dispatcher V R × List (Effect V P R G)) × Ending E
  run_selected region_of turns (ok none) self = ((self, []), returns)
  run_selected region_of turns (err e) self = ((self, []), running)
  run_selected region_of turns (ok (some (gateway, params))) self =
      (run_gateway region_of turns params self, running)

  -- After a turn that goes on, the change of the gateway.
  unfoldable pub then_prepare :
      {E : Type 0}
      → Bool
      → Wait P
      → (Dispatcher V R × List (Effect V P R G)) × Ending E
      → (Dispatcher V R × List (Effect V P R G)) × Ending E
  then_prepare triggered wait (result, returns) = (result, returns)
  then_prepare triggered wait (result, no_seeds) = (result, no_seeds)
  then_prepare triggered wait (result, running) =
      let (last, more) = prepare_and_wait triggered wait result.0 in
      ((last, result.1 ++ more), running)

  -- The tests before a gateway is selected.
  unfoldable pub guarded :
      {S E : Type 0}
      → Bool
      → Option S
      → Bool
      → Dispatcher V R
      → (Dispatcher V R × List (Effect V P R G)) × Ending E
      → (Dispatcher V R × List (Effect V P R G)) × Ending E
  guarded true seed stopped self selected = ((self, []), returns)
  guarded false none stopped self selected = ((self, []), no_seeds)
  guarded false (some seed) true self selected = ((self, []), returns)
  guarded false (some seed) false self selected = selected

  unfoldable pub run_round :
      {S E : Type 0}
      → (G → R)
      → Round V P G S E
      → Dispatcher V R
      → (Dispatcher V R × List (Effect V P R G)) × Ending E
  run_round region_of round self =
      let gateway = round.selected >>= (λ found.
        setup_gateway_streams found round.default_region_params round.routing
          round.region_params) in
      guarded round.triggered round.seed round.stopped self (
        then_prepare round.triggered_after round.wait
          (run_selected region_of round.turns gateway self))

  -- The rounds after one are run only where it goes on.
  unfoldable pub followed :
      {E : Type 0}
      → (Dispatcher V R × List (Effect V P R G)) × Ending E
      → (Dispatcher V R × List (Effect V P R G)) × Ending E
      → (Dispatcher V R × List (Effect V P R G)) × Ending E
  followed (first, running) (later, last) = ((later.0, first.1 ++ later.1), last)
  followed (first, returns) rest = (first, returns)
  followed (first, no_seeds) rest = (first, no_seeds)

  unfoldable pub run_rounds :
      {S E : Type 0}
      → (G → R)
      → List (Round V P G S E)
      → Dispatcher V R
      → (Dispatcher V R × List (Effect V P R G)) × Ending E
  run_rounds region_of [] self = ((self, []), running)
  run_rounds region_of (round ∷ rounds) self =
      let first = run_round region_of round self in
      followed first (run_rounds region_of rounds first.0.0)
