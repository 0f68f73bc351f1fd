-- ===== src/Router/Dispatcher/Trace.antt =====
-- src/router/dispatcher.rs: which events the two loops take. It is said of the rounds alone, without the state
-- of the dispatcher.
use gateway_rs.Base.{
  Bool, true, false, Option, none, some, List, [], ◌∷◌, ◌++◌, Result, ok, err, ℕ, leb,
  if◌then◌else◌,
}
use gateway_rs.Router.Dispatcher.Events.{
  Event, routing_message, region_message, height_answer, uplink_message, gateway_setup,
  gateway_change,
}
use gateway_rs.Router.Dispatcher.Rounds.{
  DispatcherMessage, uplinked, other_message, Turn, shut_down, routing_stream, region_stream,
  stream_error, streams_closed, gateway_check, message, channel_closed, Wait, wait_shutdown, slept,
  wait_message, wait_closed, Round, Ending, running, no_seeds, returns,
}

-- An answer to the liveness check that names a block of the last half hour.
abbrev pub is_alive : Option (ℕ × ℕ) → Bool
is_alive none = false
is_alive (some (height, block_age)) = leb block_age 1800

module _ {V P G : Type 0} where
  abbrev pub message_events : DispatcherMessage P → List (Event V P G)
  message_events (uplinked packet) = uplink_message packet ∷ []
  message_events other_message = []

  -- The events of the inner loop: those of every turn up to the first that ends it. A check that fails ends
  -- it too, and is its last event.
  abbrev pub turn_events : List (Turn V P G) → List (Event V P G)
  turn_events [] = []
  turn_events (shut_down ∷ rest) = []
  turn_events (stream_error ∷ rest) = []
  turn_events (streams_closed ∷ rest) = []
  turn_events (channel_closed ∷ rest) = []
  turn_events (routing_stream height routings ∷ rest) =
      routing_message height routings ∷ turn_events rest
  turn_events (region_stream height params ∷ rest) = region_message height params ∷ turn_events rest
  turn_events (gateway_check answer ∷ rest) =
      let later = turn_events rest in height_answer answer ∷ (if is_alive answer then later else [])
  turn_events (message m ∷ rest) = message_events m ++ turn_events rest

  abbrev pub wait_events : Wait P → List (Event V P G)
  wait_events wait_shutdown = []
  wait_events slept = []
  wait_events wait_closed = []
  wait_events (wait_message m) = message_events m

-- What a round finds: no gateway as the shutdown came first, one that could not be chosen or set up, or
-- one with its default parameters.
pub data Found (G : Type 0) : Type 0 where
  cancelled failed : Found G
  set_up : G → Found G

module _ {G E : Type 0} where
  abbrev pub found_ending : Found G → Ending E
  found_ending cancelled = returns
  found_ending failed = running
  found_ending (set_up params) = running

module _ {S E G : Type 0} where
  abbrev pub found :
      Result E (Option S) → Result E G → Result E (Unit {0}) → Result E (Unit {0}) → Found G
  found (err e) params routing region = failed
  found (ok none) params routing region = cancelled
  found (ok (some gateway)) (err e) routing region = failed
  found (ok (some gateway)) (ok params) (err e) region = failed
  found (ok (some gateway)) (ok params) (ok u) (err e) = failed
  found (ok (some gateway)) (ok params) (ok u) (ok v) = set_up params

module _ {V P G : Type 0} where
  -- The change to the next gateway, with the message that ends the wait for it.
  abbrev pub change_events : Bool → Wait P → List (Event V P G)
  change_events true wait = []
  change_events false wait = gateway_change ∷ wait_events wait

  abbrev pub found_events : Found G → List (Turn V P G) → Bool → Wait P → List (Event V P G)
  found_events cancelled turns triggered wait = []
  found_events failed turns triggered wait = change_events triggered wait
  found_events (set_up params) turns triggered wait =
      gateway_setup params ∷ (turn_events turns ++ change_events triggered wait)

  module _ {E : Type 0} where
    -- What the tests before a gateway is chosen leave of its events.
    abbrev pub guarded_events :
        {S : Type 0}
        → Bool
        → Option S
        → Bool
        → List (Event V P G) × Ending E
        → List (Event V P G) × Ending E
    guarded_events true seed stopped within = ([], returns)
    guarded_events false none stopped within = ([], no_seeds)
    guarded_events false (some seed) true within = ([], returns)
    guarded_events false (some seed) false within = within

    abbrev pub round_events : {S : Type 0} → Round V P G S E → List (Event V P G) × Ending E
    round_events round =
        let f =
          found round.selected round.default_region_params round.routing round.region_params in
        guarded_events round.triggered round.seed round.stopped
          (found_events f round.turns round.triggered_after round.wait, found_ending f)

    -- The rounds after one that ends the outer loop are not taken.
    abbrev pub followed_events :
        List (Event V P G) × Ending E
        → List (Event V P G) × Ending E
        → List (Event V P G) × Ending E
    followed_events (events, running) (more, last) = (events ++ more, last)
    followed_events (events, returns) later = (events, returns)
    followed_events (events, no_seeds) later = (events, no_seeds)

    abbrev pub rounds_events : {S : Type 0} → List (Round V P G S E) → List (Event V P G) × Ending E
    rounds_events [] = ([], running)
    rounds_events (round ∷ rounds) = followed_events (round_events round) (rounds_events rounds)
