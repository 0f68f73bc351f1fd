-- ===== src/Router/Dispatcher/Refines.antt =====
-- src/router/dispatcher.rs: the two loops against the events that they take.
use gateway_rs.Base.{
  ◌≡◌, refl, sym, ap, ◌∙◌, Bool, true, false, Bool-cases, Option, none, some, List, [], ◌∷◌, ◌++◌,
  append-nil, append_assoc, Result, ok, err, ◌>>=◌, Eq, inl, inr, ℕ, leb,
}
use gateway_rs.Lorawan.Wire.{LittleEndian}
use gateway_rs.Router.Filter.{Hashing}
use gateway_rs.Router.Routing.{RoutingInformation}
use gateway_rs.Router.Dispatcher.{
  Dispatcher, Effect, handle_check, check_gateway, prepare_gateway_change, handle_routing_update,
  handle_region_params_update,
}
use gateway_rs.Router.Dispatcher.Events.{Event, gateway_setup, step, steps}
use gateway_rs.Router.Dispatcher.Rounds.{
  DispatcherMessage, uplinked, other_message, Turn, shut_down, routing_stream, region_stream,
  stream_error, streams_closed, gateway_check, message, channel_closed, Wait, wait_shutdown, slept,
  wait_message, wait_closed, Round, Ending, running, no_seeds, returns, setup_gateway_streams,
  handle_message, run_with_gateway, wait_effects, prepare_and_wait, run_gateway, run_selected,
  then_prepare, guarded, run_round, followed, run_rounds,
}
use gateway_rs.Router.Dispatcher.Trace.{
  is_alive, message_events, turn_events, wait_events, found, change_events, found_events,
  found_ending, guarded_events, round_events, followed_events, rounds_events,
}

module _ {V P R G : Type 0} ⦃eq : Eq V⦄ ⦃le : LittleEndian⦄ ⦃hashing : Hashing⦄
    (routing_of : P → Option RoutingInformation) (region_of : G → R) where
  abbrev then_steps :
      Dispatcher V R × List (Effect V P R G)
      → List (Event V P G)
      → Dispatcher V R × List (Effect V P R G)
  then_steps result events =
      let (last, more) = steps routing_of region_of events result.0 in (last, result.1 ++ more)

  steps-append :
      (xs ys : List (Event V P G)) (self : Dispatcher V R)
      → steps routing_of region_of (xs ++ ys) self
        ≡ then_steps (steps routing_of region_of xs self) ys
  unfolding steps
  steps-append [] ys self = refl
  steps-append (x ∷ xs) ys self =
      let first = step routing_of region_of x self in
      let more = steps routing_of region_of xs first.0 in
      ap (λ r. (r.0, first.1 ++ r.1)) (steps-append xs ys first.0)
      ∙ ap (λ effects. ((steps routing_of region_of ys more.0).0, effects))
          (sym (append_assoc first.1 more.1 (steps routing_of region_of ys more.0).1))

  handle_message-steps :
      (m : DispatcherMessage P) (self : Dispatcher V R)
      → (self, handle_message routing_of m self)
        ≡ steps routing_of region_of (message_events m) self
  unfolding handle_message steps step
  handle_message-steps (uplinked packet) self = ap (λ effects. (self, effects)) (sym (append-nil _))
  handle_message-steps other_message self = refl

  handle_check-is_alive :
      (answer : Option (ℕ × ℕ)) (self : Dispatcher V R)
      → (handle_check answer self).1 ≡ is_alive answer
  unfolding handle_check check_gateway
  handle_check-is_alive none self = refl
  handle_check-is_alive (some (height, block_age)) self = elim (Bool-cases (leb block_age 1800)) [
    | inl alive ↦ rw alive refl
    | inr dead ↦ rw dead refl
  ]

  run_with_gateway-steps :
      (turns : List (Turn V P G)) (self : Dispatcher V R)
      → run_with_gateway routing_of region_of turns self
        ≡ steps routing_of region_of (turn_events turns) self
  unfolding run_with_gateway step steps
  run_with_gateway-steps [] self = refl
  run_with_gateway-steps (shut_down ∷ rest) self = refl
  run_with_gateway-steps (stream_error ∷ rest) self = refl
  run_with_gateway-steps (streams_closed ∷ rest) self = refl
  run_with_gateway-steps (channel_closed ∷ rest) self = refl
  run_with_gateway-steps (routing_stream height routings ∷ rest) self =
      let first = handle_routing_update {P = P} {G = G} height routings self in
      ap (λ r. (r.0, first.1 ++ r.1)) (run_with_gateway-steps rest first.0)
  run_with_gateway-steps (region_stream height params ∷ rest) self =
      let first = handle_region_params_update {P = P} region_of height params self in
      ap (λ r. (r.0, first.1 ++ r.1)) (run_with_gateway-steps rest first.0)
  run_with_gateway-steps (gateway_check answer ∷ rest) self = elim (Bool-cases (is_alive answer)) [
    | inl alive ↦
        rw (run_with_gateway, handle_check-is_alive answer self, alive)
          (run_with_gateway-steps rest (handle_check answer self).0)
    | inr dead ↦ rw (run_with_gateway, handle_check-is_alive answer self, dead) refl
  ]
  run_with_gateway-steps (message m ∷ rest) self =
      let later = run_with_gateway-steps rest self in
      ap (λ r. (r.0, handle_message routing_of m self ++ r.1)) later
      ∙ ap (λ f. then_steps f (turn_events rest)) (handle_message-steps m self)
      ∙ sym (steps-append (message_events m) (turn_events rest) self)

  wait_effects-steps :
      (wait : Wait P) (self : Dispatcher V R)
      → (self, wait_effects routing_of wait self)
        ≡ steps routing_of region_of (wait_events wait) self
  unfolding wait_effects steps
  wait_effects-steps wait_shutdown self = refl
  wait_effects-steps slept self = refl
  wait_effects-steps wait_closed self = refl
  wait_effects-steps (wait_message m) self = handle_message-steps m self

  prepare_and_wait-steps :
      (triggered : Bool) (wait : Wait P) (self : Dispatcher V R)
      → prepare_and_wait routing_of triggered wait self
        ≡ steps routing_of region_of (change_events triggered wait) self
  unfolding prepare_and_wait step steps
  prepare_and_wait-steps true wait self = refl
  prepare_and_wait-steps false wait self = wait_effects-steps wait (prepare_gateway_change self)

  -- After what a round has done, the change to the next gateway.
  then_prepare-steps :
      {E : Type 0} (triggered : Bool) (wait : Wait P) (self : Dispatcher V R)
      (result : Dispatcher V R × List (Effect V P R G)) (events : List (Event V P G))
      → result ≡ steps routing_of region_of events self
      → then_prepare routing_of {E = E} triggered wait (result, running)
        ≡ (steps routing_of region_of (events ++ change_events triggered wait) self, running)
  unfolding then_prepare
  then_prepare-steps triggered wait self result events e =
      ap (λ r. (r, running))
        (ap (λ r. (r.0, result.1 ++ r.1)) (prepare_and_wait-steps triggered wait result.0)
          ∙ ap (λ f. then_steps f (change_events triggered wait)) e
          ∙ sym (steps-append events (change_events triggered wait) self))

  module _ {E : Type 0} where
    -- A state with effects and an end, as a list of events with an end leads to them.
    abbrev pub leads :
        List (Event V P G) × Ending E
        → Dispatcher V R
        → (Dispatcher V R × List (Effect V P R G)) × Ending E
    leads spoken self = (steps routing_of region_of spoken.0 self, spoken.1)

    followed-steps :
        (first : List (Event V P G) × Ending E) (rest : List (Event V P G) × Ending E)
        (self : Dispatcher V R)
        → followed routing_of
            (leads first self)
            (leads rest (steps routing_of region_of first.0 self).0)
          ≡ leads (followed_events first rest) self
    unfolding followed
    followed-steps (events, running) (more, last) self =
        ap (λ r. (r, last)) (sym (steps-append events more self))
    followed-steps (events, returns) rest self = refl
    followed-steps (events, no_seeds) rest self = refl

  module _ {S E : Type 0} where
    -- What a round does once the tests before it are passed.
    abbrev within :
        Result E (Option S)
        → Result E G
        → Result E (Unit {0})
        → Result E (Unit {0})
        → List (Turn V P G)
        → Bool
        → Wait P
        → Dispatcher V R
        → (Dispatcher V R × List (Effect V P R G)) × Ending E
    within selected params routing region turns triggered wait self =
        then_prepare routing_of triggered wait (
          run_selected routing_of region_of turns
            (selected >>= (λ chosen. setup_gateway_streams chosen params routing region)) self)

    within-steps :
        (selected : Result E (Option S)) (params : Result E G)
        (routing region : Result E (Unit {0})) (turns : List (Turn V P G)) (triggered : Bool)
        (wait : Wait P) (self : Dispatcher V R)
        → let f = found selected params routing region in
          within selected params routing region turns triggered wait self
          ≡ (steps routing_of region_of (found_events f turns triggered wait) self, found_ending f)
    unfolding run_selected run_gateway setup_gateway_streams then_prepare step steps
    within-steps (err e) params routing region turns triggered wait self =
        then_prepare-steps triggered wait self (self, []) [] refl
    within-steps (ok none) params routing region turns triggered wait self = refl
    within-steps (ok (some gateway)) (err e) routing region turns triggered wait self =
        then_prepare-steps triggered wait self (self, []) [] refl
    within-steps (ok (some gateway)) (ok params) (err e) region turns triggered wait self =
        then_prepare-steps triggered wait self (self, []) [] refl
    within-steps (ok (some gateway)) (ok params) (ok u) (err e) turns triggered wait self =
        then_prepare-steps triggered wait self (self, []) [] refl
    within-steps (ok (some gateway)) (ok params) (ok u) (ok v) turns triggered wait self =
        then_prepare-steps triggered wait self (run_gateway routing_of region_of turns params self)
          (gateway_setup params ∷ turn_events turns)
          (ap (λ r. (r.0, (step routing_of region_of (gateway_setup params) self).1 ++ r.1))
            (run_with_gateway-steps turns self))

    guarded-steps :
        (triggered : Bool) (seed : Option S) (stopped : Bool) (self : Dispatcher V R)
        (selected : (Dispatcher V R × List (Effect V P R G)) × Ending E)
        (events : List (Event V P G) × Ending E)
        → selected ≡ leads events self
        → guarded routing_of triggered seed stopped self selected
          ≡ leads (guarded_events triggered seed stopped events) self
    unfolding guarded steps
    guarded-steps true seed stopped self selected events e = refl
    guarded-steps false none stopped self selected events e = refl
    guarded-steps false (some seed) true self selected events e = refl
    guarded-steps false (some seed) false self selected events e = e

    run_round-steps :
        (round : Round V P G S E) (self : Dispatcher V R)
        → run_round routing_of region_of round self ≡ leads (round_events round) self
    unfolding run_round
    run_round-steps round self =
        let f =
          found round.selected round.default_region_params round.routing round.region_params in
        guarded-steps round.triggered round.seed round.stopped self
          (within round.selected round.default_region_params round.routing round.region_params
            round.turns round.triggered_after round.wait self)
          (found_events f round.turns round.triggered_after round.wait, found_ending f)
          (within-steps round.selected round.default_region_params round.routing round.region_params
            round.turns round.triggered_after round.wait self)

    -- Whatever the services answer and whatever comes first in each turn of the two loops, the state that
    -- the dispatcher reaches, what it has sent, in order, and how it ends are those of the single events
    -- that the rounds say: of a round that is not stopped before, the set up of its gateway, the
    -- events of its turns up to the first that ends it, an error or the end of a stream, the
    -- shutdown, a closed channel or a failed check, and, unless the shutdown has come, the change of the
    -- gateway with the message that ends the wait; of a gateway that is not chosen or set up, only this
    -- change. The rounds end with the first that is shut down or has no seeds.
    pub run_rounds-rounds_events :
        (rounds : List (Round V P G S E)) (self : Dispatcher V R)
        → run_rounds routing_of region_of rounds self ≡ leads (rounds_events rounds) self
    unfolding run_rounds steps
    run_rounds-rounds_events [] self = refl
    run_rounds-rounds_events (round ∷ rounds) self =
        let first = run_round-steps round self in
        ap (λ f. followed routing_of f (run_rounds routing_of region_of rounds f.0.0)) first
        ∙ ap (followed routing_of (leads (round_events round) self)) (
            run_rounds-rounds_events rounds
              (steps routing_of region_of (round_events round).0 self).0)
        ∙ followed-steps (round_events round) (rounds_events rounds) self
