-- ===== src/System/Deadlock.antt =====
-- src/server.rs, src/sync.rs: the full channels. The gateway sends to the dispatcher, the dispatcher to the
-- gateway and to the clients, and the clients to the gateway; each of them waits until there is room.
use mathlib.Core.Path.{subst}
use gateway_rs.Base.{
  ℕ, ◌≡◌, refl, sym, ap, ◌∙◌, Bool, true, false, List, [], ◌∷◌, Bool-cases, inl, inr, Eq,
  if◌then◌else◌, some, ◌==◌, ==_iff,
}
use gateway_rs.Radio.Region.{RegionParams}
use gateway_rs.Radio.Packet.{TxPk}
use gateway_rs.Radio.Gateway.{Gateway}
use gateway_rs.Router.Dispatcher.{Dispatcher, Effect}
use gateway_rs.Router.Client.{RouterClient}
use gateway_rs.System.{Task, client_size, update}
use gateway_rs.System.Sends.{take_message, tick_client}
use gateway_rs.Lorawan.Wire.{LittleEndian}
use gateway_rs.Router.Filter.{Hashing}
use gateway_rs.Radio.Beacon.{Randomness}
use gateway_rs.Radio.Packet.{Packet}
use gateway_rs.Radio.Gateway.Events.{
  GatewayMessage, GatewayEvent, udp_event, message, Out, received_beacon, new_region, radio,
  task_panics,
}
use gateway_rs.Radio.Gateway.Events as Gateway
use gateway_rs.Radio.Beaconer.{
  Surroundings, BeaconMessage, Sent, transmitted, beacon_submitted, witness_submitted,
}
use gateway_rs.Router.Dispatcher.{uplink, region_params_changed}
use gateway_rs.Router.Dispatcher.Rounds.{DispatcherMessage}
use gateway_rs.System.{Timed, Effects, System, World, has_room, gateway_size, has_place}
use gateway_rs.System.{dispatcher_size}
use gateway_rs.System.Sends.{
  send_out, send_to_client, send_effect, send_beacons, send_downlink, request,
}
use gateway_rs.System.Steps.{
  Action, gateway_event, gateway_takes, gateway_sends, dispatcher_event, dispatcher_takes,
  dispatcher_sends, api_request, beaconer_timer, beaconer_takes, beaconer_sends, client_takes,
  client_ticks, client_sends, gateway_meets, gateway_next, dispatcher_meets, dispatcher_next,
  beaconer_does, beaconer_meets, beaconer_next, act, run_server,
}

if_not : {A : Type 0} (b : Bool) (x y : A) → b ≡ false → (if b then x else y) ≡ y
if_not true x y h = cc
if_not false x y h = refl

update_same :
    {A : Type 0} (f : ℕ → A) (j : ℕ) (a : A) (i : ℕ) → (j ≡ i → a ≡ f i) → update f j a i ≡ f i
update_same f j a i same = elim (Bool-cases (j == i)) [
  | inl e ↦ rw e (same ((==_iff j i).0 e))
  | inr e ↦ rw e refl
]

-- The gateway and the dispatcher with their channels, and what they have done.
pub record Ring (V N T R C Q : Type 0) : Type 0 where
  pub gateway : Gateway R C
  pub gateway_inbox : List (GatewayMessage N T R)
  pub gateway_unsent : List (Out N T R Q × ℕ)
  pub dispatcher : Dispatcher V R
  pub dispatcher_inbox : List (DispatcherMessage (Timed N T))
  pub dispatcher_unsent : Effects V N T R
  pub on_air : List (TxPk N Q)
  pub heard : List (Timed N T)
  pub dispatched : List (Timed N T)

abbrev pub ring : {V N T R C Q K S : Type 0} → System V N T R C Q K S → Ring V N T R C Q
ring s = record {
  gateway = s.gateway;
  gateway_inbox = s.gateway_inbox;
  gateway_unsent = s.gateway_unsent;
  dispatcher = s.dispatcher;
  dispatcher_inbox = s.dispatcher_inbox;
  dispatcher_unsent = s.dispatcher_unsent;
  on_air = s.on_air;
  heard = s.heard;
  dispatched = s.dispatched;
}

module _ {N T R K S : Type 0} where
  -- The client's channel is full, and it has a downlink to send.
  pub record ClientWaits (task : Task N T R K S) : Type 0 where
    pub client : RouterClient (Packet N T) R K
    pub runs : task.client ≡ some client
    pub full : has_room client_size task.inbox ≡ false
    pub packet : Packet N T
    pub later : List (Packet N T)
    pub to_send : task.unsent ≡ packet ∷ later

  -- The dispatcher has the region's parameters to send, or an uplink to the client, which waits too.
  pub data DispatcherWaits {V : Type 0} (i : ℕ) (task : Task N T R K S)
      : Effects V N T R → Type 0 where
    for_gateway :
        (params : RegionParams R) (rest : Effects V N T R)
        → DispatcherWaits i task (region_params_changed params ∷ rest)
    for_client :
        (packet : Timed N T) (rest : Effects V N T R)
        → ClientWaits task
        → DispatcherWaits i task (uplink i packet ∷ rest)

module _ {V N T R K S : Type 0} where
  dispatcher_stays :
      {i : ℕ} {task task' : Task N T R K S} {unsent : Effects V N T R}
      → (ClientWaits task → task' ≡ task)
      → DispatcherWaits i task unsent
      → DispatcherWaits i task' unsent
  dispatcher_stays same (for_gateway params rest) = for_gateway params rest
  dispatcher_stays {task} {task'} same (for_client packet rest w) =
      for_client packet rest (subst ClientWaits (sym (same w)) w)

  -- While the dispatcher waits it has something to send.
  has_to_send :
      {i : ℕ} {task : Task N T R K S} {unsent : Effects V N T R}
      → DispatcherWaits i task unsent
      → (e : Effect V (Timed N T) R (RegionParams R)) × (rest : Effects V N T R) × (unsent
          ≡ e ∷ rest)
  has_to_send (for_gateway params rest) = (region_params_changed params, rest, refl)
  has_to_send {i} (for_client packet rest w) = (uplink i packet, rest, refl)

module _ {V N T R C Q K S : Type 0} where
  -- The gateway waits for the dispatcher, which waits for it, and both channels are full.
  pub record Deadlocked (i : ℕ) (s : System V N T R C Q K S) : Type 0 where
    pub packet : Packet N T
    pub now : ℕ
    pub later : List (Out N T R Q × ℕ)
    pub to_send : s.gateway_unsent ≡ (Gateway.uplink packet, now) ∷ later
    pub gateway_full : has_room gateway_size s.gateway_inbox ≡ false
    pub dispatcher_full : has_room dispatcher_size s.dispatcher_inbox ≡ false
    pub waits : DispatcherWaits i (s.clients i) s.dispatcher_unsent

  abbrev Frozen : ℕ → System V N T R C Q K S → System V N T R C Q K S → Type 0
  Frozen i s s' = (ring s' ≡ ring s) × (ClientWaits (s.clients i) → s'.clients i ≡ s.clients i)

  same_system : (i : ℕ) (s s' : System V N T R C Q K S) → s' ≡ s → Frozen i s s'
  same_system i s s' e = (ap ring e, λ w. ap (λ (t : System V N T R C Q K S). t.clients i) e)

  Frozen-Deadlocked :
      (i : ℕ) (s s' : System V N T R C Q K S) → Frozen i s s' → Deadlocked i s → Deadlocked i s'
  Frozen-Deadlocked i s s' frozen d = record {
    packet = d.packet;
    now = d.now;
    later = d.later;
    to_send = ap (λ r. r.gateway_unsent) frozen.0 ∙ d.to_send;
    gateway_full =
        ap (λ (r : Ring V N T R C Q). has_room gateway_size r.gateway_inbox) frozen.0
        ∙ d.gateway_full;
    dispatcher_full =
        ap (λ (r : Ring V N T R C Q). has_room dispatcher_size r.dispatcher_inbox) frozen.0
        ∙ d.dispatcher_full;
    waits =
        subst (DispatcherWaits i (s'.clients i))
          (sym (ap (λ (r : Ring V N T R C Q). r.dispatcher_unsent) frozen.0))
          (dispatcher_stays frozen.1 d.waits);
  }

  -- The dispatcher's first effect does not go out.
  send_effect-waits :
      (i max_packets : ℕ) (keypair : K) {unsent : Effects V N T R} (s : System V N T R C Q K S)
      → has_room gateway_size s.gateway_inbox ≡ false
      → DispatcherWaits i (s.clients i) unsent
      → send_effect max_packets keypair unsent s ≡ s
  unfolding send_effect send_to_client has_place
  send_effect-waits i n k s full (for_gateway params rest) =
      if_not (has_room gateway_size s.gateway_inbox) _ s full
  send_effect-waits i n k s full (for_client packet rest w) =
      if_not (has_place (s.clients i).client (s.clients i)) _ s
        (ap (λ c. has_place c (s.clients i)) w.runs ∙ w.full)

  send_beacons-waits :
      (i : ℕ) (unsent : List (Sent N)) (s : System V N T R C Q K S)
      → has_room gateway_size s.gateway_inbox ≡ false
      → Frozen i s (send_beacons unsent s)
  unfolding send_beacons
  send_beacons-waits i [] s full = (refl, λ w. refl)
  send_beacons-waits i (transmitted beacon ∷ rest) s full =
      same_system i s _ (if_not (has_room gateway_size s.gateway_inbox) _ s full)
  send_beacons-waits i (beacon_submitted report ∷ rest) s full = (refl, λ w. refl)
  send_beacons-waits i (witness_submitted report ∷ rest) s full = (refl, λ w. refl)

  send_downlink-waits :
      (j : ℕ) (unsent : List (Packet N T)) (s : System V N T R C Q K S)
      → has_room gateway_size s.gateway_inbox ≡ false
      → send_downlink j unsent s ≡ s
  unfolding send_downlink
  send_downlink-waits j [] s full = refl
  send_downlink-waits j (packet ∷ rest) s full =
      if_not (has_room gateway_size s.gateway_inbox) _ s full

module _ {V N T R C Q K S E : Type 0} ⦃eq : Eq V⦄ ⦃le : LittleEndian⦄ ⦃hashing : Hashing⦄
    ⦃random : Randomness⦄ (world : World N T R Q K S E) where
  beaconer_next-Frozen :
      (i : ℕ) (unsent : List (Sent N)) (inbox : List (BeaconMessage N T R))
      (s : System V N T R C Q K S)
      → Frozen i s (beaconer_next world unsent inbox s)
  unfolding beaconer_next beaconer_does
  beaconer_next-Frozen i (m ∷ unsent) inbox s = (refl, λ w. refl)
  beaconer_next-Frozen i [] [] s = (refl, λ w. refl)
  beaconer_next-Frozen i [] (m ∷ rest) s = (refl, λ w. refl)

  beaconer_meets-Frozen :
      (i : ℕ) (around : Surroundings E) (unsent : List (Sent N)) (s : System V N T R C Q K S)
      → Frozen i s (beaconer_meets world around unsent s)
  unfolding beaconer_meets beaconer_does
  beaconer_meets-Frozen i around [] s = (refl, λ w. refl)
  beaconer_meets-Frozen i around (m ∷ unsent) s = (refl, λ w. refl)

  -- A client that has something to send takes nothing from its channel, and its timer waits.
  take_message-waits :
      (i j : ℕ) (s : System V N T R C Q K S)
      → ClientWaits (s.clients i)
      → j ≡ i
      → take_message
          (world.services j)
          (s.clients j).unsent
          (s.clients j).inbox
          (s.clients j).client
          (s.clients j)
        ≡ s.clients i
  unfolding take_message
  take_message-waits i j s w e =
      subst
        (λ x.
          take_message (world.services x) (s.clients x).unsent (s.clients x).inbox
            (s.clients x).client (s.clients x)
          ≡ s.clients i)
        (sym e)
        (ap
          (λ l.
            take_message (world.services i) l (s.clients i).inbox (s.clients i).client
              (s.clients i))
          w.to_send)

  tick_client-waits :
      (i j now : ℕ) (s : System V N T R C Q K S)
      → ClientWaits (s.clients i)
      → j ≡ i
      → tick_client (world.services j) now (s.clients j).unsent (s.clients j).client (s.clients j)
        ≡ s.clients i
  unfolding tick_client
  tick_client-waits i j now s w e =
      subst
        (λ x.
          tick_client (world.services x) now (s.clients x).unsent (s.clients x).client (s.clients x)
          ≡ s.clients i)
        (sym e)
        (ap (λ l. tick_client (world.services i) now l (s.clients i).client (s.clients i))
          w.to_send)

  act-Frozen :
      (action : Action V N T R C E) (i : ℕ) (s : System V N T R C Q K S)
      → Deadlocked i s
      → Frozen i s (act world action s)
  unfolding act gateway_meets gateway_next send_out dispatcher_meets dispatcher_next request
  act-Frozen (gateway_event now event) i s d =
      same_system i s _ (ap (λ l. gateway_meets world now event l s) d.to_send)
  act-Frozen (gateway_takes now) i s d =
      same_system i s _ (ap (λ l. gateway_next world now l s.gateway_inbox s) d.to_send)
  act-Frozen gateway_sends i s d = same_system i s _ (
      ap (λ l. send_out l s) d.to_send
      ∙ if_not (has_room dispatcher_size s.dispatcher_inbox) _ s d.dispatcher_full)
  act-Frozen (dispatcher_event notice) i s d =
      same_system i s _ (ap (λ l. dispatcher_meets world notice l s) (has_to_send d.waits).2)
  act-Frozen dispatcher_takes i s d =
      same_system i s _
        (ap (λ l. dispatcher_next world l s.dispatcher_inbox s) (has_to_send d.waits).2)
  act-Frozen dispatcher_sends i s d =
      same_system i s _
        (send_effect-waits i world.max_packets world.keypair s d.gateway_full d.waits)
  act-Frozen api_request i s d =
      same_system i s _ (if_not (has_room dispatcher_size s.dispatcher_inbox) _ s d.dispatcher_full)
  act-Frozen (beaconer_timer around) i s d = beaconer_meets-Frozen i around s.beaconer_unsent s
  act-Frozen beaconer_takes i s d = beaconer_next-Frozen i s.beaconer_unsent s.beaconer_inbox s
  act-Frozen beaconer_sends i s d = send_beacons-waits i s.beaconer_unsent s d.gateway_full
  act-Frozen (client_takes j) i s d =
      (refl, λ w. update_same s.clients j _ i (take_message-waits i j s w))
  act-Frozen (client_ticks j now) i s d =
      (refl, λ w. update_same s.clients j _ i (tick_client-waits i j now s w))
  act-Frozen (client_sends j) i s d =
      same_system i s _ (send_downlink-waits j (s.clients j).unsent s d.gateway_full)

  -- Where the gateway waits to send an uplink to the dispatcher, whose channel is full, and the
  -- dispatcher waits to send to the gateway, whose channel is full, or to a client whose channel is full
  -- and that itself waits to send a downlink to the gateway, none of them goes on ever again: over all
  -- later actions of the parts the gateway and the dispatcher, their channels, what they have to send,
  -- what was transmitted and the uplinks that were heard and dispatched stay as they are.
  pub run_server-Deadlocked :
      (actions : List (Action V N T R C E)) (i : ℕ) (s : System V N T R C Q K S)
      → Deadlocked i s
      → ring (run_server world actions s) ≡ ring s
  unfolding run_server
  run_server-Deadlocked [] i s d = refl
  run_server-Deadlocked (action ∷ rest) i s d =
      let frozen = act-Frozen action i s d in
      run_server-Deadlocked rest i (act world action s)
        (Frozen-Deadlocked i s (act world action s) frozen d)
      ∙ frozen.0
