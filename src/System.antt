-- ===== src/System.antt =====
-- src/server.rs, src/sync.rs: what the server runs together, the gateway, the dispatcher, the beaconer and
-- the clients of the routers, with the channels between them. A part that sends to a full channel waits
-- and takes nothing else meanwhile, so each part has the list of what it has still to send.
pub mod Sends
pub mod Steps
pub mod Order
pub mod Tasks
pub mod Handed
pub mod Deadlock
pub mod Regions
pub mod Samples
use gateway_rs.Base.{
  ℕ, Bool, true, false, List, [], ◌∷◌, ◌++◌, map, Option, none, some, length, ltb, ◌==◌,
  if◌then◌else◌,
}
use gateway_rs.Radio.Packet.{Packet, TxPk, ProtoDataRate}
use gateway_rs.Radio.Region.{RegionParams}
use gateway_rs.Radio.Gateway.{Gateway}
use gateway_rs.Radio.Gateway.Events.{GatewayMessage, Out, Radio}
use gateway_rs.Radio.Beaconer.{Beaconer, BeaconMessage, Sent, Signer, new_beaconer}
use gateway_rs.Router.Store.{new}
use gateway_rs.Router.Dispatcher as Dispatcher
use gateway_rs.Router.Dispatcher.{Dispatcher, Effect}
use gateway_rs.Router.Dispatcher.Rounds.{DispatcherMessage}
use gateway_rs.Router.Client.{Call, Message, Outside, RouterClient, uplink}

-- An uplink with the instant at which it was received.
abbrev pub Timed : Type 0 → Type 0 → Type 0
Timed N T = Packet N T × ℕ

abbrev pub Effects : Type 0 → Type 0 → Type 0 → Type 0 → Type 0
Effects V N T R = List (Effect V (Timed N T) R (RegionParams R))

-- The client of a router, with its channel. `client` is `none` where it has not been started or has
-- stopped, `unsent` are downlinks, and `handed` are the uplinks that it has taken from the channel.
pub record Task (N T R K S : Type 0) : Type 0 where
  pub client : Option (RouterClient (Packet N T) R K)
  pub inbox : List (Message (Packet N T) R)
  pub unsent : List (Packet N T)
  pub calls : List (Call (Packet N T) R K S)
  pub handed : List (Timed N T)

-- `clients` gives the task at each of the dispatcher's channels. `on_air` and `reports` are what has gone
-- out so far, `heard` the uplinks that the gateway has made of what it received, `dispatched` those that
-- the dispatcher has taken, and `announced` the last parameters of a region that the gateway has taken.
pub record System (V N T R C Q K S : Type 0) : Type 0 where
  pub gateway : Gateway R C
  pub gateway_inbox : List (GatewayMessage N T R)
  pub gateway_unsent : List (Out N T R Q × ℕ)
  pub dispatcher : Dispatcher V R
  pub dispatcher_inbox : List (DispatcherMessage (Timed N T))
  pub dispatcher_unsent : Effects V N T R
  pub beaconer : Beaconer R
  pub beaconer_inbox : List (BeaconMessage N T R)
  pub beaconer_unsent : List (Sent N)
  pub clients : ℕ → Task N T R K S
  pub on_air : List (TxPk N Q)
  pub reports : List (Sent N)
  pub heard : List (Timed N T)
  pub dispatched : List (Timed N T)
  pub announced : Option (RegionParams R)

-- What the parts call outside; `services` are the router and the signature of each client.
pub record World (N T R Q K S E : Type 0) : Type 0 where
  pub air : Radio N T Q
  pub services : ℕ → Outside (Packet N T) R K S E
  pub signer : Signer N
  pub parse_rate : T → Option ProtoDataRate
  pub to_hz : N → ℕ
  pub max_packets : ℕ
  pub keypair : K

-- The sizes of the channels.
abbrev pub gateway_size : ℕ
gateway_size = 10

abbrev pub dispatcher_size : ℕ
dispatcher_size = 20

abbrev pub beaconer_size : ℕ
beaconer_size = 10

abbrev pub client_size : ℕ
client_size = 10

abbrev pub has_room : {M : Type 0} → ℕ → List M → Bool
has_room size inbox = ltb (length inbox) size

abbrev pub update : {A : Type 0} → (ℕ → A) → ℕ → A → ℕ → A
update f i a j = if i == j then a else f j

abbrev pub idle_task : {N T R K S : Type 0} → Task N T R K S
idle_task = record { client = none; inbox = []; unsent = []; calls = []; handed = [] }

-- The parts as `run` makes them, with empty channels.
unfoldable pub start :
    {V N T R C Q K S : Type 0} → R → Option (List V) → C → ℕ → System V N T R C Q K S
start region default_routers mac beacon_interval = record {
  gateway = record { downlink_mac = mac; region_params = none };
  gateway_inbox = [];
  gateway_unsent = [];
  dispatcher = Dispatcher.new region default_routers;
  dispatcher_inbox = [];
  dispatcher_unsent = [];
  beaconer = new_beaconer beacon_interval;
  beaconer_inbox = [];
  beaconer_unsent = [];
  clients = λ i. idle_task;
  on_air = [];
  reports = [];
  heard = [];
  dispatched = [];
  announced = none;
}

module _ {N T R K S : Type 0} where
  -- A channel whose client has returned takes every message, and forgets it.
  unfoldable pub has_place : Option (RouterClient (Packet N T) R K) → Task N T R K S → Bool
  has_place none task = true
  has_place (some client) task = has_room client_size task.inbox

  unfoldable pub receives :
      Option (RouterClient (Packet N T) R K)
      → Message (Packet N T) R
      → Task N T R K S
      → Task N T R K S
  receives none m task = task
  receives (some client) m task = record task { inbox = task.inbox ++ m ∷ [] }

  -- `RouterClient::new`, and the task that runs it.
  unfoldable pub start_router : ℕ → K → R → Task N T R K S → Task N T R K S
  start_router max_packets keypair region task = record task {
    client = some (record { region = region; keypair = keypair; store = new max_packets });
  }
