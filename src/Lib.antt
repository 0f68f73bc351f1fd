-- ===== src/Lib.antt =====
-- gateway-rs, the LoRa gateway: what it reads from the air and how packets find their routers.
--
-- A packet from the concentrator is a LoRaWAN frame. The crate lorawan reads and writes frames, and
-- turns device addresses into addresses of subnets. The dispatcher keeps one client for each router
-- of each oui, as the routing updates of the connected gateway service name them, and hands each
-- uplink to the clients whose filters match it, or to the default routers. A client keeps the
-- uplinks in a bounded store and sends them to its router in turn; the router's answers are the
-- downlinks. The gateway task stands between the packet forwarder and these: it hands packets to
-- the dispatcher and possible beacons to the beaconer, and sends downlinks and beacons. The
-- beaconer makes beacons on a timer and reports them and those that it hears. Beside these run the
-- updater, which looks for newer releases, and the local API, which the commands call.
--
--   Base.antt            names of the libraries, Boolean tests, lists, results, equality, bits,
--                        texts as lists of characters
--   Lorawan/Header       lorawan/src/lib.rs: MType and MHDR
--   Lorawan/Wire         lorawan/src/error.rs, and the reading of slices and the writing of vectors
--   Lorawan/Frame        lorawan/src/lib.rs: Fhdr, FCtrl, MACPayload, JoinRequest, JoinAccept and
--                        PHYPayloadFrame, each with its `read` and `write`
--   Lorawan/Phy          lorawan/src/lib.rs: PHYPayload::read, write and proprietary
--   Lorawan/Subnet       lorawan/src/subnet.rs, every function under its own name
--   Router/Filter        src/router/filter.rs: `eui_` and `devaddr_` stand before `from_bin` and
--                        `contains` of EuiFilter and DevAddrFilter
--   Router/Routing       src/router/routing.rs, and the equality of src/keyed_uri.rs
--   Router/Uris          src/keyed_uri.rs: the conversions
--   Router/Store         src/router/store.rs
--   Router/Client        src/router/client.rs and src/state_channel/message.rs
--   Router/Messages      src/state_channel/message.rs: the conversions, and the hash of src/packet.rs
--   Router/Dispatcher    src/router/dispatcher.rs: its child Events has the uplinks and single events,
--                        Rounds the two loops, `run` and `run_with_gateway`, and Replies the messages
--                        of the local API, `handle_message` in the source
--   Radio/Packet         src/packet.rs: `packet_try_from` is the conversion from the packet forwarder
--   Radio/Beacon         beacon/src/beacon.rs, beacon/src/entropy.rs, and `beacon_to_pull_resp` of
--                        src/gateway.rs
--                        its child Local has the entropy of the system and its text
--   Radio/Region         src/region.rs: its child Names has the numbers and texts of regions
--   Radio/Gateway        src/gateway.rs: `dispatch_windows` and `retry` are the task of
--                        `handle_downlink`; its child Events has the events, the messages and the loop
--   Radio/Beaconer       src/beaconer.rs and the two calls of src/service/poc.rs
--   Updater/Channel      src/updater/releases.rs: Channel and `in_channel`
--   Updater/Releases     src/updater/releases.rs: releases, assets and streams
--   Updater/Check        src/updater/mod.rs: `handle_tick` is a turn of the loop of `run`
--   Updater/Texts        src/updater/releases.rs: the deserializers
--   Updater/Commands     src/cmd/update.rs
--   Account/Modes        src/settings.rs: StakingMode and LogMethod
--   Account/Transactions src/traits/txn_envelope.rs
--   Account/Fees         src/traits/txn_fee.rs
--   Account/Keys         src/traits/msg_sign.rs and src/traits/msg_verify.rs, by their macros
--   Account/Keypair      src/keypair.rs
--   Account/Onboarding   src/settings.rs: `onboarding_key` and the defaults
--   Account/Settings     src/settings.rs: the settings and where they are read from
--   Account/Api          src/api/server.rs
--   Account/Client       src/api/client.rs
--   Service/Gateway      src/service/gateway.rs
--   Service/Requests     src/service/gateway.rs and src/service/router.rs: connections and requests
--   Service/Curl         src/curl.rs, src/service/entropy.rs and the addresses of src/api/mod.rs
--   Service/Version      src/service/version.rs
--   System               src/server.rs and src/sync.rs: the parts that the server runs together, with
--                        their channels; its child Sends has what a part sends, and Steps one step
--                        of one part, with the handlers of the modules above
--   Errors               src/error.rs: the errors, their texts and conversions; its child Sync has the
--                        answers of src/sync.rs and the error of the liveness check
--   Start                src/main.rs and src/cmd/key.rs: `main` up to the exit code; its child Added
--                        has src/cmd/add.rs and src/traits/base64.rs
--   Command/Info         src/cmd/info.rs: the keys and their texts
--   Command/Cache        src/cmd/info.rs: InfoCache, `to_status` and the loop of `run`
--
-- The modules below these hold their lemmas: Lorawan/Phy/Sizes and Steps, Lorawan/Consume, Joins,
-- DataFrames, RoundTrip, Built and Panics of frames; Lorawan/Subnet/Fields, Address and Ranges of
-- subnets; Router/Filter/Subnets; Router/Store/Window; Router/Client/Delivery; and
-- Router/Dispatcher/Table, Removal, Runs, Updates, Uplinks, Heights, Trace and Refines; Radio/Packet/Fees
-- and Uplinks, Radio/Beacon/Witness, Radio/Region/Power, Radio/Gateway/Downlinks and Powers,
-- Radio/Beaconer/Reports and Agreement; Updater/Prereleases, Listing, Updates and Requests; Account/Transfers and
-- Keyfiles; Service/Verified; Command/Keys, Sparing and Calls. Lorawan/Endian gives the byte orders
-- that the frames take as an interface. The modules Samples, Networks, Queues, Loops, Transmissions
-- and KeySamples run the definitions. Router/Dispatcher/Channels and Sent are about the channels of
-- the clients, Lorawan/Yields, Types and Typed about the machine types of what is read, and
-- System/Order, Tasks, Handed, Deadlock and Regions about the server as a whole, Start/Exits about
-- the exit codes, and Start/Answered about the command that adds a gateway with its answer.
--
-- A byte, a `u16` and a `u32` are natural numbers. A sum, difference or shift that the code cuts is
-- cut by a remainder, as in a release build. A reader is a function from the bytes left; an error is
-- a value, and so is a panic. Channels are lists of effects in the order in which they are sent.
-- Loops follow the list that they run over, so that none needs a bound, but for the stream of
-- releases, which has a unit of fuel for each release and one more. The map of routers is a list
-- in the order of insertion, which is one order that the map of the code can have. What a client
-- calls outside, a signature, the router or the gateway, answers by any function of the calls that
-- were made before.
--
-- The server is a state with the parts, a bounded channel for each, and what each part has still to
-- send. A list of actions says which part goes on next; a part whose message finds the channel full
-- waits, as `send` of the code does. A handler's change of state comes at its start, before what it
-- sends, but for the gateway's parameters of the region, which change once they are sent to the
-- beaconer. The uplinks that were heard, dispatched and handed to clients, and the parameters that the
-- gateway has taken, are kept beside.
--
-- The crates byteorder, bytes, xorf, xxhash, http, semver, prost, helium_crypto, helium_proto, config,
-- base64 and slog are parameters:
-- byte orders with their laws, hashing, random numbers, parsers of uris and keys, the order of
-- versions, encoders of messages, signatures and equality. So are the file system, started processes
-- and the answers of remote services. A `select!` is the list of what it takes. Not modelled:
-- logging, timers as real time, the transports, the packet forwarder's protocol, the reading of
-- files of settings and of JSON, and the parser of the command line, which are input and output or
-- third-party code.
pub mod Base
pub mod Lorawan
pub mod Router
pub mod Radio
pub mod Updater
pub mod Account
pub mod Service
pub mod System
pub mod Command
pub mod Errors
pub mod Start
