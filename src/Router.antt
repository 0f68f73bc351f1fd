-- ===== src/Router.antt =====
-- Routing of packets to the routers: src/router/ and src/keyed_uri.rs.
pub mod Filter
pub mod Routing
pub mod Uris
pub mod Dispatcher
pub mod Store
pub mod Client
pub mod Messages
mod Samples
mod Queues
mod Loops
