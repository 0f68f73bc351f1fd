-- ===== src/Radio.antt =====
-- The packets of the radio, the beacons and the gateway: src/packet.rs, src/region.rs, src/gateway.rs
-- and the crate beacon.
pub mod Packet
pub mod Beacon
pub mod Region
pub mod Gateway
pub mod Beaconer
mod Samples
mod Transmissions
mod Loops
