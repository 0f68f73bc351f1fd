-- ===== src/Lorawan.antt =====
-- The crate lorawan: frames (lorawan/src/lib.rs) and subnet addresses (lorawan/src/subnet.rs).
pub mod Header
pub mod Wire
pub mod Frame
pub mod Phy
pub mod Panics
pub mod Yields
pub mod Types
pub mod Typed
pub mod Consume
pub mod Joins
pub mod DataFrames
pub mod RoundTrip
pub mod Built
pub mod Subnet
pub mod Endian
mod Samples
mod Networks
