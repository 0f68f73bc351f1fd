-- ===== src/Command.antt =====
-- The command that shows information: src/cmd/info.rs.
pub mod Info
pub mod Keys
pub mod Cache
pub mod Sparing
pub mod Calls
mod Samples
