-- ===== src/Updater.antt =====
-- The updater: src/updater/ and src/cmd/update.rs.
pub mod Channel
pub mod Prereleases
pub mod Releases
pub mod Listing
pub mod Check
pub mod Commands
pub mod Updates
pub mod Requests
pub mod Texts
mod Samples
