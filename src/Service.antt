-- ===== src/Service.antt =====
-- The remote services: src/service/.
pub mod Version
pub mod Gateway
pub mod Verified
pub mod Requests
pub mod Curl
mod Samples
