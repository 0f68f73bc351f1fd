-- ===== src/Account.antt =====
-- The account on the chain and the local API: src/traits/, src/settings.rs, src/keypair.rs and src/api/.
pub mod Modes
pub mod Transactions
pub mod Fees
pub mod Keys
pub mod Api
pub mod Transfers
pub mod Client
pub mod Keypair
pub mod Keyfiles
pub mod Onboarding
pub mod Settings
mod Samples
mod KeySamples
