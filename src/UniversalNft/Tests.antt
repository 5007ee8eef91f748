-- ===== src/UniversalNft/Tests.antt =====
-- Runs of the model of programs/universal_nft at concrete inputs.
pub mod Runtime
pub mod Chains
mod Owners
mod Calls
mod Runs
