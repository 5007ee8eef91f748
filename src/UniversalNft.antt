-- ===== src/UniversalNft.antt =====
-- programs/universal_nft: NFTs that are locked here while they are on another chain.
pub mod State
pub mod Runtime
pub mod Ledger
pub mod Contexts
pub mod Accounts
pub mod Handlers
pub mod OnCall
pub mod Program
pub mod Tests
