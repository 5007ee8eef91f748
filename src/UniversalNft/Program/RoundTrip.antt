-- ===== src/UniversalNft/Program/RoundTrip.antt =====
-- A transfer to the other chain and `unlock_nft` after it, in programs/universal_nft/src/lib.rs.
use protocol_contracts_solan.UniversalNft.Handlers
