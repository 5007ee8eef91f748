-- ===== src/Gateway/Utils/Ata.antt =====
-- Which token account an instruction may name: utils/verify_ata_match.rs.
use protocol_contracts_solan.Prelude.{◌≡◌, ◌↔◌, eqb_iff, arith}
use protocol_contracts_solan.Solana.Result.{ok}
use protocol_contracts_solan.Solana.Account.{Pubkey}
use protocol_contracts_solan.Solana.Runtime.{Runtime}
use protocol_contracts_solan.Gateway.Utils.{verify_ata_match}

module _ (rt : Runtime) (owner mint actual_ata : Pubkey) where
  pub verify_ata_match_iff :
      (verify_ata_match rt owner mint actual_ata ≡ ok tt)
      ↔ (rt.get_associated_token_address owner mint ≡ actual_ata)
  unfolding verify_ata_match
  verify_ata_match_iff =
      ground (arith, eqb_iff (rt.get_associated_token_address owner mint) actual_ata)
