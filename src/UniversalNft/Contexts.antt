-- ===== src/UniversalNft/Contexts.antt =====
-- programs/universal_nft/src/lib.rs: the accounts of each instruction.
use protocol_contracts_solan.Solana.Account.{AccountInfo}

pub record Initialize : Type 0 where
  pub nft_program : AccountInfo
  pub authority : AccountInfo
  pub system_program : AccountInfo

pub record MintNft : Type 0 where
  pub nft_program : AccountInfo
  pub mint : AccountInfo
  pub token_account : AccountInfo
  pub nft_info : AccountInfo
  pub metadata : AccountInfo
  pub payer : AccountInfo
  pub rent : AccountInfo
  pub system_program : AccountInfo
  pub token_program : AccountInfo
  pub associated_token_program : AccountInfo
  pub token_metadata_program : AccountInfo

pub record TransferToZetachain : Type 0 where
  pub nft_program : AccountInfo
  pub nft_info : AccountInfo
  pub owner : AccountInfo
  pub owner_token_account : AccountInfo
  pub program_token_account : AccountInfo
  pub token_program : AccountInfo
  pub associated_token_program : AccountInfo
  pub system_program : AccountInfo

pub record HandleCrossChainCall : Type 0 where
  pub nft_program : AccountInfo

pub record UnlockNft : Type 0 where
  pub nft_program : AccountInfo
  pub nft_info : AccountInfo
  pub owner : AccountInfo
  pub owner_token_account : AccountInfo
  pub program_token_account : AccountInfo
  pub token_program : AccountInfo

pub record OnCall : Type 0 where
  pub nft_program : AccountInfo
  pub mint : AccountInfo
  pub nft_info : AccountInfo
  pub metadata : AccountInfo
  pub recipient_token_account : AccountInfo
  pub program_token_account : AccountInfo
  pub owner_token_account : AccountInfo
  pub payer : AccountInfo
  pub rent : AccountInfo
  pub system_program : AccountInfo
  pub token_program : AccountInfo
  pub associated_token_program : AccountInfo
  pub token_metadata_program : AccountInfo
  pub instruction_sysvar_account : AccountInfo
