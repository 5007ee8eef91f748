-- ===== src/Gateway/Contexts.antt =====
-- programs/gateway/src/contexts.rs: the accounts of each instruction.
use protocol_contracts_solan.Prelude.{Bool, Option}
use protocol_contracts_solan.Solana.Account.{Pubkey, AccountInfo, World}
use protocol_contracts_solan.Gateway.State.{Pda}

-- The chain as the gateway sees it: its own account, which whitelist entries exist, by address,
-- and the rest of the ledger.
pub record State : Type 0 where
  pub pda : Option Pda
  pub entries : Pubkey → Bool
  pub world : World

pub record Initialize : Type 0 where
  pub signer : AccountInfo
  pub pda : AccountInfo
  pub system_program : AccountInfo

pub record Execute : Type 0 where
  pub signer : AccountInfo
  pub pda : AccountInfo
  pub destination_program : AccountInfo
  pub destination_program_pda : AccountInfo

-- The five contexts that hold a signer and the gateway's account.
pub record SignerAndPda : Type 0 where
  pub signer : AccountInfo
  pub pda : AccountInfo

abbrev pub IncrementNonce : Type 0
IncrementNonce = SignerAndPda

abbrev pub UpdateTss : Type 0
UpdateTss = SignerAndPda

abbrev pub UpdateAuthority : Type 0
UpdateAuthority = SignerAndPda

abbrev pub ResetNonce : Type 0
ResetNonce = SignerAndPda

abbrev pub UpdatePaused : Type 0
UpdatePaused = SignerAndPda

pub record Deposit : Type 0 where
  pub signer : AccountInfo
  pub pda : AccountInfo
  pub system_program : AccountInfo

pub record DepositSplToken : Type 0 where
  pub signer : AccountInfo
  pub pda : AccountInfo
  pub whitelist_entry : AccountInfo
  pub mint_account : AccountInfo
  pub token_program : AccountInfo
  pub from : AccountInfo
  pub to : AccountInfo
  pub system_program : AccountInfo

pub record Call : Type 0 where
  pub signer : AccountInfo

pub record Withdraw : Type 0 where
  pub signer : AccountInfo
  pub pda : AccountInfo
  pub recipient : AccountInfo

pub record WithdrawSplToken : Type 0 where
  pub signer : AccountInfo
  pub pda : AccountInfo
  pub pda_ata : AccountInfo
  pub mint_account : AccountInfo
  pub recipient : AccountInfo
  pub recipient_ata : AccountInfo
  pub token_program : AccountInfo
  pub associated_token_program : AccountInfo
  pub system_program : AccountInfo

pub record ExecuteSplToken : Type 0 where
  pub signer : AccountInfo
  pub pda : AccountInfo
  pub pda_ata : AccountInfo
  pub mint_account : AccountInfo
  pub destination_program : AccountInfo
  pub destination_program_pda : AccountInfo
  pub destination_program_pda_ata : AccountInfo
  pub token_program : AccountInfo
  pub associated_token_program : AccountInfo
  pub system_program : AccountInfo

-- `Whitelist` and `Unwhitelist`; the second has no system program.
pub record Whitelist : Type 0 where
  pub authority : AccountInfo
  pub pda : AccountInfo
  pub whitelist_entry : AccountInfo
  pub whitelist_candidate : AccountInfo
  pub system_program : AccountInfo

pub record Unwhitelist : Type 0 where
  pub authority : AccountInfo
  pub pda : AccountInfo
  pub whitelist_entry : AccountInfo
  pub whitelist_candidate : AccountInfo
