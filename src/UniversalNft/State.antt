-- ===== src/UniversalNft/State.antt =====
-- programs/universal_nft/src/lib.rs: the accounts, the messages and the errors of the program.
use protocol_contracts_solan.Prelude.{
  ◌≡◌, refl, ◌⊎◌, inl, inr, ℕ, ◌+◌, Bool, false, Option, [], replicate,
}
use protocol_contracts_solan.Prelude.Words.{Bytes}
use protocol_contracts_solan.Solana.Account.{Pubkey, World}

pub record NftProgramState : Type 0 where
  pub authority : Pubkey
  pub gateway : Pubkey
  pub total_supply : ℕ
  pub nonce : ℕ
  pub bump : ℕ

-- A `String` is its bytes.
pub record NftInfo : Type 0 where
  pub mint : Pubkey
  pub owner : Pubkey
  pub metadata_uri : Bytes
  pub name : Bytes
  pub symbol : Bytes
  pub is_locked : Bool
  pub cross_chain_recipient : Bytes
  pub bump : ℕ

-- What `init` leaves in a new account.
abbrev pub zero_info : NftInfo
zero_info = record {
  mint = replicate 32 0;
  owner = replicate 32 0;
  metadata_uri = [];
  name = [];
  symbol = [];
  is_locked = false;
  cross_chain_recipient = replicate 32 0;
  bump = 0;
}

-- `INIT_SPACE` of the two accounts, as `#[derive(InitSpace)]` adds it up.
abbrev pub program_space : ℕ
program_space = 32 + 32 + 8 + 8 + 1

abbrev pub info_space : ℕ
info_space = 32 + 32 + (4 + 200) + (4 + 32) + (4 + 10) + 1 + 32 + 1

pub data MessageType : Type 0 where
  transfer unlock : MessageType

pub MessageType-cases : (t : MessageType) → (t ≡ transfer) ⊎ (t ≡ unlock)
MessageType-cases transfer = inl refl
MessageType-cases unlock = inr refl

pub record CrossChainMessage : Type 0 where
  pub message_type : MessageType
  pub mint : Pubkey
  pub recipient : Bytes
  pub metadata_uri : Bytes
  pub name : Bytes
  pub symbol : Bytes
  pub nonce : ℕ

pub data NftError : Type 0 where
  unauthorized invalid_message token_not_found token_locked token_not_locked : NftError
  invalid_nonce invalid_recipient invalid_metadata overflow : NftError

-- The metadata that the program asks for; `creators`, `collection` and `uses` are always `None`.
pub record DataV2 : Type 0 where
  pub name : Bytes
  pub symbol : Bytes
  pub uri : Bytes
  pub seller_fee_basis_points : ℕ

-- The chain as the program sees it: its state, the info accounts by address, and the ledger.
pub record Chain : Type 0 where
  pub program : Option NftProgramState
  pub infos : Pubkey → Option NftInfo
  pub world : World
