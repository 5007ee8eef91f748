-- ===== src/UniversalNft/Runtime.antt =====
-- The code that programs/universal_nft calls and that is not its own, on top of what the gateway
-- calls: the Borsh codec of its messages, mints, and the metadata program.
use protocol_contracts_solan.Prelude.{ℕ, ◌+◌, ◌≡◌, ◌≢◌, Bool, Option, none, some, List}
use protocol_contracts_solan.Prelude.Words.{Bytes}
use protocol_contracts_solan.Solana.Account.{Pubkey, World, balance}
use protocol_contracts_solan.Solana.Runtime.{Runtime}
use protocol_contracts_solan.Solana.Laws.{RuntimeLaws, TokensMoved}
use protocol_contracts_solan.UniversalNft.State.{CrossChainMessage, DataV2}

pub record NftRuntime : Type 0 where
  pub base : Runtime
  -- the ids of this program and of the metadata program, and the address of the sysvars
  pub nft_id : Pubkey
  pub token_metadata_program_id : Pubkey
  pub rent_id : Pubkey
  pub instructions_id : Pubkey
  -- the derived `AnchorDeserialize` and `AnchorSerialize`
  pub try_from_slice : Bytes → Option CrossChainMessage
  pub try_to_vec : CrossChainMessage → Option Bytes
  -- `init` of a mint: payer, mint, decimals, authority
  pub create_mint : Pubkey → Pubkey → ℕ → Pubkey → World → Option World
  -- `init_if_needed` of a mint with a `space` alone: payer, mint, space
  pub allocate_mint : Pubkey → Pubkey → ℕ → World → Option World
  -- mint, signer seeds, decimals, mint authority, freeze authority
  pub initialize_mint : Pubkey → List Bytes → ℕ → Pubkey → Option Pubkey → World → Option World
  -- mint, to, authority, signer seeds, amount
  pub mint_to : Pubkey → Pubkey → Pubkey → List Bytes → ℕ → World → Option World
  -- from, to, authority, signer seeds, amount
  pub transfer_signed : Pubkey → Pubkey → Pubkey → List Bytes → ℕ → World → Option World
  -- metadata, mint, mint and update authority, payer, signer seeds
  pub create_metadata :
      Pubkey → Pubkey → Pubkey → Pubkey → List Bytes → DataV2 → World → Option World
  -- `AccountInfo::data_is_empty`
  pub data_is_empty : Pubkey → World → Bool

-- `amount` tokens have come into being in one account.
pub record TokensMinted (mint to : Pubkey) (amount : ℕ) (w w' : World) : Type 0 where
  pub supply : (n : ℕ) → w.mint mint ≡ some n → w'.mint mint ≡ some (n + amount)
  pub given : balance w' to ≡ balance w to + amount
  pub tokens : (k : Pubkey) → k ≢ to → w'.token k ≡ w.token k

pub record NftLaws (nrt : NftRuntime) : Type 0 where
  pub base : RuntimeLaws nrt.base
  pub mint_to_mints :
      (mint to authority : Pubkey) (seeds : List Bytes) (n : ℕ) (w w' : World)
      → nrt.mint_to mint to authority seeds n w ≡ some w'
      → TokensMinted mint to n w w'
  pub transfer_signed_moves :
      (from to authority : Pubkey) (seeds : List Bytes) (n : ℕ) (w w' : World)
      → nrt.transfer_signed from to authority seeds n w ≡ some w'
      → TokensMoved from to n w w'
  -- Accounts that are no token accounts come and go without touching one.
  pub create_account_tokens :
      (payer account : Pubkey) (space : ℕ) (w w' : World)
      → nrt.base.create_account payer account space w ≡ some w'
      → w'.token ≡ w.token
  pub create_mint_tokens :
      (payer mint : Pubkey) (decimals : ℕ) (authority : Pubkey) (w w' : World)
      → nrt.create_mint payer mint decimals authority w ≡ some w'
      → w'.token ≡ w.token
  pub allocate_mint_tokens :
      (payer mint : Pubkey) (space : ℕ) (w w' : World)
      → nrt.allocate_mint payer mint space w ≡ some w'
      → w'.token ≡ w.token
  pub initialize_mint_tokens :
      (mint : Pubkey) (seeds : List Bytes) (decimals : ℕ) (authority : Pubkey)
      (freeze : Option Pubkey) (w w' : World)
      → nrt.initialize_mint mint seeds decimals authority freeze w ≡ some w'
      → w'.token ≡ w.token
  pub create_metadata_tokens :
      (metadata mint authority payer : Pubkey) (seeds : List Bytes) (d : DataV2) (w w' : World)
      → nrt.create_metadata metadata mint authority payer seeds d w ≡ some w'
      → w'.token ≡ w.token
  -- An associated account is created only where there is none, and has one owner and one mint.
  pub ata_new :
      (payer wallet mint : Pubkey) (w w' : World)
      → nrt.base.create_associated_token_account payer wallet mint w ≡ some w'
      → w.token (nrt.base.get_associated_token_address wallet mint) ≡ none
  pub ata-injective :
      (wallet wallet' mint mint' : Pubkey)
      → nrt.base.get_associated_token_address wallet mint
        ≡ nrt.base.get_associated_token_address wallet' mint'
      → (wallet ≡ wallet') × (mint ≡ mint')
