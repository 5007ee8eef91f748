-- ===== src/UniversalNft/Handlers.antt =====
-- programs/universal_nft/src/lib.rs: `initialize`, `mint_nft`, `transfer_to_zetachain`,
-- `handle_cross_chain_call` and `unlock_nft`. A handler gets the accounts that its context loaded
-- and returns them as it leaves them.
use protocol_contracts_solan.Prelude.{ℕ, true, false, not, List, [], ◌∷◌, length, eqb, ltb, leb}
use protocol_contracts_solan.Prelude.Words.{Bytes}
use protocol_contracts_solan.Solana.Result.{
  Result, ok, ◌>>=◌, ◌>>◌, require, external_call, or_custom, checked_add,
}
use protocol_contracts_solan.Solana.Account.{Pubkey, World}
use protocol_contracts_solan.UniversalNft.State.{
  NftProgramState, NftInfo, zero_info, transfer, unlock, CrossChainMessage, DataV2, NftError,
  unauthorized, invalid_message, token_locked, token_not_locked, invalid_nonce, invalid_metadata,
  overflow,
}
use protocol_contracts_solan.UniversalNft.Runtime.{NftRuntime}
use protocol_contracts_solan.UniversalNft.Contexts.{
  Initialize, MintNft, TransferToZetachain, UnlockNft,
}
use protocol_contracts_solan.UniversalNft.Accounts.{nft_program_seed, nft_program_pda, nft_info_pda}

-- `&[b"nft-program", &[nft_program.bump]]`.
abbrev pub signer_seeds : NftProgramState → List Bytes
signer_seeds program = nft_program_seed ∷ (program.bump ∷ []) ∷ []

abbrev pub metadata_of : Bytes → Bytes → Bytes → DataV2
metadata_of name symbol uri = record {
  name = name;
  symbol = symbol;
  uri = uri;
  seller_fee_basis_points = 0;
}

-- `require!(nonce > nft_program.nonce, ..); nft_program.nonce = nonce`.
abbrev pub take_nonce : NftProgramState → ℕ → Result NftError NftProgramState
take_nonce program nonce = do
  require (ltb program.nonce nonce) invalid_nonce
  ok (record program { nonce = nonce })

-- `total_supply.checked_add(1).ok_or(..)?`.
abbrev pub count_mint : NftProgramState → Result NftError NftProgramState
count_mint program = do
  total ← or_custom (checked_add program.total_supply 1) overflow
  ok (record program { total_supply = total })

module _ (nrt : NftRuntime) where
  unfoldable pub initialize : Initialize → Pubkey → NftProgramState
  unfolding nft_program_pda
  initialize ctx gateway = record {
    authority = ctx.authority.key;
    gateway = gateway;
    total_supply = 0;
    nonce = 0;
    bump = (nft_program_pda nrt).1;
  }

  unfoldable pub mint_nft :
      MintNft
      → Bytes
      → Bytes
      → Bytes
      → Pubkey
      → NftProgramState
      → World
      → Result NftError (NftProgramState × NftInfo × World)
  unfolding nft_info_pda
  mint_nft ctx name symbol uri recipient program w = do
    require (leb (length name) 32) invalid_metadata
    require (leb (length symbol) 10) invalid_metadata
    require (leb (length uri) 200) invalid_metadata
    w₁ ← external_call (
        nrt.mint_to ctx.mint.key ctx.token_account.key ctx.nft_program.key (signer_seeds program) 1
          w)
    w₂ ← external_call (
        nrt.create_metadata ctx.metadata.key ctx.mint.key ctx.nft_program.key ctx.payer.key
          (signer_seeds program) (metadata_of name symbol uri) w₁)
    program' ← count_mint program
    let i : NftInfo = record zero_info {
      mint = ctx.mint.key;
      owner = recipient;
      metadata_uri = uri;
      name = name;
      symbol = symbol;
      is_locked = false;
      bump = (nft_info_pda nrt ctx.mint.key).1;
    }
    ok (program', i, w₂)

  -- The message is serialized and logged; it is not sent.
  unfoldable pub transfer_to_zetachain :
      TransferToZetachain
      → ℕ
      → Bytes
      → ℕ
      → NftProgramState
      → NftInfo
      → World
      → Result NftError (NftProgramState × NftInfo × World)
  transfer_to_zetachain ctx destination_chain_id recipient nonce program i w = do
    require (eqb i.owner ctx.owner.key) unauthorized
    require (not i.is_locked) token_locked
    require (ltb program.nonce nonce) invalid_nonce
    w' ← external_call (
        nrt.base.token_transfer ctx.owner_token_account.key ctx.program_token_account.key
          ctx.owner.key 1 w)
    let locked : NftInfo = record i { is_locked = true; cross_chain_recipient = recipient }
    let message : CrossChainMessage = record {
      message_type = transfer;
      mint = i.mint;
      recipient = recipient;
      metadata_uri = i.metadata_uri;
      name = i.name;
      symbol = i.symbol;
      nonce = nonce;
    }
    message_bytes ← external_call (nrt.try_to_vec message)
    ok (record program { nonce = nonce }, locked, w')

  -- Neither kind of message does more than log; 32 bytes always are a public key.
  unfoldable pub handle_cross_chain_call :
      Bytes → ℕ → Bytes → ℕ → NftProgramState → Result NftError NftProgramState
  handle_cross_chain_call sender source_chain_id message nonce program = do
    program' ← take_nonce program nonce
    cross_chain_message ← or_custom (nrt.try_from_slice message) invalid_message
    elim cross_chain_message.message_type [ transfer ↦ ok program' | unlock ↦ ok program' ]

  unfoldable pub unlock_nft :
      UnlockNft
      → ℕ
      → NftProgramState
      → NftInfo
      → World
      → Result NftError (NftProgramState × NftInfo × World)
  unlock_nft ctx nonce program i w = do
    require i.is_locked token_not_locked
    require (ltb program.nonce nonce) invalid_nonce
    w' ← external_call (
        nrt.transfer_signed ctx.program_token_account.key ctx.owner_token_account.key
          ctx.nft_program.key (signer_seeds program) 1 w)
    ok (record program { nonce = nonce }, record i { is_locked = false }, w')
