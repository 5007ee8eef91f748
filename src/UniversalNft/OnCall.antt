-- ===== src/UniversalNft/OnCall.antt =====
-- programs/universal_nft/src/lib.rs: `on_call`, which the gateway calls with a message that mints
-- an NFT or returns a locked one.
use protocol_contracts_solan.Prelude.{
  ℕ, false, Option, some, [], ◌∷◌, replicate, eqb, ◌==◌, if◌then◌else◌,
}
use protocol_contracts_solan.Prelude.Words.{Bytes}
use protocol_contracts_solan.Solana.Result.{
  Result, ok, err, external, ◌>>=◌, ◌>>◌, require, external_call, or_custom,
}
use protocol_contracts_solan.Solana.Account.{Pubkey, AccountInfo, World}
use protocol_contracts_solan.UniversalNft.State.{
  NftProgramState, NftInfo, transfer, unlock, CrossChainMessage, NftError, unauthorized,
  invalid_message, token_not_locked,
}
use protocol_contracts_solan.UniversalNft.Runtime.{NftRuntime}
use protocol_contracts_solan.UniversalNft.Contexts.{OnCall}
use protocol_contracts_solan.UniversalNft.Accounts.{
  nft_mint_seed, nft_mint_pda, nft_info_pda, mint_key,
}
use protocol_contracts_solan.UniversalNft.Handlers.{
  signer_seeds, metadata_of, take_nonce, count_mint,
}

module _ (nrt : NftRuntime) where
  -- `if account.data_is_empty() { associated_token::create(..)? }`. The program that is called
  -- refuses an account at another address.
  unfoldable pub create_if_empty :
      AccountInfo → Pubkey → Pubkey → Pubkey → World → Result NftError World
  create_if_empty info payer wallet mint w =
      let ata = nrt.base.get_associated_token_address wallet mint in
      let create = external_call (nrt.base.create_associated_token_account payer wallet mint w) in
      if nrt.data_is_empty info.key w
      then (if eqb info.key ata then create else err external)
      else ok w

  -- The mint, where its supply is 0.
  unfoldable pub initialize_mint_if_new :
      OnCall → CrossChainMessage → Bytes → ℕ → World → Result NftError World
  initialize_mint_if_new ctx m bump supply w =
      let seeds = nft_mint_seed ∷ m.mint ∷ bump ∷ [] in
      let program = ctx.nft_program.key in
      if supply == 0
      then external_call (nrt.initialize_mint ctx.mint.key seeds 0 program (some program) w)
      else ok w

  unfoldable pub create_metadata_if_empty :
      OnCall → CrossChainMessage → NftProgramState → World → Result NftError World
  create_metadata_if_empty ctx m program w =
      if nrt.data_is_empty ctx.metadata.key w
      then external_call (
          nrt.create_metadata ctx.metadata.key ctx.mint.key ctx.nft_program.key ctx.payer.key
            (signer_seeds program) (metadata_of m.name m.symbol m.metadata_uri) w)
      else ok w

  -- The branch `MessageType::Transfer`; `mint_bump` is `ctx.bumps.mint`.
  unfoldable pub on_transfer :
      OnCall
      → CrossChainMessage
      → Bytes
      → ℕ
      → NftProgramState
      → NftInfo
      → World
      → Result NftError (NftProgramState × NftInfo × World)
  unfolding nft_info_pda
  on_transfer ctx m mint_bump supply program i w = do
    w₁ ← initialize_mint_if_new ctx m mint_bump supply w
    w₂ ← create_if_empty ctx.recipient_token_account ctx.payer.key m.recipient ctx.mint.key w₁
    w₃ ← external_call (
        nrt.mint_to ctx.mint.key ctx.recipient_token_account.key ctx.nft_program.key
          (signer_seeds program) 1 w₂)
    w₄ ← create_metadata_if_empty ctx m program w₃
    let i' : NftInfo = record {
      mint = ctx.mint.key;
      owner = m.recipient;
      metadata_uri = m.metadata_uri;
      name = m.name;
      symbol = m.symbol;
      is_locked = false;
      cross_chain_recipient = replicate 32 0;
      bump = (nft_info_pda nrt ctx.mint.key).1;
    }
    program' ← count_mint program
    ok (program', i', w₄)

  -- The branch `MessageType::Unlock`.
  unfoldable pub on_unlock :
      OnCall
      → NftProgramState
      → NftInfo
      → World
      → Result NftError (NftProgramState × NftInfo × World)
  on_unlock ctx program i w = do
    require i.is_locked token_not_locked
    w₁ ← create_if_empty ctx.program_token_account ctx.payer.key ctx.nft_program.key ctx.mint.key w
    w₂ ← create_if_empty ctx.owner_token_account ctx.payer.key i.owner ctx.mint.key w₁
    w₃ ← external_call (
        nrt.transfer_signed ctx.program_token_account.key ctx.owner_token_account.key
          ctx.nft_program.key (signer_seeds program) 1 w₂)
    ok (program, record i { is_locked = false; cross_chain_recipient = replicate 32 0 }, w₃)

  -- `caller` is the program of the top-level instruction, which is read from the sysvar account.
  unfoldable pub on_call :
      OnCall
      → Option Pubkey
      → ℕ
      → Bytes
      → Bytes
      → NftProgramState
      → NftInfo
      → ℕ
      → World
      → Result NftError (NftProgramState × NftInfo × World)
  unfolding nft_mint_pda
  on_call ctx caller amount sender input program i supply w = do
    program_id ← or_custom caller unauthorized
    require (eqb program_id nrt.base.gateway_id) unauthorized
    m ← or_custom (nrt.try_from_slice input) invalid_message
    program' ← take_nonce program m.nonce
    let mint_bump = (nft_mint_pda nrt (mint_key amount sender input)).1
    elim m.message_type [
      | transfer ↦ on_transfer ctx m (mint_bump ∷ []) supply program' i w
      | unlock ↦ on_unlock ctx program' i w
    ]
