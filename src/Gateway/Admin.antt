-- ===== src/Gateway/Admin.antt =====
-- programs/gateway/src/instructions/admin.rs. A handler gets the account that its context loaded
-- and returns it as it leaves it.
use protocol_contracts_solan.Prelude.{
  ℕ, Bool, false, not, none, [], ◌∷◌, replicate, eqb, if◌then◌else◌,
}
use protocol_contracts_solan.Prelude.Words.{Bytes}
use protocol_contracts_solan.Solana.Result.{Result, ok, ◌>>=◌, ◌>>◌}
use protocol_contracts_solan.Solana.Account.{Pubkey}
use protocol_contracts_solan.Solana.Runtime.{Runtime}
use protocol_contracts_solan.Gateway.Errors.{Errors}
use protocol_contracts_solan.Gateway.State.{
  Pda, InstructionId, whitelist_spl_token, unwhitelist_spl_token,
}
use protocol_contracts_solan.Gateway.Utils.{
  Signed, verify_authority, verify_and_update_nonce, validate_message_hash,
  recover_and_verify_eth_address,
}
use protocol_contracts_solan.Gateway.Contexts.{
  Initialize, UpdateTss, UpdateAuthority, UpdatePaused, ResetNonce, Whitelist, Unwhitelist,
}

unfoldable pub initialize : Initialize → Bytes → ℕ → Pda
initialize ctx tss_address chain_id = record {
  nonce = 0;
  tss_address = tss_address;
  authority = ctx.signer.key;
  chain_id = chain_id;
  deposit_paused = false;
}

unfoldable pub update_tss : UpdateTss → Bytes → Pda → Result Errors Pda
unfolding verify_authority
update_tss ctx tss_address pda = do
  verify_authority ctx.signer.key pda
  ok (record pda { tss_address = tss_address; nonce = 0 })

unfoldable pub update_authority : UpdateAuthority → Pubkey → Pda → Result Errors Pda
unfolding verify_authority
update_authority ctx new_authority_address pda = do
  verify_authority ctx.signer.key pda
  ok (record pda { authority = new_authority_address })

unfoldable pub set_deposit_paused : UpdatePaused → Bool → Pda → Result Errors Pda
unfolding verify_authority
set_deposit_paused ctx deposit_paused pda = do
  verify_authority ctx.signer.key pda
  ok (record pda { deposit_paused = deposit_paused })

unfoldable pub reset_nonce : ResetNonce → ℕ → Pda → Result Errors Pda
unfolding verify_authority
reset_nonce ctx new_nonce pda = do
  verify_authority ctx.signer.key pda
  ok (record pda { nonce = new_nonce })

-- `[0u8; 64]`: with this signature the authority vouches in place of the TSS.
abbrev pub zero_signature : Bytes
zero_signature = replicate 64 0

module _ (rt : Runtime) where
  -- The branch that the two whitelist handlers share: nonce, hash over the mint, signature.
  unfoldable pub verify_tss_signed : InstructionId → Pubkey → Pda → Signed → Result Errors Pda
  verify_tss_signed id candidate pda m = do
    pda' ← verify_and_update_nonce pda m.nonce
    validate_message_hash rt id pda'.chain_id m.nonce none (candidate ∷ []) m.message_hash
    recover_and_verify_eth_address rt pda' m.message_hash m.recovery_id m.signature
    ok pda'

  unfoldable pub whitelist_spl_mint : Whitelist → Signed → Pda → Result Errors Pda
  whitelist_spl_mint ctx m pda =
      if not (eqb m.signature zero_signature)
      then verify_tss_signed whitelist_spl_token ctx.whitelist_candidate.key pda m
      else (do verify_authority ctx.authority.key pda; ok pda)

  unfoldable pub unwhitelist_spl_mint : Unwhitelist → Signed → Pda → Result Errors Pda
  unwhitelist_spl_mint ctx m pda =
      if not (eqb m.signature zero_signature)
      then verify_tss_signed unwhitelist_spl_token ctx.whitelist_candidate.key pda m
      else (do verify_authority ctx.authority.key pda; ok pda)
