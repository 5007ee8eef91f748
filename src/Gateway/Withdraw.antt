-- ===== src/Gateway/Withdraw.antt =====
-- programs/gateway/src/instructions/withdraw.rs.
pub mod Sol
pub mod Spl
use protocol_contracts_solan.Prelude.{ℕ, Bool, ◌||◌, List, [], ◌∷◌, eqb, ◌==◌, if◌then◌else◌}
use protocol_contracts_solan.Prelude.Words.{Bytes}
use protocol_contracts_solan.Solana.Result.{
  Result, ok, err, ◌>>=◌, ◌>>◌, external_call, add_u64, sub_u64,
}
use protocol_contracts_solan.Solana.Account.{Pubkey, AccountInfo, World}
use protocol_contracts_solan.Solana.Runtime.{Runtime}
use protocol_contracts_solan.Gateway.Errors.{Errors}
use protocol_contracts_solan.Gateway.State.{Pda, withdraw, withdraw_spl_token}
use protocol_contracts_solan.Gateway.Utils.{
  Signed, validate_message, verify_ata_match, default_gas_cost,
}
use protocol_contracts_solan.Gateway.Contexts.{Withdraw, WithdrawSplToken}
use protocol_contracts_solan.Gateway.Accounts.{meta_seed}

module _ (rt : Runtime) where
  unfoldable pub handle_sol : Withdraw → ℕ → Signed → Pda → World → Result Errors (Pda × World)
  handle_sol ctx amount m pda w = do
    pda' ←
        validate_message rt pda withdraw m.nonce amount (ctx.recipient.key ∷ []) m.message_hash
          m.signature m.recovery_id
    w₁ ← external_call (rt.sub_lamports ctx.pda.key amount w)
    w₂ ← external_call (rt.add_lamports ctx.recipient.key amount w₁)
    ok (pda', w₂)

  -- `&[b"meta", &[ctx.bumps.pda]]`.
  unfoldable pub signer_seeds : List Bytes
  signer_seeds =
      let bump = (rt.find_program_address (meta_seed ∷ []) rt.gateway_id).1 in
      meta_seed ∷ (bump ∷ []) ∷ []

  -- Step 3 of `handle_spl`: creates the recipient's token account if it is missing, and returns
  -- what the signer paid for it.
  unfoldable pub create_recipient_ata : WithdrawSplToken → World → Result Errors (ℕ × World)
  create_recipient_ata ctx w =
      let create = do
        w₁ ← external_call (
            rt.create_associated_token_account ctx.signer.key ctx.recipient.key ctx.mint_account.key
              w)
        cost ← sub_u64 (w.lamports ctx.signer.key) (w₁.lamports ctx.signer.key)
        ok (cost, w₁)
      in if w.lamports ctx.recipient_ata.key == 0
          || eqb (w.account_owner ctx.recipient_ata.key) ctx.system_program.key
        then create
        else ok (0, w)

  unfoldable pub handle_spl :
      WithdrawSplToken → ℕ → ℕ → Signed → Pda → World → Result Errors (Pda × World)
  unfolding create_recipient_ata signer_seeds
  handle_spl ctx decimals amount m pda w = do
    pda' ←
        validate_message rt pda withdraw_spl_token m.nonce amount
          (ctx.mint_account.key ∷ ctx.recipient_ata.key ∷ []) m.message_hash m.signature
          m.recovery_id
    verify_ata_match rt ctx.pda.key ctx.mint_account.key ctx.pda_ata.key
    verify_ata_match rt ctx.recipient.key ctx.mint_account.key ctx.recipient_ata.key
    (cost_ata_create, w₁) ← create_recipient_ata ctx w
    w₂ ← external_call (
        rt.transfer_checked ctx.pda_ata.key ctx.mint_account.key ctx.recipient_ata.key ctx.pda.key
          signer_seeds amount decimals w₁)
    reimbursement ← add_u64 default_gas_cost cost_ata_create
    w₃ ← external_call (rt.sub_lamports ctx.pda.key reimbursement w₂)
    w₄ ← external_call (rt.add_lamports ctx.signer.key reimbursement w₃)
    ok (pda', w₄)
