-- ===== src/Gateway/Execute.antt =====
-- programs/gateway/src/instructions/execute.rs.
pub mod Sol
pub mod Spl
use protocol_contracts_solan.Prelude.{ℕ, List, [], ◌∷◌}
use protocol_contracts_solan.Prelude.Words.{Bytes}
use protocol_contracts_solan.Solana.Result.{Result, ok, err, ◌>>=◌, ◌>>◌, external_call}
use protocol_contracts_solan.Solana.Account.{Pubkey, AccountInfo, Instruction, World}
use protocol_contracts_solan.Solana.Runtime.{Runtime}
use protocol_contracts_solan.Gateway.Errors.{Errors}
use protocol_contracts_solan.Gateway.State.{
  Pda, InstructionId, execute_sol, execute_spl_token, increment_nonce, execute_sol_revert,
  execute_spl_token_revert, on_call, on_revert, pack,
}
use protocol_contracts_solan.Gateway.Utils.{
  Signed, validate_message, verify_ata_match, prepare_account_metas,
}
use protocol_contracts_solan.Gateway.Contexts.{Execute, ExecuteSplToken}
use protocol_contracts_solan.Gateway.Withdraw.{signer_seeds}

module _ (rt : Runtime) where
  -- The name carries `handle` since the instruction's number has the plain one.
  unfoldable pub handle_increment_nonce : ℕ → Signed → Pda → Result Errors Pda
  handle_increment_nonce amount m pda =
      validate_message rt pda increment_nonce m.nonce amount [] m.message_hash m.signature
        m.recovery_id

  unfoldable pub handle_sol_common :
      Execute
      → List AccountInfo
      → ℕ
      → Bytes
      → Signed
      → Bytes
      → InstructionId
      → Bytes
      → Pda
      → World
      → Result Errors (Pda × World)
  handle_sol_common ctx remaining_accounts amount input m sender id instruction_data pda w = do
    pda' ←
        validate_message rt pda id m.nonce amount
          (ctx.destination_program.key ∷ sender ∷ input ∷ []) m.message_hash m.signature
          m.recovery_id
    account_metas ← prepare_account_metas remaining_accounts ctx.signer.key ctx.pda.key
    let ix : Instruction = record {
      program_id = ctx.destination_program.key;
      accounts = account_metas;
      input = instruction_data;
    }
    w₁ ← external_call (rt.sub_lamports ctx.pda.key amount w)
    w₂ ← external_call (rt.add_lamports ctx.destination_program_pda.key amount w₁)
    w₃ ← external_call (rt.invoke ix remaining_accounts w₂)
    ok (pda', w₃)

  unfoldable pub handle_sol :
      Execute
      → List AccountInfo
      → ℕ
      → Bytes
      → Bytes
      → Signed
      → Pda
      → World
      → Result Errors (Pda × World)
  handle_sol ctx remaining amount sender input m =
      handle_sol_common ctx remaining amount input m sender execute_sol
        (pack (on_call amount sender input))

  unfoldable pub handle_sol_revert :
      Execute
      → List AccountInfo
      → ℕ
      → Pubkey
      → Bytes
      → Signed
      → Pda
      → World
      → Result Errors (Pda × World)
  handle_sol_revert ctx remaining amount sender input m =
      handle_sol_common ctx remaining amount input m sender execute_sol_revert
        (pack (on_revert amount sender input))

  unfoldable pub handle_spl_token_common :
      ExecuteSplToken
      → List AccountInfo
      → ℕ
      → ℕ
      → Bytes
      → Signed
      → Bytes
      → InstructionId
      → Bytes
      → Pda
      → World
      → Result Errors (Pda × World)
  handle_spl_token_common ctx remaining_accounts decimals amount input m sender id instruction_data
        pda w =
      do
        pda' ←
            validate_message rt pda id m.nonce amount
              (ctx.mint_account.key ∷ ctx.destination_program_pda_ata.key ∷ sender ∷ input ∷ [])
              m.message_hash m.signature m.recovery_id
        account_metas ← prepare_account_metas remaining_accounts ctx.signer.key ctx.pda.key
        let ix : Instruction = record {
          program_id = ctx.destination_program.key;
          accounts = account_metas;
          input = instruction_data;
        }
        verify_ata_match rt ctx.pda.key ctx.mint_account.key ctx.pda_ata.key
        verify_ata_match rt ctx.destination_program_pda.key ctx.mint_account.key
            ctx.destination_program_pda_ata.key
        w₁ ← external_call (
            rt.transfer_checked ctx.pda_ata.key ctx.mint_account.key
              ctx.destination_program_pda_ata.key ctx.pda.key (signer_seeds rt) amount decimals w)
        w₂ ← external_call (rt.invoke ix remaining_accounts w₁)
        ok (pda', w₂)

  unfoldable pub handle_spl_token :
      ExecuteSplToken
      → List AccountInfo
      → ℕ
      → ℕ
      → Bytes
      → Bytes
      → Signed
      → Pda
      → World
      → Result Errors (Pda × World)
  handle_spl_token ctx remaining decimals amount sender input m =
      handle_spl_token_common ctx remaining decimals amount input m sender execute_spl_token
        (pack (on_call amount sender input))

  unfoldable pub handle_spl_token_revert :
      ExecuteSplToken
      → List AccountInfo
      → ℕ
      → ℕ
      → Pubkey
      → Bytes
      → Signed
      → Pda
      → World
      → Result Errors (Pda × World)
  handle_spl_token_revert ctx remaining decimals amount sender input m =
      handle_spl_token_common ctx remaining decimals amount input m sender execute_spl_token_revert
        (pack (on_revert amount sender input))
