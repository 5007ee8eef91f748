-- ===== src/Gateway/Tests/Executions.antt =====
-- Runs of programs/gateway/src/instructions/execute.rs.
use protocol_contracts_solan.Prelude.{◌≡◌, refl, some, List, [], ◌∷◌, eqb}
use protocol_contracts_solan.Prelude.Words.{Bytes, be_bytes}
use protocol_contracts_solan.Solana.Result.{ok}
use protocol_contracts_solan.Solana.Account.{World}
use protocol_contracts_solan.Gateway.State.{
  execute_sol, execute_sol_revert, execute_spl_token, execute_spl_token_revert, on_call, on_revert,
  pack,
}
use protocol_contracts_solan.Gateway.Utils.{
  concatenated_buffer, extend_all, push_amount, validate_message, validate_message_hash,
  verify_and_update_nonce, recover_and_verify_eth_address, eth_address, verify_ata_match,
  prepare_account_metas,
}
use protocol_contracts_solan.Gateway.Utils.Nonce.{advanced}
use protocol_contracts_solan.Gateway.Utils.Authorized.{Authorized}
use protocol_contracts_solan.Gateway.Tests.Runtime.{test_runtime, test_laws}
use protocol_contracts_solan.Gateway.Execute.{
  handle_sol, handle_sol_revert, handle_sol_common, handle_spl_token, handle_spl_token_revert,
  handle_spl_token_common,
}
use protocol_contracts_solan.Gateway.Execute.Sol.{SolExecuted, handle_sol_revert_calls}
use protocol_contracts_solan.Gateway.Execute.Spl.{
  SplExecuted, signed_pieces, handle_spl_token_calls, handle_spl_token_revert_calls,
}
use protocol_contracts_solan.Gateway.Tests.Accounts.{
  pda, sender, program_key, world, signed, execute_context, execute_spl_context, remaining, left,
}

abbrev payload : Bytes
payload = 10 ∷ 20 ∷ []

abbrev pieces : List Bytes
pieces = program_key ∷ sender ∷ payload ∷ []

abbrev spl_pieces : List Bytes
spl_pieces = signed_pieces execute_spl_context sender payload

abbrev called : World
called = left (
    handle_sol test_runtime execute_context remaining 100 sender payload (signed execute_sol pieces)
      pda world)

called_runs :
    handle_sol test_runtime execute_context remaining 100 sender payload
      (signed execute_sol pieces)
      pda
      world
    ≡ ok (advanced pda, called)
unfolding handle_sol handle_sol_common prepare_account_metas validate_message validate_message_hash
    verify_and_update_nonce recover_and_verify_eth_address eth_address concatenated_buffer
    extend_all push_amount eqb be_bytes
called_runs = refl

abbrev reverted : World
reverted = left (
    handle_sol_revert test_runtime execute_context remaining 100 sender payload
      (signed execute_sol_revert pieces) pda world)

reverted_runs :
    handle_sol_revert test_runtime execute_context remaining 100 sender payload
      (signed execute_sol_revert pieces)
      pda
      world
    ≡ ok (advanced pda, reverted)
unfolding handle_sol_revert handle_sol_common prepare_account_metas validate_message
    validate_message_hash verify_and_update_nonce recover_and_verify_eth_address eth_address
    concatenated_buffer extend_all push_amount eqb be_bytes
reverted_runs = refl

handle_sol_revert_calls_example :
    Authorized test_runtime pda execute_sol_revert
      (some 100)
      pieces
      (signed execute_sol_revert pieces)
    × (advanced pda ≡ advanced pda)
    × SolExecuted test_runtime execute_context remaining
        (pack (on_revert 100 sender payload))
        100
        world
        reverted
handle_sol_revert_calls_example =
    handle_sol_revert_calls test_runtime test_laws execute_context remaining 100 payload
      (signed execute_sol_revert pieces) sender pda world reverted_runs

abbrev spl_called : World
spl_called = left (
    handle_spl_token test_runtime execute_spl_context remaining 6 100 sender payload
      (signed execute_spl_token spl_pieces) pda world)

spl_called_runs :
    handle_spl_token test_runtime execute_spl_context remaining 6 100 sender payload
      (signed execute_spl_token spl_pieces)
      pda
      world
    ≡ ok (advanced pda, spl_called)
unfolding handle_spl_token handle_spl_token_common verify_ata_match prepare_account_metas
    validate_message validate_message_hash verify_and_update_nonce recover_and_verify_eth_address
    eth_address concatenated_buffer extend_all push_amount eqb be_bytes
spl_called_runs = refl

handle_spl_token_calls_example :
    Authorized test_runtime pda execute_spl_token
      (some 100)
      spl_pieces
      (signed execute_spl_token spl_pieces)
    × (advanced pda ≡ advanced pda)
    × SplExecuted test_runtime execute_spl_context remaining
        (pack (on_call 100 sender payload))
        100
        world
        spl_called
handle_spl_token_calls_example =
    handle_spl_token_calls test_runtime test_laws execute_spl_context remaining 6 100 payload
      (signed execute_spl_token spl_pieces) sender pda world spl_called_runs

abbrev spl_reverted : World
spl_reverted = left (
    handle_spl_token_revert test_runtime execute_spl_context remaining 6 100 sender payload
      (signed execute_spl_token_revert spl_pieces) pda world)

spl_reverted_runs :
    handle_spl_token_revert test_runtime execute_spl_context remaining 6 100 sender payload
      (signed execute_spl_token_revert spl_pieces)
      pda
      world
    ≡ ok (advanced pda, spl_reverted)
unfolding handle_spl_token_revert handle_spl_token_common verify_ata_match prepare_account_metas
    validate_message validate_message_hash verify_and_update_nonce recover_and_verify_eth_address
    eth_address concatenated_buffer extend_all push_amount eqb be_bytes
spl_reverted_runs = refl

handle_spl_token_revert_calls_example :
    Authorized test_runtime pda execute_spl_token_revert
      (some 100)
      spl_pieces
      (signed execute_spl_token_revert spl_pieces)
    × (advanced pda ≡ advanced pda)
    × SplExecuted test_runtime execute_spl_context remaining
        (pack (on_revert 100 sender payload))
        100
        world
        spl_reverted
handle_spl_token_revert_calls_example =
    handle_spl_token_revert_calls test_runtime test_laws execute_spl_context remaining 6 100 payload
      (signed execute_spl_token_revert spl_pieces) sender pda world spl_reverted_runs
