-- ===== src/Gateway/Tests/Payments.antt =====
-- Runs of the instructions of programs/gateway/src/lib.rs that pay out.
use protocol_contracts_solan.Prelude.{◌≡◌, refl, some, List, [], ◌∷◌, eqb, arith, replicate}
use protocol_contracts_solan.Prelude.Words.{Bytes, be_bytes}
use protocol_contracts_solan.Solana.Result.{ok}
use protocol_contracts_solan.Solana.Moves.{LamportsMoved}
use protocol_contracts_solan.Solana.Account.{World}
use protocol_contracts_solan.Gateway.State.{withdraw, execute_sol, on_call, pack}
use protocol_contracts_solan.Gateway.Utils.{
  Signed, concatenated_buffer, extend_all, push_amount, validate_message, validate_message_hash,
  verify_and_update_nonce, recover_and_verify_eth_address, eth_address, prepare_account_metas,
}
use protocol_contracts_solan.Gateway.Utils.Nonce.{advanced}
use protocol_contracts_solan.Gateway.Utils.Authorized.{Authorized}
use protocol_contracts_solan.Gateway.Contexts.{State}
use protocol_contracts_solan.Gateway.Accounts.{
  try_signer, try_pda, try_withdraw, try_execute, gateway_pda, connected_pda,
}
use protocol_contracts_solan.Gateway.Withdraw
use protocol_contracts_solan.Gateway.Execute
use protocol_contracts_solan.Gateway.Execute.{handle_sol_common}
use protocol_contracts_solan.Gateway.Execute.Sol.{SolExecuted}
use protocol_contracts_solan.Gateway.Program
use protocol_contracts_solan.Gateway.Requests.{Request, process}
use protocol_contracts_solan.Gateway.Requests.Payments.{
  withdraw_pays, withdraw_accepts, execute_pays,
}
use protocol_contracts_solan.Gateway.Tests.Runtime.{test_runtime, test_laws}
use protocol_contracts_solan.Gateway.Tests.Accounts.{
  pda, pda_key, recipient_key, program_key, connected_key, sender, world, state, signed, remaining,
  withdraw_context, execute_context, left_state,
}

abbrev order : Signed
order = signed withdraw (recipient_key ∷ [])

abbrev withdrawn : State
withdrawn = left_state (process test_runtime (Request.withdraw withdraw_context 100 order) state)

withdraw_runs :
    process test_runtime (Request.withdraw withdraw_context 100 order) state ≡ ok withdrawn
unfolding process Program.withdraw try_withdraw try_signer try_pda gateway_pda Withdraw.handle_sol
    validate_message validate_message_hash verify_and_update_nonce recover_and_verify_eth_address
    eth_address concatenated_buffer extend_all push_amount eqb be_bytes
withdraw_runs = refl

withdraw_pays_example :
    Authorized test_runtime pda withdraw (some 100) (recipient_key ∷ []) order
    × (withdrawn.pda ≡ some (advanced pda))
    × (withdrawn.entries ≡ state.entries)
    × LamportsMoved (gateway_pda test_runtime) recipient_key 100 world withdrawn.world
withdraw_pays_example =
    withdraw_pays test_runtime test_laws state withdrawn pda refl withdraw_context 100 order
      withdraw_runs

abbrev payload : Bytes
payload = 10 ∷ 20 ∷ []

abbrev pieces : List Bytes
pieces = program_key ∷ sender ∷ payload ∷ []

abbrev execution : Request
execution = Request.execute execute_context remaining 100 sender payload (signed execute_sol pieces)

abbrev executed : State
executed = left_state (process test_runtime execution state)

execute_runs : process test_runtime execution state ≡ ok executed
unfolding process Program.execute try_execute try_signer try_pda gateway_pda connected_pda
    Execute.handle_sol handle_sol_common prepare_account_metas validate_message
    validate_message_hash verify_and_update_nonce recover_and_verify_eth_address eth_address
    concatenated_buffer extend_all push_amount eqb be_bytes
execute_runs = refl

execute_pays_example :
    Authorized test_runtime pda execute_sol (some 100) pieces (signed execute_sol pieces)
    × (executed.pda ≡ some (advanced pda))
    × (pda_key ≡ gateway_pda test_runtime)
    × (connected_key ≡ connected_pda test_runtime program_key)
    × SolExecuted test_runtime execute_context remaining
        (pack (on_call 100 sender payload))
        100
        world
        executed.world
execute_pays_example =
    execute_pays test_runtime test_laws state executed pda refl execute_context remaining 100 sender
      payload (signed execute_sol pieces) execute_runs

order-Authorized : Authorized test_runtime pda withdraw (some 100) (recipient_key ∷ []) order
unfolding eth_address
order-Authorized = record {
  expected = refl;
  advances = omega arith;
  signed = record { hashed = refl; pubkey = replicate 32 5; recovered = refl; address = refl };
}

withdraw_accepts_example :
    (w' : World) × (process test_runtime (Request.withdraw withdraw_context 100 order) state
      ≡ ok (record state { pda = some (advanced pda); world = w' }))
    × LamportsMoved (gateway_pda test_runtime) recipient_key 100 world w'
unfolding eqb gateway_pda
withdraw_accepts_example =
    withdraw_accepts test_runtime test_laws state pda refl withdraw_context 100 order refl refl refl
      refl refl order-Authorized (omega arith) (omega arith)
