-- ===== src/Gateway/Tests/Runs.antt =====
-- Runs of programs/gateway/src/lib.rs, instruction by instruction.
use protocol_contracts_solan.Prelude.{
  ◌≡◌, ◌≢◌, refl, true, false, none, some, [], ◌∷◌, ◌++◌, eqb, replicate,
}
use protocol_contracts_solan.Prelude.Words.{be_bytes}
use protocol_contracts_solan.Solana.Result.{ok, err, custom}
use protocol_contracts_solan.Gateway.Errors.{signer_is_not_authority}
use protocol_contracts_solan.Gateway.State.{Pda, withdraw}
use protocol_contracts_solan.Gateway.Utils.{
  concatenated_buffer, extend_all, push_amount, validate_message, validate_message_hash,
  verify_and_update_nonce, recover_and_verify_eth_address, eth_address, verify_payload_size,
  verify_authority,
}
use protocol_contracts_solan.Gateway.Contexts.{State, Initialize}
use protocol_contracts_solan.Gateway.Accounts.{
  try_signer, try_pda, try_signer_and_pda, try_program, try_withdraw, try_deposit_spl_token,
  try_initialize, gateway_pda, whitelist_entry_of,
}
use protocol_contracts_solan.Gateway.Admin
use protocol_contracts_solan.Gateway.Admin.{verify_tss_signed}
use protocol_contracts_solan.Gateway.Deposit
use protocol_contracts_solan.Gateway.Withdraw
use protocol_contracts_solan.Gateway.Program
use protocol_contracts_solan.Gateway.Deposit.{mint_of}
use protocol_contracts_solan.Gateway.Requests.{Request, process, run, settle}
use protocol_contracts_solan.Gateway.Requests.Changes.{Changes, Becomes}
use protocol_contracts_solan.Gateway.Requests.Effects.{process-Changes}
use protocol_contracts_solan.Gateway.Requests.Replay.{accepted_once}
use protocol_contracts_solan.Gateway.Requests.Config.{SameConfig, run-SameConfig}
use protocol_contracts_solan.Gateway.Requests.Admission.{
  deposit_paused_refuses, deposit_spl_token_whitelisted, initialize_once,
}
use protocol_contracts_solan.Gateway.Tests.Runtime.{test_runtime}
use protocol_contracts_solan.Gateway.Tests.Accounts.{
  pda, pda_key, signer_key, recipient_key, mint_key, account, sender, world, state, admin_context,
  signed, options, user_context, withdraw_context, deposit_context, deposit_spl_context, left_state,
}

abbrev withdrawal : Request
withdrawal = Request.withdraw withdraw_context 100 (signed withdraw (recipient_key ∷ []))

abbrev deposit : Request
deposit = Request.deposit deposit_context 100 sender (some options)

abbrev unpause : Request
unpause = Request.set_deposit_paused user_context true

abbrev after_withdrawal : State
after_withdrawal = left_state (process test_runtime withdrawal state)

withdrawal_processed : process test_runtime withdrawal state ≡ ok after_withdrawal
unfolding process Program.withdraw try_withdraw try_signer try_pda gateway_pda Withdraw.handle_sol
    validate_message validate_message_hash verify_and_update_nonce recover_and_verify_eth_address
    eth_address concatenated_buffer extend_all push_amount eqb be_bytes
withdrawal_processed = refl

-- The recipient is not the authority, and asks for a reset that fails.
abbrev foreign_reset : Request
foreign_reset = Request.reset_nonce user_context 7

foreign_reset_fails :
    process test_runtime foreign_reset after_withdrawal ≡ err (custom signer_is_not_authority)
unfolding process Program.withdraw Program.reset_nonce try_withdraw try_signer_and_pda try_signer
    try_pda gateway_pda Withdraw.handle_sol validate_message validate_message_hash
    verify_and_update_nonce recover_and_verify_eth_address eth_address concatenated_buffer
    extend_all push_amount eqb be_bytes Admin.reset_nonce verify_authority
foreign_reset_fails = refl

accepted_once_example :
    process test_runtime withdrawal
      (run test_runtime (foreign_reset ∷ deposit ∷ []) after_withdrawal)
    ≢ ok state
accepted_once_example =
    accepted_once test_runtime withdrawal withdrawal (foreign_reset ∷ deposit ∷ []) 7 state
      after_withdrawal state pda refl refl refl withdrawal_processed
      (λ p s' e h signed. let fails = foreign_reset_fails in cc, (λ p s' e h signed. signed, tt))

process-Changes_example : Becomes (Changes withdrawal) pda after_withdrawal
process-Changes_example =
    process-Changes test_runtime pda state after_withdrawal refl withdrawal withdrawal_processed

-- The authority resets the nonce, which is none of the four fields.
abbrev reset : Request
reset = Request.reset_nonce admin_context 9

unpause_fails :
    process test_runtime unpause (settle test_runtime (process test_runtime withdrawal state) state)
    ≡ err (custom signer_is_not_authority)
unfolding process Program.withdraw Program.set_deposit_paused try_withdraw try_signer_and_pda
    try_signer try_pda gateway_pda Withdraw.handle_sol validate_message validate_message_hash
    verify_and_update_nonce recover_and_verify_eth_address eth_address concatenated_buffer
    extend_all push_amount eqb be_bytes Admin.set_deposit_paused verify_authority
unpause_fails = refl

run-SameConfig_example :
    (p' : Pda) × ((run test_runtime (withdrawal ∷ unpause ∷ reset ∷ []) state).pda ≡ some p')
    × SameConfig pda p'
run-SameConfig_example =
    run-SameConfig test_runtime (withdrawal ∷ unpause ∷ reset ∷ []) state pda refl (
      λ p s' e h signed. signed,
      (λ p s' e h signed. let fails = unpause_fails in cc, (λ p s' e h signed. signed, tt)),
    )

abbrev paused : State
paused = record state { pda = some (record pda { deposit_paused = true }) }

deposit_paused_refuses_example : process test_runtime deposit paused ≢ ok paused
deposit_paused_refuses_example =
    deposit_paused_refuses test_runtime paused paused (record pda { deposit_paused = true }) refl
      deposit refl refl

abbrev spl_deposit : Request
spl_deposit =
    Request.deposit_spl_token_and_call deposit_spl_context 100 sender (1 ∷ 2 ∷ []) (some options)

abbrev after_spl_deposit : State
after_spl_deposit = left_state (process test_runtime spl_deposit state)

spl_deposit_processed : process test_runtime spl_deposit state ≡ ok after_spl_deposit
unfolding process Program.deposit_spl_token_and_call try_deposit_spl_token try_signer try_pda
    try_program gateway_pda whitelist_entry_of Deposit.handle_spl_with_call Deposit.handle_spl
    mint_of verify_payload_size eqb
spl_deposit_processed = refl

deposit_spl_token_whitelisted_example :
    (state.entries (whitelist_entry_of test_runtime mint_key) ≡ true)
    × (mint_of world (signer_key ++ mint_key) ≡ mint_key)
deposit_spl_token_whitelisted_example =
    deposit_spl_token_whitelisted test_runtime state after_spl_deposit spl_deposit
      deposit_spl_context refl spl_deposit_processed

abbrev empty_state : State
empty_state = record state { pda = none }

abbrev initialize_context : Initialize
initialize_context = record {
  signer = account signer_key;
  pda = account pda_key;
  system_program = account (b's' ∷ []);
}

abbrev initialization : Request
initialization = Request.initialize initialize_context (replicate 20 5) 900

abbrev initialized : State
initialized = left_state (process test_runtime initialization empty_state)

initialization_processed : process test_runtime initialization empty_state ≡ ok initialized
unfolding process Program.initialize try_initialize try_signer try_program gateway_pda
    Admin.initialize eqb
initialization_processed = refl

initialize_once_example :
    (empty_state.pda ≡ none)
    × (true ≡ true)
    × (initialized.pda
        ≡ some (record {
          nonce = 0;
          tss_address = replicate 20 5;
          authority = signer_key;
          chain_id = 900;
          deposit_paused = false;
        }))
    × (initialized.entries ≡ empty_state.entries)
initialize_once_example =
    initialize_once test_runtime empty_state initialized initialize_context (replicate 20 5) 900
      initialization_processed
