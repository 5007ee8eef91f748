-- ===== src/Connected/Tests.antt =====
-- Runs of programs/examples/connected/src/lib.rs.
use protocol_contracts_solan.Prelude.{some, none, ◌≡◌, refl, false, [], ◌∷◌, eqb}
use protocol_contracts_solan.Prelude.Words.{Bytes}
use protocol_contracts_solan.Solana.Result.{Result, ok, err, custom, external}
use protocol_contracts_solan.Connected.{
  ErrorCode, Pda, OnCall, on_call, on_revert, invalid_data_format,
}
use protocol_contracts_solan.Connected.Text.{lead, is_utf8, is_utf8_from, contains, starts_with}
use protocol_contracts_solan.Gateway.State.{Pda as GatewayPda}
use protocol_contracts_solan.Gateway.Accounts.{try_signer, try_pda, try_deposit, gateway_pda}
use protocol_contracts_solan.Gateway.Utils.{verify_payload_size}
use protocol_contracts_solan.Gateway.Deposit
use protocol_contracts_solan.Gateway.Program
use protocol_contracts_solan.Connected.Accounts.{
  own_address, try_own, try_on_call, try_on_revert, OnRevert, TriggerDeposit, Deployment,
  try_trigger_deposit,
}
use protocol_contracts_solan.Connected.Program.{
  Chain, OtherDeposit, Instruction, process, call_deposit,
}
use protocol_contracts_solan.Connected.Answers.{Answered, on_call_answers}
use protocol_contracts_solan.Connected.Reverts.{Takes, reverted, on_revert_stores}
use protocol_contracts_solan.Connected.Deposits.{Deposited, trigger_deposits}
use protocol_contracts_solan.Gateway.Tests.Runtime.{test_runtime, test_laws}
use protocol_contracts_solan.Gateway.Tests.Accounts.{
  account, signer_key, program_key, state, connected_key, pda_key, recipient_key, sender,
}

abbrev context : OnCall
context = record {
  pda = account connected_key;
  gateway_pda = account pda_key;
  random_wallet = account recipient_key;
  system_program = account (b's' ∷ []);
  instruction_sysvar_account = account (b'i' ∷ []);
}

abbrev blank : Pda
blank = record {
  last_sender = [];
  last_message = [];
  last_revert_sender = [];
  last_revert_message = [];
}

-- `h`, and `é` in two bytes.
abbrev greeting : Bytes
greeting = b'h' ∷ 195 ∷ 169 ∷ []

-- A lone continuation byte, an overlong form and a surrogate are refused.
malformed : on_revert 5 recipient_key (128 ∷ []) blank ≡ err (custom invalid_data_format)
unfolding on_revert is_utf8 is_utf8_from lead
malformed = refl

overlong : is_utf8 (192 ∷ 128 ∷ []) ≡ false
unfolding is_utf8 is_utf8_from lead
overlong = refl

surrogate : is_utf8 (237 ∷ 160 ∷ 128 ∷ []) ≡ false
unfolding is_utf8 is_utf8_from lead
surrogate = refl

abbrev trigger : TriggerDeposit
trigger = record {
  signer = account signer_key;
  gateway_pda = account pda_key;
  gateway_program = account (b'g' ∷ []);
  system_program = account (b's' ∷ []);
}

abbrev deployment : Deployment
deployment = record { program_id = program_key; instructions_id = b'i' ∷ []; pda_space = 136 }

-- No other program takes a deposit.
abbrev refuse : OtherDeposit
refuse program accounts amount receiver options s = err external

abbrev before_deposit : Chain
before_deposit = record { stored = some blank; gateway = state }

abbrev depositing : Instruction
depositing = Instruction.trigger_deposit trigger 100 sender none

abbrev left_by : Result ErrorCode Chain → Chain
left_by (ok c) = c
left_by (err e) = before_deposit

abbrev after_deposit : Chain
after_deposit = left_by (process test_runtime refuse deployment depositing before_deposit)

deposit_succeeds :
    process test_runtime refuse deployment depositing before_deposit ≡ ok after_deposit
unfolding process try_trigger_deposit call_deposit Program.deposit try_deposit try_signer try_pda
    gateway_pda Deposit.handle_sol verify_payload_size eqb
deposit_succeeds = refl

trigger_deposits_example :
    (p : GatewayPda) × Deposited test_runtime trigger 100 sender none before_deposit after_deposit p
trigger_deposits_example =
    trigger_deposits test_runtime test_laws refuse deployment trigger 100 sender none before_deposit
      after_deposit refl deposit_succeeds

abbrev calling : Instruction
calling = Instruction.on_call context (b'g' ∷ []) 101 sender greeting

abbrev answered : Chain
answered = left_by (process test_runtime refuse deployment calling before_deposit)

call_succeeds : process test_runtime refuse deployment calling before_deposit ≡ ok answered
unfolding process try_on_call try_own own_address on_call is_utf8 is_utf8_from lead contains
    starts_with eqb
call_succeeds = refl

on_call_answers_example :
    (p : Pda) × Answered test_runtime deployment context
      (b'g' ∷ [])
      101
      sender
      greeting
      before_deposit
      answered
      p
on_call_answers_example =
    on_call_answers test_runtime test_laws refuse deployment context (b'g' ∷ []) 101 sender greeting
      before_deposit answered call_succeeds

abbrev revert_context : OnRevert
revert_context = record {
  pda = account connected_key;
  gateway_pda = account pda_key;
  system_program = account (b's' ∷ []);
}

abbrev reverting : Instruction
reverting = Instruction.on_revert revert_context 101 recipient_key greeting

abbrev left_by_revert : Chain
left_by_revert = left_by (process test_runtime refuse deployment reverting before_deposit)

revert_succeeds :
    process test_runtime refuse deployment reverting before_deposit ≡ ok left_by_revert
unfolding process try_on_revert try_own own_address on_revert is_utf8 is_utf8_from lead contains
    starts_with eqb
revert_succeeds = refl

on_revert_stores_example :
    (p : Pda) × Takes test_runtime deployment revert_context recipient_key greeting before_deposit p
    × (left_by_revert ≡ record before_deposit { stored = some (reverted recipient_key greeting p) })
on_revert_stores_example =
    (on_revert_stores test_runtime refuse deployment revert_context 101 recipient_key greeting
        before_deposit left_by_revert).0
      revert_succeeds
