-- ===== src/ConnectedSpl/Tests.antt =====
-- Runs of programs/examples/connectedSPL/src/lib.rs.
use protocol_contracts_solan.Prelude.{◌≡◌, refl, some, [], ◌∷◌, ◌++◌, eqb}
use protocol_contracts_solan.Prelude.Words.{Bytes}
use protocol_contracts_solan.Solana.Result.{Result, ok, err}
use protocol_contracts_solan.Solana.Account.{Pubkey}
use protocol_contracts_solan.Connected.Text.{lead, is_utf8, is_utf8_from, contains, starts_with}
use protocol_contracts_solan.ConnectedSpl.{
  Pda, ErrorCode, OnCall, Chain, blank_pda, connected_seed, pda_address, try_pda,
  try_token_accounts, try_on_call,
}
use protocol_contracts_solan.ConnectedSpl.Handlers
use protocol_contracts_solan.ConnectedSpl.Program.{Instruction, process}
use protocol_contracts_solan.ConnectedSpl.Calls.{Passed, on_call_moves}
use protocol_contracts_solan.Gateway.Tests.Runtime.{test_runtime, test_laws}
use protocol_contracts_solan.Gateway.Tests.Accounts.{account, sender}

abbrev own_id : Pubkey
own_id = 4 ∷ []

abbrev own_ata : Pubkey
own_ata = 21 ∷ []

abbrev wallet_ata : Pubkey
wallet_ata = 22 ∷ []

abbrev coin : Pubkey
coin = 23 ∷ []

abbrev context : OnCall
context = record {
  pda = account ((connected_seed ++ []) ++ own_id);
  pda_ata = account own_ata;
  mint_account = account coin;
  gateway_pda = account (b'g' ∷ []);
  random_wallet = account (24 ∷ []);
  random_wallet_ata = account wallet_ata;
  token_program = account (b't' ∷ []);
  system_program = account (b's' ∷ []);
}

abbrev before : Chain
before = record {
  pda = some blank_pda;
  world = record {
    lamports = λ k. 1_000_000;
    account_owner = λ k. b't' ∷ [];
    token = λ k. some (record { mint = coin; owner = own_id; amount = 500 });
    mint = λ k. some 1000;
  };
}

abbrev left_chain : Result ErrorCode Chain → Chain
left_chain (ok c) = c
left_chain (err e) = before

-- `h`, and `é` in two bytes.
abbrev greeting : Bytes
greeting = b'h' ∷ 195 ∷ 169 ∷ []

abbrev greets : Instruction
greets = Instruction.on_call context 101 sender greeting

abbrev greeted : Chain
greeted = left_chain (process test_runtime own_id 136 greets before)

greets_succeeds : process test_runtime own_id 136 greets before ≡ ok greeted
unfolding process try_on_call try_pda try_token_accounts pda_address Handlers.on_call is_utf8
    is_utf8_from lead contains starts_with eqb
greets_succeeds = refl

on_call_moves_example :
    (p : Pda) × Passed test_runtime own_id 136 context 101 sender greeting before greeted p
on_call_moves_example =
    on_call_moves test_runtime own_id 136 test_laws context 101 sender greeting before greeted
      greets_succeeds
