-- ===== src/Gateway/Tests/Accounts.antt =====
-- Accounts, messages and a chain to run the gateway on.
use protocol_contracts_solan.Prelude.{
  true, false, some, List, [], ◌∷◌, ◌++◌, replicate, eqb, if◌then◌else◌,
}
use protocol_contracts_solan.Prelude.Words.{Bytes}
use protocol_contracts_solan.Solana.Account.{Pubkey, AccountInfo, World}
use protocol_contracts_solan.Gateway.State.{Pda, RevertOptions, InstructionId}
use protocol_contracts_solan.Gateway.Utils.{Signed, concatenated_buffer}
use protocol_contracts_solan.Gateway.Contexts.{
  State, SignerAndPda, Execute, Deposit, DepositSplToken, Withdraw, WithdrawSplToken,
  ExecuteSplToken,
}
use protocol_contracts_solan.Gateway.Accounts.{meta_seed, connected_seed, whitelist_seed}
use protocol_contracts_solan.Solana.Result.{Result, ok, err}
use protocol_contracts_solan.Gateway.Errors.{Errors}

abbrev pub pda_key : Pubkey
pda_key = (meta_seed ++ []) ++ (b'g' ∷ [])

abbrev pub signer_key : Pubkey
signer_key = 1 ∷ []

abbrev pub recipient_key : Pubkey
recipient_key = 2 ∷ []

abbrev pub mint_key : Pubkey
mint_key = 3 ∷ []

abbrev pub program_key : Pubkey
program_key = 4 ∷ []

abbrev pub connected_key : Pubkey
connected_key = (connected_seed ++ []) ++ program_key

abbrev pub entry_key : Pubkey
entry_key = (whitelist_seed ++ (mint_key ++ [])) ++ (b'g' ∷ [])

abbrev pub sender : Bytes
sender = replicate 20 6

abbrev pub account : Pubkey → AccountInfo
account k = record { key = k; is_signer = true; is_writable = true }

abbrev pub pda : Pda
pda = record {
  nonce = 7;
  tss_address = replicate 20 5;
  authority = signer_key;
  chain_id = 900;
  deposit_paused = false;
}

-- The recipient has no token account yet.
abbrev pub world : World
world = record {
  lamports = λ k. if eqb k (recipient_key ++ mint_key) then 0 else 5_000_000_000;
  account_owner = λ k. b't' ∷ [];
  token = λ k. some (record { mint = mint_key; owner = pda_key; amount = 500 });
  mint = λ k. some 100_000;
}

abbrev pub state : State
state = record { pda = some pda; entries = λ k. eqb k entry_key; world = world }

abbrev pub signed : InstructionId → List Bytes → Signed
signed id pieces = record {
  signature = replicate 64 5;
  recovery_id = 0;
  message_hash = concatenated_buffer id 900 7 (some 100) pieces;
  nonce = 7;
}

abbrev pub options : RevertOptions
options = record {
  revert_address = signer_key;
  abort_address = replicate 20 8;
  call_on_revert = true;
  revert_message = 1 ∷ 2 ∷ 3 ∷ [];
  on_revert_gas_limit = 50_000;
}

abbrev pub admin_context : SignerAndPda
admin_context = record { signer = account signer_key; pda = account pda_key }

abbrev pub user_context : SignerAndPda
user_context = record { signer = account recipient_key; pda = account pda_key }

abbrev pub withdraw_context : Withdraw
withdraw_context = record {
  signer = account signer_key;
  pda = account pda_key;
  recipient = account recipient_key;
}

abbrev pub withdraw_spl_context : WithdrawSplToken
withdraw_spl_context = record {
  signer = account signer_key;
  pda = account pda_key;
  pda_ata = account (pda_key ++ mint_key);
  mint_account = account mint_key;
  recipient = account recipient_key;
  recipient_ata = account (recipient_key ++ mint_key);
  token_program = account (b't' ∷ []);
  associated_token_program = account (b'a' ∷ []);
  system_program = account (b's' ∷ []);
}

abbrev pub execute_context : Execute
execute_context = record {
  signer = account signer_key;
  pda = account pda_key;
  destination_program = account program_key;
  destination_program_pda = account connected_key;
}

abbrev pub execute_spl_context : ExecuteSplToken
execute_spl_context = record {
  signer = account signer_key;
  pda = account pda_key;
  pda_ata = account (pda_key ++ mint_key);
  mint_account = account mint_key;
  destination_program = account program_key;
  destination_program_pda = account connected_key;
  destination_program_pda_ata = account (connected_key ++ mint_key);
  token_program = account (b't' ∷ []);
  associated_token_program = account (b'a' ∷ []);
  system_program = account (b's' ∷ []);
}

abbrev pub remaining : List AccountInfo
remaining = account connected_key ∷ account pda_key ∷ account recipient_key ∷ []

abbrev pub deposit_context : Deposit
deposit_context = record {
  signer = account signer_key;
  pda = account pda_key;
  system_program = account (b's' ∷ []);
}

abbrev pub deposit_spl_context : DepositSplToken
deposit_spl_context = record {
  signer = account signer_key;
  pda = account pda_key;
  whitelist_entry = account entry_key;
  mint_account = account mint_key;
  token_program = account (b't' ∷ []);
  from = account (signer_key ++ mint_key);
  to = account (pda_key ++ mint_key);
  system_program = account (b's' ∷ []);
}

-- What a handler leaves, where it succeeds.
abbrev pub left : Result Errors (Pda × World) → World
left (ok (p, w)) = w
left (err e) = world

abbrev pub left_world : Result Errors World → World
left_world (ok w) = w
left_world (err e) = world

abbrev pub left_state : Result Errors State → State
left_state (ok s) = s
left_state (err e) = state
