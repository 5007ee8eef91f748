-- ===== src/Gateway/Tests/Whitelisting.antt =====
-- Runs of the whitelist instructions of programs/gateway/src/lib.rs.
use protocol_contracts_solan.Prelude.{◌≡◌, refl, true, false, none, some, [], ◌∷◌, eqb, replicate}
use protocol_contracts_solan.Prelude.Words.{be_bytes}
use protocol_contracts_solan.Solana.Result.{ok}
use protocol_contracts_solan.Solana.Account.{update}
use protocol_contracts_solan.Gateway.State.{Pda, whitelist_spl_token, unwhitelist_spl_token}
use protocol_contracts_solan.Gateway.Utils.{
  Signed, concatenated_buffer, extend_all, push_amount, validate_message_hash,
  verify_and_update_nonce, recover_and_verify_eth_address, eth_address, verify_authority,
}
use protocol_contracts_solan.Gateway.Contexts.{State, Whitelist, Unwhitelist}
use protocol_contracts_solan.Gateway.Accounts.{
  try_signer, try_pda, try_program, try_whitelist, try_unwhitelist, gateway_pda, whitelist_entry_of,
}
use protocol_contracts_solan.Gateway.Admin
use protocol_contracts_solan.Gateway.Admin.{verify_tss_signed}
use protocol_contracts_solan.Gateway.Program
use protocol_contracts_solan.Gateway.Requests.{Request, process}
use protocol_contracts_solan.Gateway.Requests.Whitelisting.{
  Admits, whitelist_adds, unwhitelist_removes,
}
use protocol_contracts_solan.Gateway.Tests.Runtime.{test_runtime}
use protocol_contracts_solan.Gateway.Tests.Accounts.{
  pda, pda_key, signer_key, mint_key, entry_key, account, state, left_state,
}

-- A message over the mint alone, without an amount.
abbrev mint_message : Signed
mint_message = record {
  signature = replicate 64 5;
  recovery_id = 0;
  message_hash = concatenated_buffer whitelist_spl_token 900 7 none (mint_key ∷ []);
  nonce = 7;
}

-- The authority in place of the TSS.
abbrev vouched : Signed
vouched = record { signature = replicate 64 0; recovery_id = 0; message_hash = []; nonce = 0 }

abbrev whitelist_context : Whitelist
whitelist_context = record {
  authority = account signer_key;
  pda = account pda_key;
  whitelist_entry = account entry_key;
  whitelist_candidate = account mint_key;
  system_program = account (b's' ∷ []);
}

abbrev unwhitelist_context : Unwhitelist
unwhitelist_context = record {
  authority = account signer_key;
  pda = account pda_key;
  whitelist_entry = account entry_key;
  whitelist_candidate = account mint_key;
}

abbrev unlisted : State
unlisted = record state { entries = λ k. false }

abbrev whitelisting : Request
whitelisting = Request.whitelist_spl_mint whitelist_context mint_message

abbrev whitelisted : State
whitelisted = left_state (process test_runtime whitelisting unlisted)

whitelisting_processed : process test_runtime whitelisting unlisted ≡ ok whitelisted
unfolding process Program.whitelist_spl_mint try_whitelist try_signer try_pda try_program
    gateway_pda whitelist_entry_of Admin.whitelist_spl_mint verify_tss_signed validate_message_hash
    verify_and_update_nonce recover_and_verify_eth_address eth_address concatenated_buffer
    extend_all push_amount eqb be_bytes
whitelisting_processed = refl

whitelist_adds_example :
    (true ≡ true)
    × (unlisted.entries (whitelist_entry_of test_runtime mint_key) ≡ false)
    × (whitelisted.entries
        ≡ update unlisted.entries (whitelist_entry_of test_runtime mint_key) true)
    × ((p' : Pda) × (whitelisted.pda ≡ some p')
        × Admits test_runtime whitelist_spl_token mint_key signer_key mint_message pda p')
whitelist_adds_example =
    whitelist_adds test_runtime unlisted whitelisted pda refl whitelist_context mint_message
      whitelisting_processed

abbrev unwhitelisting : Request
unwhitelisting = Request.unwhitelist_spl_mint unwhitelist_context vouched

abbrev unwhitelisted : State
unwhitelisted = left_state (process test_runtime unwhitelisting state)

unwhitelisting_processed : process test_runtime unwhitelisting state ≡ ok unwhitelisted
unfolding process Program.unwhitelist_spl_mint try_unwhitelist try_signer try_pda gateway_pda
    whitelist_entry_of Admin.unwhitelist_spl_mint verify_authority eqb
unwhitelisting_processed = refl

unwhitelist_removes_example :
    (true ≡ true)
    × (state.entries (whitelist_entry_of test_runtime mint_key) ≡ true)
    × (unwhitelisted.entries
        ≡ update state.entries (whitelist_entry_of test_runtime mint_key) false)
    × ((p' : Pda) × (unwhitelisted.pda ≡ some p')
        × Admits test_runtime unwhitelist_spl_token mint_key signer_key vouched pda p')
unwhitelist_removes_example =
    unwhitelist_removes test_runtime state unwhitelisted pda refl unwhitelist_context vouched
      unwhitelisting_processed
