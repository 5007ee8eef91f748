-- ===== src/Gateway/Tests/Withdrawals.antt =====
-- Runs of programs/gateway/src/instructions/withdraw.rs.
use protocol_contracts_solan.Prelude.{ℕ, ◌≡◌, refl, some, [], ◌∷◌, ◌++◌, eqb, arith}
use protocol_contracts_solan.Prelude.Words.{be_bytes}
use protocol_contracts_solan.Solana.Result.{ok}
use protocol_contracts_solan.Solana.Account.{World, credit, debit}
use protocol_contracts_solan.Gateway.State.{withdraw, withdraw_spl_token}
use protocol_contracts_solan.Gateway.Utils.{
  Signed, concatenated_buffer, extend_all, push_amount, validate_message, validate_message_hash,
  verify_and_update_nonce, recover_and_verify_eth_address, eth_address, verify_ata_match,
}
use protocol_contracts_solan.Gateway.Utils.Nonce.{advanced}
use protocol_contracts_solan.Gateway.Utils.Authorized.{Authorized}
use protocol_contracts_solan.Gateway.Tests.Runtime.{test_runtime, test_laws}
use protocol_contracts_solan.Gateway.Withdraw.{handle_sol, handle_spl, create_recipient_ata}
use protocol_contracts_solan.Gateway.Withdraw.Spl.{AreDistinct, SplWithdrawn, handle_spl_moves}
use protocol_contracts_solan.Gateway.Tests.Accounts.{
  pda, pda_key, recipient_key, mint_key, world, signed, withdraw_context, withdraw_spl_context,
  left,
}

abbrev message : Signed
message = signed withdraw (recipient_key ∷ [])

abbrev withdrawn : World
withdrawn = credit recipient_key 100 (debit pda_key 100 world)

withdraws :
    handle_sol test_runtime withdraw_context 100 message pda world ≡ ok (advanced pda, withdrawn)
unfolding handle_sol validate_message validate_message_hash verify_and_update_nonce
    recover_and_verify_eth_address eth_address concatenated_buffer extend_all push_amount eqb
    be_bytes
withdraws = refl

abbrev spl_message : Signed
spl_message = signed withdraw_spl_token (mint_key ∷ (recipient_key ++ mint_key) ∷ [])

abbrev spl_withdrawn : World
spl_withdrawn = left (handle_spl test_runtime withdraw_spl_context 6 100 spl_message pda world)

spl_withdraws :
    handle_spl test_runtime withdraw_spl_context 6 100 spl_message pda world
    ≡ ok (advanced pda, spl_withdrawn)
unfolding handle_spl create_recipient_ata verify_ata_match validate_message validate_message_hash
    verify_and_update_nonce recover_and_verify_eth_address eth_address concatenated_buffer
    extend_all push_amount eqb be_bytes
spl_withdraws = refl

withdraw_spl_context-AreDistinct : AreDistinct withdraw_spl_context
withdraw_spl_context-AreDistinct = ground arith

handle_spl_moves_example :
    Authorized test_runtime pda withdraw_spl_token
      (some 100)
      (mint_key ∷ (recipient_key ++ mint_key) ∷ [])
      spl_message
    × (advanced pda ≡ advanced pda)
    × (pda_key ++ mint_key ≡ pda_key ++ mint_key)
    × (recipient_key ++ mint_key ≡ recipient_key ++ mint_key)
    × ((cost : ℕ) × SplWithdrawn withdraw_spl_context 100 cost world spl_withdrawn)
handle_spl_moves_example =
    handle_spl_moves test_runtime test_laws withdraw_spl_context 6 100 spl_message pda world
      withdraw_spl_context-AreDistinct spl_withdraws
