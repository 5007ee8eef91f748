-- ===== src/ConnectedSpl/Handlers.antt =====
-- programs/examples/connectedSPL/src/lib.rs: the handlers.
use protocol_contracts_solan.Prelude.{ℕ, ◌/◌, not, [], ◌∷◌}
use protocol_contracts_solan.Prelude.Words.{Bytes}
use protocol_contracts_solan.Solana.Result.{Result, ok, ◌>>=◌, ◌>>◌, require, external_call}
use protocol_contracts_solan.Solana.Account.{Pubkey, World}
use protocol_contracts_solan.Solana.Runtime.{Runtime}
use protocol_contracts_solan.Connected.{revert_word}
use protocol_contracts_solan.Connected.Text.{is_utf8, contains}
use protocol_contracts_solan.ConnectedSpl.{
  Pda, ErrorCode, invalid_data_format, revert_message, OnCall, connected_seed, pda_address,
}

module _ (rt : Runtime) (program_id : Pubkey) (pda_space : ℕ) where
  -- Nothing tells the program who calls it.
  unfoldable pub on_call : OnCall → ℕ → Bytes → Bytes → Pda → World → Result ErrorCode (Pda × World)
  unfolding pda_address
  on_call ctx amount sender input p w = do
    require (is_utf8 input) invalid_data_format
    let signer_seeds = connected_seed ∷ ((pda_address rt program_id pda_space).1 ∷ []) ∷ []
    w' ← external_call (
        rt.transfer_checked ctx.pda_ata.key ctx.mint_account.key ctx.random_wallet_ata.key
          ctx.pda.key signer_seeds (amount / 2) 6 w)
    require (not (contains revert_word input)) revert_message
    ok (record p { last_sender = sender; last_message = input }, w')

-- It moves nothing, whatever the amount.
unfoldable pub on_revert : ℕ → Pubkey → Bytes → Pda → Result ErrorCode Pda
on_revert amount sender input p = do
  require (is_utf8 input) invalid_data_format
  require (not (contains revert_word input)) revert_message
  ok (record p { last_revert_sender = sender; last_revert_message = input })
