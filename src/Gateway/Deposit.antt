-- ===== src/Gateway/Deposit.antt =====
-- programs/gateway/src/instructions/deposit.rs. A deposit leaves the account of the gateway as it
-- was, so its handlers return the ledger alone.
pub mod Sol
pub mod Spl
use protocol_contracts_solan.Prelude.{
  ℕ, Bool, not, Option, none, some, List, [], ◌∷◌, replicate, eqb,
}
use protocol_contracts_solan.Prelude.Words.{Bytes}
use protocol_contracts_solan.Solana.Result.{
  Result, ok, err, ◌>>=◌, ◌>>◌, require, external_call, add_u64,
}
use protocol_contracts_solan.Solana.Account.{Pubkey, AccountInfo, TokenAccount, World}
use protocol_contracts_solan.Solana.Runtime.{Runtime}
use protocol_contracts_solan.Gateway.Errors.{
  Errors, deposit_paused, empty_receiver, deposit_to_address_mismatch,
}
use protocol_contracts_solan.Gateway.State.{Pda, RevertOptions}
use protocol_contracts_solan.Gateway.Utils.{verify_payload_size}
use protocol_contracts_solan.Gateway.Contexts.{Deposit, DepositSplToken, Call}

-- `[0u8; 20]`.
abbrev pub zero_address : Bytes
zero_address = replicate 20 0

-- `from.mint`, of a token account that the context has loaded.
unfoldable pub mint_of : World → Pubkey → Pubkey
mint_of w k = elim (w.token k) [ none ↦ [] | some t ↦ t.mint ]

unfoldable pub handle_call : Bytes → Bytes → Option RevertOptions → Result Errors (Unit {0})
handle_call receiver message revert_options = do
  require (not (eqb receiver zero_address)) empty_receiver
  verify_payload_size (some message) revert_options

module _ (rt : Runtime) where
  unfoldable pub handle_sol :
      Deposit → ℕ → Bytes → Option RevertOptions → ℕ → Pda → World → Result Errors World
  handle_sol ctx amount receiver revert_options fee pda w = do
    verify_payload_size none revert_options
    require (not pda.deposit_paused) deposit_paused
    require (not (eqb receiver zero_address)) empty_receiver
    amount_with_fees ← add_u64 amount fee
    external_call (rt.system_transfer ctx.signer.key ctx.pda.key amount_with_fees w)

  unfoldable pub handle_sol_with_call :
      Deposit → ℕ → Bytes → Bytes → Option RevertOptions → ℕ → Pda → World → Result Errors World
  handle_sol_with_call ctx amount receiver message revert_options fee pda w = do
    verify_payload_size (some message) revert_options
    handle_sol ctx amount receiver revert_options fee pda w

  unfoldable pub handle_spl :
      DepositSplToken → ℕ → Bytes → Option RevertOptions → ℕ → Pda → World → Result Errors World
  unfolding mint_of
  handle_spl ctx amount receiver revert_options fee pda w = do
    verify_payload_size none revert_options
    require (not pda.deposit_paused) deposit_paused
    require (not (eqb receiver zero_address)) empty_receiver
    w₁ ← external_call (rt.system_transfer ctx.signer.key ctx.pda.key fee w)
    require (eqb (rt.get_associated_token_address ctx.pda.key (mint_of w ctx.from.key)) ctx.to.key)
        deposit_to_address_mismatch
    external_call (rt.token_transfer ctx.from.key ctx.to.key ctx.signer.key amount w₁)

  unfoldable pub handle_spl_with_call :
      DepositSplToken
      → ℕ
      → Bytes
      → Bytes
      → Option RevertOptions
      → ℕ
      → Pda
      → World
      → Result Errors World
  handle_spl_with_call ctx amount receiver message revert_options fee pda w = do
    verify_payload_size (some message) revert_options
    handle_spl ctx amount receiver revert_options fee pda w
