-- ===== src/Gateway/Program.antt =====
-- programs/gateway/src/lib.rs: the instructions of the program. Each loads its accounts, runs its
-- handler, and writes back what the handler leaves.
pub mod Handlers
use protocol_contracts_solan.Prelude.{ℕ, Bool, true, false, Option, some, List, eqb}
use protocol_contracts_solan.Prelude.Words.{Bytes}
use protocol_contracts_solan.Solana.Result.{Result, ok, err, ◌>>=◌, ◌>>◌, external_call}
use protocol_contracts_solan.Solana.Account.{Pubkey, AccountInfo, World, update}
use protocol_contracts_solan.Solana.Runtime.{Runtime}
use protocol_contracts_solan.Gateway.Errors.{Errors}
use protocol_contracts_solan.Gateway.State.{Pda, RevertOptions}
use protocol_contracts_solan.Gateway.Utils.{Signed, deposit_fee}
use protocol_contracts_solan.Gateway.Contexts.{
  State, Initialize, IncrementNonce, UpdateTss, UpdateAuthority, ResetNonce, UpdatePaused, Execute,
  Deposit, DepositSplToken, Call, Withdraw, WithdrawSplToken, ExecuteSplToken, Whitelist,
  Unwhitelist,
}
use protocol_contracts_solan.Gateway.Accounts.{
  try_initialize, try_signer_and_pda, try_execute, try_deposit, try_deposit_spl_token, try_call,
  try_withdraw, try_withdraw_spl_token, try_execute_spl_token, try_whitelist, try_unwhitelist,
}
use protocol_contracts_solan.Gateway.Admin
use protocol_contracts_solan.Gateway.Deposit
use protocol_contracts_solan.Gateway.Withdraw
use protocol_contracts_solan.Gateway.Execute

abbrev pub write_pda : State → Pda → State
write_pda s pda = record s { pda = some pda }

abbrev pub write_both : State → Pda × World → State
write_both s (pda, w) = record s { pda = some pda; world = w }

module _ (rt : Runtime) where
  unfoldable pub initialize : Initialize → Bytes → ℕ → State → Result Errors State
  initialize ctx tss_address chain_id s = do
    w ← try_initialize rt ctx s
    ok (write_both s (Admin.initialize ctx tss_address chain_id, w))

  unfoldable pub increment_nonce : IncrementNonce → ℕ → Signed → State → Result Errors State
  increment_nonce ctx amount m s = do
    pda ← try_signer_and_pda rt ctx s
    pda' ← Execute.handle_increment_nonce rt amount m pda
    ok (write_pda s pda')

  unfoldable pub execute :
      Execute → List AccountInfo → ℕ → Bytes → Bytes → Signed → State → Result Errors State
  execute ctx remaining amount sender input m s = do
    pda ← try_execute rt ctx s
    done ← Execute.handle_sol rt ctx remaining amount sender input m pda s.world
    ok (write_both s done)

  unfoldable pub execute_revert :
      Execute → List AccountInfo → ℕ → Pubkey → Bytes → Signed → State → Result Errors State
  execute_revert ctx remaining amount sender input m s = do
    pda ← try_execute rt ctx s
    done ← Execute.handle_sol_revert rt ctx remaining amount sender input m pda s.world
    ok (write_both s done)

  unfoldable pub execute_spl_token :
      ExecuteSplToken
      → List AccountInfo
      → ℕ
      → ℕ
      → Bytes
      → Bytes
      → Signed
      → State
      → Result Errors State
  execute_spl_token ctx remaining decimals amount sender input m s = do
    pda ← try_execute_spl_token rt ctx s
    done ← Execute.handle_spl_token rt ctx remaining decimals amount sender input m pda s.world
    ok (write_both s done)

  unfoldable pub execute_spl_token_revert :
      ExecuteSplToken
      → List AccountInfo
      → ℕ
      → ℕ
      → Pubkey
      → Bytes
      → Signed
      → State
      → Result Errors State
  execute_spl_token_revert ctx remaining decimals amount sender input m s = do
    pda ← try_execute_spl_token rt ctx s
    done ←
        Execute.handle_spl_token_revert rt ctx remaining decimals amount sender input m pda s.world
    ok (write_both s done)

  unfoldable pub set_deposit_paused : UpdatePaused → Bool → State → Result Errors State
  set_deposit_paused ctx deposit_paused s = do
    pda ← try_signer_and_pda rt ctx s
    pda' ← Admin.set_deposit_paused ctx deposit_paused pda
    ok (write_pda s pda')

  unfoldable pub update_tss : UpdateTss → Bytes → State → Result Errors State
  update_tss ctx tss_address s = do
    pda ← try_signer_and_pda rt ctx s
    pda' ← Admin.update_tss ctx tss_address pda
    ok (write_pda s pda')

  unfoldable pub update_authority : UpdateAuthority → Pubkey → State → Result Errors State
  update_authority ctx new_authority_address s = do
    pda ← try_signer_and_pda rt ctx s
    pda' ← Admin.update_authority ctx new_authority_address pda
    ok (write_pda s pda')

  unfoldable pub reset_nonce : ResetNonce → ℕ → State → Result Errors State
  reset_nonce ctx new_nonce s = do
    pda ← try_signer_and_pda rt ctx s
    pda' ← Admin.reset_nonce ctx new_nonce pda
    ok (write_pda s pda')

  -- The entry that `init` made is kept when the handler succeeds.
  unfoldable pub whitelist_spl_mint : Whitelist → Signed → State → Result Errors State
  whitelist_spl_mint ctx m s = do
    (pda, w) ← try_whitelist rt ctx s
    pda' ← Admin.whitelist_spl_mint rt ctx m pda
    ok (record {
      pda = some pda';
      entries = update s.entries ctx.whitelist_entry.key true;
      world = w;
    })

  -- `close = authority` runs when the handler has succeeded.
  unfoldable pub unwhitelist_spl_mint : Unwhitelist → Signed → State → Result Errors State
  unwhitelist_spl_mint ctx m s = do
    pda ← try_unwhitelist rt ctx s
    pda' ← Admin.unwhitelist_spl_mint rt ctx m pda
    w ← external_call (rt.close_account ctx.whitelist_entry.key ctx.authority.key s.world)
    ok (record {
      pda = some pda';
      entries = update s.entries ctx.whitelist_entry.key false;
      world = w;
    })

  unfoldable pub deposit : Deposit → ℕ → Bytes → Option RevertOptions → State → Result Errors State
  deposit ctx amount receiver revert_options s = do
    pda ← try_deposit rt ctx s
    w ← Deposit.handle_sol rt ctx amount receiver revert_options deposit_fee pda s.world
    ok (write_both s (pda, w))

  unfoldable pub deposit_and_call :
      Deposit → ℕ → Bytes → Bytes → Option RevertOptions → State → Result Errors State
  deposit_and_call ctx amount receiver message revert_options s = do
    pda ← try_deposit rt ctx s
    w ←
        Deposit.handle_sol_with_call rt ctx amount receiver message revert_options deposit_fee pda
          s.world
    ok (write_both s (pda, w))

  unfoldable pub deposit_spl_token :
      DepositSplToken → ℕ → Bytes → Option RevertOptions → State → Result Errors State
  deposit_spl_token ctx amount receiver revert_options s = do
    pda ← try_deposit_spl_token rt ctx s
    w ← Deposit.handle_spl rt ctx amount receiver revert_options deposit_fee pda s.world
    ok (write_both s (pda, w))

  unfoldable pub deposit_spl_token_and_call :
      DepositSplToken → ℕ → Bytes → Bytes → Option RevertOptions → State → Result Errors State
  deposit_spl_token_and_call ctx amount receiver message revert_options s = do
    pda ← try_deposit_spl_token rt ctx s
    w ←
        Deposit.handle_spl_with_call rt ctx amount receiver message revert_options deposit_fee pda
          s.world
    ok (write_both s (pda, w))

  unfoldable pub call : Call → Bytes → Bytes → Option RevertOptions → State → Result Errors State
  call ctx receiver message revert_options s = do
    try_call rt ctx
    Deposit.handle_call receiver message revert_options
    ok s

  unfoldable pub withdraw : Withdraw → ℕ → Signed → State → Result Errors State
  withdraw ctx amount m s = do
    pda ← try_withdraw rt ctx s
    done ← Withdraw.handle_sol rt ctx amount m pda s.world
    ok (write_both s done)

  unfoldable pub withdraw_spl_token :
      WithdrawSplToken → ℕ → ℕ → Signed → State → Result Errors State
  withdraw_spl_token ctx decimals amount m s = do
    pda ← try_withdraw_spl_token rt ctx s
    done ← Withdraw.handle_spl rt ctx decimals amount m pda s.world
    ok (write_both s done)
