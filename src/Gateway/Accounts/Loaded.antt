-- ===== src/Gateway/Accounts/Loaded.antt =====
-- The account that each context loads: programs/gateway/src/contexts.rs.
use protocol_contracts_solan.Prelude.{◌≡◌, some, arith}
use protocol_contracts_solan.Solana.Result.{ok}
use protocol_contracts_solan.Solana.Account.{World}
use protocol_contracts_solan.Solana.Runtime.{Runtime}
use protocol_contracts_solan.Gateway.State.{Pda}
use protocol_contracts_solan.Gateway.Contexts.{
  State, SignerAndPda, Execute, Deposit, DepositSplToken, Withdraw, WithdrawSplToken,
  ExecuteSplToken, Whitelist, Unwhitelist,
}
use protocol_contracts_solan.Gateway.Accounts.{
  try_signer_and_pda, try_execute, try_deposit, try_deposit_spl_token, try_withdraw,
  try_withdraw_spl_token, try_execute_spl_token, try_whitelist, try_unwhitelist,
}

module _ (rt : Runtime) (s : State) {pda : Pda} where
  pub try_signer_and_pda-loads :
      (ctx : SignerAndPda) → try_signer_and_pda rt ctx s ≡ ok pda → s.pda ≡ some pda
  unfolding try_signer_and_pda
  try_signer_and_pda-loads ctx h = ground arith

  pub try_execute-loads : (ctx : Execute) → try_execute rt ctx s ≡ ok pda → s.pda ≡ some pda
  unfolding try_execute
  try_execute-loads ctx h = ground arith

  pub try_deposit-loads : (ctx : Deposit) → try_deposit rt ctx s ≡ ok pda → s.pda ≡ some pda
  unfolding try_deposit
  try_deposit-loads ctx h = ground arith

  pub try_deposit_spl_token-loads :
      (ctx : DepositSplToken) → try_deposit_spl_token rt ctx s ≡ ok pda → s.pda ≡ some pda
  unfolding try_deposit_spl_token
  try_deposit_spl_token-loads ctx h = ground arith

  pub try_withdraw-loads : (ctx : Withdraw) → try_withdraw rt ctx s ≡ ok pda → s.pda ≡ some pda
  unfolding try_withdraw
  try_withdraw-loads ctx h = ground arith

  pub try_withdraw_spl_token-loads :
      (ctx : WithdrawSplToken) → try_withdraw_spl_token rt ctx s ≡ ok pda → s.pda ≡ some pda
  unfolding try_withdraw_spl_token
  try_withdraw_spl_token-loads ctx h = ground arith

  pub try_execute_spl_token-loads :
      (ctx : ExecuteSplToken) → try_execute_spl_token rt ctx s ≡ ok pda → s.pda ≡ some pda
  unfolding try_execute_spl_token
  try_execute_spl_token-loads ctx h = ground arith

  pub try_whitelist-loads :
      (ctx : Whitelist) {w : World} → try_whitelist rt ctx s ≡ ok (pda, w) → s.pda ≡ some pda
  unfolding try_whitelist
  try_whitelist-loads ctx h = ground arith

  pub try_unwhitelist-loads :
      (ctx : Unwhitelist) → try_unwhitelist rt ctx s ≡ ok pda → s.pda ≡ some pda
  unfolding try_unwhitelist
  try_unwhitelist-loads ctx h = ground arith
