-- ===== src/Gateway/Requests/SignedEffects.antt =====
-- The instructions that the TSS signs and the account of the gateway: programs/gateway/src/lib.rs.
use protocol_contracts_solan.Prelude.{ℕ, ◌≡◌, some, List, arith}
use protocol_contracts_solan.Solana.Result.{ok, after}
use protocol_contracts_solan.Solana.Account.{AccountInfo}
use protocol_contracts_solan.Solana.Runtime.{Runtime}
use protocol_contracts_solan.Gateway.State.{
  Pda, execute_sol, execute_sol_revert, execute_spl_token, execute_spl_token_revert, on_call,
  on_revert, pack,
}
use protocol_contracts_solan.Prelude.Words.{Bytes}
use protocol_contracts_solan.Gateway.Utils.{Signed}
use protocol_contracts_solan.Gateway.Admin.{zero_signature}
use protocol_contracts_solan.Gateway.Admin
use protocol_contracts_solan.Gateway.Withdraw
use protocol_contracts_solan.Gateway.Execute
use protocol_contracts_solan.Gateway.Contexts.{
  State, SignerAndPda, Execute, Withdraw, WithdrawSplToken, ExecuteSplToken, Whitelist, Unwhitelist,
}
use protocol_contracts_solan.Gateway.Accounts.{
  try_signer_and_pda, try_execute, try_withdraw, try_withdraw_spl_token, try_execute_spl_token,
  try_whitelist, try_unwhitelist,
}
use protocol_contracts_solan.Gateway.Accounts.Loaded.{
  try_signer_and_pda-loads, try_execute-loads, try_withdraw-loads, try_withdraw_spl_token-loads,
  try_execute_spl_token-loads, try_whitelist-loads, try_unwhitelist-loads,
}
use protocol_contracts_solan.Gateway.Program
use protocol_contracts_solan.Gateway.Program.{write_pda, write_both}
use protocol_contracts_solan.Gateway.Program.Handlers.{
  Spends, SpendsOrVouches, handle_increment_nonce-Spends, withdraw_sol-Spends, withdraw_spl-Spends,
  sol_common-Spends, spl_common-Spends, whitelist_spl_mint-Spends, unwhitelist_spl_mint-Spends,
}
use protocol_contracts_solan.Gateway.Requests.Changes.{Becomes, becomes}

module _ (rt : Runtime) (p : Pda) (s s' : State) (loaded : s.pda ≡ some p) where
  pub withdraw-Becomes :
      (ctx : Withdraw) (amount : ℕ) (m : Signed)
      → Program.withdraw rt ctx amount m s ≡ ok s'
      → Becomes (Spends m) p s'
  unfolding Program.withdraw
  withdraw-Becomes ctx amount m h = after (try_withdraw rt ctx s) _ h λ p₀ e h₁.
      after (Withdraw.handle_sol rt ctx amount m p₀ s.world) _ h₁ λ (p', w') e' h₂.
        becomes (Spends m) p s s' loaded p₀ p' (try_withdraw-loads rt s ctx e)
          (withdraw_sol-Spends rt m p₀ s.world ctx amount e') (ground arith)

  pub withdraw_spl_token-Becomes :
      (ctx : WithdrawSplToken) (decimals amount : ℕ) (m : Signed)
      → Program.withdraw_spl_token rt ctx decimals amount m s ≡ ok s'
      → Becomes (Spends m) p s'
  unfolding Program.withdraw_spl_token
  withdraw_spl_token-Becomes ctx decimals amount m h =
      after (try_withdraw_spl_token rt ctx s) _ h λ p₀ e h₁.
        after (Withdraw.handle_spl rt ctx decimals amount m p₀ s.world) _ h₁ λ (p', w') e' h₂.
          becomes (Spends m) p s s' loaded p₀ p' (try_withdraw_spl_token-loads rt s ctx e)
            (withdraw_spl-Spends rt m p₀ s.world ctx decimals amount e') (ground arith)

  pub execute-Becomes :
      (ctx : Execute) (remaining : List AccountInfo) (amount : ℕ) (sender input : Bytes)
      (m : Signed)
      → Program.execute rt ctx remaining amount sender input m s ≡ ok s'
      → Becomes (Spends m) p s'
  unfolding Program.execute
  execute-Becomes ctx remaining amount sender input m h =
      after (try_execute rt ctx s) _ h λ p₀ e h₁.
        after (Execute.handle_sol rt ctx remaining amount sender input m p₀ s.world) _ h₁
          λ (p', w') e' h₂.
            becomes (Spends m) p s s' loaded p₀ p' (try_execute-loads rt s ctx e)
              (unfold Execute.handle_sol in
                sol_common-Spends rt m p₀ s.world ctx remaining amount input sender execute_sol
                  (pack (on_call amount sender input)) e')
              (ground arith)

  pub execute_revert-Becomes :
      (ctx : Execute) (remaining : List AccountInfo) (amount : ℕ) (sender input : Bytes)
      (m : Signed)
      → Program.execute_revert rt ctx remaining amount sender input m s ≡ ok s'
      → Becomes (Spends m) p s'
  unfolding Program.execute_revert
  execute_revert-Becomes ctx remaining amount sender input m h =
      after (try_execute rt ctx s) _ h λ p₀ e h₁.
        after (Execute.handle_sol_revert rt ctx remaining amount sender input m p₀ s.world) _ h₁
          λ (p', w') e' h₂.
            becomes (Spends m) p s s' loaded p₀ p' (try_execute-loads rt s ctx e)
              (unfold Execute.handle_sol_revert in
                sol_common-Spends rt m p₀ s.world ctx remaining amount input sender
                  execute_sol_revert (pack (on_revert amount sender input)) e')
              (ground arith)

  pub execute_spl_token-Becomes :
      (ctx : ExecuteSplToken) (remaining : List AccountInfo) (decimals amount : ℕ)
      (sender input : Bytes) (m : Signed)
      → Program.execute_spl_token rt ctx remaining decimals amount sender input m s ≡ ok s'
      → Becomes (Spends m) p s'
  unfolding Program.execute_spl_token
  execute_spl_token-Becomes ctx remaining decimals amount sender input m h =
      after (try_execute_spl_token rt ctx s) _ h λ p₀ e h₁.
        after (Execute.handle_spl_token rt ctx remaining decimals amount sender input m p₀ s.world)
          _ h₁
          λ (p', w') e' h₂.
            becomes (Spends m) p s s' loaded p₀ p' (try_execute_spl_token-loads rt s ctx e)
              (unfold Execute.handle_spl_token in
                spl_common-Spends rt m p₀ s.world ctx remaining decimals amount input sender
                  execute_spl_token (pack (on_call amount sender input)) e')
              (ground arith)

  pub execute_spl_token_revert-Becomes :
      (ctx : ExecuteSplToken) (remaining : List AccountInfo) (decimals amount : ℕ)
      (sender input : Bytes) (m : Signed)
      → Program.execute_spl_token_revert rt ctx remaining decimals amount sender input m s ≡ ok s'
      → Becomes (Spends m) p s'
  unfolding Program.execute_spl_token_revert
  execute_spl_token_revert-Becomes ctx remaining decimals amount sender input m h =
      after (try_execute_spl_token rt ctx s) _ h λ p₀ e h₁.
        after
          (Execute.handle_spl_token_revert rt ctx remaining decimals amount sender input m p₀
            s.world)
          _ h₁
          λ (p', w') e' h₂.
            becomes (Spends m) p s s' loaded p₀ p' (try_execute_spl_token-loads rt s ctx e)
              (unfold Execute.handle_spl_token_revert in
                spl_common-Spends rt m p₀ s.world ctx remaining decimals amount input sender
                  execute_spl_token_revert (pack (on_revert amount sender input)) e')
              (ground arith)

  pub increment_nonce-Becomes :
      (ctx : SignerAndPda) (amount : ℕ) (m : Signed)
      → Program.increment_nonce rt ctx amount m s ≡ ok s'
      → Becomes (Spends m) p s'
  unfolding Program.increment_nonce
  increment_nonce-Becomes ctx amount m h = after (try_signer_and_pda rt ctx s) _ h λ p₀ e h₁.
      after (Execute.handle_increment_nonce rt amount m p₀) _ h₁ λ p' e' h₂.
        becomes (Spends m) p s s' loaded p₀ p' (try_signer_and_pda-loads rt s ctx e)
          (handle_increment_nonce-Spends rt m p₀ amount e') (ground arith)

  pub unwhitelist_spl_mint-Becomes :
      (ctx : Unwhitelist) (m : Signed)
      → Program.unwhitelist_spl_mint rt ctx m s ≡ ok s'
      → Becomes (SpendsOrVouches m ctx.authority.key) p s'
  unfolding Program.unwhitelist_spl_mint
  unwhitelist_spl_mint-Becomes ctx m h = after (try_unwhitelist rt ctx s) _ h λ p₀ e h₁.
      after (Admin.unwhitelist_spl_mint rt ctx m p₀) _ h₁ λ p' e' h₂.
        becomes (SpendsOrVouches m ctx.authority.key) p s s' loaded p₀ p'
          (try_unwhitelist-loads rt s ctx e) (unwhitelist_spl_mint-Spends rt m p₀ ctx e')
          (ground arith)

  pub whitelist_spl_mint-Becomes :
      (ctx : Whitelist) (m : Signed)
      → Program.whitelist_spl_mint rt ctx m s ≡ ok s'
      → Becomes (SpendsOrVouches m ctx.authority.key) p s'
  unfolding Program.whitelist_spl_mint
  whitelist_spl_mint-Becomes ctx m h = after (try_whitelist rt ctx s) _ h λ (p₀, w₀) e h₁.
      after (Admin.whitelist_spl_mint rt ctx m p₀) _ h₁ λ p' e' h₂.
        becomes (SpendsOrVouches m ctx.authority.key) p s s' loaded p₀ p'
          (try_whitelist-loads rt s ctx e) (whitelist_spl_mint-Spends rt m p₀ ctx e') (ground arith)
