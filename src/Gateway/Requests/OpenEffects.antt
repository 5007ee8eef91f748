-- ===== src/Gateway/Requests/OpenEffects.antt =====
-- The instructions of the authority and the depositors, and the account of the gateway:
-- programs/gateway/src/lib.rs.
use protocol_contracts_solan.Prelude.{ℕ, ◌≡◌, refl, Bool, Option, some, arith}
use protocol_contracts_solan.Solana.Result.{ok, after}
use protocol_contracts_solan.Solana.Account.{Pubkey}
use protocol_contracts_solan.Solana.Runtime.{Runtime}
use protocol_contracts_solan.Gateway.State.{Pda, RevertOptions}
use protocol_contracts_solan.Prelude.Words.{Bytes}
use protocol_contracts_solan.Gateway.Utils.{verify_authority, deposit_fee}
use protocol_contracts_solan.Gateway.Utils.Nonce.{verify_authority_iff}
use protocol_contracts_solan.Gateway.Admin.{zero_signature}
use protocol_contracts_solan.Gateway.Admin
use protocol_contracts_solan.Gateway.Deposit
use protocol_contracts_solan.Gateway.Contexts.{State, SignerAndPda, Deposit, DepositSplToken}
use protocol_contracts_solan.Gateway.Accounts.{
  try_signer_and_pda, try_deposit, try_deposit_spl_token,
}
use protocol_contracts_solan.Gateway.Accounts.Loaded.{
  try_signer_and_pda-loads, try_deposit-loads, try_deposit_spl_token-loads,
}
use protocol_contracts_solan.Gateway.Program
use protocol_contracts_solan.Gateway.Program.{write_pda, write_both}
use protocol_contracts_solan.Gateway.Requests.Changes.{Becomes, becomes}

module _ (rt : Runtime) (p : Pda) (s s' : State) (loaded : s.pda ≡ some p) where
  pub set_deposit_paused-Becomes :
      (ctx : SignerAndPda) (paused : Bool)
      → Program.set_deposit_paused rt ctx paused s ≡ ok s'
      → Becomes
          (λ q q'. (ctx.signer.key ≡ q.authority) × (q' ≡ record q { deposit_paused = paused }))
          p
          s'
  unfolding Program.set_deposit_paused Admin.set_deposit_paused verify_authority
  set_deposit_paused-Becomes ctx paused h = after (try_signer_and_pda rt ctx s) _ h λ p₀ e h₁.
      after (Admin.set_deposit_paused ctx paused p₀) _ h₁ λ p' e' h₂.
        becomes
          (λ q q'. (ctx.signer.key ≡ q.authority) × (q' ≡ record q { deposit_paused = paused })) p s
          s' loaded p₀ p' (try_signer_and_pda-loads rt s ctx e)
          (ground (arith, verify_authority_iff ctx.signer.key p₀)) (ground arith)

  pub update_tss-Becomes :
      (ctx : SignerAndPda) (tss_address : Bytes)
      → Program.update_tss rt ctx tss_address s ≡ ok s'
      → Becomes
          (λ q q'.
            (ctx.signer.key ≡ q.authority)
            × (q' ≡ record q { tss_address = tss_address; nonce = 0 }))
          p
          s'
  unfolding Program.update_tss Admin.update_tss verify_authority
  update_tss-Becomes ctx tss_address h = after (try_signer_and_pda rt ctx s) _ h λ p₀ e h₁.
      after (Admin.update_tss ctx tss_address p₀) _ h₁ λ p' e' h₂.
        becomes
          (λ q q'.
            (ctx.signer.key ≡ q.authority)
            × (q' ≡ record q { tss_address = tss_address; nonce = 0 }))
          p s s' loaded p₀ p' (try_signer_and_pda-loads rt s ctx e)
          (ground (arith, verify_authority_iff ctx.signer.key p₀)) (ground arith)

  pub update_authority-Becomes :
      (ctx : SignerAndPda) (new_authority : Pubkey)
      → Program.update_authority rt ctx new_authority s ≡ ok s'
      → Becomes
          (λ q q'. (ctx.signer.key ≡ q.authority) × (q' ≡ record q { authority = new_authority }))
          p
          s'
  unfolding Program.update_authority Admin.update_authority verify_authority
  update_authority-Becomes ctx new_authority h = after (try_signer_and_pda rt ctx s) _ h λ p₀ e h₁.
      after (Admin.update_authority ctx new_authority p₀) _ h₁ λ p' e' h₂.
        becomes
          (λ q q'. (ctx.signer.key ≡ q.authority) × (q' ≡ record q { authority = new_authority })) p
          s s' loaded p₀ p' (try_signer_and_pda-loads rt s ctx e)
          (ground (arith, verify_authority_iff ctx.signer.key p₀)) (ground arith)

  pub reset_nonce-Becomes :
      (ctx : SignerAndPda) (new_nonce : ℕ)
      → Program.reset_nonce rt ctx new_nonce s ≡ ok s'
      → Becomes
          (λ q q'. (ctx.signer.key ≡ q.authority) × (q' ≡ record q { nonce = new_nonce }))
          p
          s'
  unfolding Program.reset_nonce Admin.reset_nonce verify_authority
  reset_nonce-Becomes ctx new_nonce h = after (try_signer_and_pda rt ctx s) _ h λ p₀ e h₁.
      after (Admin.reset_nonce ctx new_nonce p₀) _ h₁ λ p' e' h₂.
        becomes (λ q q'. (ctx.signer.key ≡ q.authority) × (q' ≡ record q { nonce = new_nonce })) p s
          s' loaded p₀ p' (try_signer_and_pda-loads rt s ctx e)
          (ground (arith, verify_authority_iff ctx.signer.key p₀)) (ground arith)

  pub deposit-Becomes :
      (ctx : Deposit) (amount : ℕ) (receiver : Bytes) (revert_options : Option RevertOptions)
      → Program.deposit rt ctx amount receiver revert_options s ≡ ok s'
      → Becomes (λ q q'. q' ≡ q) p s'
  unfolding Program.deposit
  deposit-Becomes ctx amount receiver revert_options h = after (try_deposit rt ctx s) _ h λ p₀ e h₁.
      after (Deposit.handle_sol rt ctx amount receiver revert_options deposit_fee p₀ s.world) _ h₁
        λ w' e' h₂.
          becomes (λ q q'. q' ≡ q) p s s' loaded p₀ p₀ (try_deposit-loads rt s ctx e) (refl)
            (ground arith)

  pub deposit_and_call-Becomes :
      (ctx : Deposit) (amount : ℕ) (receiver message : Bytes)
      (revert_options : Option RevertOptions)
      → Program.deposit_and_call rt ctx amount receiver message revert_options s ≡ ok s'
      → Becomes (λ q q'. q' ≡ q) p s'
  unfolding Program.deposit_and_call
  deposit_and_call-Becomes ctx amount receiver message revert_options h =
      after (try_deposit rt ctx s) _ h λ p₀ e h₁.
        after
          (Deposit.handle_sol_with_call rt ctx amount receiver message revert_options deposit_fee p₀
            s.world)
          _ h₁
          λ w' e' h₂.
            becomes (λ q q'. q' ≡ q) p s s' loaded p₀ p₀ (try_deposit-loads rt s ctx e) (refl)
              (ground arith)

  pub deposit_spl_token-Becomes :
      (ctx : DepositSplToken) (amount : ℕ) (receiver : Bytes)
      (revert_options : Option RevertOptions)
      → Program.deposit_spl_token rt ctx amount receiver revert_options s ≡ ok s'
      → Becomes (λ q q'. q' ≡ q) p s'
  unfolding Program.deposit_spl_token
  deposit_spl_token-Becomes ctx amount receiver revert_options h =
      after (try_deposit_spl_token rt ctx s) _ h λ p₀ e h₁.
        after (Deposit.handle_spl rt ctx amount receiver revert_options deposit_fee p₀ s.world) _ h₁
          λ w' e' h₂.
            becomes (λ q q'. q' ≡ q) p s s' loaded p₀ p₀ (try_deposit_spl_token-loads rt s ctx e)
              (refl) (ground arith)

  pub deposit_spl_token_and_call-Becomes :
      (ctx : DepositSplToken) (amount : ℕ) (receiver message : Bytes)
      (revert_options : Option RevertOptions)
      → Program.deposit_spl_token_and_call rt ctx amount receiver message revert_options s ≡ ok s'
      → Becomes (λ q q'. q' ≡ q) p s'
  unfolding Program.deposit_spl_token_and_call
  deposit_spl_token_and_call-Becomes ctx amount receiver message revert_options h =
      after (try_deposit_spl_token rt ctx s) _ h λ p₀ e h₁.
        after
          (Deposit.handle_spl_with_call rt ctx amount receiver message revert_options deposit_fee p₀
            s.world)
          _ h₁
          λ w' e' h₂.
            becomes (λ q q'. q' ≡ q) p s s' loaded p₀ p₀ (try_deposit_spl_token-loads rt s ctx e)
              (refl) (ground arith)
