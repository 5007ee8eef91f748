-- ===== src/Gateway/Requests/Effects.antt =====
-- Every instruction and the account of the gateway: programs/gateway/src/lib.rs.
use protocol_contracts_solan.Prelude.{◌≡◌, refl, ◌∙◌, some, arith}
use protocol_contracts_solan.Solana.Result.{ok}
use protocol_contracts_solan.Solana.Runtime.{Runtime}
use protocol_contracts_solan.Gateway.State.{Pda}
use protocol_contracts_solan.Gateway.Accounts.{try_initialize}
use protocol_contracts_solan.Gateway.Contexts.{State}
use protocol_contracts_solan.Gateway.Program
use protocol_contracts_solan.Gateway.Requests.{Request, process}
use protocol_contracts_solan.Gateway.Requests.Changes.{Changes, Becomes}
use protocol_contracts_solan.Gateway.Requests.SignedEffects
use protocol_contracts_solan.Gateway.Requests.OpenEffects

module _ (rt : Runtime) (p : Pda) (s s' : State) (loaded : s.pda ≡ some p) where
  -- Where the gateway has been initialized, an instruction that succeeds leaves its account as
  -- `Changes` says of it.
  pub process-Changes : (r : Request) → process rt r s ≡ ok s' → Becomes (Changes r) p s'
  unfolding process
  process-Changes (Request.initialize ctx tss chain_id) h =
      absurd (unfold Program.initialize try_initialize in ground arith)
  process-Changes (Request.increment_nonce ctx amount m) h =
      SignedEffects.increment_nonce-Becomes rt p s s' loaded ctx amount m h
  process-Changes (Request.execute ctx remaining amount sender input m) h =
      SignedEffects.execute-Becomes rt p s s' loaded ctx remaining amount sender input m h
  process-Changes (Request.execute_revert ctx remaining amount sender input m) h =
      SignedEffects.execute_revert-Becomes rt p s s' loaded ctx remaining amount sender input m h
  process-Changes (Request.execute_spl_token ctx remaining decimals amount sender input m) h =
      SignedEffects.execute_spl_token-Becomes rt p s s' loaded ctx remaining decimals amount sender
        input m h
  process-Changes (Request.execute_spl_token_revert ctx remaining decimals amount sender input m)
        h =
      SignedEffects.execute_spl_token_revert-Becomes rt p s s' loaded ctx remaining decimals amount
        sender input m h
  process-Changes (Request.set_deposit_paused ctx paused) h =
      OpenEffects.set_deposit_paused-Becomes rt p s s' loaded ctx paused h
  process-Changes (Request.update_tss ctx tss_address) h =
      OpenEffects.update_tss-Becomes rt p s s' loaded ctx tss_address h
  process-Changes (Request.update_authority ctx new_authority) h =
      OpenEffects.update_authority-Becomes rt p s s' loaded ctx new_authority h
  process-Changes (Request.reset_nonce ctx new_nonce) h =
      OpenEffects.reset_nonce-Becomes rt p s s' loaded ctx new_nonce h
  process-Changes (Request.whitelist_spl_mint ctx m) h =
      SignedEffects.whitelist_spl_mint-Becomes rt p s s' loaded ctx m h
  process-Changes (Request.unwhitelist_spl_mint ctx m) h =
      SignedEffects.unwhitelist_spl_mint-Becomes rt p s s' loaded ctx m h
  process-Changes (Request.deposit ctx amount receiver opts) h =
      OpenEffects.deposit-Becomes rt p s s' loaded ctx amount receiver opts h
  process-Changes (Request.deposit_and_call ctx amount receiver message opts) h =
      OpenEffects.deposit_and_call-Becomes rt p s s' loaded ctx amount receiver message opts h
  process-Changes (Request.deposit_spl_token ctx amount receiver opts) h =
      OpenEffects.deposit_spl_token-Becomes rt p s s' loaded ctx amount receiver opts h
  process-Changes (Request.deposit_spl_token_and_call ctx amount receiver message opts) h =
      OpenEffects.deposit_spl_token_and_call-Becomes rt p s s' loaded ctx amount receiver message
        opts h
  process-Changes (Request.call ctx receiver message opts) h =
      let same : s'.pda ≡ s.pda = unfold Program.call in ground arith in (p, same ∙ loaded, refl)
  process-Changes (Request.withdraw ctx amount m) h =
      SignedEffects.withdraw-Becomes rt p s s' loaded ctx amount m h
  process-Changes (Request.withdraw_spl_token ctx decimals amount m) h =
      SignedEffects.withdraw_spl_token-Becomes rt p s s' loaded ctx decimals amount m h
