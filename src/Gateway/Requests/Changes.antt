-- ===== src/Gateway/Requests/Changes.antt =====
-- How an instruction may change the account of the gateway: programs/gateway/src/lib.rs.
use protocol_contracts_solan.Prelude.{◌≡◌, subst, some}
use protocol_contracts_solan.Gateway.State.{Pda}
use protocol_contracts_solan.Gateway.Contexts.{State}
use protocol_contracts_solan.Gateway.Program.Handlers.{Spends, SpendsOrVouches}
use protocol_contracts_solan.Gateway.Requests.{Request}

-- How each request may change the account of the gateway. A message of the TSS carries the
-- expected nonce and advances it; the authority sets the field that it names; a deposit or a call
-- changes nothing; an existing account is not initialized again.
abbrev pub Changes : Request → Pda → Pda → Type 0
Changes (Request.initialize ctx tss_address chain_id) p p' = ⊥
Changes (Request.increment_nonce ctx amount m) p p' = Spends m p p'
Changes (Request.execute ctx remaining amount sender input m) p p' = Spends m p p'
Changes (Request.execute_revert ctx remaining amount sender input m) p p' = Spends m p p'
Changes (Request.execute_spl_token ctx remaining decimals amount sender input m) p p' =
    Spends m p p'
Changes (Request.execute_spl_token_revert ctx remaining decimals amount sender input m) p p' =
    Spends m p p'
Changes (Request.set_deposit_paused ctx paused) p p' =
    (ctx.signer.key ≡ p.authority) × (p' ≡ record p { deposit_paused = paused })
Changes (Request.update_tss ctx tss_address) p p' =
    (ctx.signer.key ≡ p.authority) × (p' ≡ record p { tss_address = tss_address; nonce = 0 })
Changes (Request.update_authority ctx new_authority) p p' =
    (ctx.signer.key ≡ p.authority) × (p' ≡ record p { authority = new_authority })
Changes (Request.reset_nonce ctx new_nonce) p p' =
    (ctx.signer.key ≡ p.authority) × (p' ≡ record p { nonce = new_nonce })
Changes (Request.whitelist_spl_mint ctx m) p p' = SpendsOrVouches m ctx.authority.key p p'
Changes (Request.unwhitelist_spl_mint ctx m) p p' = SpendsOrVouches m ctx.authority.key p p'
Changes (Request.withdraw ctx amount m) p p' = Spends m p p'
Changes (Request.withdraw_spl_token ctx decimals amount m) p p' = Spends m p p'
Changes _ p p' = p' ≡ p

-- The account `p` has become another that `C` allows.
abbrev pub Becomes : (Pda → Pda → Type 0) → Pda → State → Type 0
Becomes C p s' = (p' : Pda) × (s'.pda ≡ some p') × C p p'

module _ (C : Pda → Pda → Type 0) (p : Pda) (s s' : State) (loaded : s.pda ≡ some p) where
  pub becomes : (p₀ p' : Pda) → s.pda ≡ some p₀ → C p₀ p' → s'.pda ≡ some p' → Becomes C p s'
  becomes p₀ p' e c h = let same : p₀ ≡ p = cc in (p', h, subst (λ q. C q p') same c)
