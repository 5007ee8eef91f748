-- ===== src/Gateway/Requests/Config.antt =====
-- Changes of the configuration over whole runs: programs/gateway/src/utils/verify_authority.rs.
use protocol_contracts_solan.Prelude.{◌≡◌, ◌∙◌, refl, ap, inl, inr, some, List, [], ◌∷◌, arith}
use protocol_contracts_solan.Solana.Result.{ok, Result-cases}
use protocol_contracts_solan.Solana.Runtime.{Runtime}
use protocol_contracts_solan.Gateway.State.{Pda}
use protocol_contracts_solan.Gateway.Contexts.{State}
use protocol_contracts_solan.Gateway.Requests.{Request, process, run, run-ok, run-err}
use protocol_contracts_solan.Gateway.Requests.Changes.{Changes}
use protocol_contracts_solan.Gateway.Requests.Effects.{process-Changes}
use protocol_contracts_solan.Gateway.Requests.Signing.{
  SignedBy, config_signer, NoneSigned, NoneSigned-ok, NoneSigned-err, set_deposit_paused-is_signer,
  update_tss-is_signer, update_authority-is_signer,
}

-- The fields that no message of the TSS and no user sets.
pub record SameConfig (p p' : Pda) : Type 0 where
  pub tss_address : p'.tss_address ≡ p.tss_address
  pub authority : p'.authority ≡ p.authority
  pub chain_id : p'.chain_id ≡ p.chain_id
  pub deposit_paused : p'.deposit_paused ≡ p.deposit_paused

Changes-chain_id : (r : Request) (p p' : Pda) → Changes r p p' → p'.chain_id ≡ p.chain_id
Changes-chain_id (Request.initialize ctx tss chain_id) p p' c = absurd c
Changes-chain_id (Request.whitelist_spl_mint ctx m) p p' c = ground (arith, c.0, c.1)
Changes-chain_id (Request.unwhitelist_spl_mint ctx m) p p' c = ground (arith, c.0, c.1)
Changes-chain_id _ p p' c = ground arith

SameConfig-trans : (p q r : Pda) → SameConfig p q → SameConfig q r → SameConfig p r
SameConfig-trans p q r h k = ground arith

module _ (rt : Runtime) (p p' : Pda) (s s' : State) where
  accepted-SameConfig :
      (r : Request)
      → process rt r s ≡ ok s'
      → ¬ SignedBy p.authority (config_signer r)
      → Changes r p p'
      → SameConfig p p'
  unfolding process
  accepted-SameConfig (Request.initialize ctx tss chain_id) h n c = absurd c
  accepted-SameConfig (Request.set_deposit_paused ctx paused) h n c =
      absurd (n (c.0, set_deposit_paused-is_signer rt s s' ctx paused h))
  accepted-SameConfig (Request.update_tss ctx tss) h n c =
      absurd (n (c.0, update_tss-is_signer rt s s' ctx tss h))
  accepted-SameConfig (Request.update_authority ctx a) h n c =
      absurd (n (c.0, update_authority-is_signer rt s s' ctx a h))
  accepted-SameConfig (Request.whitelist_spl_mint ctx m) h n c = ground (arith, c.0, c.1)
  accepted-SameConfig (Request.unwhitelist_spl_mint ctx m) h n c = ground (arith, c.0, c.1)
  accepted-SameConfig _ h n c = ground arith

module _ (rt : Runtime) where
  -- Where the gateway has been initialized, the TSS address, the authority, the chain and the pause
  -- of deposits stay as they are over any sequence of instructions, failed ones and a reset of the
  -- nonce among them, in which no set_deposit_paused, update_tss or update_authority succeeds that
  -- the authority of the account at that point has signed.
  pub run-SameConfig :
      (rs : List Request) (s : State) (p : Pda)
      → s.pda ≡ some p
      → NoneSigned rt config_signer rs s
      → (p' : Pda) × ((run rt rs s).pda ≡ some p') × SameConfig p p'
  unfolding run
  run-SameConfig [] s p e n = (p, e, ground arith)
  run-SameConfig (r ∷ rs) s p e n = elim (Result-cases (process rt r s)) [
    | inl (s₁, h) ↦
        let (p₁, e₁, c) = process-Changes rt p s s₁ e r h in
        let same = accepted-SameConfig rt p p₁ s s₁ r h (n.0 p s₁ e h) c in
        let (p₂, e₂, same') =
          run-SameConfig rs s₁ p₁ e₁ (NoneSigned-ok rt config_signer r rs s h n) in
        (p₂, ap (λ q. q.pda) (run-ok rt r rs s s₁ h) ∙ e₂, SameConfig-trans p p₁ p₂ same same')
    | inr (x, h) ↦
        rw (run-err rt r rs s x h)
          (run-SameConfig rs s p e (NoneSigned-err rt config_signer r rs s h n))
  ]

  -- Where the gateway has been initialized, its chain never changes, whatever is run.
  run-chain_id :
      (rs : List Request) (s : State) (p : Pda)
      → s.pda ≡ some p
      → (p' : Pda) × ((run rt rs s).pda ≡ some p') × (p'.chain_id ≡ p.chain_id)
  unfolding run
  run-chain_id [] s p e = (p, e, refl)
  run-chain_id (r ∷ rs) s p e = elim (Result-cases (process rt r s)) [
    | inl (s₁, h) ↦
        let (p₁, e₁, c) = process-Changes rt p s s₁ e r h in
        let (p₂, e₂, same) = run-chain_id rs s₁ p₁ e₁ in
        (p₂, ap (λ q. q.pda) (run-ok rt r rs s s₁ h) ∙ e₂, same ∙ Changes-chain_id r p p₁ c)
    | inr (x, h) ↦ rw (run-err rt r rs s x h) (run-chain_id rs s p e)
  ]
