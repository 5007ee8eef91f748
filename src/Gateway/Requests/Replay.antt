-- ===== src/Gateway/Requests/Replay.antt =====
-- Replays of a message over whole runs: programs/gateway/src/utils/verify_and_update_nonce.rs.
use protocol_contracts_solan.Prelude.{
  ℕ, ◌≤◌, ◌≡◌, ◌≢◌, ◌∙◌, ap, Option, none, some, inl, inr, List, [], ◌∷◌, eqb, if◌then◌else◌, arith,
}
use protocol_contracts_solan.Solana.Result.{ok, Result-cases}
use protocol_contracts_solan.Solana.Runtime.{Runtime}
use protocol_contracts_solan.Gateway.State.{Pda}
use protocol_contracts_solan.Gateway.Utils.{Signed}
use protocol_contracts_solan.Gateway.Utils.Nonce.{advanced}
use protocol_contracts_solan.Gateway.Admin.{zero_signature}
use protocol_contracts_solan.Gateway.Contexts.{State}
use protocol_contracts_solan.Gateway.Requests.{Request, process, run, run-ok, run-err}
use protocol_contracts_solan.Gateway.Requests.Changes.{Changes}
use protocol_contracts_solan.Gateway.Requests.Effects.{process-Changes}
use protocol_contracts_solan.Gateway.Requests.Signing.{
  SignedBy, reset_signer, NoneSigned, NoneSigned-ok, NoneSigned-err, update_tss-is_signer,
  reset_nonce-is_signer,
}

-- The nonce that a request spends: that of its message, unless the authority vouches for it.
abbrev pub vouched : Signed → Option ℕ
vouched m = if eqb m.signature zero_signature then none else some m.nonce

abbrev pub nonce_of : Request → Option ℕ
nonce_of (Request.increment_nonce ctx amount m) = some m.nonce
nonce_of (Request.execute ctx remaining amount sender input m) = some m.nonce
nonce_of (Request.execute_revert ctx remaining amount sender input m) = some m.nonce
nonce_of (Request.execute_spl_token ctx remaining decimals amount sender input m) = some m.nonce
nonce_of (Request.execute_spl_token_revert ctx remaining decimals amount sender input m) =
    some m.nonce
nonce_of (Request.whitelist_spl_mint ctx m) = vouched m
nonce_of (Request.unwhitelist_spl_mint ctx m) = vouched m
nonce_of (Request.withdraw ctx amount m) = some m.nonce
nonce_of (Request.withdraw_spl_token ctx decimals amount m) = some m.nonce
nonce_of _ = none

Changes-spends :
    (r : Request) (p p' : Pda) (k : ℕ)
    → nonce_of r ≡ some k
    → Changes r p p'
    → (k ≡ p.nonce) × (p' ≡ advanced p)
Changes-spends (Request.initialize ctx tss chain_id) p p' k n c = absurd c
Changes-spends (Request.whitelist_spl_mint ctx m) p p' k n c = ground (arith, c.0, c.1)
Changes-spends (Request.unwhitelist_spl_mint ctx m) p p' k n c = ground (arith, c.0, c.1)
Changes-spends _ p p' k n c = ground arith

module _ (rt : Runtime) (p p' : Pda) (s s' : State) where
  accepted-le :
      (r : Request)
      → process rt r s ≡ ok s'
      → ¬ SignedBy p.authority (reset_signer r)
      → Changes r p p'
      → p.nonce ≤ p'.nonce
  unfolding process
  accepted-le (Request.initialize ctx tss chain_id) h n c = absurd c
  accepted-le (Request.update_tss ctx tss) h n c =
      absurd (n (c.0, update_tss-is_signer rt s s' ctx tss h))
  accepted-le (Request.reset_nonce ctx new_nonce) h n c =
      absurd (n (c.0, reset_nonce-is_signer rt s s' ctx new_nonce h))
  accepted-le (Request.whitelist_spl_mint ctx m) h n c = ground (arith, c.0, c.1)
  accepted-le (Request.unwhitelist_spl_mint ctx m) h n c = ground (arith, c.0, c.1)
  accepted-le _ h n c = ground arith

module _ (rt : Runtime) where
  -- Where the gateway has been initialized, the nonce never falls, whatever is run, as long as no
  -- update_tss or reset_nonce succeeds that the authority of the account has signed.
  run-le :
      (rs : List Request) (s : State) (p : Pda)
      → s.pda ≡ some p
      → NoneSigned rt reset_signer rs s
      → (p' : Pda) × ((run rt rs s).pda ≡ some p') × (p.nonce ≤ p'.nonce)
  unfolding run
  run-le [] s p e n = (p, e, omega arith)
  run-le (r ∷ rs) s p e n = elim (Result-cases (process rt r s)) [
    | inl (s₁, h) ↦
        let (p₁, e₁, c) = process-Changes rt p s s₁ e r h in
        let (p₂, e₂, le) = run-le rs s₁ p₁ e₁ (NoneSigned-ok rt reset_signer r rs s h n) in
        let step = accepted-le rt p p₁ s s₁ r h (n.0 p s₁ e h) c in
        (p₂, ap (λ q. q.pda) (run-ok rt r rs s s₁ h) ∙ e₂, omega (arith, step))
    | inr (x, h) ↦
        rw (run-err rt r rs s x h) (run-le rs s p e (NoneSigned-err rt reset_signer r rs s h n))
  ]

  -- Where the gateway has been initialized, once a request that spends a nonce has been accepted, no
  -- request that spends the same nonce is accepted, after any sequence of instructions, failed ones
  -- among them, in which no update_tss or reset_nonce succeeds that the authority of the account at
  -- that point has signed.
  pub accepted_once :
      (r r' : Request) (rs : List Request) (k : ℕ) (s s₁ s₂ : State) (p : Pda)
      → s.pda ≡ some p
      → nonce_of r ≡ some k
      → nonce_of r' ≡ some k
      → process rt r s ≡ ok s₁
      → NoneSigned rt reset_signer rs s₁
      → process rt r' (run rt rs s₁) ≢ ok s₂
  accepted_once r r' rs k s s₁ s₂ p e n n' h ns h' =
      let (p₁, e₁, c₁) = process-Changes rt p s s₁ e r h in
      let (p₂, e₂, le) = run-le rs s₁ p₁ e₁ ns in
      let (p₃, e₃, c₃) = process-Changes rt p₂ (run rt rs s₁) s₂ e₂ r' h' in
      absurd (
        omega (
          arith,
          (Changes-spends r p p₁ k n c₁).0,
          ap (λ (q : Pda). q.nonce) (Changes-spends r p p₁ k n c₁).1,
          (Changes-spends r' p₂ p₃ k n' c₃).0,
        ))
