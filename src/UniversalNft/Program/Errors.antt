-- ===== src/UniversalNft/Program/Errors.antt =====
-- Why `on_call` of programs/universal_nft/src/lib.rs fails.
use protocol_contracts_solan.Prelude.{
  sym, ap, ◌∙◌, ℕ, ◌+◌, ◌≤◌, ◌≡◌, ◌≢◌, false, Option, none, some, [], ◌∷◌, inl, inr, ◌⊎◌, eqb,
  eqb_iff, arith,
}
use protocol_contracts_solan.Prelude.Words.{Bytes, u64_mod}
use protocol_contracts_solan.Solana.Result.{err, custom, require, or_custom, failing, failing_call}
use protocol_contracts_solan.Solana.Account.{Pubkey, AccountInfo, World}
use protocol_contracts_solan.UniversalNft.State.{
  NftProgramState, NftInfo, CrossChainMessage, MessageType-cases, transfer, unlock, NftError,
  unauthorized, invalid_message, invalid_nonce, token_not_locked, overflow,
}
use protocol_contracts_solan.UniversalNft.Runtime.{NftRuntime}
use protocol_contracts_solan.UniversalNft.Contexts.{OnCall}
use protocol_contracts_solan.UniversalNft.Accounts.{nft_mint_pda, mint_key}
use protocol_contracts_solan.UniversalNft.Handlers.{signer_seeds, take_nonce, count_mint}
use protocol_contracts_solan.UniversalNft.OnCall
use protocol_contracts_solan.UniversalNft.OnCall.{
  create_if_empty, initialize_mint_if_new, create_metadata_if_empty, on_transfer, on_unlock,
}
use protocol_contracts_solan.UniversalNft.Program.Guards.{branch, branch_transfer, branch_unlock}

-- The error codes that a message `m` can fail with, each with its reason.
pub data Refused (p : NftProgramState) (i : NftInfo) (m : CrossChainMessage)
    : NftError → Type 0 where
  stale : m.nonce ≤ p.nonce → Refused p i m invalid_nonce
  not_locked : m.message_type ≡ unlock → i.is_locked ≡ false → Refused p i m token_not_locked
  full : m.message_type ≡ transfer → u64_mod ≤ p.total_supply + 1 → Refused p i m overflow

module _ (nrt : NftRuntime) where
  create_if_empty-silent :
      (info : AccountInfo) (payer wallet mint : Pubkey) (w : World) (x : NftError)
      → create_if_empty nrt info payer wallet mint w ≢ err (custom x)
  unfolding create_if_empty
  create_if_empty-silent info payer wallet mint w x h = ground arith

  initialize_mint_if_new-silent :
      (ctx : OnCall) (m : CrossChainMessage) (bump : Bytes) (supply : ℕ) (w : World) (x : NftError)
      → initialize_mint_if_new nrt ctx m bump supply w ≢ err (custom x)
  unfolding initialize_mint_if_new
  initialize_mint_if_new-silent ctx m bump supply w x h = ground arith

  create_metadata_if_empty-silent :
      (ctx : OnCall) (m : CrossChainMessage) (p : NftProgramState) (w : World) (x : NftError)
      → create_metadata_if_empty nrt ctx m p w ≢ err (custom x)
  unfolding create_metadata_if_empty
  create_metadata_if_empty-silent ctx m p w x h = ground arith

  on_transfer-overflows :
      (ctx : OnCall) (m : CrossChainMessage) (bump : Bytes) (supply : ℕ) (p : NftProgramState)
      (i : NftInfo) (w : World) (x : NftError)
      → on_transfer nrt ctx m bump supply p i w ≡ err (custom x)
      → (x ≡ overflow) × (u64_mod ≤ p.total_supply + 1)
  unfolding on_transfer
  on_transfer-overflows ctx m bump supply p i w x h =
      let to = ctx.recipient_token_account in
      let payer = ctx.payer.key in
      failing (initialize_mint_if_new nrt ctx m bump supply w) _ h
        (λ e. absurd (initialize_mint_if_new-silent ctx m bump supply w x e))
        λ w₁ e₁ h₁.
          failing (create_if_empty nrt to payer m.recipient ctx.mint.key w₁) _ h₁
            (λ e. absurd (create_if_empty-silent to payer m.recipient ctx.mint.key w₁ x e))
            λ w₂ e₂ h₂.
              failing_call
                (nrt.mint_to ctx.mint.key to.key ctx.nft_program.key (signer_seeds p) 1 w₂) _ h₂
                λ w₃ e₃ h₃.
                  failing (create_metadata_if_empty nrt ctx m p w₃) _ h₃
                    (λ e. absurd (create_metadata_if_empty-silent ctx m p w₃ x e))
                    λ w₄ e₄ h₄.
                      failing (count_mint p) _ h₄ (λ e. (ground arith, ground arith))
                        λ q e₅ h₅. absurd (cc)

  on_unlock-not_locked :
      (ctx : OnCall) (p : NftProgramState) (i : NftInfo) (w : World) (x : NftError)
      → on_unlock nrt ctx p i w ≡ err (custom x)
      → (x ≡ token_not_locked) × (i.is_locked ≡ false)
  unfolding on_unlock
  on_unlock-not_locked ctx p i w x h =
      let from = ctx.program_token_account in
      let to = ctx.owner_token_account in
      let payer = ctx.payer.key in
      failing (require i.is_locked token_not_locked) _ h (λ e. (ground arith, ground arith))
        λ u₁ e₁ h₁.
          failing (create_if_empty nrt from payer ctx.nft_program.key ctx.mint.key w) _ h₁
            (λ e. absurd (create_if_empty-silent from payer ctx.nft_program.key ctx.mint.key w x e))
            λ w₁ e₂ h₂.
              failing (create_if_empty nrt to payer i.owner ctx.mint.key w₁) _ h₂
                (λ e. absurd (create_if_empty-silent to payer i.owner ctx.mint.key w₁ x e))
                λ w₂ e₃ h₃.
                  failing_call
                    (nrt.transfer_signed from.key to.key ctx.nft_program.key (signer_seeds p) 1 w₂)
                    _ h₃ λ w₃ e₄ h₄. absurd (cc)

  branch-Refused :
      (ctx : OnCall) (m : CrossChainMessage) (bump : Bytes) (supply : ℕ) (p : NftProgramState)
      (i : NftInfo) (w : World) (x : NftError)
      → branch nrt ctx m bump supply (record p { nonce = m.nonce }) i w ≡ err (custom x)
      → Refused p i m x
  branch-Refused ctx m bump supply p i w x h =
      let q : NftProgramState = record p { nonce = m.nonce } in
      elim (MessageType-cases m.message_type) [
        | inl kind ↦
            let (code, reached) =
              on_transfer-overflows ctx m bump supply q i w x
                (sym (branch_transfer nrt ctx m bump supply q i w kind) ∙ h) in
            rw code (full kind reached)
        | inr kind ↦
            let (code, free) =
              on_unlock-not_locked ctx q i w x
                (sym (branch_unlock nrt ctx m bump supply q i w kind) ∙ h) in
            rw code (not_locked kind free)
      ]

  -- An `on_call` that fails with an error of the program fails for the reason of its code: the caller
  -- is not the gateway, the message does not parse, its nonce is not above the last one, an unlock
  -- finds the NFT not locked, or a transfer finds the supply at the top of a `u64`. No other error
  -- code is raised.
  pub on_call_errors :
      (ctx : OnCall) (caller : Option Pubkey) (amount : ℕ) (sender input : Bytes)
      (p : NftProgramState) (i : NftInfo) (supply : ℕ) (w : World) (x : NftError)
      → OnCall.on_call nrt ctx caller amount sender input p i supply w ≡ err (custom x)
      → ((x ≡ unauthorized) × (caller ≢ some nrt.base.gateway_id))
        ⊎ ((x ≡ invalid_message) × (nrt.try_from_slice input ≡ none))
        ⊎ ((m : CrossChainMessage) × (nrt.try_from_slice input ≡ some m) × Refused p i m x)
  unfolding OnCall.on_call
  on_call_errors ctx caller amount sender input p i supply w x h =
      let gateway = nrt.base.gateway_id in
      let bump = (nft_mint_pda nrt (mint_key amount sender input)).1 ∷ [] in
      failing (or_custom caller unauthorized) _ h (λ e. inl (ground arith, ground arith))
        λ id e₁ h₁.
          failing (require (eqb id gateway) unauthorized) _ h₁
            (λ e. inl (ground arith, ground (arith, eqb_iff id gateway)))
            λ u e₂ h₂.
              failing (or_custom (nrt.try_from_slice input) invalid_message) _ h₂
                (λ e. inr (inl (ground arith, ground arith)))
                λ m e₃ h₃.
                  let parsed : nrt.try_from_slice input ≡ some m = ground arith in
                  failing (take_nonce p m.nonce) _ h₃
                    (λ e.
                      let code : x ≡ invalid_nonce = ground arith in
                      inr (inr (m, parsed, rw code (stale (ground arith)))))
                    λ q e₄ h₄.
                      let same : q ≡ record p { nonce = m.nonce } = ground arith in
                      inr (
                        inr (
                          m,
                          parsed,
                          branch-Refused ctx m bump supply p i w x
                              (ap (λ r. branch nrt ctx m bump supply r i w) (sym same) ∙ h₄),
                        ))
