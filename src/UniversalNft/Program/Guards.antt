-- ===== src/UniversalNft/Program/Guards.antt =====
-- The guards of the handler `on_call` of programs/universal_nft/src/lib.rs, before either branch.
use protocol_contracts_solan.Prelude.{
  ℕ, ◌<◌, ◌≡◌, sym, ap, ◌∙◌, Option, some, [], ◌∷◌, eqb, eqb_iff, arith,
}
use protocol_contracts_solan.Prelude.Words.{Bytes}
use protocol_contracts_solan.Solana.Result.{Result, ok, require, or_custom, after}
use protocol_contracts_solan.Solana.Account.{Pubkey, World}
use protocol_contracts_solan.UniversalNft.State.{
  NftProgramState, NftInfo, CrossChainMessage, transfer, unlock, NftError, unauthorized,
  invalid_message,
}
use protocol_contracts_solan.UniversalNft.Runtime.{NftRuntime}
use protocol_contracts_solan.UniversalNft.Contexts.{OnCall}
use protocol_contracts_solan.UniversalNft.Accounts.{nft_mint_pda, mint_key}
use protocol_contracts_solan.UniversalNft.Handlers.{take_nonce}
use protocol_contracts_solan.UniversalNft.OnCall
use protocol_contracts_solan.UniversalNft.Program.{Instruction, process}
use protocol_contracts_solan.UniversalNft.Accounts.{try_on_call}
use protocol_contracts_solan.UniversalNft.State.{Chain}
use protocol_contracts_solan.UniversalNft.OnCall.{on_transfer, on_unlock}

module _ (nrt : NftRuntime) where
  -- What `on_call` goes on with once the message is let through.
  abbrev pub branch :
      OnCall
      → CrossChainMessage
      → Bytes
      → ℕ
      → NftProgramState
      → NftInfo
      → World
      → Result NftError (NftProgramState × NftInfo × World)
  branch ctx m bump supply p i w = elim m.message_type [
    | transfer ↦ on_transfer nrt ctx m bump supply p i w
    | unlock ↦ on_unlock nrt ctx p i w
  ]

  pub on_call_handler :
      (ctx : OnCall) (caller : Option Pubkey) (amount : ℕ) (sender input : Bytes)
      (p : NftProgramState) (i : NftInfo) (supply : ℕ) (w : World)
      {done : NftProgramState × NftInfo × World}
      → OnCall.on_call nrt ctx caller amount sender input p i supply w ≡ ok done
      → (m : CrossChainMessage) × (caller ≡ some nrt.base.gateway_id)
        × (nrt.try_from_slice input ≡ some m)
        × (p.nonce < m.nonce)
        × (branch ctx m
              ((nft_mint_pda nrt (mint_key amount sender input)).1 ∷ [])
              supply
              (record p { nonce = m.nonce })
              i
              w
            ≡ ok done)
  unfolding OnCall.on_call
  on_call_handler ctx caller amount sender input p i supply w h =
      after (or_custom caller unauthorized) _ h λ id e₁ h₁.
        after (require (eqb id nrt.base.gateway_id) unauthorized) _ h₁ λ u e₂ h₂.
          after (or_custom (nrt.try_from_slice input) invalid_message) _ h₂ λ m e₃ h₃.
            after (take_nonce p m.nonce) _ h₃ λ q e₄ h₄.
              let same : q ≡ record p { nonce = m.nonce } = ground arith in
              (
                m,
                ground (arith, eqb_iff id nrt.base.gateway_id),
                ground arith,
                ground arith,
                ap
                      (λ r.
                        branch ctx m ((nft_mint_pda nrt (mint_key amount sender input)).1 ∷ [])
                          supply r i w)
                      (sym same)
                    ∙ h₄,
              )

  pub branch_transfer :
      (ctx : OnCall) (m : CrossChainMessage) (bump : Bytes) (supply : ℕ) (p : NftProgramState)
      (i : NftInfo) (w : World)
      → m.message_type ≡ transfer
      → branch ctx m bump supply p i w ≡ on_transfer nrt ctx m bump supply p i w
  branch_transfer ctx m bump supply p i w e = rw e

  pub branch_unlock :
      (ctx : OnCall) (m : CrossChainMessage) (bump : Bytes) (supply : ℕ) (p : NftProgramState)
      (i : NftInfo) (w : World)
      → m.message_type ≡ unlock
      → branch ctx m bump supply p i w ≡ on_unlock nrt ctx p i w
  branch_unlock ctx m bump supply p i w e = rw e

  -- A call that succeeds has a message.
  pub on_call_parses :
      (ctx : OnCall) (caller : Option Pubkey) (amount : ℕ) (sender input : Bytes) (c c' : Chain)
      → process nrt (Instruction.on_call ctx caller amount sender input) c ≡ ok c'
      → (m : CrossChainMessage) × (nrt.try_from_slice input ≡ some m)
  unfolding process
  on_call_parses ctx caller amount sender input c c' h =
      after (try_on_call nrt ctx amount sender input c) _ h λ (p, i, supply, w) e h₁.
        after (OnCall.on_call nrt ctx caller amount sender input p i supply w) _ h₁ λ done e' h₂.
          let (m, by_gateway, parsed, fresh, rest) =
            on_call_handler ctx caller amount sender input p i supply w e' in
          (m, parsed)
