-- ===== src/UniversalNft/Program/Counters.antt =====
-- The nonce and the total supply of programs/universal_nft/src/lib.rs under one instruction.
use protocol_contracts_solan.Prelude.{ℕ, ◌+◌, ◌<◌, ◌≡◌, ◌≢◌, Option, none, some, inl, inr, arith}
use protocol_contracts_solan.Prelude.Words.{Bytes, u64_mod}
use protocol_contracts_solan.Solana.Result.{ok, or_custom, after}
use protocol_contracts_solan.Solana.Account.{Pubkey}
use protocol_contracts_solan.UniversalNft.State.{
  NftProgramState, Chain, CrossChainMessage, MessageType-cases, transfer, unlock, invalid_message,
}
use protocol_contracts_solan.UniversalNft.Runtime.{NftRuntime}
use protocol_contracts_solan.UniversalNft.Contexts.{Initialize, HandleCrossChainCall}
use protocol_contracts_solan.UniversalNft.Accounts.{try_initialize, try_handle_cross_chain_call}
use protocol_contracts_solan.UniversalNft.Accounts.Loaded.{try_nft_program-loads}
use protocol_contracts_solan.UniversalNft.Handlers
use protocol_contracts_solan.UniversalNft.Handlers.{take_nonce}
use protocol_contracts_solan.UniversalNft.Program.{Instruction, process}

module _ (nrt : NftRuntime) where
  -- The nonce that a message carries, if there is a message.
  abbrev pub message_nonce : Option CrossChainMessage → Option ℕ
  message_nonce none = none
  message_nonce (some m) = some m.nonce

  abbrev pub message_mints : Option CrossChainMessage → ℕ
  message_mints none = 0
  message_mints (some m) = elim m.message_type [ transfer ↦ 1 | unlock ↦ 0 ]

  -- The nonce that an instruction takes, if it takes one.
  unfoldable pub nonce_taken : Instruction → Option ℕ
  nonce_taken (Instruction.initialize ctx gateway) = none
  nonce_taken (Instruction.mint_nft ctx name symbol uri recipient) = none
  nonce_taken (Instruction.transfer_to_zetachain ctx chain recipient nonce) = some nonce
  nonce_taken (Instruction.handle_cross_chain_call ctx sender chain message nonce) = some nonce
  nonce_taken (Instruction.on_call ctx caller amount sender input) =
      message_nonce (nrt.try_from_slice input)
  nonce_taken (Instruction.unlock_nft ctx nonce) = some nonce

  -- The number of tokens that an instruction mints.
  unfoldable pub mints : Instruction → ℕ
  mints (Instruction.initialize ctx gateway) = 0
  mints (Instruction.mint_nft ctx name symbol uri recipient) = 1
  mints (Instruction.transfer_to_zetachain ctx chain recipient nonce) = 0
  mints (Instruction.handle_cross_chain_call ctx sender chain message nonce) = 0
  mints (Instruction.on_call ctx caller amount sender input) =
      message_mints (nrt.try_from_slice input)
  mints (Instruction.unlock_nft ctx nonce) = 0

  -- How an instruction moves the state on: a nonce that it takes is above the last one and becomes
  -- it, the supply grows by what it mints and stays a `u64`, and the rest stays.
  pub record Advances (ix : Instruction) (p p' : NftProgramState) : Type 0 where
    pub kept : nonce_taken ix ≡ none → p'.nonce ≡ p.nonce
    pub taken : (n : ℕ) → nonce_taken ix ≡ some n → (p.nonce < n) × (p'.nonce ≡ n)
    pub supply : p'.total_supply ≡ p.total_supply + mints ix
    pub bounded : mints ix ≢ 0 → p'.total_supply < u64_mod
    pub authority : p'.authority ≡ p.authority
    pub gateway : p'.gateway ≡ p.gateway

  pub initialize_once :
      (ctx : Initialize) (gateway : Pubkey) (c c' : Chain) (p : NftProgramState)
      → c.program ≡ some p
      → process nrt (Instruction.initialize ctx gateway) c ≢ ok c'
  unfolding process try_initialize
  initialize_once ctx gateway c c' p loaded h = ground (arith, loaded)

  pub handle_takes :
      (ctx : HandleCrossChainCall) (sender : Bytes) (chain : ℕ) (message : Bytes) (nonce : ℕ)
      (c c' : Chain) (p : NftProgramState)
      → c.program ≡ some p
      → process nrt (Instruction.handle_cross_chain_call ctx sender chain message nonce) c ≡ ok c'
      → (p.nonce < nonce) × (c'.program ≡ some (record p { nonce = nonce }))
  unfolding process try_handle_cross_chain_call Handlers.handle_cross_chain_call
  handle_takes ctx sender chain message nonce c c' p loaded h =
      after (try_handle_cross_chain_call nrt ctx c) _ h λ q e h₁.
        let (found, key) = try_nft_program-loads nrt c ctx.nft_program e in
        let same : q ≡ p = ground arith in
        after (Handlers.handle_cross_chain_call nrt sender chain message nonce q) _ h₁ λ q' e' h₂.
          after (take_nonce q nonce) _ e' λ q₂ e₂ h₃.
            after (or_custom (nrt.try_from_slice message) invalid_message) _ h₃ λ m e₃ h₄.
              let left : q' ≡ q₂ = elim (MessageType-cases m.message_type) [
                | inl mint ↦ ground (arith, mint)
                | inr release ↦ ground (arith, release)
              ] in
              ground arith
