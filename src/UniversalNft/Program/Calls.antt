-- ===== src/UniversalNft/Program/Calls.antt =====
-- What the two branches of `on_call` of programs/universal_nft/src/lib.rs do.
use protocol_contracts_solan.Prelude.{
  ℕ, ◌+◌, ◌<◌, ◌≡◌, true, false, some, [], ◌∷◌, inl, inr, replicate, ◌==◌, Bool-cases, arith,
}
use protocol_contracts_solan.Prelude.Words.{Bytes, u64_mod}
use protocol_contracts_solan.Solana.Result.{ok, require, after, after_call}
use protocol_contracts_solan.Solana.Account.{Pubkey, AccountInfo, World}
use protocol_contracts_solan.UniversalNft.State.{
  NftProgramState, NftInfo, CrossChainMessage, token_not_locked,
}
use protocol_contracts_solan.UniversalNft.Runtime.{NftRuntime, NftLaws}
use protocol_contracts_solan.UniversalNft.Ledger.{
  SameBalances, SameBalances-trans, SameBalances-of_token, OneMoved, OneMinted,
  TokensMinted-OneMinted, TokensMoved-OneMoved, OneMinted-then, create_ata-SameBalances,
}
use protocol_contracts_solan.UniversalNft.Contexts.{OnCall}
use protocol_contracts_solan.UniversalNft.Accounts.{nft_info_pda, nft_mint_seed}
use protocol_contracts_solan.UniversalNft.Handlers.{signer_seeds, metadata_of, count_mint}
use protocol_contracts_solan.UniversalNft.OnCall.{
  create_if_empty, initialize_mint_if_new, create_metadata_if_empty, on_transfer, on_unlock,
}

-- The record of an NFT that came back.
abbrev pub returned : NftInfo → NftInfo
returned i = record i { is_locked = false; cross_chain_recipient = replicate 32 0 }

module _ (nrt : NftRuntime) where
  -- The record of an NFT that came from another chain.
  abbrev pub arrived : OnCall → CrossChainMessage → NftInfo
  arrived ctx m = record {
    mint = ctx.mint.key;
    owner = m.recipient;
    metadata_uri = m.metadata_uri;
    name = m.name;
    symbol = m.symbol;
    is_locked = false;
    cross_chain_recipient = replicate 32 0;
    bump = (nft_info_pda nrt ctx.mint.key).1;
  }

module _ (nrt : NftRuntime) (laws : NftLaws nrt) where
  create_if_empty-keeps :
      (info : AccountInfo) (payer wallet mint : Pubkey) (w w' : World)
      → create_if_empty nrt info payer wallet mint w ≡ ok w'
      → SameBalances w w'
  unfolding create_if_empty
  create_if_empty-keeps info payer wallet mint w w' h =
      elim (Bool-cases (nrt.data_is_empty info.key w)) [
        | inl missing ↦
            create_ata-SameBalances nrt laws payer wallet mint w w' (ground (arith, missing))
        | inr found ↦ SameBalances-of_token w w' (ground (arith, found))
      ]

  initialize_mint_if_new-keeps :
      (ctx : OnCall) (m : CrossChainMessage) (bump : Bytes) (supply : ℕ) (w w' : World)
      → initialize_mint_if_new nrt ctx m bump supply w ≡ ok w'
      → SameBalances w w'
  unfolding initialize_mint_if_new
  initialize_mint_if_new-keeps ctx m bump supply w w' h = elim (Bool-cases (supply == 0)) [
    | inl fresh ↦ SameBalances-of_token w w' (
        laws.initialize_mint_tokens ctx.mint.key (nft_mint_seed ∷ m.mint ∷ bump ∷ []) 0
          ctx.nft_program.key (some ctx.nft_program.key) w w' (ground (arith, fresh)))
    | inr old ↦ SameBalances-of_token w w' (ground (arith, old))
  ]

  create_metadata_if_empty-keeps :
      (ctx : OnCall) (m : CrossChainMessage) (p : NftProgramState) (w w' : World)
      → create_metadata_if_empty nrt ctx m p w ≡ ok w'
      → SameBalances w w'
  unfolding create_metadata_if_empty
  create_metadata_if_empty-keeps ctx m p w w' h =
      elim (Bool-cases (nrt.data_is_empty ctx.metadata.key w)) [
        | inl missing ↦ SameBalances-of_token w w' (
            laws.create_metadata_tokens ctx.metadata.key ctx.mint.key ctx.nft_program.key
              ctx.payer.key (signer_seeds p) (metadata_of m.name m.symbol m.metadata_uri) w w'
              (ground (arith, missing)))
        | inr found ↦ SameBalances-of_token w w' (ground (arith, found))
      ]

  pub on_transfer-mints :
      (ctx : OnCall) (m : CrossChainMessage) (bump : Bytes) (supply : ℕ) (p : NftProgramState)
      (i : NftInfo) (w : World) {p' : NftProgramState} {i' : NftInfo} {w' : World}
      → on_transfer nrt ctx m bump supply p i w ≡ ok (p', i', w')
      → (p.total_supply + 1 < u64_mod)
        × (p' ≡ record p { total_supply = p.total_supply + 1 })
        × (i' ≡ arrived nrt ctx m)
        × OneMinted ctx.recipient_token_account.key w w'
  unfolding on_transfer
  on_transfer-mints ctx m bump supply p i w {p'} {i'} {w'} h =
      let to = ctx.recipient_token_account in
      let payer = ctx.payer.key in
      after (initialize_mint_if_new nrt ctx m bump supply w) _ h λ w₁ e₁ h₁.
        after (create_if_empty nrt to payer m.recipient ctx.mint.key w₁) _ h₁ λ w₂ e₂ h₂.
          after_call (nrt.mint_to ctx.mint.key to.key ctx.nft_program.key (signer_seeds p) 1 w₂) _
            h₂
            λ w₃ e₃ h₃. after (create_metadata_if_empty nrt ctx m p w₃) _ h₃ λ w₄ e₄ h₄.
              after (count_mint p) _ h₄ λ q e₅ h₅.
                let same : w' ≡ w₄ = ground arith in
                let kept =
                  SameBalances-trans w w₁ w₂
                    (initialize_mint_if_new-keeps ctx m bump supply w w₁ e₁)
                    (create_if_empty-keeps to payer m.recipient ctx.mint.key w₁ w₂ e₂) in
                (
                  ground arith,
                  ground arith,
                  ground arith,
                  rw same (
                      OneMinted-then to.key w w₃ w₄
                        (TokensMinted-OneMinted ctx.mint.key to.key w w₂ w₃ kept
                          (laws.mint_to_mints _ _ ctx.nft_program.key (signer_seeds p) 1 w₂ w₃ e₃))
                        (create_metadata_if_empty-keeps ctx m p w₃ w₄ e₄)),
                )

  pub on_unlock-moves :
      (ctx : OnCall) (p : NftProgramState) (i : NftInfo) (w : World) {p' : NftProgramState}
      {i' : NftInfo} {w' : World}
      → on_unlock nrt ctx p i w ≡ ok (p', i', w')
      → (i.is_locked ≡ true)
        × (p' ≡ p)
        × (i' ≡ returned i)
        × OneMoved ctx.program_token_account.key ctx.owner_token_account.key w w'
  unfolding on_unlock
  on_unlock-moves ctx p i w {p'} {i'} {w'} h =
      let from = ctx.program_token_account in
      let to = ctx.owner_token_account in
      let payer = ctx.payer.key in
      after (require i.is_locked token_not_locked) _ h λ u₁ e₁ h₁.
        after (create_if_empty nrt from payer ctx.nft_program.key ctx.mint.key w) _ h₁ λ w₁ e₂ h₂.
          after (create_if_empty nrt to payer i.owner ctx.mint.key w₁) _ h₂ λ w₂ e₃ h₃.
            after_call
              (nrt.transfer_signed from.key to.key ctx.nft_program.key (signer_seeds p) 1 w₂) _ h₃
              λ w₃ e₄ h₄.
                let same : w' ≡ w₃ = ground arith in
                let kept =
                  SameBalances-trans w w₁ w₂
                    (create_if_empty-keeps from payer ctx.nft_program.key ctx.mint.key w w₁ e₂)
                    (create_if_empty-keeps to payer i.owner ctx.mint.key w₁ w₂ e₃) in
                (
                  ground arith,
                  ground arith,
                  ground arith,
                  rw same (
                      TokensMoved-OneMoved from.key to.key w w₂ w₃ kept (
                        laws.transfer_signed_moves _ _ ctx.nft_program.key (signer_seeds p) 1 w₂ w₃
                          e₄)),
                )
