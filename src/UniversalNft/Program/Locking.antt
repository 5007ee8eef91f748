-- ===== src/UniversalNft/Program/Locking.antt =====
-- What an owner's instructions do: `transfer_to_zetachain` and `unlock_nft` of
-- programs/universal_nft/src/lib.rs, with their contexts.
use protocol_contracts_solan.Prelude.{
  ℕ, ◌<◌, ◌≡◌, refl, ap, true, false, not, some, eqb, ltb, arith,
}
use protocol_contracts_solan.Prelude.Words.{Bytes}
use protocol_contracts_solan.Solana.Result.{ok, require, after, after_call}
use protocol_contracts_solan.Solana.Account.{Pubkey, World, update}
use protocol_contracts_solan.UniversalNft.State.{
  NftProgramState, NftInfo, Chain, unauthorized, token_locked, invalid_nonce, transfer,
}
use protocol_contracts_solan.UniversalNft.Runtime.{NftRuntime, NftLaws}
use protocol_contracts_solan.UniversalNft.Ledger.{OneMoved, TokensMoved-OneMoved}
use protocol_contracts_solan.UniversalNft.Contexts.{TransferToZetachain, UnlockNft}
use protocol_contracts_solan.UniversalNft.Accounts.{
  nft_program_pda, nft_info_pda, try_transfer_to_zetachain, try_unlock_nft,
}
use protocol_contracts_solan.UniversalNft.Accounts.Loaded.{
  try_transfer_to_zetachain-TransferLoaded, try_unlock_nft-UnlockLoaded,
}
use protocol_contracts_solan.UniversalNft.Handlers
use protocol_contracts_solan.UniversalNft.Handlers.{signer_seeds}
use protocol_contracts_solan.UniversalNft.Program.{Instruction, process, write_back}

-- The info account after a lock, and after `unlock_nft`.
abbrev pub locked_to : Bytes → NftInfo → NftInfo
locked_to recipient i = record i { is_locked = true; cross_chain_recipient = recipient }

abbrev pub unlocked : NftInfo → NftInfo
unlocked i = record i { is_locked = false }

-- One step of an owner that takes a nonce: who took it, in which state it found the NFT, what it
-- left, and which accounts the token moved between.
pub record Took (nrt : NftRuntime) (c c' : Chain) (info owner : Pubkey) (nonce : ℕ)
    (p : NftProgramState) (i i' : NftInfo) (from to : Pubkey) : Type 0 where
  pub program : c.program ≡ some p
  pub info_found : c.infos info ≡ some i
  pub info_address : info ≡ (nft_info_pda nrt i.mint).0
  pub by_owner : i.owner ≡ owner
  pub fresh : p.nonce < nonce
  pub program_left : c'.program ≡ some (record p { nonce = nonce })
  pub infos_left : c'.infos ≡ update c.infos info (some i')
  pub moved : OneMoved from to c.world c'.world

module _ (nrt : NftRuntime) where
  -- The associated accounts of the program and of an owner.
  abbrev pub custody_account : Pubkey → Pubkey
  custody_account mint = nrt.base.get_associated_token_address (nft_program_pda nrt).0 mint

  abbrev pub wallet_account : Pubkey → Pubkey → Pubkey
  wallet_account owner mint = nrt.base.get_associated_token_address owner mint

module _ (nrt : NftRuntime) (laws : NftLaws nrt) where
  pub transfer_handler :
      (ctx : TransferToZetachain) (chain : ℕ) (recipient : Bytes) (nonce : ℕ) (p : NftProgramState)
      (i : NftInfo) (w : World) {p' : NftProgramState} {i' : NftInfo} {w' : World}
      → Handlers.transfer_to_zetachain nrt ctx chain recipient nonce p i w ≡ ok (p', i', w')
      → (i.is_locked ≡ false)
        × (p.nonce < nonce)
        × (p' ≡ record p { nonce = nonce })
        × (i' ≡ locked_to recipient i)
        × (nrt.base.token_transfer ctx.owner_token_account.key ctx.program_token_account.key
              ctx.owner.key 1 w
            ≡ some w')
  unfolding Handlers.transfer_to_zetachain
  transfer_handler ctx chain recipient nonce p i w h =
      after (require (eqb i.owner ctx.owner.key) unauthorized) _ h λ u₁ e₁ h₁.
        after (require (not i.is_locked) token_locked) _ h₁ λ u₂ e₂ h₂.
          after (require (ltb p.nonce nonce) invalid_nonce) _ h₂ λ u₃ e₃ h₃.
            after_call
              (nrt.base.token_transfer ctx.owner_token_account.key ctx.program_token_account.key
                ctx.owner.key 1 w)
              _ h₃
              λ w₁ e₄ h₄.
                after_call
                  (nrt.try_to_vec (record {
                    message_type = transfer;
                    mint = i.mint;
                    recipient = recipient;
                    metadata_uri = i.metadata_uri;
                    name = i.name;
                    symbol = i.symbol;
                    nonce = nonce;
                  }))
                  _ h₄
                  λ bytes e₅ h₅.
                    (ground arith, ground arith, ground arith, ground arith, ground arith)

  -- Under the laws of the runtime, a transfer that succeeds was signed by the owner of an NFT that
  -- was not locked, under a nonce above all that were used; it locks the NFT for the recipient, and
  -- moves one token from the owner's associated account to the program's.
  pub transfer_locks :
      (ctx : TransferToZetachain) (chain : ℕ) (recipient : Bytes) (nonce : ℕ) (c c' : Chain)
      → process nrt (Instruction.transfer_to_zetachain ctx chain recipient nonce) c ≡ ok c'
      → (p : NftProgramState) × (i : NftInfo) × (ctx.owner.is_signer ≡ true)
        × (i.is_locked ≡ false)
        × Took nrt c c' ctx.nft_info.key ctx.owner.key nonce p i
            (locked_to recipient i)
            (wallet_account nrt ctx.owner.key i.mint)
            (custody_account nrt i.mint)
  unfolding process
  transfer_locks ctx chain recipient nonce c c' h =
      after (try_transfer_to_zetachain nrt ctx c) _ h λ (p, i, w) e h₁.
        after (Handlers.transfer_to_zetachain nrt ctx chain recipient nonce p i w) _ h₁
          λ (p', i', w') e' h₂.
            let l = try_transfer_to_zetachain-TransferLoaded nrt laws ctx c e in
            let (unlocked, fresh, ep, ei, call) =
              transfer_handler ctx chain recipient nonce p i w e' in
            let source = l.source in
            let target = rw l.program_key at l.target in
            let moved = laws.base.token_transfer_moves _ _ ctx.owner.key 1 w w' call in
            let left : c' ≡ write_back c ctx.nft_info.key (p', i', w') = ground arith in
            (
              p,
              i,
              l.info.owner_signed,
              unlocked,
              rw left (record {
                program = l.program;
                info_found = l.info.loaded;
                info_address = l.info.address;
                by_owner = l.info.owner_key;
                fresh = fresh;
                program_left = ap some ep;
                infos_left = ap (λ j. update c.infos ctx.nft_info.key (some j)) ei;
                moved =
                    TokensMoved-OneMoved _ _ c.world w w' l.world (rw (source, target) at moved);
              }),
            )

  unlock_handler :
      (ctx : UnlockNft) (nonce : ℕ) (p : NftProgramState) (i : NftInfo) (w : World)
      {p' : NftProgramState} {i' : NftInfo} {w' : World}
      → Handlers.unlock_nft nrt ctx nonce p i w ≡ ok (p', i', w')
      → (i.is_locked ≡ true)
        × (p.nonce < nonce)
        × (p' ≡ record p { nonce = nonce })
        × (i' ≡ unlocked i)
        × (nrt.transfer_signed ctx.program_token_account.key ctx.owner_token_account.key
              ctx.nft_program.key
              (signer_seeds p)
              1
              w
            ≡ some w')
  unfolding Handlers.unlock_nft
  unlock_handler ctx nonce p i w h = ground arith

  -- Under the laws of the runtime, an `unlock_nft` that succeeds was signed by the recorded owner of
  -- a locked NFT, under a nonce above all that were used; it unlocks the NFT, and moves one token
  -- from the program's associated account to the owner's.
  pub unlock_returns :
      (ctx : UnlockNft) (nonce : ℕ) (c c' : Chain)
      → process nrt (Instruction.unlock_nft ctx nonce) c ≡ ok c'
      → (p : NftProgramState) × (i : NftInfo) × (ctx.owner.is_signer ≡ true)
        × (i.is_locked ≡ true)
        × Took nrt c c' ctx.nft_info.key ctx.owner.key nonce p i
            (unlocked i)
            (custody_account nrt i.mint)
            (wallet_account nrt ctx.owner.key i.mint)
  unfolding process
  unlock_returns ctx nonce c c' h = after (try_unlock_nft nrt ctx c) _ h λ (p, i) e h₁.
      after (Handlers.unlock_nft nrt ctx nonce p i c.world) _ h₁ λ (p', i', w') e' h₂.
        let l = try_unlock_nft-UnlockLoaded nrt laws ctx c e in
        let (was_locked, fresh, ep, ei, call) = unlock_handler ctx nonce p i c.world e' in
        let source = rw l.program_key at l.source in
        let target = l.target in
        let moved =
          laws.transfer_signed_moves _ _ ctx.nft_program.key (signer_seeds p) 1 c.world w' call in
        let left : c' ≡ write_back c ctx.nft_info.key (p', i', w') = ground arith in
        (
          p,
          i,
          l.info.owner_signed,
          was_locked,
          rw left (record {
            program = l.program;
            info_found = l.info.loaded;
            info_address = l.info.address;
            by_owner = l.info.owner_key;
            fresh = fresh;
            program_left = ap some ep;
            infos_left = ap (λ j. update c.infos ctx.nft_info.key (some j)) ei;
            moved =
                TokensMoved-OneMoved _ _ c.world c.world w' (λ k. refl)
                  (rw (source, target) at moved);
          }),
        )
