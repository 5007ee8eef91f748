-- ===== src/UniversalNft/Accounts/Loaded.antt =====
-- What the contexts of programs/universal_nft/src/lib.rs have checked once they are loaded.
use protocol_contracts_solan.Prelude.{◌≡◌, refl, true, some, inl, inr, eqb_iff, Option-cases, arith}
use protocol_contracts_solan.Solana.Result.{ok, after}
use protocol_contracts_solan.Solana.Account.{Pubkey, AccountInfo, World}
use protocol_contracts_solan.UniversalNft.State.{NftProgramState, NftInfo, Chain}
use protocol_contracts_solan.UniversalNft.Runtime.{NftRuntime, NftLaws}
use protocol_contracts_solan.UniversalNft.Ledger.{SameBalances, create_ata-SameBalances}
use protocol_contracts_solan.UniversalNft.Contexts.{TransferToZetachain, UnlockNft}
use protocol_contracts_solan.UniversalNft.Accounts.{
  nft_program_pda, nft_info_pda, try_nft_program, try_nft_info, try_token_account,
  init_token_account, ensure_token_account, try_transfer_to_zetachain, try_unlock_nft,
}

module _ (nrt : NftRuntime) (c : Chain) where
  pub try_nft_program-loads :
      (info : AccountInfo) {p : NftProgramState}
      → try_nft_program nrt info c ≡ ok p
      → (c.program ≡ some p) × (info.key ≡ (nft_program_pda nrt).0)
  unfolding try_nft_program
  try_nft_program-loads info h = ground (arith, eqb_iff info.key (nft_program_pda nrt).0)

  -- The info account of a mint, as its owner's instructions load it.
  pub record OwnedInfo (info owner : AccountInfo) (i : NftInfo) : Type 0 where
    pub loaded : c.infos info.key ≡ some i
    pub address : info.key ≡ (nft_info_pda nrt i.mint).0
    pub owner_key : i.owner ≡ owner.key
    pub owner_signed : owner.is_signer ≡ true

  pub try_nft_info-OwnedInfo :
      (info owner : AccountInfo) {i : NftInfo}
      → try_nft_info nrt info owner c ≡ ok i
      → OwnedInfo info owner i
  unfolding try_nft_info
  try_nft_info-OwnedInfo info owner {i} h =
      ground (arith, eqb_iff info.key (nft_info_pda nrt i.mint).0, eqb_iff i.owner owner.key)

module _ (nrt : NftRuntime) (info : AccountInfo) (wallet mint : Pubkey) (w : World) where
  abbrev ata : Pubkey
  ata = nrt.base.get_associated_token_address wallet mint

  pub try_token_account-key : try_token_account nrt info wallet mint w ≡ ok tt → info.key ≡ ata
  unfolding try_token_account
  try_token_account-key h = ground (arith, eqb_iff info.key ata)

module _ (nrt : NftRuntime) (laws : NftLaws nrt) where
  pub init_token_account-keeps :
      (info : AccountInfo) (payer wallet mint : Pubkey) (w w' : World)
      → init_token_account nrt info payer wallet mint w ≡ ok w'
      → (info.key ≡ nrt.base.get_associated_token_address wallet mint) × SameBalances w w'
  unfolding init_token_account
  init_token_account-keeps info payer wallet mint w w' h = (
    ground (arith, eqb_iff info.key (nrt.base.get_associated_token_address wallet mint)),
    create_ata-SameBalances nrt laws payer wallet mint w w' (ground arith),
  )

  ensure_token_account-keeps :
      (info : AccountInfo) (payer wallet mint : Pubkey) (w w' : World)
      → ensure_token_account nrt info payer wallet mint w ≡ ok w'
      → (info.key ≡ nrt.base.get_associated_token_address wallet mint) × SameBalances w w'
  unfolding ensure_token_account
  ensure_token_account-keeps info payer wallet mint w w' h =
      elim (Option-cases (w.token info.key)) [
        | inl missing ↦
            init_token_account-keeps info payer wallet mint w w'
              (rw (missing, ensure_token_account) at h)
        | inr (t, found) ↦
            after (try_token_account nrt info wallet mint w) _
              (rw (found, ensure_token_account) at h)
              λ u e e'.
                let same : w ≡ w' = ground arith in
                (try_token_account-key nrt info wallet mint w e, rw same (λ k. refl))
      ]

  pub record TransferLoaded (ctx : TransferToZetachain) (c : Chain) (p : NftProgramState)
      (i : NftInfo) (w : World) : Type 0 where
    pub program : c.program ≡ some p
    pub program_key : ctx.nft_program.key ≡ (nft_program_pda nrt).0
    pub info : OwnedInfo nrt c ctx.nft_info ctx.owner i
    pub source :
        ctx.owner_token_account.key ≡ nrt.base.get_associated_token_address ctx.owner.key i.mint
    pub target :
        ctx.program_token_account.key
        ≡ nrt.base.get_associated_token_address ctx.nft_program.key i.mint
    pub world : SameBalances c.world w

  pub try_transfer_to_zetachain-TransferLoaded :
      (ctx : TransferToZetachain) (c : Chain) {p : NftProgramState} {i : NftInfo} {w : World}
      → try_transfer_to_zetachain nrt ctx c ≡ ok (p, i, w)
      → TransferLoaded ctx c p i w
  unfolding try_transfer_to_zetachain
  try_transfer_to_zetachain-TransferLoaded ctx c {p} {i} {w} h =
      after (try_nft_program nrt ctx.nft_program c) _ h λ p₁ e₁ h₁.
        after (try_nft_info nrt ctx.nft_info ctx.owner c) _ h₁ λ i₁ e₂ h₂.
          after (try_token_account nrt ctx.owner_token_account ctx.owner.key i₁.mint c.world) _ h₂
            λ u₃ e₃ h₃.
              after
                (ensure_token_account nrt ctx.program_token_account ctx.owner.key
                  ctx.nft_program.key i₁.mint c.world)
                _ h₃
                λ w₁ e₄ h₄.
                  let same : (p ≡ p₁) × (i ≡ i₁) × (w ≡ w₁) = ground arith in
                  let (loaded, key) = try_nft_program-loads nrt c ctx.nft_program e₁ in
                  let (target, kept) =
                    ensure_token_account-keeps ctx.program_token_account ctx.owner.key
                      ctx.nft_program.key i₁.mint c.world w₁ e₄ in
                  rw (same.0, same.1, same.2)
                    (record {
                      program = loaded;
                      program_key = key;
                      info = try_nft_info-OwnedInfo nrt c ctx.nft_info ctx.owner e₂;
                      source =
                          try_token_account-key nrt ctx.owner_token_account ctx.owner.key i₁.mint
                            c.world e₃;
                      target = target;
                      world = kept;
                    })

  pub record UnlockLoaded (ctx : UnlockNft) (c : Chain) (p : NftProgramState) (i : NftInfo)
      : Type 0 where
    pub program : c.program ≡ some p
    pub program_key : ctx.nft_program.key ≡ (nft_program_pda nrt).0
    pub info : OwnedInfo nrt c ctx.nft_info ctx.owner i
    pub source :
        ctx.program_token_account.key
        ≡ nrt.base.get_associated_token_address ctx.nft_program.key i.mint
    pub target :
        ctx.owner_token_account.key ≡ nrt.base.get_associated_token_address ctx.owner.key i.mint

  pub try_unlock_nft-UnlockLoaded :
      (ctx : UnlockNft) (c : Chain) {p : NftProgramState} {i : NftInfo}
      → try_unlock_nft nrt ctx c ≡ ok (p, i)
      → UnlockLoaded ctx c p i
  unfolding try_unlock_nft
  try_unlock_nft-UnlockLoaded ctx c {p} {i} h =
      after (try_nft_program nrt ctx.nft_program c) _ h λ p₁ e₁ h₁.
        after (try_nft_info nrt ctx.nft_info ctx.owner c) _ h₁ λ i₁ e₂ h₂.
          after (try_token_account nrt ctx.owner_token_account ctx.owner.key i₁.mint c.world) _ h₂
            λ u₃ e₃ h₃.
              after
                (try_token_account nrt ctx.program_token_account ctx.nft_program.key i₁.mint
                  c.world)
                _ h₃
                λ u₄ e₄ h₄.
                  let same : (p ≡ p₁) × (i ≡ i₁) = ground arith in
                  let (loaded, key) = try_nft_program-loads nrt c ctx.nft_program e₁ in
                  rw (same.0, same.1)
                    (record {
                      program = loaded;
                      program_key = key;
                      info = try_nft_info-OwnedInfo nrt c ctx.nft_info ctx.owner e₂;
                      source =
                          try_token_account-key nrt ctx.program_token_account ctx.nft_program.key
                            i₁.mint c.world e₄;
                      target =
                          try_token_account-key nrt ctx.owner_token_account ctx.owner.key i₁.mint
                            c.world e₃;
                    })
