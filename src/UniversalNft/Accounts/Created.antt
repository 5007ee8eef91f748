-- ===== src/UniversalNft/Accounts/Created.antt =====
-- What the contexts that create accounts have checked and left once they are loaded:
-- `MintNft` and `OnCall` of programs/universal_nft/src/lib.rs.
use protocol_contracts_solan.Prelude.{
  ℕ, ◌+◌, ◌≡◌, none, some, inl, inr, ◌⊎◌, eqb_iff, Option-cases, arith,
}
use protocol_contracts_solan.Prelude.Words.{Bytes}
use protocol_contracts_solan.Solana.Result.{ok, after, after_call, constrain, constraint_mut}
use protocol_contracts_solan.Solana.Account.{Pubkey, AccountInfo, World}
use protocol_contracts_solan.UniversalNft.State.{
  NftProgramState, NftInfo, zero_info, info_space, Chain,
}
use protocol_contracts_solan.UniversalNft.Runtime.{NftRuntime, NftLaws}
use protocol_contracts_solan.UniversalNft.Ledger.{
  SameBalances, SameBalances-trans, SameBalances-of_token,
}
use protocol_contracts_solan.UniversalNft.Contexts.{MintNft, OnCall}
use protocol_contracts_solan.UniversalNft.Accounts.{
  nft_program_pda, nft_info_pda, nft_mint_pda, mint_key, try_payer, try_nft_program,
  init_token_account, init_nft_info, ensure_mint, ensure_nft_info, try_mint_nft, try_on_call,
}
use protocol_contracts_solan.UniversalNft.Accounts.Loaded.{
  try_nft_program-loads, init_token_account-keeps,
}

-- The info account that was there, or a new one.
abbrev pub InfoLoaded : Chain → Pubkey → NftInfo → Type 0
InfoLoaded c key i = (c.infos key ≡ some i) ⊎ ((c.infos key ≡ none) × (i ≡ zero_info))

module _ (nrt : NftRuntime) (laws : NftLaws nrt) where
  init_nft_info-new :
      (info : AccountInfo) (payer mint : Pubkey) (c : Chain) (w w' : World)
      → init_nft_info nrt info payer mint c w ≡ ok w'
      → (info.key ≡ (nft_info_pda nrt mint).0) × (c.infos info.key ≡ none) × SameBalances w w'
  unfolding init_nft_info
  init_nft_info-new info payer mint c w w' h = (
    ground (arith, eqb_iff info.key (nft_info_pda nrt mint).0),
    ground arith,
    SameBalances-of_token w w'
        (laws.create_account_tokens payer info.key (8 + info_space) w w' (ground arith)),
  )

  pub record MintLoaded (ctx : MintNft) (recipient : Pubkey) (c : Chain) (p : NftProgramState)
      (w : World) : Type 0 where
    pub program : c.program ≡ some p
    pub token_account :
        ctx.token_account.key ≡ nrt.base.get_associated_token_address recipient ctx.mint.key
    pub info_key : ctx.nft_info.key ≡ (nft_info_pda nrt ctx.mint.key).0
    pub info_new : c.infos ctx.nft_info.key ≡ none
    pub world : SameBalances c.world w

  pub try_mint_nft-MintLoaded :
      (ctx : MintNft) (recipient : Pubkey) (c : Chain) {p : NftProgramState} {w : World}
      → try_mint_nft nrt ctx recipient c ≡ ok (p, w)
      → MintLoaded ctx recipient c p w
  unfolding try_mint_nft
  try_mint_nft-MintLoaded ctx recipient c {p} {w} h =
      let mint = ctx.mint.key in
      let payer = ctx.payer.key in
      after (try_payer nrt ctx.payer) _ h λ v₁ d₁ g₁.
        after (try_nft_program nrt ctx.nft_program c) _ g₁ λ p₁ e₁ h₁.
          after (constrain ctx.mint.is_writable constraint_mut) _ h₁ λ v₂ d₂ g₂.
            after_call (nrt.create_mint payer mint 0 ctx.nft_program.key c.world) _ g₂ λ w₁ e₂ h₂.
              after (init_token_account nrt ctx.token_account payer recipient mint w₁) _ h₂
                λ w₂ e₃ h₃. after (init_nft_info nrt ctx.nft_info payer mint c w₂) _ h₃ λ w₃ e₄ h₄.
                  let same : (p ≡ p₁) × (w ≡ w₃) = ground arith in
                  let (ata, kept₂) =
                    init_token_account-keeps nrt laws ctx.token_account payer recipient mint w₁ w₂
                      e₃ in
                  let (key, missing, kept₃) =
                    init_nft_info-new ctx.nft_info payer mint c w₂ w₃ e₄ in
                  let kept₁ =
                    SameBalances-of_token c.world w₁
                      (laws.create_mint_tokens payer mint 0 ctx.nft_program.key c.world w₁ e₂) in
                  rw (same.0, same.1)
                    (record {
                      program = (try_nft_program-loads nrt c ctx.nft_program e₁).0;
                      token_account = ata;
                      info_key = key;
                      info_new = missing;
                      world =
                          SameBalances-trans c.world w₁ w₃ kept₁
                            (SameBalances-trans w₁ w₂ w₃ kept₂ kept₃);
                    })

  ensure_mint-keeps :
      (info : AccountInfo) (payer key : Pubkey) (w w' : World) (supply : ℕ)
      → ensure_mint nrt info payer key w ≡ ok (supply, w')
      → (info.key ≡ (nft_mint_pda nrt key).0) × SameBalances w w'
  unfolding ensure_mint
  ensure_mint-keeps info payer key w w' supply h = (
    ground (arith, eqb_iff info.key (nft_mint_pda nrt key).0),
    elim (Option-cases (w.mint info.key)) [
      | inl missing ↦
          SameBalances-of_token w w'
            (laws.allocate_mint_tokens payer info.key 82 w w' (ground (arith, missing)))
      | inr (n, found) ↦ SameBalances-of_token w w' (ground (arith, found))
    ],
  )

  ensure_nft_info-keeps :
      (info : AccountInfo) (payer mint : Pubkey) (c : Chain) (w w' : World) (i : NftInfo)
      → ensure_nft_info nrt info payer mint c w ≡ ok (i, w')
      → (info.key ≡ (nft_info_pda nrt mint).0) × InfoLoaded c info.key i × SameBalances w w'
  unfolding ensure_nft_info
  ensure_nft_info-keeps info payer mint c w w' i h =
      let key : info.key ≡ (nft_info_pda nrt mint).0 =
        ground (arith, eqb_iff info.key (nft_info_pda nrt mint).0) in
      elim (Option-cases (c.infos info.key)) [
        | inl missing ↦ (
          key,
          inr (missing, ground (arith, missing)),
          SameBalances-of_token w w' (
              laws.create_account_tokens payer info.key (8 + info_space) w w'
                (ground (arith, missing))),
        )
        | inr (j, found) ↦
            (key, inl (ground (arith, found)), SameBalances-of_token w w' (ground (arith, found)))
      ]

  pub record CallLoaded (ctx : OnCall) (key : Pubkey) (c : Chain) (p : NftProgramState)
      (i : NftInfo) (w : World) : Type 0 where
    pub program : c.program ≡ some p
    pub program_key : ctx.nft_program.key ≡ (nft_program_pda nrt).0
    pub mint : ctx.mint.key ≡ (nft_mint_pda nrt key).0
    pub info_key : ctx.nft_info.key ≡ (nft_info_pda nrt ctx.mint.key).0
    pub info : InfoLoaded c ctx.nft_info.key i
    pub world : SameBalances c.world w

  pub try_on_call-CallLoaded :
      (ctx : OnCall) (amount : ℕ) (sender input : Bytes) (c : Chain) {p : NftProgramState}
      {i : NftInfo} {supply : ℕ} {w : World}
      → try_on_call nrt ctx amount sender input c ≡ ok (p, i, supply, w)
      → CallLoaded ctx (mint_key amount sender input) c p i w
  unfolding try_on_call
  try_on_call-CallLoaded ctx amount sender input c {p} {i} {supply} {w} h =
      let payer = ctx.payer.key in
      let key = mint_key amount sender input in
      after (try_payer nrt ctx.payer) _ h λ v₁ d₁ g₁.
        after (try_nft_program nrt ctx.nft_program c) _ g₁ λ p₁ e₁ h₁.
          after (ensure_mint nrt ctx.mint payer key c.world) _ h₁ λ (n, w₁) e₂ h₂.
            after (ensure_nft_info nrt ctx.nft_info payer ctx.mint.key c w₁) _ h₂ λ (j, w₂) e₃ h₃.
              let same : (p ≡ p₁) × (i ≡ j) × (w ≡ w₂) = ground arith in
              let (loaded, program_key) = try_nft_program-loads nrt c ctx.nft_program e₁ in
              let (mint, kept₁) = ensure_mint-keeps ctx.mint payer key c.world w₁ n e₂ in
              let (info_key, info, kept₂) =
                ensure_nft_info-keeps ctx.nft_info payer ctx.mint.key c w₁ w₂ j e₃ in
              rw (same.0, same.1, same.2)
                (record {
                  program = loaded;
                  program_key = program_key;
                  mint = mint;
                  info_key = info_key;
                  info = info;
                  world = SameBalances-trans c.world w₁ w₂ kept₁ kept₂;
                })
