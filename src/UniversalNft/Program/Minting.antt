-- ===== src/UniversalNft/Program/Minting.antt =====
-- What mints an NFT from here: `mint_nft` of programs/universal_nft/src/lib.rs, with its context.
use protocol_contracts_solan.Prelude.{
  ℕ, ◌+◌, ◌≤◌, ◌<◌, ◌≡◌, refl, ap, ◌∙◌, none, some, length, leb, arith,
}
use protocol_contracts_solan.Prelude.Words.{Bytes, u64_mod}
use protocol_contracts_solan.Solana.Result.{ok, require, after, after_call}
use protocol_contracts_solan.Solana.Account.{Pubkey, World, update}
use protocol_contracts_solan.UniversalNft.State.{
  NftProgramState, NftInfo, zero_info, Chain, invalid_metadata,
}
use protocol_contracts_solan.UniversalNft.Runtime.{NftRuntime, NftLaws}
use protocol_contracts_solan.UniversalNft.Ledger.{
  SameBalances-of_token, OneMinted, TokensMinted-OneMinted, OneMinted-then,
}
use protocol_contracts_solan.UniversalNft.Contexts.{MintNft}
use protocol_contracts_solan.UniversalNft.Accounts.{nft_info_pda, try_mint_nft}
use protocol_contracts_solan.UniversalNft.Accounts.Created.{try_mint_nft-MintLoaded}
use protocol_contracts_solan.UniversalNft.Handlers
use protocol_contracts_solan.UniversalNft.Handlers.{signer_seeds, metadata_of, count_mint}
use protocol_contracts_solan.UniversalNft.Program.{Instruction, process, write_back}

-- The record of a new NFT, for an info account with this bump.
abbrev pub new_info : Pubkey → Bytes → Bytes → Bytes → Pubkey → ℕ → NftInfo
new_info mint name symbol uri recipient bump = record zero_info {
  mint = mint;
  owner = recipient;
  metadata_uri = uri;
  name = name;
  symbol = symbol;
  bump = bump;
}

-- The lengths that the info account has room for.
pub record Fits (name symbol uri : Bytes) : Type 0 where
  pub name_fits : length name ≤ 32
  pub symbol_fits : length symbol ≤ 10
  pub uri_fits : length uri ≤ 200

pub record Minted (nrt : NftRuntime) (c c' : Chain) (info : Pubkey) (p : NftProgramState)
    (i' : NftInfo) (to : Pubkey) : Type 0 where
  pub program : c.program ≡ some p
  pub info_new : c.infos info ≡ none
  pub info_address : info ≡ (nft_info_pda nrt i'.mint).0
  pub counted : p.total_supply + 1 < u64_mod
  pub program_left : c'.program ≡ some (record p { total_supply = p.total_supply + 1 })
  pub infos_left : c'.infos ≡ update c.infos info (some i')
  pub minted : OneMinted to c.world c'.world

module _ (nrt : NftRuntime) (laws : NftLaws nrt) where
  mint_handler :
      (ctx : MintNft) (name symbol uri : Bytes) (recipient : Pubkey) (p : NftProgramState)
      (w : World) {p' : NftProgramState} {i' : NftInfo} {w' : World}
      → Handlers.mint_nft nrt ctx name symbol uri recipient p w ≡ ok (p', i', w')
      → Fits name symbol uri
        × (p.total_supply + 1 < u64_mod)
        × (p' ≡ record p { total_supply = p.total_supply + 1 })
        × (i' ≡ new_info ctx.mint.key name symbol uri recipient (nft_info_pda nrt ctx.mint.key).1)
        × OneMinted ctx.token_account.key w w'
  unfolding Handlers.mint_nft
  mint_handler ctx name symbol uri recipient p w {p'} {i'} {w'} h =
      after (require (leb (length name) 32) invalid_metadata) _ h λ u₁ e₁ h₁.
        after (require (leb (length symbol) 10) invalid_metadata) _ h₁ λ u₂ e₂ h₂.
          after (require (leb (length uri) 200) invalid_metadata) _ h₂ λ u₃ e₃ h₃.
            after_call
              (nrt.mint_to ctx.mint.key ctx.token_account.key ctx.nft_program.key (signer_seeds p) 1
                w)
              _ h₃
              λ w₁ e₄ h₄.
                after_call
                  (nrt.create_metadata ctx.metadata.key ctx.mint.key ctx.nft_program.key
                    ctx.payer.key (signer_seeds p) (metadata_of name symbol uri) w₁)
                  _ h₄
                  λ w₂ e₅ h₅. after (count_mint p) _ h₅ λ q e₆ h₆.
                    let same : (p' ≡ q) × (w' ≡ w₂) = ground arith in
                    (
                      ground arith,
                      ground arith,
                      ground arith,
                      ground arith,
                      rw same.1 (
                          OneMinted-then ctx.token_account.key w w₁ w₂
                            (TokensMinted-OneMinted ctx.mint.key ctx.token_account.key w w w₁
                              (λ k. refl)
                              (laws.mint_to_mints _ _ ctx.nft_program.key (signer_seeds p) 1 w w₁
                                e₄))
                            (SameBalances-of_token w₁ w₂ (
                              laws.create_metadata_tokens ctx.metadata.key ctx.mint.key
                                ctx.nft_program.key ctx.payer.key (signer_seeds p)
                                (metadata_of name symbol uri) w₁ w₂ e₅))),
                    )

  -- Under the laws of the runtime, a `mint_nft` that succeeds fits the lengths of the metadata,
  -- counts the NFT, whose number does not overflow, creates its record, unlocked and owned by the
  -- recipient, and mints one token into the recipient's associated account.
  pub mint_nft_mints :
      (ctx : MintNft) (name symbol uri : Bytes) (recipient : Pubkey) (c c' : Chain)
      → process nrt (Instruction.mint_nft ctx name symbol uri recipient) c ≡ ok c'
      → (p : NftProgramState) × Fits name symbol uri
        × Minted nrt c c' ctx.nft_info.key p
            (new_info ctx.mint.key name symbol uri recipient (nft_info_pda nrt ctx.mint.key).1)
            (nrt.base.get_associated_token_address recipient ctx.mint.key)
  unfolding process
  mint_nft_mints ctx name symbol uri recipient c c' h =
      after (try_mint_nft nrt ctx recipient c) _ h λ (p, w) e h₁.
        after (Handlers.mint_nft nrt ctx name symbol uri recipient p w) _ h₁ λ (p', i', w') e' h₂.
          let l = try_mint_nft-MintLoaded nrt laws ctx recipient c e in
          let (fits, counted, ep, ei, m) = mint_handler ctx name symbol uri recipient p w e' in
          let minted = rw l.token_account at m in
          let left : c' ≡ write_back c ctx.nft_info.key (p', i', w') = ground arith in
          (
            p,
            fits,
            rw left (record {
              program = l.program;
              info_new = l.info_new;
              info_address = l.info_key;
              counted = counted;
              program_left = ap some ep;
              infos_left = ap (λ j. update c.infos ctx.nft_info.key (some j)) ei;
              minted = record {
                given = omega (
                  arith,
                  minted.given,
                  l.world (nrt.base.get_associated_token_address recipient ctx.mint.key),
                );
                others = λ k ne. minted.others k ne ∙ l.world k;
              };
            }),
          )
