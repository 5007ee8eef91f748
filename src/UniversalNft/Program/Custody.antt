-- ===== src/UniversalNft/Program/Custody.antt =====
-- The tokens that programs/universal_nft/src/lib.rs holds for the NFTs that are locked.
use protocol_contracts_solan.Prelude.{
  ◌≤◌, ◌≡◌, ◌≢◌, sym, ap, ◌∙◌, true, some, inl, inr, eqb, eqb→eq, eqb_iff, Bool-cases,
  if◌then◌else◌, arith,
}
use protocol_contracts_solan.Solana.Account.{Pubkey, World, balance, update}
use protocol_contracts_solan.UniversalNft.State.{NftInfo, Chain}
use protocol_contracts_solan.UniversalNft.Runtime.{NftRuntime, NftLaws}
use protocol_contracts_solan.UniversalNft.Ledger.{OneMoved, OneMinted}
use protocol_contracts_solan.UniversalNft.Accounts.{nft_program_pda, nft_info_pda}
use protocol_contracts_solan.UniversalNft.Program.{Instruction}
use protocol_contracts_solan.UniversalNft.Program.Locking.{custody_account}

module _ (nrt : NftRuntime) where
  -- The program's associated account of a mint holds the NFT.
  abbrev pub Held : World → Pubkey → Type 0
  Held w mint = 1 ≤ balance w (custody_account nrt mint)

  -- Every NFT that is locked stands at the info address of its mint, and its token is held.
  pub record Custody (c : Chain) : Type 0 where
    pub address :
        (key : Pubkey) (i : NftInfo)
        → c.infos key ≡ some i
        → i.is_locked ≡ true
        → key ≡ (nft_info_pda nrt i.mint).0
    pub held :
        (key : Pubkey) (i : NftInfo)
        → c.infos key ≡ some i
        → i.is_locked ≡ true
        → Held c.world i.mint

  -- The addresses that the contexts do not check: an owner that signs is not the program's own
  -- account, and `on_call` is given the program's associated account of its mint.
  unfoldable pub Proper : Instruction → Type 0
  Proper (Instruction.initialize ctx gateway) = Unit
  Proper (Instruction.mint_nft ctx name symbol uri recipient) = Unit
  Proper (Instruction.transfer_to_zetachain ctx chain recipient nonce) =
      ctx.owner.key ≢ (nft_program_pda nrt).0
  Proper (Instruction.handle_cross_chain_call ctx sender chain message nonce) = Unit
  Proper (Instruction.on_call ctx caller amount sender input) =
      ctx.program_token_account.key ≡ custody_account nrt ctx.mint.key
  Proper (Instruction.unlock_nft ctx nonce) = Unit

  -- One info account is written, and no other mint's account loses a token.
  module _ (c c' : Chain) (key : Pubkey) (i' : NftInfo)
      (written : c'.infos ≡ update c.infos key (some i'))
      (here : i'.is_locked ≡ true → (key ≡ (nft_info_pda nrt i'.mint).0) × Held c'.world i'.mint)
      (away : (mint : Pubkey)
        → (nft_info_pda nrt mint).0 ≢ key
        → Held c.world mint
        → Held c'.world mint)
      (before : Custody c) where
    at : (k : Pubkey) → c'.infos k ≡ (if eqb k key then some i' else c.infos k)
    at k = ap (λ f. f k) written

    write_keeps :
        (k : Pubkey) (j : NftInfo)
        → c'.infos k ≡ some j
        → j.is_locked ≡ true
        → (k ≡ (nft_info_pda nrt j.mint).0) × Held c'.world j.mint
    write_keeps k j found locked = elim (Bool-cases (eqb k key)) [
      | inl same ↦
          let j_is : j ≡ i' = ground (arith, same, found, at k) in
          let (address, held) = here (ap (λ n. n.is_locked) (sym j_is) ∙ locked) in
          (
            eqb→eq k key same ∙ address ∙ ap (λ n. (nft_info_pda nrt n.mint).0) (sym j_is),
            rw j_is held,
          )
      | inr other ↦
          let kept : c.infos k ≡ some j = ground (arith, other, found, at k) in
          let address = before.address k j kept locked in
          (
            address,
            away j.mint (λ clash. ground (arith, eqb_iff k key, other, address, clash))
                (before.held k j kept locked),
          )
    ]

    pub write-Custody : Custody c'
    write-Custody = record {
      address = λ k j found locked. (write_keeps k j found locked).0;
      held = λ k j found locked. (write_keeps k j found locked).1;
    }

  module _ (w w' : World) (mint : Pubkey) where
    pub minted-Held : (to : Pubkey) → OneMinted to w w' → Held w mint → Held w' mint
    minted-Held to m h =
        let account = custody_account nrt mint in
        elim (Bool-cases (eqb account to)) [
          | inl same ↦ rw (eqb→eq account to same) (omega (arith, m.given))
          | inr other ↦
              omega (arith, h, m.others account (ground (arith, eqb_iff account to, other)))
        ]

    -- A token that moves leaves the other accounts no poorer.
    pub moved-Held :
        (from to : Pubkey)
        → OneMoved from to w w'
        → custody_account nrt mint ≢ from
        → Held w mint
        → Held w' mint
    moved-Held from to m ne h =
        let account = custody_account nrt mint in
        elim (Bool-cases (eqb account to)) [
          | inl same ↦
              let there = eqb→eq account to same in
              rw there (omega (arith, m.given (λ e. ne (there ∙ sym e))))
          | inr other ↦
              omega (arith, h, m.others account ne (ground (arith, eqb_iff account to, other)))
        ]

module _ (nrt : NftRuntime) (laws : NftLaws nrt) where
  pub custody_account-injective :
      (mint mint' : Pubkey) → custody_account nrt mint ≡ custody_account nrt mint' → mint ≡ mint'
  custody_account-injective mint mint' e =
      (laws.ata-injective (nft_program_pda nrt).0 (nft_program_pda nrt).0 mint mint' e).1
