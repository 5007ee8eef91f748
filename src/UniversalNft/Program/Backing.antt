-- ===== src/UniversalNft/Program/Backing.antt =====
-- The instructions of programs/universal_nft/src/lib.rs keep the tokens of the locked NFTs.
use protocol_contracts_solan.Prelude.{
  ℕ, ◌+◌, ◌≡◌, ◌≢◌, refl, sym, ap, ◌∙◌, Option, some, List, [], ◌∷◌, inl, inr, arith,
}
use protocol_contracts_solan.Prelude.Words.{Bytes}
use protocol_contracts_solan.UniversalNft.Program.Calls.{arrived, returned}
use protocol_contracts_solan.Solana.Result.{ok, Result-cases, after}
use protocol_contracts_solan.Solana.Account.{Pubkey}
use protocol_contracts_solan.UniversalNft.State.{
  program_space, Chain, CrossChainMessage, MessageType-cases,
}
use protocol_contracts_solan.UniversalNft.Runtime.{NftRuntime, NftLaws}
use protocol_contracts_solan.UniversalNft.Ledger.{SameBalances, SameBalances-of_token}
use protocol_contracts_solan.UniversalNft.Contexts.{Initialize, HandleCrossChainCall, OnCall}
use protocol_contracts_solan.UniversalNft.Accounts.{
  nft_program_pda, nft_info_pda, try_initialize, try_handle_cross_chain_call,
}
use protocol_contracts_solan.UniversalNft.Handlers
use protocol_contracts_solan.UniversalNft.Program.{Instruction, process, run, run-ok, run-err}
use protocol_contracts_solan.UniversalNft.Program.Locking.{
  locked_to, unlocked, wallet_account, custody_account, transfer_locks, unlock_returns,
}
use protocol_contracts_solan.UniversalNft.Program.Minting.{new_info, mint_nft_mints}
use protocol_contracts_solan.UniversalNft.Program.Messages.{on_call_mints, on_call_unlocks}
use protocol_contracts_solan.UniversalNft.Program.Guards.{on_call_parses}
use protocol_contracts_solan.UniversalNft.Program.Custody.{
  Custody, Proper, write-Custody, minted-Held, moved-Held, custody_account-injective,
}

module _ (nrt : NftRuntime) (laws : NftLaws nrt) where
  same-Custody :
      (c c' : Chain)
      → c'.infos ≡ c.infos
      → SameBalances c.world c'.world
      → Custody nrt c
      → Custody nrt c'
  same-Custody c c' infos same before = record {
    address =
        λ key i found locked. before.address key i (ap (λ f. f key) (sym infos) ∙ found) locked;
    held = λ key i found locked. omega (
      arith,
      before.held key i (ap (λ f. f key) (sym infos) ∙ found) locked,
      same (custody_account nrt i.mint),
    );
  }

  initialize_keeps :
      (ctx : Initialize) (gateway : Pubkey) (c c' : Chain)
      → process nrt (Instruction.initialize ctx gateway) c ≡ ok c'
      → (c'.infos ≡ c.infos) × SameBalances c.world c'.world
  unfolding process try_initialize
  initialize_keeps ctx gateway c c' h = after (try_initialize nrt ctx c) _ h λ w e h₁.
      let left : c' ≡ record c { program = some (Handlers.initialize nrt ctx gateway); world = w } =
        ground arith in
      rw left (
        refl,
        SameBalances-of_token c.world w (
            laws.create_account_tokens ctx.authority.key ctx.nft_program.key (8 + program_space)
              c.world w (ground arith)),
      )

  handle_keeps :
      (ctx : HandleCrossChainCall) (sender : Bytes) (chain : ℕ) (message : Bytes) (nonce : ℕ)
      (c c' : Chain)
      → process nrt (Instruction.handle_cross_chain_call ctx sender chain message nonce) c ≡ ok c'
      → (c'.infos ≡ c.infos) × SameBalances c.world c'.world
  unfolding process
  handle_keeps ctx sender chain message nonce c c' h =
      after (try_handle_cross_chain_call nrt ctx c) _ h λ p e h₁.
        after (Handlers.handle_cross_chain_call nrt sender chain message nonce p) _ h₁ λ p' e' h₂.
          let left : c' ≡ record c { program = some p' } = ground arith in rw left (refl, λ k. refl)

  module _ (c c' : Chain) (before : Custody nrt c) where
    call-Custody :
        (ctx : OnCall) (caller : Option Pubkey) (amount : ℕ) (sender input : Bytes)
        (m : CrossChainMessage)
        → ctx.program_token_account.key ≡ custody_account nrt ctx.mint.key
        → nrt.try_from_slice input ≡ some m
        → process nrt (Instruction.on_call ctx caller amount sender input) c ≡ ok c'
        → Custody nrt c'
    call-Custody ctx caller amount sender input m proper parsed h =
        elim (MessageType-cases m.message_type) [
          | inl kind ↦
              let (p, i, guards, done) =
                on_call_mints nrt laws ctx caller amount sender input m c c' parsed kind h in
              write-Custody nrt c c' ctx.nft_info.key (arrived nrt ctx m) done.infos_left
                (λ locked. absurd (cc))
                (λ mint ne held.
                  minted-Held nrt c.world c'.world mint ctx.recipient_token_account.key done.minted
                    held)
                before
          | inr kind ↦
              let (p, i, guards, found, done) =
                on_call_unlocks nrt laws ctx caller amount sender input m c c' parsed kind h in
              write-Custody nrt c c' ctx.nft_info.key (returned i) done.infos_left
                (λ locked. absurd (cc))
                (λ mint ne held.
                  moved-Held nrt c.world c'.world mint ctx.program_token_account.key
                    ctx.owner_token_account.key done.moved
                    (λ clash. ne (
                      ap (λ k. (nft_info_pda nrt k).0)
                        (custody_account-injective nrt laws mint ctx.mint.key (clash ∙ proper))
                      ∙ sym guards.info_address))
                    held)
                before
        ]

    -- Under the laws of the runtime, an instruction that succeeds keeps the tokens of the locked
    -- NFTs: if each locked NFT stands at the info address of its mint and its token lies in the
    -- program's associated account, this is so afterwards. The owner of a transfer is not the
    -- program's own account, and `on_call` is given the program's associated account of its mint.
    process-Custody : (ix : Instruction) → Proper nrt ix → process nrt ix c ≡ ok c' → Custody nrt c'
    unfolding Proper
    process-Custody (Instruction.initialize ctx gateway) proper h =
        let (infos, same) = initialize_keeps ctx gateway c c' h in
        same-Custody c c' infos same before
    process-Custody (Instruction.mint_nft ctx name symbol uri recipient) proper h =
        let (p, fits, done) = mint_nft_mints nrt laws ctx name symbol uri recipient c c' h in
        write-Custody nrt c c' ctx.nft_info.key
          (new_info ctx.mint.key name symbol uri recipient (nft_info_pda nrt ctx.mint.key).1)
          done.infos_left (λ locked. absurd (cc))
          (λ mint ne held.
            minted-Held nrt c.world c'.world mint
              (nrt.base.get_associated_token_address recipient ctx.mint.key) done.minted held)
          before
    process-Custody (Instruction.transfer_to_zetachain ctx chain recipient nonce) proper h =
        let (p, i, signed, free, t) = transfer_locks nrt laws ctx chain recipient nonce c c' h in
        let owner = ctx.owner.key in
        let pda = (nft_program_pda nrt).0 in
        let away : (mint : Pubkey) → custody_account nrt mint ≢ wallet_account nrt owner i.mint =
          λ mint e. proper (sym (laws.ata-injective pda owner mint i.mint e).0) in
        write-Custody nrt c c' ctx.nft_info.key (locked_to recipient i) t.infos_left
          (λ locked. (t.info_address, omega (arith, t.moved.given (λ e. away i.mint (sym e)))))
          (λ mint ne held.
            moved-Held nrt c.world c'.world mint (wallet_account nrt owner i.mint)
              (custody_account nrt i.mint) t.moved (away mint) held)
          before
    process-Custody (Instruction.handle_cross_chain_call ctx sender chain message nonce) proper h =
        let (infos, same) = handle_keeps ctx sender chain message nonce c c' h in
        same-Custody c c' infos same before
    process-Custody (Instruction.on_call ctx caller amount sender input) proper h =
        let (m, parsed) = on_call_parses nrt ctx caller amount sender input c c' h in
        call-Custody ctx caller amount sender input m proper parsed h
    process-Custody (Instruction.unlock_nft ctx nonce) proper h =
        let (p, i, signed, was_locked, t) = unlock_returns nrt laws ctx nonce c c' h in
        write-Custody nrt c c' ctx.nft_info.key (unlocked i) t.infos_left (λ locked. absurd (cc))
          (λ mint ne held.
            moved-Held nrt c.world c'.world mint (custody_account nrt i.mint)
              (wallet_account nrt ctx.owner.key i.mint) t.moved
              (λ clash. ne (
                ap (λ k. (nft_info_pda nrt k).0)
                  (custody_account-injective nrt laws mint i.mint clash)
                ∙ sym t.info_address))
              held)
          before

  -- Every instruction of a run is proper.
  unfoldable pub AllProper : List Instruction → Type 0
  AllProper [] = Unit
  AllProper (ix ∷ ixs) = Proper nrt ix × AllProper ixs

  -- Under the laws of the runtime, a run of such instructions, failed ones among them, keeps the
  -- tokens of the locked NFTs.
  pub run-Custody :
      (ixs : List Instruction) (c : Chain)
      → AllProper ixs
      → Custody nrt c
      → Custody nrt (run nrt ixs c)
  unfolding AllProper run
  run-Custody [] c proper before = before
  run-Custody (ix ∷ ixs) c (proper, rest) before = elim (Result-cases (process nrt ix c)) [
    | inl (c₁, accepted) ↦
        rw (run-ok nrt ix ixs c c₁ accepted)
          (run-Custody ixs c₁ rest (process-Custody c c₁ before ix proper accepted))
    | inr (e, refused) ↦ rw (run-err nrt ix ixs c e refused) (run-Custody ixs c rest before)
  ]
