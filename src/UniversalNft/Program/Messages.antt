-- ===== src/UniversalNft/Program/Messages.antt =====
-- What the gateway's calls do: `on_call` of programs/universal_nft/src/lib.rs, with its context.
use protocol_contracts_solan.Prelude.{
  inl, inr, ℕ, ◌+◌, ◌<◌, ◌≡◌, sym, ap, ◌∙◌, true, Option, some, [], ◌∷◌, arith,
}
use protocol_contracts_solan.Prelude.Words.{Bytes, u64_mod}
use protocol_contracts_solan.Solana.Result.{ok, after}
use protocol_contracts_solan.Solana.Account.{Pubkey, World, update}
use protocol_contracts_solan.UniversalNft.State.{
  NftProgramState, NftInfo, Chain, CrossChainMessage, transfer, unlock,
}
use protocol_contracts_solan.UniversalNft.Runtime.{NftRuntime, NftLaws}
use protocol_contracts_solan.UniversalNft.Ledger.{SameBalances, OneMoved, OneMinted}
use protocol_contracts_solan.UniversalNft.Contexts.{OnCall}
use protocol_contracts_solan.UniversalNft.Accounts.{
  nft_info_pda, nft_mint_pda, mint_key, try_on_call,
}
use protocol_contracts_solan.UniversalNft.Accounts.Created.{InfoLoaded, try_on_call-CallLoaded}
use protocol_contracts_solan.UniversalNft.OnCall
use protocol_contracts_solan.UniversalNft.OnCall.{on_transfer, on_unlock}
use protocol_contracts_solan.UniversalNft.Program.{Instruction, process, write_back}
use protocol_contracts_solan.UniversalNft.Program.Guards.{
  branch, on_call_handler, branch_transfer, branch_unlock,
}
use protocol_contracts_solan.UniversalNft.Program.Calls.{
  arrived, returned, on_transfer-mints, on_unlock-moves,
}

-- What either kind of message was let through by: the caller is the gateway, the message parses, its
-- nonce is fresh, and the mint and the info account stand at their addresses.
pub record Called (nrt : NftRuntime) (ctx : OnCall) (caller : Option Pubkey) (key : Pubkey)
    (input : Bytes) (c : Chain) (p : NftProgramState) (i : NftInfo) (m : CrossChainMessage)
    : Type 0 where
  pub program : c.program ≡ some p
  pub by_gateway : caller ≡ some nrt.base.gateway_id
  pub message : nrt.try_from_slice input ≡ some m
  pub fresh : p.nonce < m.nonce
  pub mint : ctx.mint.key ≡ (nft_mint_pda nrt key).0
  pub info_address : ctx.nft_info.key ≡ (nft_info_pda nrt ctx.mint.key).0
  pub info : InfoLoaded c ctx.nft_info.key i

-- A locked NFT has an info account: a new one is not locked.
InfoLoaded-locked :
    (c : Chain) (key : Pubkey) (i : NftInfo)
    → InfoLoaded c key i
    → i.is_locked ≡ true
    → c.infos key ≡ some i
InfoLoaded-locked c key i (inl found) locked = found
InfoLoaded-locked c key i (inr (missing, new)) locked = absurd (cc)

-- What a message leaves.
pub record Arrived (ctx : OnCall) (c c' : Chain) (m : CrossChainMessage) (p : NftProgramState)
    (to : Pubkey) (i' : NftInfo) : Type 0 where
  pub counted : p.total_supply + 1 < u64_mod
  pub program_left :
      c'.program ≡ some (record p { nonce = m.nonce; total_supply = p.total_supply + 1 })
  pub infos_left : c'.infos ≡ update c.infos ctx.nft_info.key (some i')
  pub minted : OneMinted to c.world c'.world

pub record Returned (ctx : OnCall) (c c' : Chain) (m : CrossChainMessage) (p : NftProgramState)
    (i : NftInfo) : Type 0 where
  pub was_locked : i.is_locked ≡ true
  pub program_left : c'.program ≡ some (record p { nonce = m.nonce })
  pub infos_left : c'.infos ≡ update c.infos ctx.nft_info.key (some (returned i))
  pub moved : OneMoved ctx.program_token_account.key ctx.owner_token_account.key c.world c'.world

module _ (nrt : NftRuntime) (laws : NftLaws nrt) (ctx : OnCall) (caller : Option Pubkey)
    (amount : ℕ) (sender input : Bytes) (m : CrossChainMessage) (c c' : Chain) where
  abbrev key : Pubkey
  key = mint_key amount sender input

  abbrev minter : Bytes
  minter = (nft_mint_pda nrt key).1 ∷ []

  -- The context and the guards of the handler, for a message that is known.
  called :
      nrt.try_from_slice input ≡ some m
      → process nrt (Instruction.on_call ctx caller amount sender input) c ≡ ok c'
      → (p : NftProgramState) × (i : NftInfo) × (supply : ℕ) × (w : World) × (done : NftProgramState
          × NftInfo × World)
        × Called nrt ctx caller key input c p i m
        × SameBalances c.world w
        × (branch nrt ctx m minter supply (record p { nonce = m.nonce }) i w ≡ ok done)
        × (c' ≡ write_back c ctx.nft_info.key done)
  unfolding process
  called parsed h = after (try_on_call nrt ctx amount sender input c) _ h λ (p, i, supply, w) e h₁.
      after (OnCall.on_call nrt ctx caller amount sender input p i supply w) _ h₁ λ done e' h₂.
        let l = try_on_call-CallLoaded nrt laws ctx amount sender input c e in
        let (m', by_gateway, read, fresh, rest) =
          on_call_handler nrt ctx caller amount sender input p i supply w e' in
        let same : m' ≡ m = ground arith in
        (
          p,
          i,
          supply,
          w,
          done,
          record {
            program = l.program;
            by_gateway = by_gateway;
            message = parsed;
            fresh = rw same at fresh;
            mint = l.mint;
            info_address = l.info_key;
            info = l.info;
          },
          l.world,
          rw same at rest,
          ground arith,
        )

  -- Under the laws of the runtime, an `on_call` with a transfer message that succeeds came from the
  -- gateway, with a nonce above all that were used; it counts the NFT, whose number does not
  -- overflow, writes its record, unlocked and owned by the recipient of the message, and mints one
  -- token into the recipient account that the caller named.
  pub on_call_mints :
      nrt.try_from_slice input ≡ some m
      → m.message_type ≡ transfer
      → process nrt (Instruction.on_call ctx caller amount sender input) c ≡ ok c'
      → (p : NftProgramState) × (i : NftInfo) × Called nrt ctx caller key input c p i m
        × Arrived ctx c c' m p ctx.recipient_token_account.key (arrived nrt ctx m)
  on_call_mints parsed kind h =
      let (p, i, supply, w, (p', i', w'), guards, same, rest, left) = called parsed h in
      let q : NftProgramState = record p { nonce = m.nonce } in
      let (counted, ep, ei, minted) =
        on_transfer-mints nrt laws ctx m minter supply q i w
          (sym (branch_transfer nrt ctx m minter supply q i w kind) ∙ rest) in
      (
        p,
        i,
        guards,
        rw left (record {
          counted = counted;
          program_left = ap some ep;
          infos_left = ap (λ j. update c.infos ctx.nft_info.key (some j)) ei;
          minted = record {
            given = omega (arith, minted.given, same ctx.recipient_token_account.key);
            others = λ k ne. minted.others k ne ∙ same k;
          };
        }),
      )

  -- Under the laws of the runtime, an `on_call` with an unlock message that succeeds came from the
  -- gateway, with a nonce above all that were used, and found the NFT locked; it unlocks the NFT,
  -- forgets its cross-chain recipient, and moves one token between the accounts that the caller
  -- named.
  pub on_call_unlocks :
      nrt.try_from_slice input ≡ some m
      → m.message_type ≡ unlock
      → process nrt (Instruction.on_call ctx caller amount sender input) c ≡ ok c'
      → (p : NftProgramState) × (i : NftInfo) × Called nrt ctx caller key input c p i m
        × (c.infos ctx.nft_info.key ≡ some i)
        × Returned ctx c c' m p i
  on_call_unlocks parsed kind h =
      let (p, i, supply, w, (p', i', w'), guards, same, rest, left) = called parsed h in
      let q : NftProgramState = record p { nonce = m.nonce } in
      let (was_locked, ep, ei, moved) =
        on_unlock-moves nrt laws ctx q i w
          (sym (branch_unlock nrt ctx m minter supply q i w kind) ∙ rest) in
      (
        p,
        i,
        guards,
        InfoLoaded-locked c ctx.nft_info.key i guards.info was_locked,
        rw left (record {
          was_locked = was_locked;
          program_left = ap some ep;
          infos_left = ap (λ j. update c.infos ctx.nft_info.key (some j)) ei;
          moved = record {
            taken = λ ne. omega (arith, moved.taken ne, same ctx.program_token_account.key);
            given = λ ne. omega (arith, moved.given ne, same ctx.owner_token_account.key);
            others = λ k ne ne'. moved.others k ne ne' ∙ same k;
          };
        }),
      )
