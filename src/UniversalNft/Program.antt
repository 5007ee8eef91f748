-- ===== src/UniversalNft/Program.antt =====
-- programs/universal_nft/src/lib.rs: the instructions over the whole chain, and runs of them. An
-- instruction that fails leaves the chain as it was.
pub mod Locking
pub mod Minting
pub mod Calls
pub mod Guards
pub mod Messages
pub mod Counters
pub mod Advancing
pub mod Runs
pub mod Custody
pub mod Backing
pub mod RoundTrip
pub mod Refines
pub mod Errors
use protocol_contracts_solan.Prelude.{
  ◌+◌, length, leb, ℕ, ◌≡◌, ap, Option, none, some, List, [], ◌∷◌,
}
use protocol_contracts_solan.Prelude.Words.{Bytes}
use protocol_contracts_solan.Solana.Result.{Error, Result, ok, err, ◌>>=◌, store_if}
use protocol_contracts_solan.Solana.Account.{Pubkey, World, update}
use protocol_contracts_solan.UniversalNft.State.{
  info_space, NftProgramState, NftInfo, NftError, Chain,
}
use protocol_contracts_solan.UniversalNft.Runtime.{NftRuntime}
use protocol_contracts_solan.UniversalNft.Contexts.{
  Initialize, MintNft, TransferToZetachain, HandleCrossChainCall, UnlockNft, OnCall,
}
use protocol_contracts_solan.UniversalNft.Accounts.{
  try_initialize, try_mint_nft, try_transfer_to_zetachain, try_handle_cross_chain_call,
  try_unlock_nft, try_on_call,
}
use protocol_contracts_solan.UniversalNft.Handlers
use protocol_contracts_solan.UniversalNft.OnCall

pub data Instruction : Type 0 where
  initialize : Initialize → Pubkey → Instruction
  -- name, symbol, uri, recipient
  mint_nft : MintNft → Bytes → Bytes → Bytes → Pubkey → Instruction
  -- destination chain, recipient, nonce
  transfer_to_zetachain : TransferToZetachain → ℕ → Bytes → ℕ → Instruction
  -- sender, source chain, message, nonce
  handle_cross_chain_call : HandleCrossChainCall → Bytes → ℕ → Bytes → ℕ → Instruction
  -- the program of the top-level instruction, amount, sender, data
  on_call : OnCall → Option Pubkey → ℕ → Bytes → Bytes → Instruction
  unlock_nft : UnlockNft → ℕ → Instruction

-- What the exit of an instruction writes back.
abbrev pub write_back : Chain → Pubkey → NftProgramState × NftInfo × World → Chain
write_back c key (p, i, w) = record {
  program = some p;
  infos = update c.infos key (some i);
  world = w;
}

-- The serialized info account: its fields of a fixed size, and three strings behind their lengths.
abbrev pub info_size : NftInfo → ℕ
info_size i =
    32 + 32 + (4 + length i.metadata_uri) + (4 + length i.name) + (4 + length i.symbol) + 1 + 32 + 1

abbrev pub exit_with : Chain → Pubkey → NftProgramState × NftInfo × World → Result NftError Chain
exit_with c key (p, i, w) = store_if (leb (info_size i) info_space) (write_back c key (p, i, w))

module _ (nrt : NftRuntime) where
  unfoldable pub process : Instruction → Chain → Result NftError Chain
  process (Instruction.initialize ctx gateway) c = do
    w ← try_initialize nrt ctx c
    ok (record c { program = some (Handlers.initialize nrt ctx gateway); world = w })
  process (Instruction.mint_nft ctx name symbol uri recipient) c = do
    (p, w) ← try_mint_nft nrt ctx recipient c
    done ← Handlers.mint_nft nrt ctx name symbol uri recipient p w
    exit_with c ctx.nft_info.key done
  process (Instruction.transfer_to_zetachain ctx chain recipient nonce) c = do
    (p, i, w) ← try_transfer_to_zetachain nrt ctx c
    done ← Handlers.transfer_to_zetachain nrt ctx chain recipient nonce p i w
    exit_with c ctx.nft_info.key done
  process (Instruction.handle_cross_chain_call ctx sender chain message nonce) c = do
    p ← try_handle_cross_chain_call nrt ctx c
    p' ← Handlers.handle_cross_chain_call nrt sender chain message nonce p
    ok (record c { program = some p' })
  process (Instruction.on_call ctx caller amount sender input) c = do
    (p, i, supply, w) ← try_on_call nrt ctx amount sender input c
    done ← OnCall.on_call nrt ctx caller amount sender input p i supply w
    exit_with c ctx.nft_info.key done
  process (Instruction.unlock_nft ctx nonce) c = do
    (p, i) ← try_unlock_nft nrt ctx c
    done ← Handlers.unlock_nft nrt ctx nonce p i c.world
    exit_with c ctx.nft_info.key done

  abbrev pub settle : Result NftError Chain → Chain → Chain
  settle (ok c') c = c'
  settle (err e) c = c

  unfoldable pub run : List Instruction → Chain → Chain
  run [] c = c
  run (ix ∷ ixs) c = run ixs (settle (process ix c) c)

  pub run-ok :
      (ix : Instruction) (ixs : List Instruction) (c c₁ : Chain)
      → process ix c ≡ ok c₁
      → run (ix ∷ ixs) c ≡ run ixs c₁
  unfolding run
  run-ok ix ixs c c₁ h = ap (λ o. run ixs (settle o c)) h

  pub run-err :
      (ix : Instruction) (ixs : List Instruction) (c : Chain) (x : Error NftError)
      → process ix c ≡ err x
      → run (ix ∷ ixs) c ≡ run ixs c
  unfolding run
  run-err ix ixs c x h = ap (λ o. run ixs (settle o c)) h
