-- ===== src/UniversalNft/Program/Advancing.antt =====
-- Every instruction of programs/universal_nft/src/lib.rs moves its two counters on.
use protocol_contracts_solan.Prelude.{ℕ, ◌+◌, ◌<◌, ◌≡◌, refl, Option, some, inl, inr, arith}
use protocol_contracts_solan.Prelude.Words.{Bytes}
use protocol_contracts_solan.Solana.Result.{ok}
use protocol_contracts_solan.Solana.Account.{Pubkey}
use protocol_contracts_solan.UniversalNft.State.{
  NftProgramState, Chain, CrossChainMessage, MessageType-cases,
}
use protocol_contracts_solan.UniversalNft.Runtime.{NftRuntime, NftLaws}
use protocol_contracts_solan.UniversalNft.Contexts.{OnCall}
use protocol_contracts_solan.UniversalNft.Program.Guards.{on_call_parses}
use protocol_contracts_solan.UniversalNft.Program.{Instruction, process}
use protocol_contracts_solan.UniversalNft.Program.Locking.{transfer_locks, unlock_returns}
use protocol_contracts_solan.UniversalNft.Program.Minting.{mint_nft_mints}
use protocol_contracts_solan.UniversalNft.Program.Messages.{on_call_mints, on_call_unlocks}
use protocol_contracts_solan.UniversalNft.Program.Counters.{
  nonce_taken, mints, Advances, initialize_once, handle_takes,
}

module _ (nrt : NftRuntime) (laws : NftLaws nrt) (c c' : Chain) (p : NftProgramState)
    (loaded : c.program ≡ some p) where
  abbrev After : Instruction → Type 0
  After ix = (p' : NftProgramState) × (c'.program ≡ some p') × Advances nrt ix p p'

  -- An instruction that takes a nonce and mints nothing.
  took :
      {ix : Instruction} (q : NftProgramState) (nonce : ℕ)
      → nonce_taken nrt ix ≡ some nonce
      → mints nrt ix ≡ 0
      → c.program ≡ some q
      → q.nonce < nonce
      → c'.program ≡ some (record q { nonce = nonce })
      → After ix
  took {ix} q nonce takes free found fresh left =
      let same : p ≡ q = ground (arith, loaded, found) in
      (
        record q { nonce = nonce },
        left,
        record {
          kept = λ e. absurd (cc);
          taken = λ n e. ground (arith, takes, same);
          supply = ground (arith, free, same);
          bounded = λ ne. absurd (ne free);
          authority = ground (arith, same);
          gateway = ground (arith, same);
        },
      )

  on_call_advances :
      (ctx : OnCall) (caller : Option Pubkey) (amount : ℕ) (sender input : Bytes)
      (m : CrossChainMessage)
      → nrt.try_from_slice input ≡ some m
      → process nrt (Instruction.on_call ctx caller amount sender input) c ≡ ok c'
      → After (Instruction.on_call ctx caller amount sender input)
  unfolding nonce_taken mints
  on_call_advances ctx caller amount sender input m parsed h =
      elim (MessageType-cases m.message_type) [
        | inl kind ↦
            let (q, i, guards, done) =
              on_call_mints nrt laws ctx caller amount sender input m c c' parsed kind h in
            let same : p ≡ q = ground (arith, loaded, guards.program) in
            (
              record q { nonce = m.nonce; total_supply = q.total_supply + 1 },
              done.program_left,
              record {
                kept = λ e. ground (arith, parsed);
                taken = λ n e. ground (arith, parsed, same, guards.fresh);
                supply = ground (arith, parsed, kind, same);
                bounded = λ ne. done.counted;
                authority = ground (arith, same);
                gateway = ground (arith, same);
              },
            )
        | inr kind ↦
            let (q, i, guards, found, done) =
              on_call_unlocks nrt laws ctx caller amount sender input m c c' parsed kind h in
            let same : p ≡ q = ground (arith, loaded, guards.program) in
            (
              record q { nonce = m.nonce },
              done.program_left,
              record {
                kept = λ e. ground (arith, parsed);
                taken = λ n e. ground (arith, parsed, same, guards.fresh);
                supply = ground (arith, parsed, kind, same);
                bounded = λ ne. ground (arith, parsed, kind);
                authority = ground (arith, same);
                gateway = ground (arith, same);
              },
            )
      ]

  -- Under the laws of the runtime, an instruction that succeeds once the program is initialized
  -- moves its state on: a nonce that it takes is above the last one and becomes it, the supply grows
  -- by the tokens it mints, within a `u64`, and the authority and the gateway stay.
  pub process-Advances : (ix : Instruction) → process nrt ix c ≡ ok c' → After ix
  unfolding nonce_taken mints
  process-Advances (Instruction.initialize ctx gateway) h =
      absurd (initialize_once nrt ctx gateway c c' p loaded h)
  process-Advances (Instruction.mint_nft ctx name symbol uri recipient) h =
      let (q, fits, done) = mint_nft_mints nrt laws ctx name symbol uri recipient c c' h in
      let same : p ≡ q = ground (arith, loaded, done.program) in
      (
        record q { total_supply = q.total_supply + 1 },
        done.program_left,
        record {
          kept = λ e. ground (arith, same);
          taken = λ n e. ground arith;
          supply = ground (arith, same);
          bounded = λ ne. done.counted;
          authority = ground (arith, same);
          gateway = ground (arith, same);
        },
      )
  process-Advances (Instruction.transfer_to_zetachain ctx chain recipient nonce) h =
      let (q, i, signed, free, done) = transfer_locks nrt laws ctx chain recipient nonce c c' h in
      took q nonce refl refl done.program done.fresh done.program_left
  process-Advances (Instruction.handle_cross_chain_call ctx sender chain message nonce) h =
      let (fresh, left) = handle_takes nrt ctx sender chain message nonce c c' p loaded h in
      took p nonce refl refl loaded fresh left
  process-Advances (Instruction.on_call ctx caller amount sender input) h =
      let (m, parsed) = on_call_parses nrt ctx caller amount sender input c c' h in
      on_call_advances ctx caller amount sender input m parsed h
  process-Advances (Instruction.unlock_nft ctx nonce) h =
      let (q, i, signed, locked, done) = unlock_returns nrt laws ctx nonce c c' h in
      took q nonce refl refl done.program done.fresh done.program_left
