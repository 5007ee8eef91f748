-- ===== src/UniversalNft/Tests/Runs.antt =====
-- Runs of several instructions of programs/universal_nft/src/lib.rs.
use protocol_contracts_solan.Prelude.{
  ◌≡◌, ◌≢◌, ◌-◌, refl, true, some, List, [], ◌∷◌, inl, inr, eqb, Bool-cases, arith,
}
use protocol_contracts_solan.Prelude.Words.{u64_mod}
use protocol_contracts_solan.Solana.Result.{ok}
use protocol_contracts_solan.Solana.Account.{Pubkey}
use protocol_contracts_solan.UniversalNft.State.{
  NftProgramState, NftInfo, Chain, CrossChainMessage, transfer,
}
use protocol_contracts_solan.UniversalNft.Contexts.{HandleCrossChainCall}
use protocol_contracts_solan.UniversalNft.Accounts.{nft_program_pda, nft_info_pda}
use protocol_contracts_solan.UniversalNft.Program.{Instruction, process, run}
use protocol_contracts_solan.UniversalNft.Program.Counters.{nonce_taken}
use protocol_contracts_solan.UniversalNft.Program.Runs.{
  RunFrom, run-RunFrom, nonce_accepted_once, anyone_may_exhaust,
}
use protocol_contracts_solan.UniversalNft.Program.Refines.{counters, ticks, accepted, run-ticks}
use protocol_contracts_solan.UniversalNft.Program.Custody.{Custody, Proper}
use protocol_contracts_solan.UniversalNft.Program.Backing.{AllProper, run-Custody}
use protocol_contracts_solan.UniversalNft.Tests.Runtime.{nft_runtime, nft_laws}
use protocol_contracts_solan.UniversalNft.Tests.Chains.{
  program_key, program, start, first_mint, sending, sent, visitor, sender, arrival, arriving,
  arrived_chain, arriving_succeeds, leaving, returning,
}
use protocol_contracts_solan.Gateway.Tests.Accounts.{account}

-- A second NFT arrives, leaves and returns.
abbrev journey : List Instruction
journey = arriving ∷ leaving ∷ returning ∷ []

run-RunFrom_example : (p' : NftProgramState) × RunFrom nft_runtime journey start program p'
run-RunFrom_example = run-RunFrom nft_runtime nft_laws journey start program refl

run-ticks_example :
    (p' : NftProgramState) × ((run nft_runtime journey start).program ≡ some p')
    × (ticks (accepted nft_runtime journey start) (counters program) ≡ some (counters p'))
run-ticks_example = run-ticks nft_runtime nft_laws journey start program refl

arriving_takes : nonce_taken nft_runtime arriving ≡ some 8
unfolding nonce_taken
arriving_takes = refl

sending_takes : nonce_taken nft_runtime sending ≡ some 6
unfolding nonce_taken
sending_takes = refl

nonce_accepted_once_example :
    process nft_runtime sending (run nft_runtime (leaving ∷ []) arrived_chain) ≢ ok sent
nonce_accepted_once_example =
    nonce_accepted_once nft_runtime nft_laws arriving sending (leaving ∷ []) start arrived_chain
      sent program 8 6 refl arriving_succeeds arriving_takes sending_takes (omega arith)

abbrev message : CrossChainMessage
message = record {
  message_type = transfer;
  mint = 9 ∷ [];
  recipient = visitor;
  metadata_uri = 7 ∷ [];
  name = 8 ∷ [];
  symbol = [];
  nonce = 8;
}

abbrev anyone : HandleCrossChainCall
anyone = record { nft_program = account program_key }

anyone_may_exhaust_example :
    (c' : Chain) × (process nft_runtime
        (Instruction.handle_cross_chain_call anyone sender 1 arrival (u64_mod - 1))
        start
      ≡ ok c')
    × (process nft_runtime sending (run nft_runtime (leaving ∷ []) c') ≢ ok sent)
anyone_may_exhaust_example =
    anyone_may_exhaust nft_runtime nft_laws anyone sender arrival 1 message start sent program
      (leaving ∷ []) sending 6 refl refl refl refl (omega arith) sending_takes (omega arith)

journey-AllProper : AllProper nft_runtime nft_laws journey
unfolding AllProper Proper nft_program_pda
journey-AllProper = (refl, (λ e. ground arith, (refl, tt)))

none_locked : (key : Pubkey) (i : NftInfo) → start.infos key ≡ some i → i.is_locked ≢ true
none_locked key i found locked =
    elim (Bool-cases (eqb key (nft_info_pda nft_runtime first_mint).0)) [
      | inl here ↦ ground (arith, here)
      | inr gone ↦ ground (arith, gone)
    ]

-- No NFT is locked at first.
start-Custody : Custody nft_runtime start
start-Custody = record {
  address = λ key i found locked. absurd (none_locked key i found locked);
  held = λ key i found locked. absurd (none_locked key i found locked);
}

run-Custody_example : Custody nft_runtime (run nft_runtime journey start)
run-Custody_example = run-Custody nft_runtime nft_laws journey start journey-AllProper start-Custody
