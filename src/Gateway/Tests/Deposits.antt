-- ===== src/Gateway/Tests/Deposits.antt =====
-- Runs of programs/gateway/src/instructions/deposit.rs.
use protocol_contracts_solan.Prelude.{◌+◌, ◌<◌, ◌≡◌, refl, some, ◌++◌, eqb, arith, replicate}
use protocol_contracts_solan.Prelude.Words.{Bytes, u64_mod}
use protocol_contracts_solan.Solana.Result.{ok}
use protocol_contracts_solan.Solana.Account.{World, credit, debit}
use protocol_contracts_solan.Solana.Moves.{LamportsMoved}
use protocol_contracts_solan.Gateway.Utils.{verify_payload_size}
use protocol_contracts_solan.Gateway.Deposit.{mint_of, handle_sol, handle_spl}
use protocol_contracts_solan.Gateway.Deposit.Sol.{IsAdmitted, handle_sol_deposits}
use protocol_contracts_solan.Gateway.Deposit.Spl.{AreDistinct, SplDeposited, handle_spl_deposits}
use protocol_contracts_solan.Gateway.Tests.Runtime.{test_runtime, test_laws}
use protocol_contracts_solan.Gateway.Tests.Accounts.{
  pda, pda_key, signer_key, mint_key, sender, world, options, deposit_context, deposit_spl_context,
  left_world,
}

abbrev deposited : World
deposited = credit pda_key 2_000_100 (debit signer_key 2_000_100 world)

deposits :
    handle_sol test_runtime deposit_context 100 sender (some options) 2_000_000 pda world
    ≡ ok deposited
unfolding handle_sol verify_payload_size eqb
deposits = refl

handle_sol_deposits_example :
    IsAdmitted pda sender 3
    × (100 + 2_000_000 < u64_mod)
    × LamportsMoved signer_key pda_key (100 + 2_000_000) world deposited
handle_sol_deposits_example =
    handle_sol_deposits test_runtime test_laws deposit_context 100 sender (some options) 2_000_000
      pda world deposits

abbrev message : Bytes
message = replicate 743 1

abbrev spl_deposited : World
spl_deposited =
    left_world
      (handle_spl test_runtime deposit_spl_context 100 sender (some options) 2_000_000 pda world)

spl_deposits :
    handle_spl test_runtime deposit_spl_context 100 sender (some options) 2_000_000 pda world
    ≡ ok spl_deposited
unfolding handle_spl mint_of verify_payload_size eqb
spl_deposits = refl

deposit_spl_context-AreDistinct : AreDistinct deposit_spl_context
deposit_spl_context-AreDistinct = ground arith

handle_spl_deposits_example :
    IsAdmitted pda sender 3
    × (test_runtime.get_associated_token_address pda_key (mint_of world (signer_key ++ mint_key))
        ≡ pda_key ++ mint_key)
    × SplDeposited deposit_spl_context 100 2_000_000 world spl_deposited
handle_spl_deposits_example =
    handle_spl_deposits test_runtime test_laws deposit_spl_context 100 sender (some options)
      2_000_000 pda world deposit_spl_context-AreDistinct spl_deposits
