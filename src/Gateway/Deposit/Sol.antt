-- ===== src/Gateway/Deposit/Sol.antt =====
-- Deposits of SOL and plain calls: `handle_sol`, `handle_sol_with_call` and `handle_call` of
-- programs/gateway/src/instructions/deposit.rs.
use protocol_contracts_solan.Prelude.{
  ℕ, ◌+◌, ◌≤◌, ◌<◌, ◌≡◌, ◌≢◌, false, not, Option, none, some, length, eqb, eqb_iff, arith,
}
use protocol_contracts_solan.Prelude.Words.{Bytes, u64_mod}
use protocol_contracts_solan.Solana.Result.{ok, err, custom, require, add_u64, after}
use protocol_contracts_solan.Solana.Account.{World}
use protocol_contracts_solan.Solana.Runtime.{Runtime}
use protocol_contracts_solan.Solana.Laws.{RuntimeLaws}
use protocol_contracts_solan.Solana.Moves.{LamportsMoved, system_transfer-LamportsMoved}
use protocol_contracts_solan.Gateway.Errors.{memo_length_exceeded, deposit_paused, empty_receiver}
use protocol_contracts_solan.Gateway.State.{Pda, RevertOptions}
use protocol_contracts_solan.Gateway.Utils.{verify_payload_size}
use protocol_contracts_solan.Gateway.Utils.Payload.{
  revert_size, verify_payload_size_iff, verify_payload_size_exceeded,
}
use protocol_contracts_solan.Gateway.Contexts.{Deposit}
use protocol_contracts_solan.Gateway.Deposit.{zero_address, handle_sol, handle_sol_with_call}

-- What lets a deposit through: its payload fits, deposits are open, and the receiver is set.
pub record IsAdmitted (pda : Pda) (receiver : Bytes) (size : ℕ) : Type 0 where
  pub fits : size ≤ 745
  pub unpaused : pda.deposit_paused ≡ false
  pub receiver_set : receiver ≢ zero_address

module _ (rt : Runtime) (laws : RuntimeLaws rt) (ctx : Deposit) (amount : ℕ) (receiver : Bytes)
    (revert_options : Option RevertOptions) (fee : ℕ) (pda : Pda) (w : World) where
  -- Under the laws of the runtime, a deposit that succeeds was admitted, and moves the amount and
  -- the fee, whose sum fits 64 bits, from the signer to the gateway.
  pub handle_sol_deposits :
      {w' : World}
      → handle_sol rt ctx amount receiver revert_options fee pda w ≡ ok w'
      → IsAdmitted pda receiver (revert_size revert_options)
        × (amount + fee < u64_mod)
        × LamportsMoved ctx.signer.key ctx.pda.key (amount + fee) w w'
  unfolding handle_sol
  handle_sol_deposits h = after (verify_payload_size none revert_options) _ h λ u₁ e₁ h₁.
      after (require (not pda.deposit_paused) deposit_paused) _ h₁ λ u₂ e₂ h₂.
        after (require (not (eqb receiver zero_address)) empty_receiver) _ h₂ λ u₃ e₃ h₃.
          after (add_u64 amount fee) _ h₃ λ total e₄ h₄.
            let sum : (total ≡ amount + fee) × (amount + fee < u64_mod) = ground arith in
            (
              record {
                fits = omega (arith, (verify_payload_size_iff none revert_options).0 e₁);
                unpaused = ground arith;
                receiver_set = ground (arith, eqb_iff receiver zero_address);
              },
              sum.1,
              system_transfer-LamportsMoved rt laws ctx.signer.key ctx.pda.key (amount + fee) w
                  (ground (arith, sum.0)),
            )

  -- A deposit with a call is the deposit, for a message and revert message of 745 bytes together
  -- at most, and is refused for longer ones.
  handle_sol_with_call_lem :
      (message : Bytes)
      → let size = length message + revert_size revert_options in
        let result = handle_sol_with_call rt ctx amount receiver message revert_options fee pda w in
        (size ≤ 745 → result ≡ handle_sol rt ctx amount receiver revert_options fee pda w)
        × (745 < size → result ≡ err (custom memo_length_exceeded))
  unfolding handle_sol_with_call
  handle_sol_with_call_lem message = (
    λ le. rw ((verify_payload_size_iff (some message) revert_options).1 le),
    λ gt. rw (verify_payload_size_exceeded (some message) revert_options gt),
  )
