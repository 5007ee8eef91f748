-- ===== src/Gateway/Withdraw/Sol.antt =====
-- Withdrawals of SOL: `handle_sol` of programs/gateway/src/instructions/withdraw.rs.
use protocol_contracts_solan.Prelude.{ℕ, ◌+◌, ◌≤◌, ◌<◌, ◌≡◌, ◌∙◌, some, [], ◌∷◌, arith}
use protocol_contracts_solan.Prelude.Words.{u64_mod}
use protocol_contracts_solan.Solana.Result.{ok, after, after_call, ok_pair-injective}
use protocol_contracts_solan.Solana.Account.{World, debit, credit}
use protocol_contracts_solan.Solana.Runtime.{Runtime}
use protocol_contracts_solan.Solana.Laws.{RuntimeLaws}
use protocol_contracts_solan.Solana.Moves.{
  LamportsMoved, lamports-debit-le, sub_add-LamportsMoved, sub_lamports_accepts,
  add_lamports_accepts,
}
use protocol_contracts_solan.Gateway.State.{Pda, withdraw}
use protocol_contracts_solan.Gateway.Utils.{Signed}
use protocol_contracts_solan.Gateway.Utils.Nonce.{advanced}
use protocol_contracts_solan.Gateway.Utils.Authorized.{
  Authorized, validate_message-Authorized, Authorized-validate_message,
}
use protocol_contracts_solan.Gateway.Contexts.{Withdraw}
use protocol_contracts_solan.Gateway.Withdraw.{handle_sol}

module _ (rt : Runtime) (laws : RuntimeLaws rt) (ctx : Withdraw) (amount : ℕ) (m : Signed)
    (pda : Pda) (w : World) where
  -- Under the laws of the runtime, a withdrawal of SOL that succeeds was authorized by the TSS for
  -- this amount and recipient, advances the nonce, and moves exactly the amount from the gateway to
  -- the recipient.
  pub handle_sol_moves :
      {pda' : Pda} {w' : World}
      → handle_sol rt ctx amount m pda w ≡ ok (pda', w')
      → Authorized rt pda withdraw (some amount) (ctx.recipient.key ∷ []) m
        × (pda' ≡ advanced pda)
        × LamportsMoved ctx.pda.key ctx.recipient.key amount w w'
  unfolding handle_sol
  handle_sol_moves h =
      let pieces = ctx.recipient.key ∷ [] in
      after _ _ h λ p e h₁. after_call _ _ h₁ λ w₁ e₁ h₂. after_call _ _ h₂ λ w₂ e₂ h₃.
        let (a, adv) = validate_message-Authorized rt pda withdraw amount pieces m e in
        let (same_pda, same_world) = ok_pair-injective h₃ in
        (
          a,
          same_pda ∙ adv,
          rw same_world
              (sub_add-LamportsMoved rt laws ctx.pda.key ctx.recipient.key amount w e₁ e₂),
        )

  -- Under the laws of the runtime, an authorized withdrawal that the gateway can cover, to a
  -- recipient whose balance does not overflow, succeeds.
  pub handle_sol_accepts :
      Authorized rt pda withdraw (some amount) (ctx.recipient.key ∷ []) m
      → amount ≤ w.lamports ctx.pda.key
      → w.lamports ctx.recipient.key + amount < u64_mod
      → (w' : World) × (handle_sol rt ctx amount m pda w ≡ ok (advanced pda, w'))
  unfolding handle_sol
  handle_sol_accepts a covered fits = (
    credit ctx.recipient.key amount (debit ctx.pda.key amount w),
    rw (
      Authorized-validate_message rt pda withdraw amount (ctx.recipient.key ∷ []) m a,
      sub_lamports_accepts rt laws ctx.pda.key amount w covered,
      add_lamports_accepts rt laws ctx.recipient.key amount (debit ctx.pda.key amount w)
          (omega (arith, lamports-debit-le ctx.recipient.key ctx.pda.key amount w)),
    ),
  )
