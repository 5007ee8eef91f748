-- ===== src/Gateway/Requests/Payments.antt =====
-- The instructions that pay out, over the whole state: programs/gateway/src/lib.rs with its
-- contexts and handlers.
use protocol_contracts_solan.Prelude.{
  ℕ, ◌+◌, ◌≤◌, ◌<◌, ◌≡◌, ◌∙◌, true, some, List, [], ◌∷◌, eqb_iff, arith,
}
use protocol_contracts_solan.Prelude.Words.{Bytes, u64_mod}
use protocol_contracts_solan.Solana.Result.{ok, after}
use protocol_contracts_solan.Solana.Account.{AccountInfo, World}
use protocol_contracts_solan.Solana.Runtime.{Runtime}
use protocol_contracts_solan.Solana.Laws.{RuntimeLaws}
use protocol_contracts_solan.Solana.Moves.{LamportsMoved}
use protocol_contracts_solan.Gateway.State.{Pda, withdraw, execute_sol, on_call, pack}
use protocol_contracts_solan.Gateway.Utils.{Signed}
use protocol_contracts_solan.Gateway.Utils.Nonce.{advanced}
use protocol_contracts_solan.Gateway.Utils.Authorized.{Authorized}
use protocol_contracts_solan.Gateway.Contexts.{State, Withdraw, Execute}
use protocol_contracts_solan.Gateway.Accounts.{
  gateway_pda, connected_pda, try_withdraw, try_execute,
}
use protocol_contracts_solan.Gateway.Accounts.Loaded.{try_withdraw-loads, try_execute-loads}
use protocol_contracts_solan.Gateway.Withdraw
use protocol_contracts_solan.Gateway.Withdraw.Sol.{handle_sol_moves, handle_sol_accepts}
use protocol_contracts_solan.Gateway.Execute
use protocol_contracts_solan.Gateway.Execute.Sol.{SolExecuted, handle_sol_calls}
use protocol_contracts_solan.Gateway.Program
use protocol_contracts_solan.Gateway.Requests.{Request, process}

module _ (rt : Runtime) (s : State) where
  try_withdraw-key :
      (ctx : Withdraw) {p : Pda} → try_withdraw rt ctx s ≡ ok p → ctx.pda.key ≡ gateway_pda rt
  unfolding try_withdraw
  try_withdraw-key ctx h = ground (arith, eqb_iff ctx.pda.key (gateway_pda rt))

  try_withdraw_accepts :
      (ctx : Withdraw) (p : Pda)
      → s.pda ≡ some p
      → ctx.signer.is_signer ≡ true
      → ctx.signer.is_writable ≡ true
      → ctx.pda.is_writable ≡ true
      → ctx.pda.key ≡ gateway_pda rt
      → ctx.recipient.is_writable ≡ true
      → try_withdraw rt ctx s ≡ ok p
  unfolding try_withdraw
  try_withdraw_accepts ctx p loaded signs pays keeps key takes =
      ground (arith, eqb_iff ctx.pda.key (gateway_pda rt))

  try_execute-keys :
      (ctx : Execute) {p : Pda}
      → try_execute rt ctx s ≡ ok p
      → (ctx.pda.key ≡ gateway_pda rt)
        × (ctx.destination_program_pda.key ≡ connected_pda rt ctx.destination_program.key)
  unfolding try_execute
  try_execute-keys ctx h = ground (
    arith,
    eqb_iff ctx.pda.key (gateway_pda rt),
    eqb_iff ctx.destination_program_pda.key (connected_pda rt ctx.destination_program.key),
  )

module _ (rt : Runtime) (laws : RuntimeLaws rt) (s s' : State) (p : Pda)
    (loaded : s.pda ≡ some p) where
  -- Where the gateway has been initialized and under the laws of the runtime, a withdrawal of SOL
  -- that succeeds was authorized for this amount and recipient by the TSS of the stored account,
  -- moves exactly the amount from the gateway's own address to the recipient, stores the account
  -- with the next nonce, and leaves the whitelist alone.
  pub withdraw_pays :
      (ctx : Withdraw) (amount : ℕ) (m : Signed)
      → process rt (Request.withdraw ctx amount m) s ≡ ok s'
      → Authorized rt p withdraw (some amount) (ctx.recipient.key ∷ []) m
        × (s'.pda ≡ some (advanced p))
        × (s'.entries ≡ s.entries)
        × LamportsMoved (gateway_pda rt) ctx.recipient.key amount s.world s'.world
  unfolding process Program.withdraw
  withdraw_pays ctx amount m h = after (try_withdraw rt ctx s) _ h λ p₀ e h₁.
      after (Withdraw.handle_sol rt ctx amount m p₀ s.world) _ h₁ λ (p', w') e' h₂.
        let (a, adv, moved) = handle_sol_moves rt laws ctx amount m p₀ s.world e' in
        let same : p₀ ≡ p = ground (arith, try_withdraw-loads rt s ctx e) in
        let stored : s'.pda ≡ some p' = ground arith in
        let world : s'.world ≡ w' = ground arith in
        (
          rw same at a,
          stored ∙ rw (adv, same),
          ground arith,
          rw world (rw (try_withdraw-key rt s ctx e) at moved),
        )

  -- Where the gateway has been initialized and under the laws of the runtime, a successful
  -- `execute` was authorized by the TSS of the stored account, pays from the gateway's own address
  -- the account that the destination program derives from `connected`, and makes the call.
  pub execute_pays :
      (ctx : Execute) (remaining : List AccountInfo) (amount : ℕ) (sender input : Bytes)
      (m : Signed)
      → process rt (Request.execute ctx remaining amount sender input m) s ≡ ok s'
      → Authorized rt p execute_sol
          (some amount)
          (ctx.destination_program.key ∷ sender ∷ input ∷ [])
          m
        × (s'.pda ≡ some (advanced p))
        × (ctx.pda.key ≡ gateway_pda rt)
        × (ctx.destination_program_pda.key ≡ connected_pda rt ctx.destination_program.key)
        × SolExecuted rt ctx remaining (pack (on_call amount sender input)) amount s.world s'.world
  unfolding process Program.execute
  execute_pays ctx remaining amount sender input m h = after (try_execute rt ctx s) _ h λ p₀ e h₁.
      after (Execute.handle_sol rt ctx remaining amount sender input m p₀ s.world) _ h₁
        λ (p', w') e' h₂.
          let (a, adv, executed) =
            handle_sol_calls rt laws ctx remaining amount input m sender p₀ s.world e' in
          let same : p₀ ≡ p = ground (arith, try_execute-loads rt s ctx e) in
          let stored : s'.pda ≡ some p' = ground arith in
          let world : s'.world ≡ w' = ground arith in
          let (key, destination) = try_execute-keys rt s ctx e in
          (rw same at a, stored ∙ rw (adv, same), key, destination, rw world executed)

module _ (rt : Runtime) (laws : RuntimeLaws rt) (s : State) (p : Pda)
    (loaded : s.pda ≡ some p) where
  -- Where the gateway has been initialized and under the laws of the runtime, the instruction that
  -- withdraws SOL returns success on a message that the TSS of the stored account has authorized,
  -- where the accounts are marked as its context wants them, the gateway's is the derived one, its
  -- balance covers the amount and the recipient's does not overflow; it then stores the next nonce,
  -- and the amount has moved to the recipient. What the runtime checks once an instruction has
  -- returned, rent among it, is apart.
  pub withdraw_accepts :
      (ctx : Withdraw) (amount : ℕ) (m : Signed)
      → ctx.signer.is_signer ≡ true
      → ctx.signer.is_writable ≡ true
      → ctx.pda.is_writable ≡ true
      → ctx.pda.key ≡ gateway_pda rt
      → ctx.recipient.is_writable ≡ true
      → Authorized rt p withdraw (some amount) (ctx.recipient.key ∷ []) m
      → amount ≤ s.world.lamports (gateway_pda rt)
      → s.world.lamports ctx.recipient.key + amount < u64_mod
      → (w' : World) × (process rt (Request.withdraw ctx amount m) s
          ≡ ok (record s { pda = some (advanced p); world = w' }))
        × LamportsMoved (gateway_pda rt) ctx.recipient.key amount s.world w'
  unfolding process Program.withdraw
  withdraw_accepts ctx amount m signs pays keeps key takes authorized covered fits =
      let (w', accepted) =
        handle_sol_accepts rt laws ctx amount m p s.world authorized (rw key covered) fits in
      let (_, _, moved) = handle_sol_moves rt laws ctx amount m p s.world accepted in
      (
        w',
        rw (try_withdraw_accepts rt s ctx p loaded signs pays keeps key takes, accepted),
        rw key at moved,
      )
