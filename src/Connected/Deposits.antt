-- ===== src/Connected/Deposits.antt =====
-- `trigger_deposit` of programs/examples/connected/src/lib.rs together with the deposit of the gateway
-- that it calls.
use protocol_contracts_solan.Prelude.{
  refl, inl, inr, ℕ, ◌+◌, ◌<◌, ◌≡◌, true, Option, some, eqb_iff, arith,
}
use protocol_contracts_solan.Prelude.Words.{Bytes, u64_mod}
use protocol_contracts_solan.Solana.Result.{ok, after, Result-cases}
use protocol_contracts_solan.Solana.Runtime.{Runtime}
use protocol_contracts_solan.Solana.Laws.{RuntimeLaws}
use protocol_contracts_solan.Solana.Moves.{LamportsMoved}
use protocol_contracts_solan.Gateway.State.{Pda, RevertOptions}
use protocol_contracts_solan.Gateway.Contexts.{State, Deposit}
use protocol_contracts_solan.Gateway.Utils.{deposit_fee}
use protocol_contracts_solan.Gateway.Utils.Payload.{revert_size}
use protocol_contracts_solan.Gateway.Accounts.{gateway_pda, try_deposit}
use protocol_contracts_solan.Gateway.Accounts.Loaded.{try_deposit-loads}
use protocol_contracts_solan.Gateway.Deposit
use protocol_contracts_solan.Gateway.Deposit.Sol.{IsAdmitted, handle_sol_deposits}
use protocol_contracts_solan.Gateway.Program
use protocol_contracts_solan.Connected.Accounts.{TriggerDeposit, Deployment, try_trigger_deposit}
use protocol_contracts_solan.Connected.Program.{
  Chain, OtherDeposit, Instruction, process, call_deposit, deposit_accounts,
}

-- What a deposit through the program has done to the chain, where the gateway's account is `p`.
pub record Deposited (rt : Runtime) (ctx : TriggerDeposit) (amount : ℕ) (receiver : Bytes)
    (revert_options : Option RevertOptions) (c c' : Chain) (p : Pda) : Type 0 where
  pub signed : ctx.signer.is_signer ≡ true
  pub loaded : c.gateway.pda ≡ some p
  pub admitted : IsAdmitted p receiver (revert_size revert_options)
  pub bounded : amount + deposit_fee < u64_mod
  pub moved :
      LamportsMoved ctx.signer.key
        (gateway_pda rt)
        (amount + deposit_fee)
        c.gateway.world
        c'.gateway.world
  pub account_left : c'.gateway.pda ≡ some p
  pub entries_left : c'.gateway.entries ≡ c.gateway.entries
  pub stored_left : c'.stored ≡ c.stored

module _ (rt : Runtime) (laws : RuntimeLaws rt) (other : OtherDeposit) (d : Deployment)
    (ctx : TriggerDeposit) (amount : ℕ) (receiver : Bytes)
    (revert_options : Option RevertOptions) where
  try_deposit-key :
      (accounts : Deposit) (s : State) {p : Pda}
      → try_deposit rt accounts s ≡ ok p
      → accounts.pda.key ≡ gateway_pda rt
  unfolding try_deposit
  try_deposit-key accounts s h = ground (arith, eqb_iff accounts.pda.key (gateway_pda rt))

  call_deposit-passes :
      (s s' : State)
      → ctx.gateway_program.key ≡ rt.gateway_id
      → call_deposit rt other d ctx amount receiver revert_options s ≡ ok s'
      → Program.deposit rt (deposit_accounts rt other d ctx) amount receiver revert_options s
        ≡ ok s'
  unfolding call_deposit
  call_deposit-passes s s' key h =
      let accounts = deposit_accounts rt other d ctx in
      elim (Result-cases (Program.deposit rt accounts amount receiver revert_options s)) [
        | inl (s₁, done) ↦ ground (arith, eqb_iff ctx.gateway_program.key rt.gateway_id, key, done)
        | inr (e, failed) ↦
            absurd (ground (arith, eqb_iff ctx.gateway_program.key rt.gateway_id, key, failed))
      ]

  -- Under the laws of the runtime, where `trigger_deposit` is given the gateway's program and
  -- succeeds, the deposit was admitted by the gateway, and the amount and the fee, whose sum fits 64
  -- bits, moved from the signer, who has signed, to the gateway's own account; the accounts of the
  -- gateway and of the program stay.
  pub trigger_deposits :
      (c c' : Chain)
      → ctx.gateway_program.key ≡ rt.gateway_id
      → process rt other d (Instruction.trigger_deposit ctx amount receiver revert_options) c
        ≡ ok c'
      → (p : Pda) × Deposited rt ctx amount receiver revert_options c c' p
  unfolding process Program.deposit try_trigger_deposit
  trigger_deposits c c' key h =
      let accounts = deposit_accounts rt other d ctx in
      after (try_trigger_deposit rt d ctx) _ h λ u e₀ h₁.
        after (call_deposit rt other d ctx amount receiver revert_options c.gateway) _ h₁ λ s e₁ h₂.
          after (try_deposit rt accounts c.gateway) _ (call_deposit-passes c.gateway s key e₁)
            λ p e₂ h₃.
              after
                (Deposit.handle_sol rt accounts amount receiver revert_options deposit_fee p
                  c.gateway.world)
                _ h₃
                λ w e₃ h₄.
                  let (admitted, bounded, moved) =
                    handle_sol_deposits rt laws accounts amount receiver revert_options deposit_fee
                      p c.gateway.world e₃ in
                  let left : c'
                      ≡ record c { gateway = record c.gateway { pda = some p; world = w } } =
                    ground arith in
                  (
                    p,
                    rw left (record {
                      signed = ground arith;
                      loaded = try_deposit-loads rt c.gateway accounts e₂;
                      admitted = admitted;
                      bounded = bounded;
                      moved = rw (try_deposit-key accounts c.gateway e₂) at moved;
                      account_left = refl;
                      entries_left = refl;
                      stored_left = refl;
                    }),
                  )
