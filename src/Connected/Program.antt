-- ===== src/Connected/Program.antt =====
-- programs/examples/connected/src/lib.rs: the instructions, beside the gateway that they call.
use protocol_contracts_solan.Prelude.{◌+◌, length, leb, ℕ, Option, some, eqb, if◌then◌else◌}
use protocol_contracts_solan.Prelude.Words.{Bytes}
use protocol_contracts_solan.Solana.Result.{Result, ok, err, external, store_if, ◌>>=◌, ◌>>◌}
use protocol_contracts_solan.Solana.Account.{Pubkey}
use protocol_contracts_solan.Solana.Runtime.{Runtime}
use protocol_contracts_solan.Gateway.Errors.{Errors}
use protocol_contracts_solan.Gateway.State.{RevertOptions}
use protocol_contracts_solan.Gateway.Contexts.{State, Deposit}
use protocol_contracts_solan.Gateway.Program
use protocol_contracts_solan.Connected
use protocol_contracts_solan.Connected.{ErrorCode, Pda, OnCall}
use protocol_contracts_solan.Connected.Accounts.{
  Initialize, OnRevert, TriggerDeposit, Deployment, initial_pda, try_initialize, try_on_call,
  try_on_revert, try_trigger_deposit,
}

-- The account of the program, if it has been initialized, and the gateway with the ledger.
pub record Chain : Type 0 where
  pub stored : Option Pda
  pub gateway : State

-- `?` on the result of a call of another program.
abbrev pub of_call : {A : Type 0} → Result Errors A → Result ErrorCode A
of_call (ok a) = ok a
of_call (err e) = err external

-- What a call of `deposit` does to the gateway's part of the chain, where another program than the
-- gateway is given for it.
abbrev pub OtherDeposit : Type 0
OtherDeposit = Pubkey → Deposit → ℕ → Bytes → Option RevertOptions → State → Result Errors State

pub data Instruction : Type 0 where
  initialize : Initialize → Instruction
  -- the program of the top-level instruction, amount, sender, data
  on_call : OnCall → Pubkey → ℕ → Bytes → Bytes → Instruction
  on_revert : OnRevert → ℕ → Pubkey → Bytes → Instruction
  trigger_deposit : TriggerDeposit → ℕ → Bytes → Option RevertOptions → Instruction

-- The account as it is serialized, behind its discriminator.
abbrev pub pda_size : Pda → ℕ
pda_size p = 8 + 20 + (4 + length p.last_message) + 32 + (4 + length p.last_revert_message)

module _ (rt : Runtime) (other : OtherDeposit) (d : Deployment) where
  abbrev pub deposit_accounts : TriggerDeposit → Deposit
  deposit_accounts ctx = record {
    signer = ctx.signer;
    pda = ctx.gateway_pda;
    system_program = ctx.system_program;
  }

  -- The handler calls the program that it is given, with `gateway::cpi::deposit`.
  unfoldable pub call_deposit :
      TriggerDeposit → ℕ → Bytes → Option RevertOptions → State → Result ErrorCode State
  call_deposit ctx amount receiver revert_options s =
      let accounts = deposit_accounts ctx in
      let program = ctx.gateway_program.key in
      if eqb program rt.gateway_id
      then of_call (Program.deposit rt accounts amount receiver revert_options s)
      else of_call (other program accounts amount receiver revert_options s)

  unfoldable pub process : Instruction → Chain → Result ErrorCode Chain
  process (Instruction.initialize ctx) c = do
    w ← try_initialize rt d ctx c.stored c.gateway.world
    ok (record { stored = some initial_pda; gateway = record c.gateway { world = w } })
  process (Instruction.on_call ctx caller amount sender input) c = do
    p ← try_on_call rt d ctx c.stored
    (p', w') ← Connected.on_call rt ctx caller amount sender input p c.gateway.world
    store_if (leb (pda_size p') d.pda_space)
        (record { stored = some p'; gateway = record c.gateway { world = w' } })
  process (Instruction.on_revert ctx amount sender input) c = do
    p ← try_on_revert rt d ctx c.stored
    p' ← Connected.on_revert amount sender input p
    store_if (leb (pda_size p') d.pda_space) (record c { stored = some p' })
  process (Instruction.trigger_deposit ctx amount receiver revert_options) c = do
    try_trigger_deposit rt d ctx
    s ← call_deposit ctx amount receiver revert_options c.gateway
    ok (record c { gateway = s })
