-- ===== src/ConnectedSpl/Program.antt =====
-- programs/examples/connectedSPL/src/lib.rs: the instructions over the account and the ledger.
use protocol_contracts_solan.Prelude.{◌+◌, length, leb, ℕ, some}
use protocol_contracts_solan.Prelude.Words.{Bytes}
use protocol_contracts_solan.Solana.Result.{store_if, Result, ok, ◌>>=◌}
use protocol_contracts_solan.Solana.Account.{Pubkey}
use protocol_contracts_solan.Solana.Runtime.{Runtime}
use protocol_contracts_solan.ConnectedSpl.{
  Pda, ErrorCode, Initialize, OnCall, OnRevert, Chain, blank_pda, try_initialize, try_on_call,
  try_on_revert,
}
use protocol_contracts_solan.ConnectedSpl.Handlers

pub data Instruction : Type 0 where
  initialize : Initialize → Instruction
  on_call : OnCall → ℕ → Bytes → Bytes → Instruction
  on_revert : OnRevert → ℕ → Pubkey → Bytes → Instruction

-- The account as it is serialized, behind its discriminator.
abbrev pub pda_size : Pda → ℕ
pda_size p = 8 + 20 + (4 + length p.last_message) + 32 + (4 + length p.last_revert_message)

module _ (rt : Runtime) (program_id : Pubkey) (pda_space : ℕ) where
  unfoldable pub process : Instruction → Chain → Result ErrorCode Chain
  process (Instruction.initialize ctx) c = do
    w ← try_initialize rt program_id pda_space ctx c
    ok (record { pda = some blank_pda; world = w })
  process (Instruction.on_call ctx amount sender input) c = do
    p ← try_on_call rt program_id pda_space ctx c
    (p', w') ← Handlers.on_call rt program_id pda_space ctx amount sender input p c.world
    store_if (leb (pda_size p') pda_space) (record { pda = some p'; world = w' })
  process (Instruction.on_revert ctx amount sender input) c = do
    p ← try_on_revert rt program_id pda_space ctx c
    p' ← Handlers.on_revert amount sender input p
    store_if (leb (pda_size p') pda_space) (record c { pda = some p' })
