-- ===== src/Connected/Accounts.antt =====
-- programs/examples/connected/src/lib.rs: the accounts of each instruction, and the constraints that
-- are checked before it runs.
use protocol_contracts_solan.Prelude.{ℕ, Option, none, some, [], ◌∷◌, replicate, eqb}
use protocol_contracts_solan.Solana.Result.{
  Result, ok, err, constraint, constraint_mut, constraint_signer, constraint_seeds,
  constraint_address, constraint_program, account_not_initialized, account_in_use, ◌>>=◌, ◌>>◌,
  constrain, external_call,
}
use protocol_contracts_solan.Solana.Account.{Pubkey, AccountInfo, World}
use protocol_contracts_solan.Solana.Runtime.{Runtime}
use protocol_contracts_solan.Gateway.Accounts.{connected_seed}
use protocol_contracts_solan.Connected.{ErrorCode, Pda, OnCall}

pub record Initialize : Type 0 where
  pub signer : AccountInfo
  pub pda : AccountInfo
  pub system_program : AccountInfo

pub record OnRevert : Type 0 where
  pub pda : AccountInfo
  pub gateway_pda : AccountInfo
  pub system_program : AccountInfo

pub record TriggerDeposit : Type 0 where
  pub signer : AccountInfo
  pub gateway_pda : AccountInfo
  pub gateway_program : AccountInfo
  pub system_program : AccountInfo

-- `init` leaves an account of zero bytes.
abbrev pub initial_pda : Pda
initial_pda = record {
  last_sender = replicate 20 0;
  last_message = [];
  last_revert_sender = replicate 32 0;
  last_revert_message = [];
}

-- The address of the program, the one of the instructions sysvar, and `size_of::<Pda>() + 32`,
-- where the layout is the compiler's.
pub record Deployment : Type 0 where
  pub program_id : Pubkey
  pub instructions_id : Pubkey
  pub pda_space : ℕ

module _ (rt : Runtime) (d : Deployment) where
  unfoldable pub own_address : Pubkey
  own_address = (rt.find_program_address (connected_seed ∷ []) d.program_id).0

  -- `#[account(mut, seeds = [b"connected"], bump)]`.
  unfoldable pub try_own : AccountInfo → Option Pda → Result ErrorCode Pda
  unfolding own_address
  try_own info stored = do
    constrain info.is_writable constraint_mut
    constrain (eqb info.key own_address) constraint_seeds
    elim stored [ none ↦ err (constraint account_not_initialized) | some p ↦ ok p ]

  abbrev try_system : AccountInfo → Result ErrorCode (Unit {0})
  try_system info = constrain (eqb info.key rt.system_program_id) constraint_program

  abbrev pub try_signer_mut : AccountInfo → Result ErrorCode (Unit {0})
  try_signer_mut info = do
    constrain info.is_signer constraint_signer
    constrain info.is_writable constraint_mut

  unfoldable pub try_initialize : Initialize → Option Pda → World → Result ErrorCode World
  unfolding own_address
  try_initialize ctx stored w = do
    try_signer_mut ctx.signer
    constrain ctx.pda.is_writable constraint_mut
    constrain (eqb ctx.pda.key own_address) constraint_seeds
    elim stored [ none ↦ ok tt | some p ↦ err (constraint account_in_use) ]
    try_system ctx.system_program
    external_call (rt.create_account ctx.signer.key ctx.pda.key d.pda_space w)

  unfoldable pub try_on_call : OnCall → Option Pda → Result ErrorCode Pda
  unfolding try_own
  try_on_call ctx stored = do
    p ← try_own ctx.pda stored
    try_system ctx.system_program
    constrain (eqb ctx.instruction_sysvar_account.key d.instructions_id) constraint_address
    ok p

  unfoldable pub try_on_revert : OnRevert → Option Pda → Result ErrorCode Pda
  unfolding try_own
  try_on_revert ctx stored = do p ← try_own ctx.pda stored; try_system ctx.system_program; ok p

  unfoldable pub try_trigger_deposit : TriggerDeposit → Result ErrorCode (Unit {0})
  try_trigger_deposit ctx = do
    try_signer_mut ctx.signer
    constrain ctx.gateway_pda.is_writable constraint_mut
    try_system ctx.system_program
