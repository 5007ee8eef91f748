-- ===== src/ConnectedSpl.antt =====
-- programs/examples/connectedSPL/src/lib.rs: a program that the gateway calls with tokens.
pub mod Handlers
pub mod Program
pub mod Calls
mod Tests
use protocol_contracts_solan.Prelude.{
  ℕ, ◌/◌, Bool, true, false, not, Option, none, some, List, [], ◌∷◌, eqb, replicate,
}
use protocol_contracts_solan.Prelude.Words.{Bytes}
use protocol_contracts_solan.Solana.Result.{
  Result, ok, err, constraint, constraint_mut, constraint_signer, constraint_seeds,
  constraint_program, account_not_initialized, account_in_use, ◌>>=◌, ◌>>◌, require, constrain,
  external_call,
}
use protocol_contracts_solan.Solana.Account.{Pubkey, AccountInfo, World}
use protocol_contracts_solan.Solana.Runtime.{Runtime}
use protocol_contracts_solan.Connected.Text.{is_utf8, contains}

pub data ErrorCode : Type 0 where
  invalid_data_format revert_message : ErrorCode

-- A `String` is its bytes.
pub record Pda : Type 0 where
  pub last_sender : Bytes
  pub last_message : Bytes
  pub last_revert_sender : Pubkey
  pub last_revert_message : Bytes

pub record Initialize : Type 0 where
  pub signer : AccountInfo
  pub pda : AccountInfo
  pub system_program : AccountInfo

pub record OnCall : Type 0 where
  pub pda : AccountInfo
  pub pda_ata : AccountInfo
  pub mint_account : AccountInfo
  pub gateway_pda : AccountInfo
  pub random_wallet : AccountInfo
  pub random_wallet_ata : AccountInfo
  pub token_program : AccountInfo
  pub system_program : AccountInfo

pub record OnRevert : Type 0 where
  pub pda : AccountInfo
  pub pda_ata : AccountInfo
  pub mint_account : AccountInfo
  pub gateway_pda : AccountInfo
  pub token_program : AccountInfo
  pub system_program : AccountInfo

-- What `initialize` leaves: an account of zero bytes.
abbrev pub blank_pda : Pda
blank_pda = record {
  last_sender = replicate 20 0;
  last_message = [];
  last_revert_sender = replicate 32 0;
  last_revert_message = [];
}

pub record Chain : Type 0 where
  pub pda : Option Pda
  pub world : World

abbrev pub connected_seed : Bytes
connected_seed = b'c' ∷ b'o' ∷ b'n' ∷ b'n' ∷ b'e' ∷ b'c' ∷ b't' ∷ b'e' ∷ b'd' ∷ []

-- `program_id` is the address of the program, and `pda_space` is `size_of::<Pda>() + 32`, where the
-- layout is the compiler's.
module _ (rt : Runtime) (program_id : Pubkey) (pda_space : ℕ) where
  unfoldable pub pda_address : Pubkey × ℕ
  pda_address = rt.find_program_address (connected_seed ∷ []) program_id

  -- `#[account(mut, seeds = [b"connected"], bump)]`.
  unfoldable pub try_pda : AccountInfo → Chain → Result ErrorCode Pda
  unfolding pda_address
  try_pda info c = do
    constrain info.is_writable constraint_mut
    constrain (eqb info.key pda_address.0) constraint_seeds
    elim c.pda [ none ↦ err (constraint account_not_initialized) | some p ↦ ok p ]

  abbrev is_loaded : {A : Type 0} → Option A → Bool
  is_loaded none = false
  is_loaded (some a) = true

  -- `#[account(mut)] pda_ata`, `mint_account` and the programs.
  unfoldable pub try_token_accounts :
      AccountInfo → AccountInfo → AccountInfo → AccountInfo → World → Result ErrorCode (Unit {0})
  try_token_accounts pda_ata mint token_program system_program w = do
    constrain pda_ata.is_writable constraint_mut
    constrain (is_loaded (w.token pda_ata.key)) account_not_initialized
    constrain (is_loaded (w.mint mint.key)) account_not_initialized
    constrain (eqb token_program.key rt.token_program_id) constraint_program
    constrain (eqb system_program.key rt.system_program_id) constraint_program

  unfoldable pub try_initialize : Initialize → Chain → Result ErrorCode World
  unfolding pda_address
  try_initialize ctx c = do
    constrain ctx.signer.is_signer constraint_signer
    constrain ctx.signer.is_writable constraint_mut
    constrain ctx.pda.is_writable constraint_mut
    constrain (eqb ctx.pda.key pda_address.0) constraint_seeds
    elim c.pda [ none ↦ ok tt | some p ↦ err (constraint account_in_use) ]
    constrain (eqb ctx.system_program.key rt.system_program_id) constraint_program
    external_call (rt.create_account ctx.signer.key ctx.pda.key pda_space c.world)

  unfoldable pub try_on_call : OnCall → Chain → Result ErrorCode Pda
  unfolding try_pda try_token_accounts
  try_on_call ctx c = do
    p ← try_pda ctx.pda c
    try_token_accounts ctx.pda_ata ctx.mint_account ctx.token_program ctx.system_program c.world
    constrain ctx.random_wallet_ata.is_writable constraint_mut
    ok p

  unfoldable pub try_on_revert : OnRevert → Chain → Result ErrorCode Pda
  unfolding try_pda try_token_accounts
  try_on_revert ctx c = do
    p ← try_pda ctx.pda c
    try_token_accounts ctx.pda_ata ctx.mint_account ctx.token_program ctx.system_program c.world
    ok p
