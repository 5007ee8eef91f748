-- ===== src/Connected.antt =====
-- programs/examples/connected/src/lib.rs: a program that the gateway calls.
pub mod Text
pub mod Calls
pub mod Accounts
pub mod Program
pub mod Deposits
pub mod Answers
pub mod Reverts
mod Tests
use protocol_contracts_solan.Prelude.{ℕ, ◌/◌, Bool, true, false, not, [], ◌∷◌, eqb}
use protocol_contracts_solan.Prelude.Words.{Bytes}
use protocol_contracts_solan.Solana.Result.{Result, ok, err, ◌>>=◌, ◌>>◌, require, external_call}
use protocol_contracts_solan.Solana.Account.{Pubkey, AccountInfo, World}
use protocol_contracts_solan.Solana.Runtime.{Runtime}
use protocol_contracts_solan.Connected.Text.{is_utf8, contains}

pub data ErrorCode : Type 0 where
  invalid_data_format revert_message invalid_caller : ErrorCode

-- A `String` is its bytes.
pub record Pda : Type 0 where
  pub last_sender : Bytes
  pub last_message : Bytes
  pub last_revert_sender : Pubkey
  pub last_revert_message : Bytes

pub record OnCall : Type 0 where
  pub pda : AccountInfo
  pub gateway_pda : AccountInfo
  pub random_wallet : AccountInfo
  pub system_program : AccountInfo
  pub instruction_sysvar_account : AccountInfo

abbrev pub revert_word : Bytes
revert_word = b'r' ∷ b'e' ∷ b'v' ∷ b'e' ∷ b'r' ∷ b't' ∷ []

-- `caller` is the program of the current top-level instruction, which `get_instruction_relative`
-- reads from the sysvar account.
module _ (rt : Runtime) where
  unfoldable pub on_call :
      OnCall → Pubkey → ℕ → Bytes → Bytes → Pda → World → Result ErrorCode (Pda × World)
  on_call ctx caller amount sender input pda w = do
    require (eqb caller rt.gateway_id) invalid_caller
    require (is_utf8 input) invalid_data_format
    w₁ ← external_call (rt.sub_lamports ctx.pda.key (amount / 2) w)
    w₂ ← external_call (rt.add_lamports ctx.random_wallet.key (amount / 2) w₁)
    require (not (contains revert_word input)) revert_message
    ok (record pda { last_sender = sender; last_message = input }, w₂)

unfoldable pub on_revert : ℕ → Pubkey → Bytes → Pda → Result ErrorCode Pda
on_revert amount sender input pda = do
  require (is_utf8 input) invalid_data_format
  require (not (contains revert_word input)) revert_message
  ok (record pda { last_revert_sender = sender; last_revert_message = input })
