-- ===== src/Solana/Runtime.antt =====
-- The code that the programs call and that is not theirs: hashing and signature recovery, address
-- derivation, lamport moves, the system, token and associated-token programs, and cross-program
-- invocation. `none` is a failed call.
use protocol_contracts_solan.Prelude.{ℕ, Option, List}
use protocol_contracts_solan.Prelude.Words.{Bytes}
use protocol_contracts_solan.Solana.Account.{Pubkey, AccountInfo, Instruction, World}

pub record Runtime : Type 0 where
  -- `keccak::hash(..).to_bytes()` and `secp256k1_recover(hash, recovery_id, signature)`
  pub keccak : Bytes → Bytes
  pub secp256k1_recover : Bytes → ℕ → Bytes → Option Bytes
  -- owner, mint
  pub get_associated_token_address : Pubkey → Pubkey → Pubkey
  -- the canonical address and bump of the seeds under a program
  pub find_program_address : List Bytes → Pubkey → Pubkey × ℕ
  -- the ids of the gateway, the system, the token and the associated-token program
  pub gateway_id : Pubkey
  pub system_program_id : Pubkey
  pub token_program_id : Pubkey
  pub associated_token_program_id : Pubkey
  -- `AccountInfo::{sub_lamports, add_lamports}`
  pub sub_lamports : Pubkey → ℕ → World → Option World
  pub add_lamports : Pubkey → ℕ → World → Option World
  -- from, to, lamports
  pub system_transfer : Pubkey → Pubkey → ℕ → World → Option World
  -- from, to, authority, amount
  pub token_transfer : Pubkey → Pubkey → Pubkey → ℕ → World → Option World
  -- from, mint, to, authority, signer seeds, amount, decimals
  pub transfer_checked :
      Pubkey → Pubkey → Pubkey → Pubkey → List Bytes → ℕ → ℕ → World → Option World
  -- payer, wallet, mint
  pub create_associated_token_account : Pubkey → Pubkey → Pubkey → World → Option World
  -- `init`: payer, new account, space; `close`: account, destination
  pub create_account : Pubkey → Pubkey → ℕ → World → Option World
  pub close_account : Pubkey → Pubkey → World → Option World
  pub invoke : Instruction → List AccountInfo → World → Option World
