-- ===== src/Gateway/State.antt =====
-- programs/gateway/src/state.rs: the account of the gateway and the call that it packs for a
-- destination program.
pub mod Packing
use protocol_contracts_solan.Prelude.{ℕ, ◌%◌, Bool, [], ◌∷◌, ◌++◌, length}
use protocol_contracts_solan.Prelude.Words.{Bytes, le_bytes, u32_mod}
use protocol_contracts_solan.Solana.Account.{Pubkey}

-- A `u64` field is a number below 2 ^ 64.
pub record Pda : Type 0 where
  pub nonce : ℕ
  pub tss_address : Bytes
  pub authority : Pubkey
  pub chain_id : ℕ
  pub deposit_paused : Bool

pub data CallableInstruction : Type 0 where
  -- amount, sender (20 bytes), data
  on_call : ℕ → Bytes → Bytes → CallableInstruction
  -- amount, sender (a public key), data
  on_revert : ℕ → Pubkey → Bytes → CallableInstruction

abbrev pub on_call_discriminator : Bytes
on_call_discriminator = 16 ∷ 136 ∷ 66 ∷ 32 ∷ 254 ∷ 40 ∷ 181 ∷ 8 ∷ []

abbrev pub on_revert_discriminator : Bytes
on_revert_discriminator = 226 ∷ 44 ∷ 101 ∷ 52 ∷ 224 ∷ 214 ∷ 41 ∷ 9 ∷ []

-- The five `extend_from_slice` calls of either branch; `as u32` keeps the low 32 bits.
pub pack_fields : Bytes → ℕ → Bytes → Bytes → Bytes
pack_fields discriminator amount sender input =
    let data_len = length input % u32_mod in
    (((discriminator ++ le_bytes 8 amount) ++ sender) ++ le_bytes 4 data_len) ++ input

unfoldable pub pack : CallableInstruction → Bytes
pack (on_call amount sender input) = pack_fields on_call_discriminator amount sender input
pack (on_revert amount sender input) = pack_fields on_revert_discriminator amount sender input

pub record RevertOptions : Type 0 where
  pub revert_address : Pubkey
  pub abort_address : Bytes
  pub call_on_revert : Bool
  pub revert_message : Bytes
  pub on_revert_gas_limit : ℕ

pub data InstructionId : Type 0 where
  withdraw withdraw_spl_token whitelist_spl_token unwhitelist_spl_token : InstructionId
  execute_sol execute_spl_token increment_nonce : InstructionId
  execute_sol_revert execute_spl_token_revert : InstructionId

-- `instruction_id as u8`.
abbrev pub id_byte : InstructionId → ℕ
id_byte withdraw = 1
id_byte withdraw_spl_token = 2
id_byte whitelist_spl_token = 3
id_byte unwhitelist_spl_token = 4
id_byte execute_sol = 5
id_byte execute_spl_token = 6
id_byte increment_nonce = 7
id_byte execute_sol_revert = 8
id_byte execute_spl_token_revert = 9
