-- ===== src/Gateway/Utils.antt =====
-- programs/gateway/src/utils: the checks that the instructions share.
pub mod Nonce
pub mod Message
pub mod Ata
pub mod Authorized
pub mod Metas
pub mod Payload
use protocol_contracts_solan.Prelude.{
  ℕ, ◌+◌, ◌≡◌, Bool, true, false, not, Option, none, some, List, [], ◌∷◌, ◌++◌, length, drop, ltb,
  leb, eqb, ◌==◌, if◌then◌else◌,
}
use protocol_contracts_solan.Prelude.Words.{Bytes, be_bytes}
use protocol_contracts_solan.Solana.Result.{
  Result, ok, err, custom, invalid_argument, ◌>>=◌, ◌>>◌, require, add_u64,
}
use protocol_contracts_solan.Solana.Account.{Pubkey, AccountInfo, AccountMeta}
use protocol_contracts_solan.Solana.Runtime.{Runtime}
use protocol_contracts_solan.Gateway.Errors.{
  Errors, signer_is_not_authority, nonce_mismatch, tss_authentication_failed, message_hash_mismatch,
  memo_length_exceeded, spl_ata_and_mint_address_mismatch, invalid_instruction_data,
}
use protocol_contracts_solan.Gateway.State.{Pda, RevertOptions, InstructionId, id_byte}

-- The four arguments that every message of the TSS comes with.
pub record Signed : Type 0 where
  pub signature : Bytes
  pub recovery_id : ℕ
  pub message_hash : Bytes
  pub nonce : ℕ

-- utils/constants.rs
abbrev pub zetachain_prefix : Bytes
zetachain_prefix = b'Z' ∷ b'E' ∷ b'T' ∷ b'A' ∷ b'C' ∷ b'H' ∷ b'A' ∷ b'I' ∷ b'N' ∷ []

abbrev pub default_gas_cost : ℕ
default_gas_cost = 5000

abbrev pub max_deposit_payload_size : ℕ
max_deposit_payload_size = 745

abbrev pub deposit_fee : ℕ
deposit_fee = 2_000_000

unfoldable pub verify_authority : Pubkey → Pda → Result Errors (Unit {0})
verify_authority signer pda = require (eqb signer pda.authority) signer_is_not_authority

-- The account comes back with its nonce advanced.
unfoldable pub verify_and_update_nonce : Pda → ℕ → Result Errors Pda
verify_and_update_nonce pda nonce =
    if not (nonce == pda.nonce)
    then err (custom nonce_mismatch)
    else (do next ← add_u64 pda.nonce 1; ok (record pda { nonce = next }))

-- `for data in additional_data { buffer.extend_from_slice(data) }`
unfoldable pub extend_all : Bytes → List Bytes → Bytes
extend_all buffer [] = buffer
extend_all buffer (piece ∷ pieces) = extend_all (buffer ++ piece) pieces

-- `if let Some(amount_value) = amount { .. }`
unfoldable pub push_amount : Option ℕ → Bytes → Bytes
push_amount none buffer = buffer
push_amount (some amount) buffer = buffer ++ be_bytes 8 amount

unfoldable pub concatenated_buffer : InstructionId → ℕ → ℕ → Option ℕ → List Bytes → Bytes
unfolding extend_all push_amount
concatenated_buffer id chain_id nonce amount additional_data =
    let buffer₁ = zetachain_prefix ++ (id_byte id ∷ []) in
    let buffer₂ = buffer₁ ++ be_bytes 8 chain_id in
    let buffer₃ = buffer₂ ++ be_bytes 8 nonce in
    extend_all (push_amount amount buffer₃) additional_data

unfoldable pub verify_payload_size : Option Bytes → Option RevertOptions → Result Errors (Unit {0})
verify_payload_size message revert_options =
    let msg_len : ℕ = elim message [ none ↦ 0 | some m ↦ length m ] in
    let revert_len : ℕ = elim revert_options [ none ↦ 0 | some o ↦ length o.revert_message ] in
    require (leb (msg_len + revert_len) max_deposit_payload_size) memo_length_exceeded

-- The loop of `prepare_account_metas`, from the accounts that are left on.
unfoldable pub prepare_account_metas :
    List AccountInfo → Pubkey → Pubkey → Result Errors (List AccountMeta)
prepare_account_metas [] signer pda = ok []
prepare_account_metas (info ∷ infos) signer pda =
    let rest = prepare_account_metas infos signer pda in
    let readonly : AccountMeta = record {
      pubkey = info.key;
      is_signer = false;
      is_writable = false;
    } in
    let writable : AccountMeta = record {
      pubkey = info.key;
      is_signer = false;
      is_writable = true;
    } in
    let meta =
      if eqb info.key pda then readonly else (if info.is_writable then writable else readonly) in
    do require (not (eqb info.key signer)) invalid_instruction_data; metas ← rest; ok (meta ∷ metas)

module _ (rt : Runtime) where
  unfoldable pub validate_message_hash :
      InstructionId → ℕ → ℕ → Option ℕ → List Bytes → Bytes → Result Errors (Unit {0})
  validate_message_hash id chain_id nonce amount additional_data message_hash =
      let computed_hash =
        rt.keccak (concatenated_buffer id chain_id nonce amount additional_data) in
      require (eqb message_hash computed_hash) message_hash_mismatch

  -- `&h.as_slice()[12..32]` of a 32-byte hash.
  unfoldable pub eth_address : Bytes → Bytes
  eth_address pubkey = drop 12 (rt.keccak pubkey)

  unfoldable pub recover_and_verify_eth_address : Pda → Bytes → ℕ → Bytes → Result Errors (Unit {0})
  unfolding eth_address
  recover_and_verify_eth_address pda message_hash recovery_id signature = do
    pubkey ← elim (rt.secp256k1_recover message_hash recovery_id signature) [
      | none ↦ err invalid_argument
      | some pubkey ↦ ok pubkey
    ]
    if not (eqb (eth_address pubkey) pda.tss_address)
        then err (custom tss_authentication_failed)
        else ok tt

  unfoldable pub validate_message :
      Pda → InstructionId → ℕ → ℕ → List Bytes → Bytes → Bytes → ℕ → Result Errors Pda
  validate_message pda id nonce amount additional_data message_hash signature recovery_id = do
    pda' ← verify_and_update_nonce pda nonce
    validate_message_hash id pda'.chain_id nonce (some amount) additional_data message_hash
    recover_and_verify_eth_address pda' message_hash recovery_id signature
    ok pda'

  unfoldable pub verify_ata_match : Pubkey → Pubkey → Pubkey → Result Errors (Unit {0})
  verify_ata_match owner mint actual_ata =
      let expected_ata = rt.get_associated_token_address owner mint in
      require (eqb expected_ata actual_ata) spl_ata_and_mint_address_mismatch
