-- ===== src/Gateway/Errors.antt =====
-- programs/gateway/src/errors.rs.
pub data Errors : Type 0 where
  signer_is_not_authority : Errors
  nonce_mismatch : Errors
  tss_authentication_failed : Errors
  deposit_to_address_mismatch : Errors
  message_hash_mismatch : Errors
  memo_length_exceeded : Errors
  deposit_paused : Errors
  spl_ata_and_mint_address_mismatch : Errors
  empty_receiver : Errors
  invalid_instruction_data : Errors
